-- ===== src/System/FirstSteps.antt =====
-- From the sign-in to the first protected request: `login` of src/modules/auth/auth.service.ts,
-- the guard of src/modules/auth/guards/auth.guard.ts, and `me`.
use Prim.Native.String.{◌++◌ as str_append}
use nestjs_auth_backend.Base.{
  ℕ, ◌+◌, ◌==◌, ◌&&◌, ◌≡◌, refl, ap, ◌∙◌, not, is_some, true, false, none, some, String, [], arith,
  find, select, ==_refl, Bool, find-stricter, find-holds,
}
use nestjs_auth_backend.Entities.{User, Role, active, UserSecurity, UserAccountCredentials}
use nestjs_auth_backend.World.{World, Db, ok, Env}
use nestjs_auth_backend.OAuth.{find_all_oauth_with_user}
use nestjs_auth_backend.Sessions.{session_of_device}
use nestjs_auth_backend.Security.{security_of}
use nestjs_auth_backend.Credentials.{credentials_of}
use nestjs_auth_backend.Users.Lookup.{
  user_by_id, user_by_email, role_by_id, live_user, is_active_status, find_one, get_user_secret,
}
use nestjs_auth_backend.Users.Profile.{me}
use nestjs_auth_backend.Permissions.{is_empty}
use nestjs_auth_backend.Guards.{
  Http, present, permission_guard, auth, auth_guard, re_auth_guard, extract_token,
}
use nestjs_auth_backend.Auth.SignIn.{Request, login, payload_of, access_seconds}
use nestjs_auth_backend.Auth.SignIn.Success.{login_succeeds}
use nestjs_auth_backend.Auth.Refresh.Renewal.{later_than}
use nestjs_auth_backend.Requests.{Incoming}
use nestjs_auth_backend.Routes.{plain, user_reply, show_me, handle_protected}

module _ (env : Env) (h : Http) (w : World) (u : User) (role : Role) (n : ℕ) (token : String)
    (calm : w.faults ≡ []) (sent : present (extract_token h) ≡ some token)
    (positive : (u.id == 0) ≡ false) (secret : is_empty u.user_secret ≡ false)
    (decoded : env.jwt_decode token ≡ some (payload_of u role n))
    (live : live_user (λ x. x.id == u.id && is_active_status x.status) w.db ≡ some u)
    (signed : env.jwt_verify token (str_append env.jwt_secret u.user_secret) w.now
      ≡ some (payload_of u role n)) where
  auth_guard-passes : auth_guard env h w ≡ (ok (payload_of u role n), w)
  unfolding auth_guard get_user_secret
  auth_guard-passes = ground arith

  auth-passes : auth env plain h w ≡ (ok (payload_of u role n), w)
  unfolding auth re_auth_guard permission_guard
  auth-passes = ground (arith, auth_guard-passes)

me-answers :
    (w : World) (u : User) (role : Role)
    → w.faults ≡ []
    → user_by_id u.id w.db ≡ some u
    → role_by_id u.role w.db ≡ some role
    → (me u.id w).0
      ≡ ok (record { row = u; role = some role }, select (λ o. o.user == u.id) w.db.oauths)
unfolding me find_one find_all_oauth_with_user
me-answers w u role calm known stored = ground arith

-- The access token of a sign-in that opens a session.
abbrev pub access_jwt : Env → User → Role → World → String
access_jwt env u role w =
    env.jwt_sign (payload_of u role (w.serial + 1)) (str_append env.jwt_secret u.user_secret) w.now
      access_seconds

-- An active user is found by the stricter lookup too.
active_user :
    (u : User) (d : Db)
    → u.status ≡ active
    → user_by_id u.id d ≡ some u
    → live_user (λ x. x.id == u.id && is_active_status x.status) d ≡ some u
active_user u d standing known =
    find-stricter (λ x. x.id == u.id && not (is_some x.deleted_at)) _ d.users u
      (λ x. weaken (x.id == u.id) (is_active_status x.status) (not (is_some x.deleted_at)))
      (let kept = find-holds (λ x. x.id == u.id && not (is_some x.deleted_at)) d.users u known in
        rw standing (rw (==_refl u.id) (rw (==_refl u.id) at kept)))
      known
  where
    weaken : (a b c : Bool) → ((a && b) && c) ≡ true → (a && c) ≡ true
    weaken true true c h = h
    weaken true false c h = absurd (cc)
    weaken false b c h = absurd (cc)

-- Whoever has signed in gets in. Where `login_succeeds` applies, the user's id is not 0 and the
-- user's secret not empty: a valid request for `me` with the access token of the sign-in, served
-- later with no failing external call, while the token verifies under the user's secret and
-- decodes to what was signed, is answered with this user, the user's role and the linked accounts.
pub show_me-login :
    (env : Env) (req : Request) (address password device_id : String) (w : World) (u : User)
    (role : Role) (c : UserAccountCredentials) (s : UserSecurity) (later : ℕ) (r : Incoming)
    → w.faults ≡ []
    → user_by_email address w.db ≡ some u
    → user_by_id u.id w.db ≡ some u
    → role_by_id u.role w.db ≡ some role
    → credentials_of u.id w.db ≡ some c
    → env.bcrypt_compare password c.password ≡ true
    → u.status ≡ active
    → security_of u.id w.db ≡ some s
    → s.two_factor_enabled ≡ false
    → session_of_device device_id u.id w.db ≡ none
    → (u.id == 0) ≡ false
    → is_empty u.user_secret ≡ false
    → r.is_valid ≡ true
    → present (extract_token (record r.http { param_id = none })) ≡ some (access_jwt env u role w)
    → env.jwt_decode (access_jwt env u role w) ≡ some (payload_of u role (w.serial + 1))
    → env.jwt_verify (access_jwt env u role w) (str_append env.jwt_secret u.user_secret) later
      ≡ some (payload_of u role (w.serial + 1))
    → (handle_protected env r show_me
        (later_than later (login env req address password device_id w).1)).0
      ≡ ok (
          user_reply
            (record { row = u; role = some role })
            (select (λ o. o.user == u.id) (login env req address password device_id w).1.db.oauths))
unfolding handle_protected
show_me-login env req address password device_id w u role c s later r calm found known stored
      account right standing settings off fresh positive secret valid sent decoded signed =
    let in_ =
      login_succeeds env req address password device_id w u role c s calm found known stored account
        right standing settings off fresh in
    let after = later_than later (login env req address password device_id w).1 in
    let known' : user_by_id u.id after.db ≡ some u =
      ap (find (λ x. x.id == u.id && not (is_some x.deleted_at))) in_.4 ∙ known in
    let stored' : role_by_id u.role after.db ≡ some role =
      ap (find (λ x. x.id == u.role)) in_.5 ∙ stored in
    let passed =
      auth-passes env (record r.http { param_id = none }) after u role (w.serial + 1) _ refl sent
        positive secret decoded (active_user u after.db standing known') signed in
    ground (arith, passed, me-answers after u role refl known' stored')
