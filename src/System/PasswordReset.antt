-- ===== src/System/PasswordReset.antt =====
-- A new password signs the user out: `resetPasswordToken` and `resetPasswordLogged` of
-- src/modules/auth/auth.service.ts, over whole runs.
use nestjs_auth_backend.Base.{
  ℕ, ◌≡◌, ◌≢◌, refl, ap, subst, sym, ◌∙◌, Bool, true, Option, none, some, String, List, arith,
  find-All,
}
use nestjs_auth_backend.Errors.{Error, crash}
use nestjs_auth_backend.Entities.{password_changed, User, AuthRefreshToken, AuditLog}
use nestjs_auth_backend.World.{World, Result, ok, Action, ◌>>=◌, ◌>>◌, Env, send_mail, or_throw}
use nestjs_auth_backend.World.Outcomes.{bind-ok}
use nestjs_auth_backend.World.Invariants.{Keeps, keeps_rules}
use nestjs_auth_backend.AuditLog.{create_audit}
use nestjs_auth_backend.RefreshTokens.{token_of_user, owned_by}
use nestjs_auth_backend.System.Present.{
  Present, Present-is_live_user, reset_for-Present, find_one_by_token-Present,
}
use nestjs_auth_backend.RefreshTokens.Rotation.{row_of_hash, NoLiveToken}
use nestjs_auth_backend.Tokens.{find_one_by_token, LoadedUserToken}
use nestjs_auth_backend.Auth.SignIn.{Request, audit_row}
use nestjs_auth_backend.Auth.Logout.{logout_all}
use nestjs_auth_backend.Auth.Logout.Laws.{logout_all-CutOff}
use nestjs_auth_backend.Auth.Passwords.{
  reset_password_token, reset_password_logged, replace_password,
}
use nestjs_auth_backend.Requests.{Incoming}
use nestjs_auth_backend.Routes.{Reply, refresh}
use nestjs_auth_backend.System.History.{Event, open_call, serve, run_history}
use nestjs_auth_backend.System.Revoked.{revoked_forever}
use nestjs_auth_backend.System.SignedOut.{logout_all-rest, CutOff-ok}

-- Outside a transaction, with no refresh token of the user that is not revoked.
abbrev pub LoggedOut : ℕ → World → Type 0
LoggedOut user_id w = NoLiveToken user_id w.db × (w.work ≡ w.db)

logout_all-LoggedOut :
    (user_id : ℕ) (session_id : Option ℕ) (w : World)
    → (logout_all user_id session_id w).0 ≡ ok tt
    → LoggedOut user_id (logout_all user_id session_id w).1
logout_all-LoggedOut user_id session_id w done = (
  CutOff-ok user_id w.db _ done (logout_all-CutOff user_id session_id w),
  logout_all-rest user_id session_id w done,
)

create_audit-Keeps : (user_id : ℕ) (row : AuditLog) → Keeps (NoLiveToken user_id) (create_audit row)
unfolding create_audit
create_audit-Keeps user_id row = search keeps_rules depth 30

create_audit-rest :
    (row : AuditLog) (w : World)
    → w.work ≡ w.db
    → (create_audit row w).1.work ≡ (create_audit row w).1.db
unfolding create_audit
create_audit-rest row w h = ground arith

create_audit-LoggedOut :
    (user_id : ℕ) (row : AuditLog) (w : World)
    → LoggedOut user_id w
    → LoggedOut user_id (create_audit row w).1
create_audit-LoggedOut user_id row w h = (
  ((create_audit-Keeps user_id row).apply w h.0 (subst (NoLiveToken user_id) (sym h.1) h.0)).0,
  create_audit-rest row w h.1,
)

-- If `m` succeeds, it ends with the user logged out.
record SignsOut (user_id : ℕ) (m : Action (Unit {0})) : Type 0 where
  apply : (w : World) → (m w).0 ≡ ok tt → LoggedOut user_id (m w).1

-- A chain ends where its end does.
SignsOut-bind :
    {A : Type 0} (user_id : ℕ) (m : Action A) {k : A → Action (Unit {0})}
    → ((a : A) → SignsOut user_id (k a))
    → SignsOut user_id (m >>= k)
SignsOut-bind user_id m {k} end = record {
  apply = λ w done.
      let first = bind-ok m k w done in
      subst (λ r. LoggedOut user_id r.1) (sym first.2)
        ((end first.0).apply _ (ap (λ r. r.0) (sym first.2) ∙ done));
}

-- The end of both ways to a new password.
logout_all-SignsOut :
    (user_id : ℕ) (session_id : Option ℕ) (row : AuditLog)
    → SignsOut user_id (logout_all user_id session_id >>= λ _. create_audit row)
logout_all-SignsOut user_id session_id row = record {
  apply = λ w done.
      let first = bind-ok (logout_all user_id session_id) (λ _. create_audit row) w done in
      subst (λ r. LoggedOut user_id r.1) (sym first.2)
        (create_audit-LoggedOut user_id row _ (logout_all-LoggedOut user_id session_id w first.1));
}

reset_password_logged-SignsOut :
    (env : Env) (req : Request) (user_id session_id : ℕ) (address p q : String)
    → SignsOut user_id (reset_password_logged env req user_id session_id address p q)
unfolding reset_password_logged
reset_password_logged-SignsOut env req user_id session_id address p q =
    search (SignsOut-bind, logout_all-SignsOut)

-- What follows the lookups of `resetPasswordToken`.
abbrev reset_for : Env → Request → String → String → String → User → Action (Unit {0})
reset_for env req token p q user = do
  replace_password env user token p q
  send_mail user.email "auth-password-success" none
  logout_all user.id none
  create_audit (audit_row password_changed (some user.id) req)

reset_for-SignsOut :
    (env : Env) (req : Request) (token p q : String) (user : User)
    → SignsOut user.id (reset_for env req token p q user)
reset_for-SignsOut env req token p q user = search (SignsOut-bind, logout_all-SignsOut)

or_throw-some :
    {A : Type 0} (o : Option A) (e : Error) (k : A → Action (Unit {0})) (w : World) (a : A)
    → o ≡ some a
    → (or_throw o e >>= k) w ≡ k a w
or_throw-some o e k w a given = rw given refl

-- `resetPasswordToken` behind its lookups.
reset_password_token-path :
    (env : Env) (req : Request) (token p q : String) (w : World) (t : LoadedUserToken) (user : User)
    → (find_one_by_token token w).0 ≡ ok t
    → t.user ≡ some user
    → (reset_password_token env req token p q w).0 ≡ ok tt
    → reset_password_token env req token p q w
      ≡ reset_for env req token p q user (find_one_by_token token w).1
unfolding reset_password_token
reset_password_token-path env req token p q w t user found owner done =
    let k = λ (x : LoadedUserToken). or_throw x.user crash >>= reset_for env req token p q in
    let first = bind-ok (find_one_by_token token) k w done in
    let same : first.0 ≡ t = cc in
    let given : first.0.user ≡ some user = ap (λ (x : LoadedUserToken). x.user) same ∙ owner in
    first.2 ∙ or_throw-some first.0.user crash (reset_for env req token p q) _ user given

-- After it the user is logged out, and still there.
reset_password_token-LoggedOut :
    (env : Env) (req : Request) (token p q : String) (w : World) (t : LoadedUserToken) (user : User)
    → (find_one_by_token token w).0 ≡ ok t
    → t.user ≡ some user
    → (reset_password_token env req token p q w).0 ≡ ok tt
    → LoggedOut user.id (reset_password_token env req token p q w).1
      × Present user.id (reset_password_token env req token p q w).1.db
reset_password_token-LoggedOut env req token p q w t user found owner done =
    let path = reset_password_token-path env req token p q w t user found owner done in
    let ends = ap (λ r. r.0) (sym path) ∙ done in
    subst (λ (r : Result (Unit {0}) × World). LoggedOut user.id r.1 × Present user.id r.1.db)
      (sym path)
      (
        (reset_for-SignsOut env req token p q user).apply _ ends,
        reset_for-Present env user token p q (audit_row password_changed (some user.id) req) _
            (find_one_by_token-Present token w found owner) ends,
      )

module _ (env : Env) (es : List Event) (user_id : ℕ) (w : World) (out : LoggedOut user_id w) where
  no_refresh :
      (token : String) (t : AuthRefreshToken) (elapsed : ℕ) (outages : List Bool) (r : Incoming)
      {reply : Reply}
      → row_of_hash (env.sha256 token) w.db ≡ some t
      → token_of_user user_id w.db t ≡ true
      → (serve env
          (record {
            elapsed = elapsed;
            outages = outages;
            incoming = r;
            call = open_call (refresh token);
          })
          (run_history env es w)).0
        ≢ ok reply
  no_refresh token t elapsed outages r {reply} found own =
      revoked_forever env es w token t elapsed outages r {out = reply} out.1 found (
        find-All (λ x. token_of_user user_id w.db x ≡ true → x.revoked ≡ true) _ w.db.refresh_tokens
          t out.0 found own)

-- After a reset of the password by a mailed token that succeeded, no refresh token of the user's
-- sessions is accepted again by the endpoint `refresh`, after whatever run of requests and
-- whichever external calls fail.
pub reset_signs_out_forever :
    (env : Env) (req : Request) (secret p q : String) (w : World) (l : LoadedUserToken)
    (user : User) (es : List Event) (token : String) (t : AuthRefreshToken) (elapsed : ℕ)
    (outages : List Bool) (r : Incoming) {reply : Reply}
    → (find_one_by_token secret w).0 ≡ ok l
    → l.user ≡ some user
    → (reset_password_token env req secret p q w).0 ≡ ok tt
    → row_of_hash (env.sha256 token) (reset_password_token env req secret p q w).1.db ≡ some t
    → owned_by user.id (reset_password_token env req secret p q w).1.db t ≡ true
    → (serve env
        (record {
          elapsed = elapsed;
          outages = outages;
          incoming = r;
          call = open_call (refresh token);
        })
        (run_history env es (reset_password_token env req secret p q w).1)).0
      ≢ ok reply
reset_signs_out_forever env req secret p q w l user es token t elapsed outages r {reply} found owner
      done stored own =
    let after = (reset_password_token env req secret p q w).1 in
    let end = reset_password_token-LoggedOut env req secret p q w l user found owner done in
    let there = Present-is_live_user user.id after.db end.1 in
    no_refresh env es user.id after end.0 token t elapsed outages r {reply = reply} stored
      (rw (own, there) refl)

-- After a signed-in change of the password that succeeded, for a user who is not removed, no refresh
-- token of the user's sessions, the one that asked for the change included, is accepted again by the endpoint `refresh`, after
-- whatever run of requests and whichever external calls fail.
pub change_signs_out_forever :
    (env : Env) (req : Request) (user_id session_id : ℕ) (address p q : String) (w : World)
    (es : List Event) (token : String) (t : AuthRefreshToken) (elapsed : ℕ) (outages : List Bool)
    (r : Incoming) {reply : Reply}
    → (reset_password_logged env req user_id session_id address p q w).0 ≡ ok tt
    → row_of_hash
        (env.sha256 token)
        (reset_password_logged env req user_id session_id address p q w).1.db
      ≡ some t
    → token_of_user user_id (reset_password_logged env req user_id session_id address p q w).1.db t
      ≡ true
    → (serve env
        (record {
          elapsed = elapsed;
          outages = outages;
          incoming = r;
          call = open_call (refresh token);
        })
        (run_history env es (reset_password_logged env req user_id session_id address p q w).1)).0
      ≢ ok reply
change_signs_out_forever env req user_id session_id address p q w es token t elapsed outages r
      {reply} done =
    no_refresh env es user_id _
      ((reset_password_logged-SignsOut env req user_id session_id address p q).apply w done) token t
      elapsed outages r {reply = reply}
