-- ===== src/Auth/External/Laws.antt =====
-- Linking of OAuth accounts in src/modules/auth/auth.service.ts, with the state of the redirect.
use nestjs_auth_backend.Base.{ℕ, ◌≡◌, ◌≢◌, true, none, some, String, [], arith, insert_row}
use nestjs_auth_backend.Errors.{crash}
use nestjs_auth_backend.Entities.{User, UserAccountOAuth}
use nestjs_auth_backend.World.{World, ok, err, Env, Payload, link_flow}
use nestjs_auth_backend.Users.Lookup.{user_by_id, live_user, find_one, find_one_or_first}
use nestjs_auth_backend.OAuth.{OAuthProfile, oauth_account, create_oauth, get_user_with_provider}
use nestjs_auth_backend.Auth.SignIn.{Request}
use nestjs_auth_backend.Auth.External.{link_oauth, linked, state_payload, handle_oauth_callback}

-- The row that links the profile to a user.
abbrev pub link_row : OAuthProfile → ℕ → ℕ → UserAccountOAuth
link_row profile user_id id = record {
  id = id;
  user = user_id;
  provider = profile.provider;
  provider_id = profile.provider_id;
  avatar = profile.avatar;
  is_active = profile.is_active;
}

module _ (env : Env) (profile : OAuthProfile) (w : World) where
  link_oauth_new :
      (user_id : ℕ) (u : User)
      → w.faults ≡ []
      → user_by_id user_id w.db ≡ some u
      → oauth_account profile.provider_id profile.provider w.db ≡ none
      → ((link_oauth env profile (some user_id) w).0 ≡ ok linked)
        × ((link_oauth env profile (some user_id) w).1.db
            ≡ record w.db { oauths = insert_row (link_row profile u.id w.serial) w.db.oauths })
  unfolding link_oauth find_one_or_first find_one create_oauth get_user_with_provider
  link_oauth_new user_id u calm user free = ground arith

  link_oauth_foreign :
      (user_id : ℕ) (u other : User) (o : UserAccountOAuth)
      → w.faults ≡ []
      → user_by_id user_id w.db ≡ some u
      → oauth_account profile.provider_id profile.provider w.db ≡ some o
      → user_by_id o.user w.db ≡ some other
      → other.id ≢ user_id
      → link_oauth env profile (some user_id) w ≡ (err crash, w)
  unfolding link_oauth find_one_or_first find_one create_oauth get_user_with_provider
  link_oauth_foreign user_id u other o calm user taken owner foreign = ground arith

  link_oauth_undefined :
      (u : User)
      → w.faults ≡ []
      → live_user (λ _. true) w.db ≡ some u
      → oauth_account profile.provider_id profile.provider w.db ≡ none
      → ((link_oauth env profile none w).0 ≡ ok linked)
        × ((link_oauth env profile none w).1.db
            ≡ record w.db { oauths = insert_row (link_row profile u.id w.serial) w.db.oauths })
  unfolding link_oauth find_one_or_first find_one create_oauth get_user_with_provider
  link_oauth_undefined u calm user free = ground arith

-- Where no external call fails and the provider's account is linked to nobody: a link that was
-- started with a token whose payload decodes to a user is completed for that user. Whether the
-- token's signature is valid is not asked.
pub link_callback_decoded :
    (env : Env) (req : Request) (profile : OAuthProfile) (state device_id token : String)
    (w : World) (p : Payload) (u : User)
    → w.faults ≡ []
    → env.jwt_decode token ≡ some p
    → env.state_verify state w.now ≡ some (state_payload env link_flow (some token))
    → user_by_id p.sub w.db ≡ some u
    → oauth_account profile.provider_id profile.provider w.db ≡ none
    → ((handle_oauth_callback env req profile state device_id w).0 ≡ ok linked)
      × ((handle_oauth_callback env req profile state device_id w).1.db
          ≡ record w.db { oauths = insert_row (link_row profile u.id w.serial) w.db.oauths })
unfolding handle_oauth_callback state_payload
link_callback_decoded env req profile state device_id token w p u calm decoded verified user free =
    ground (arith, link_oauth_new env profile w p.sub u calm user free)

-- Where no external call fails and the provider's account is linked to nobody: a link that was
-- started without any token is completed for the first user of the table.
pub link_callback_no_token :
    (env : Env) (req : Request) (profile : OAuthProfile) (state device_id : String) (w : World)
    (u : User)
    → w.faults ≡ []
    → env.state_verify state w.now ≡ some (state_payload env link_flow none)
    → live_user (λ _. true) w.db ≡ some u
    → oauth_account profile.provider_id profile.provider w.db ≡ none
    → ((handle_oauth_callback env req profile state device_id w).0 ≡ ok linked)
      × ((handle_oauth_callback env req profile state device_id w).1.db
          ≡ record w.db { oauths = insert_row (link_row profile u.id w.serial) w.db.oauths })
unfolding handle_oauth_callback state_payload
link_callback_no_token env req profile state device_id w u calm verified user free =
    ground (arith, link_oauth_undefined env profile w u calm user free)

-- Where no external call fails: an account of the provider that another user has is not linked to
-- the user of the state. The callback ends in an error and changes nothing.
pub link_callback_foreign :
    (env : Env) (req : Request) (profile : OAuthProfile) (state device_id : String) (w : World)
    (user_id : ℕ) (u other : User) (o : UserAccountOAuth)
    → w.faults ≡ []
    → env.state_verify state w.now ≡ some (record { flow = link_flow; user_id = some user_id })
    → user_by_id user_id w.db ≡ some u
    → oauth_account profile.provider_id profile.provider w.db ≡ some o
    → user_by_id o.user w.db ≡ some other
    → other.id ≢ user_id
    → handle_oauth_callback env req profile state device_id w ≡ (err crash, w)
unfolding handle_oauth_callback
link_callback_foreign env req profile state device_id w user_id u other o calm verified user taken
      owner foreign =
    ground (arith, link_oauth_foreign env profile w user_id u other o calm user taken owner foreign)
