-- ===== src/Auth/External.antt =====
-- `handleOAuthCallback`, `loginWithOauth`, `linkOauth` and `unlinkProvider` of
-- src/modules/auth/auth.service.ts, and the state of src/modules/auth/oauth/oauth.service.ts and
-- src/modules/auth/guards/oauth/base-oauth.guard.ts.
pub mod Laws
pub mod State
use nestjs_auth_backend.Base.{
  ℕ, Bool, true, false, not, Option, none, some, String, if◌then◌else◌, ◌==◌,
}
use nestjs_auth_backend.Errors.{invalid_state, crash, http}
use nestjs_auth_backend.Entities.{User, Role, OAuthProvider}
use nestjs_auth_backend.World.{
  World, Action, ◌>>=◌, ◌>>◌, pure, throw, gets, or_throw, transaction, direct, manager, Env,
  OAuthFlow, login_flow, link_flow, other_flow, StatePayload, Payload,
}
use nestjs_auth_backend.RefreshTokens.{create_refresh_token}
use nestjs_auth_backend.Sessions.{create_auth_session}
use nestjs_auth_backend.OAuth.{OAuthProfile, create_oauth, get_user_with_provider, delete_oauth}
use nestjs_auth_backend.UserSessions.{create_user_session}
use nestjs_auth_backend.Users.Lookup.{LoadedUser, find_one_or_first, role_by_id}
use nestjs_auth_backend.Users.Profile.{validate_oauth_user}
use nestjs_auth_backend.Auth.SignIn.{Request, open_user_session}

-- How a callback answers: the redirect that carries the refresh token, the one to the dashboard,
-- or nothing.
pub data Callback : Type 0 where
  signed_in_with : String → Callback
  linked : Callback
  no_answer : Callback

abbrev pub or_undefined : Option Payload → Option ℕ
or_undefined none = none
or_undefined (some p) = some p.sub

module _ (env : Env) where
  -- The state that `BaseOauthGuard` signs: the token is decoded, its signature is not checked.
  unfoldable pub state_payload : OAuthFlow → Option String → StatePayload
  state_payload link_flow none = record { flow = link_flow; user_id = none }
  state_payload link_flow (some token) = record {
    flow = link_flow;
    user_id = or_undefined (env.jwt_decode token);
  }
  state_payload _ token = record { flow = login_flow; user_id = none }

  -- The first transaction of `loginWithOauth`.
  unfoldable pub find_or_create_user : OAuthProfile → Action User
  find_or_create_user profile = transaction (do
    user ← validate_oauth_user env manager profile
    create_oauth manager user.id profile
    pure user)

  -- `loginWithOauth`
  unfoldable pub login_with_oauth : Request → OAuthProfile → String → Action Callback
  login_with_oauth req profile device_id = do
    user ← find_or_create_user profile
    role ← gets (λ w. role_by_id user.role w.db)
    pair ← open_user_session env req (record { row = user; role = role }) device_id
    pure (signed_in_with pair.0)

  -- `oath_exist && oath_exist.id !== userId`
  abbrev pub is_foreign : Option User → Option ℕ → Bool
  is_foreign none user_id = false
  is_foreign (some u) none = true
  is_foreign (some u) (some id) = not (u.id == id)

  -- `linkOauth`; after the redirect of the test a second one throws.
  unfoldable pub link_oauth : OAuthProfile → Option ℕ → Action Callback
  link_oauth profile user_id = do
    owner ← get_user_with_provider profile.provider_id profile.provider
    user ← find_one_or_first user_id
    create_oauth direct user.row.id profile
    if is_foreign owner user_id then throw crash else pure linked

  abbrev pub dispatch_flow :
      Request → OAuthProfile → String → StatePayload → OAuthFlow → Action Callback
  dispatch_flow req profile device_id state login_flow = login_with_oauth req profile device_id
  dispatch_flow req profile device_id state link_flow = link_oauth profile state.user_id
  dispatch_flow req profile device_id state other_flow = pure no_answer

  -- `handleOAuthCallback`, with `OAuthStateService.verify`
  unfoldable pub handle_oauth_callback : Request → OAuthProfile → String → String → Action Callback
  handle_oauth_callback req profile state device_id = do
    now ← gets (λ w. w.now)
    payload ← or_throw (env.state_verify state now) (http invalid_state)
    dispatch_flow req profile device_id payload payload.flow

-- `unlinkProvider`
unfoldable pub unlink_provider : ℕ → OAuthProvider → Action (Unit {0})
unlink_provider user_id provider = delete_oauth user_id provider
