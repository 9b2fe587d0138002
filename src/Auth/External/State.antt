-- ===== src/Auth/External/State.antt =====
-- The state of an OAuth redirect: `OAuthStateService` of src/modules/auth/oauth/oauth.service.ts and
-- `canActivate` of src/modules/auth/guards/oauth/base-oauth.guard.ts, which calls it.
use nestjs_auth_backend.Base.{
  ℕ, ◌+◌, ◌≤◌, ◌≡◌, Option, none, some, String, List, [], ◌∷◌, arith, if◌then◌else◌,
}
use nestjs_auth_backend.Permissions.{is_empty, split_code}
use nestjs_auth_backend.Errors.{crash, invalid_state, http}
use nestjs_auth_backend.World.{
  World, ok, Action, ◌>>=◌, throw, gets, or_throw, Env, OAuthFlow, StatePayload,
}
use nestjs_auth_backend.Requests.{or_empty, or_text, head_text}
use nestjs_auth_backend.Auth.External.{state_payload}

-- Where the guard looks for a token.
pub record RedirectRequest : Type 0 where
  pub access_token_cookie : Option String
  pub authorization : Option String
  pub query_token : Option String

-- `split(' ')[1]`
abbrev second_word : List String → String
second_word [] = ""
second_word (a ∷ rest) = head_text rest

-- The cookie, the `Authorization` header behind its first word, or the query; `none` if it is falsy.
abbrev pub redirect_token : RedirectRequest → Option String
redirect_token r =
    let token = or_text (or_empty r.access_token_cookie) (
      or_text (second_word (split_code b' ' (or_empty r.authorization)))
        (or_empty r.query_token)) in
    if is_empty token then none else some token

module _ (env : Env) where
  -- `sign`; `OAUTH_STATE_SECRET` may be missing.
  unfoldable pub sign_state : Option String → StatePayload → Action String
  sign_state secret payload =
      if is_empty (or_empty secret) then throw crash else gets (λ w. env.state_sign payload w.now)

  -- `verify`
  unfoldable pub verify_state : String → Action StatePayload
  verify_state state = do
    now ← gets (λ w. w.now)
    or_throw (env.state_verify state now) (http invalid_state)

  -- What `canActivate` puts into the redirect of a flow.
  unfoldable pub redirect_state : Option String → OAuthFlow → RedirectRequest → Action String
  unfolding sign_state
  redirect_state secret flow r = sign_state secret (state_payload env flow (redirect_token r))

  -- Where a signed state verifies for five minutes: the state of a redirect, given back in time,
  -- verifies as the flow of the guard, with the user of the token in the request where it links.
  verify_state-redirect_state :
      (secret : Option String) (flow : OAuthFlow) (r : RedirectRequest) (w later : World)
      (state : String)
      → ((p : StatePayload) (now then_ : ℕ)
          → then_ ≤ now + 300_000
          → env.state_verify (env.state_sign p now) then_ ≡ some p)
      → (redirect_state secret flow r w).0 ≡ ok state
      → later.now ≤ w.now + 300_000
      → (verify_state state later).0 ≡ ok (state_payload env flow (redirect_token r))
  unfolding redirect_state sign_state verify_state
  verify_state-redirect_state secret flow r w later state signed done fresh =
      let p = state_payload env flow (redirect_token r) in
      ground (arith, signed p w.now later.now fresh)
