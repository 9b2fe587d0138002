-- ===== src/Tokens.antt =====
-- src/modules/users/tokens/tokens.service.ts: the tokens of the verification and reset mails.
pub mod Redeem
use nestjs_auth_backend.Base.{
  ℕ, ◌+◌, Bool, true, false, ◌&&◌, not, Option, none, some, String, List, ◌==◌, str_eq, when_some,
  find, insert_row, update_where, ltb,
}
use nestjs_auth_backend.Errors.{token_not_found, crash}
use nestjs_auth_backend.Entities.{
  UserToken, UserTokenType, email_verification, password_reset, User,
}
use nestjs_auth_backend.World.{
  World, Db, Action, ◌>>=◌, ◌>>◌, pure, gets, query, execute, draw, try_catch, not_awaited,
  throw_if, or_throw, send_mail, direct, Conn, Env,
}
use nestjs_auth_backend.Users.Lookup.{user_by_id, find_one_by_email}

abbrev pub token_row : String → Db → Option UserToken
token_row token d = find (λ t. str_eq t.token token) d.tokens

-- A token with its eagerly loaded user, which is null for a removed one.
pub record LoadedUserToken : Type 0 where
  pub row : UserToken
  pub user : Option User

abbrev pub load_user_token : Db → Option UserToken → Option LoadedUserToken
load_user_token d none = none
load_user_token d (some t) = some (record { row = t; user = user_by_id t.user d })

-- Two days, and three hours.
abbrev pub verification_term : ℕ
verification_term = 172_800_000

abbrev pub reset_term : ℕ
reset_term = 10_800_000

-- The `save` of a new token.
abbrev pub insert_token : Conn → ℕ → String → UserTokenType → ℕ → Action (Unit {0})
insert_token repo user_id token type term = do
  now ← gets (λ w. w.now)
  id ← draw
  try_catch (
      execute repo (λ d. record d {
        tokens =
            insert_row
              (record {
                id = id;
                user = user_id;
                token = token;
                token_type = type;
                expires_at = now + term;
                is_used = false;
              })
              d.tokens;
      }))

-- `updateTokenIsUsed`; its call of `findOne` is not awaited.
unfoldable pub update_token_is_used : Conn → String → Action (Unit {0})
update_token_is_used repo token = do
  not_awaited (try_catch (query direct (token_row token)))
  try_catch (
      execute repo (λ d. record d {
        tokens =
            update_where (λ t. str_eq t.token token) (λ t. record t { is_used = true }) d.tokens;
      }))

-- `findOneByToken`
unfoldable pub find_one_by_token : String → Action LoadedUserToken
find_one_by_token token = do
  found ← try_catch (query direct (λ d. load_user_token d (token_row token d)))
  now ← gets (λ w. w.now)
  throw_if (not (when_some found (λ t. not t.row.is_used && not (ltb t.row.expires_at now))))
      token_not_found
  or_throw found crash

module _ (env : Env) where
  -- `createTokenEmailVerification`
  unfoldable pub create_token_email_verification : Conn → User → Action (Unit {0})
  create_token_email_verification repo user = do
    seed ← draw
    insert_token repo user.id (env.uuidv7 seed) email_verification verification_term
    send_mail user.email "auth-verification" (some (env.uuidv7 seed))

  -- `createTokenPasswordReset`
  unfoldable pub create_token_password_reset : String → Action (Unit {0})
  create_token_password_reset email = do
    seed ← draw
    account ← find_one_by_email email
    insert_token direct account.user.row.id (env.uuidv7 seed) password_reset reset_term
    send_mail email "auth-reset-password" (some (env.uuidv7 seed))
