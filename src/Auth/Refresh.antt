-- ===== src/Auth/Refresh.antt =====
-- `refreshToken` of src/modules/auth/auth.service.ts.
pub mod Laws
pub mod Renewal
use Prim.Native.String.{◌++◌ as str_append}
use nestjs_auth_backend.Base.{ℕ, Bool, not, Option, none, some, String, is_some}
use nestjs_auth_backend.Permissions.{is_empty}
use nestjs_auth_backend.Errors.{invalid_refresh_token, internal_error, crash, http}
use nestjs_auth_backend.Entities.{refresh_token_revoked}
use nestjs_auth_backend.World.{
  World, Action, ◌>>=◌, ◌>>◌, pure, gets, throw_if, or_throw, direct, Env,
}
use nestjs_auth_backend.RefreshTokens.{create_refresh_token, revoke_refresh_token}
use nestjs_auth_backend.AuditLog.{create_audit}
use nestjs_auth_backend.Users.Lookup.{find_one}
use nestjs_auth_backend.Auth.SignIn.{Request, payload_of, audit_row, refresh_seconds}

pub record Refreshed : Type 0 where
  pub access_token : String
  pub refresh_token : String

-- Seconds: `'15m'`.
abbrev pub refreshed_access_seconds : ℕ
refreshed_access_seconds = 900

module _ (env : Env) where
  -- `refreshToken`: the old token is revoked before its signature is checked.
  unfoldable pub refresh_token : Request → String → Action Refreshed
  refresh_token req token = do
    throw_if (is_empty token) invalid_refresh_token
    found ← revoke_refresh_token env token
    now ← gets (λ w. w.now)
    throw_if (not (is_some (env.jwt_verify token env.jwt_refresh_secret now))) internal_error
    decoded ← or_throw (env.jwt_decode token) (http invalid_refresh_token)
    user ← find_one decoded.sub
    session ← or_throw found crash
    role ← or_throw user.role crash
    let payload = payload_of user.row role session.id
    let renewed = env.jwt_sign payload env.jwt_refresh_secret now refresh_seconds
    create_refresh_token env direct session.id renewed
    create_audit (audit_row refresh_token_revoked (some user.row.id) req)
    pure (record {
      access_token =
          env.jwt_sign payload (str_append env.jwt_secret user.row.user_secret) now
            refreshed_access_seconds;
      refresh_token = renewed;
    })
