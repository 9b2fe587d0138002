-- ===== src/Errors.antt =====
-- The error codes and their HTTP status: src/common/enum/errors/error-http-status.map.ts,
-- src/common/exceptions/response.factory.ts.
use nestjs_auth_backend.Base.{ℕ, Option, none, some}

-- The keys of `ErrorHttpStatusMap` in its order; the last one is thrown by the guards and is no
-- key of the map.
pub data ErrorCode : Type 0 where
  invalid_credentials refresh_token_revoked email_not_verified two_factor_required : ErrorCode
  otp_failed_attempts two_factor_not_enabled invalid_reauth_token : ErrorCode
  invalid_refresh_token two_factor_already_enabled two_factor_sms_disabled : ErrorCode
  two_factor_type_invalid two_factor_code_invalid reauth_token_not_found : ErrorCode
  oauth_login_required oauth_provider_not_found oauth_provider_disabled : ErrorCode
  oauth_provider_error : ErrorCode
  user_not_found user_disabled email_already_exists user_already_exists : ErrorCode
  rol_not_found user_has_credentials document_exists invalid_password pending_user : ErrorCode
  suspended_user inactive_user passwords_does_not_match : ErrorCode
  token_expired token_invalid token_not_found token_revoked : ErrorCode
  forbidden_action insufficient_permissions role_not_assigned : ErrorCode
  rate_limit_exceeded account_locked password_expired brute_force_blocked : ErrorCode
  internal_error service_unavailable database_error identity_type_not_found : ErrorCode
  invalid_state unauthorized forbidden not_found conflict internal_server_error : ErrorCode
  bad_gateway gateway_timeout http_version_not_supported bad_request : ErrorCode
  invalid_token insuficient_permissions : ErrorCode

-- `ErrorHttpStatusMap[code]`; `none` is `undefined`.
abbrev pub error_http_status : ErrorCode → Option ℕ
error_http_status invalid_credentials = some 401
error_http_status refresh_token_revoked = some 401
error_http_status email_not_verified = some 401
error_http_status two_factor_required = some 401
error_http_status otp_failed_attempts = some 401
error_http_status two_factor_not_enabled = some 401
error_http_status invalid_reauth_token = some 401
error_http_status invalid_refresh_token = some 401
error_http_status two_factor_already_enabled = some 403
error_http_status two_factor_sms_disabled = some 403
error_http_status two_factor_type_invalid = some 403
error_http_status two_factor_code_invalid = some 403
error_http_status reauth_token_not_found = some 403
error_http_status oauth_login_required = some 401
error_http_status oauth_provider_not_found = some 404
error_http_status oauth_provider_disabled = some 403
error_http_status oauth_provider_error = some 500
error_http_status user_not_found = some 404
error_http_status user_disabled = some 403
error_http_status email_already_exists = some 409
error_http_status user_already_exists = some 409
error_http_status rol_not_found = some 404
error_http_status user_has_credentials = some 409
error_http_status document_exists = some 409
error_http_status invalid_password = some 401
error_http_status pending_user = some 403
error_http_status suspended_user = some 403
error_http_status inactive_user = some 403
error_http_status passwords_does_not_match = some 403
error_http_status token_expired = some 401
error_http_status token_invalid = some 401
error_http_status token_not_found = some 404
error_http_status token_revoked = some 401
error_http_status forbidden_action = some 403
error_http_status insufficient_permissions = some 403
error_http_status role_not_assigned = some 403
error_http_status rate_limit_exceeded = some 429
error_http_status account_locked = some 403
error_http_status password_expired = some 403
error_http_status brute_force_blocked = some 429
error_http_status internal_error = some 500
error_http_status service_unavailable = some 503
error_http_status database_error = some 500
error_http_status identity_type_not_found = some 404
error_http_status invalid_state = some 400
error_http_status unauthorized = some 401
error_http_status forbidden = some 403
error_http_status not_found = some 404
error_http_status conflict = some 409
error_http_status internal_server_error = some 500
error_http_status bad_gateway = some 502
error_http_status gateway_timeout = some 504
error_http_status http_version_not_supported = some 505
error_http_status bad_request = some 400
error_http_status invalid_token = none
error_http_status insuficient_permissions = none

-- What a call throws: an `HttpException` of `ResponseFactory.error`, or any other error, which
-- reaches the client as status 500.
pub data Error : Type 0 where
  http : ErrorCode → Error
  crash : Error

-- The status of the answer: `ErrorHttpStatusMap[code] ?? HttpStatus.INTERNAL_SERVER_ERROR`.
abbrev pub response_status : Error → ℕ
response_status (http code) = elim (error_http_status code) [ none ↦ 500 | some n ↦ n ]
response_status crash = 500
