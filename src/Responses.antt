-- ===== src/Responses.antt =====
-- The bodies of answers: src/common/exceptions/response.factory.ts, success-helpers.ts and
-- error-helpers.ts.
use nestjs_auth_backend.Base.{ℕ, Bool, true, false, Option, none, some, String}
use nestjs_auth_backend.Errors.{
  ErrorCode, http, response_status, user_not_found, invalid_credentials, email_already_exists,
  forbidden_action, rate_limit_exceeded, internal_error,
}

-- `error` of a body: the code and its translated message.
pub record ErrorDetail : Type 0 where
  pub code : ErrorCode
  pub message : String

pub record Body (T M : Type 0) : Type 0 where
  pub success : Bool
  pub payload : Option T
  pub meta : Option M
  pub error : Option ErrorDetail

-- An `HttpException`: its status and its body.
pub record Exception : Type 0 where
  pub status : ℕ
  pub body : Body (Unit {0}) (Unit {0})

module _ {T M : Type 0} where
  -- `ResponseFactory.success`
  abbrev pub success_body : Option T → Option M → Body T M
  success_body payload meta = record {
    success = true;
    payload = payload;
    meta = meta;
    error = none;
  }

  abbrev pub ok_response : T → Option M → Body T M
  ok_response payload meta = success_body (some payload) meta

  abbrev pub created_response : T → Option M → Body T M
  created_response payload meta = success_body (some payload) meta

  abbrev pub no_content_response : Body T M
  no_content_response = success_body none none

-- `i18n.t` is a parameter: the code, the language.
module _ (t : ErrorCode → String → String) where
  -- What `ResponseFactory.error` throws.
  abbrev pub error_exception : String → ErrorCode → Exception
  error_exception lang code = record {
    status = response_status (http code);
    body = record {
      success = false;
      payload = none;
      meta = none;
      error = some (record { code = code; message = t code lang });
    };
  }

  abbrev pub user_not_found_error : String → Exception
  user_not_found_error lang = error_exception lang user_not_found

  abbrev pub invalid_credentials_error : String → Exception
  invalid_credentials_error lang = error_exception lang invalid_credentials

  abbrev pub email_already_exists_error : String → Exception
  email_already_exists_error lang = error_exception lang email_already_exists

  abbrev pub forbidden_action_error : String → Exception
  forbidden_action_error lang = error_exception lang forbidden_action

  abbrev pub rate_limit_exceeded_error : String → Exception
  rate_limit_exceeded_error lang = error_exception lang rate_limit_exceeded

  abbrev pub internal_server_error_response : String → Exception
  internal_server_error_response lang = error_exception lang internal_error
