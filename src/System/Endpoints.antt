-- ===== src/System/Endpoints.antt =====
-- The endpoints.
use nestjs_auth_backend.Base.{ℕ, String}
use nestjs_auth_backend.World.{Db, Env, Payload}
use nestjs_auth_backend.World.Invariants.{Keeps, keeps_rules}
use nestjs_auth_backend.System.Stable.{Stable, StableRoles}
use nestjs_auth_backend.System.Services.{reauthenticate-Keeps}
use nestjs_auth_backend.System.Tables.{find_one-Keeps, generate-Keeps, find_role-Keeps}
use nestjs_auth_backend.System.Accounts.{
  find_identity_type-Keeps, find_all_identity_types-Keeps, update-Keeps, remove-Keeps,
  change_role-Keeps, me-Keeps, change_email-Keeps, rollback_email-Keeps,
}
use nestjs_auth_backend.Requests.{Incoming, ensure_device_id}
use nestjs_auth_backend.Routes.{
  Open, register_user, verify_address, ask_reset, reset_by_token, sign_in, refresh, oauth_callback,
  verify_code, verify_email_change, revoke_email_change, list_roles, list_identity_types, show_role,
  show_identity_type, Protected, change_own_password, log_out, log_out_device, log_out_all,
  enable_factor, confirm_factor, disable_factor, unlink, reauthenticate_with, generate_codes,
  show_user, update_account, remove_user, change_role_of, show_me, show_audit, run_protected,
  handle_protected, handle_sign_in, run_open, check_body, handle_open,
}
use nestjs_auth_backend.System.SignIn.{
  login-Keeps, logout-Keeps, logout_device-Keeps, logout_all-Keeps, refresh_token-Keeps,
}
use nestjs_auth_backend.System.Flows.{
  register-Keeps, reset_password-Keeps, reset_password_token-Keeps, reset_password_logged-Keeps,
  auth_verify_email-Keeps, enable_2fa-Keeps, confirm_2fa-Keeps, verify_2fa-Keeps, disable_2fa-Keeps,
  handle_oauth_callback-Keeps, unlink_provider-Keeps,
}
use nestjs_auth_backend.System.Access.{
  find_audit-Keeps, find_all_roles-Keeps, auth-Keeps, brute_force_guard-Keeps,
}

module _ (P : Db → Type 0) (s : Stable P) where
  ensure_device_id-Keeps : (env : Env) (r : Incoming) → Keeps P (ensure_device_id env r)
  unfolding ensure_device_id
  ensure_device_id-Keeps env r = search keeps_rules depth 30

  handle_sign_in-Keeps :
      (env : Env) (r : Incoming) (address password : String)
      → Keeps P (handle_sign_in env r address password)
  unfolding handle_sign_in
  handle_sign_in-Keeps env r address password =
      search (keeps_rules, ensure_device_id-Keeps, brute_force_guard-Keeps P s, login-Keeps P s)
        depth 30

  run_open-Keeps : (env : Env) (r : Incoming) (call : Open) → Keeps P (run_open env r call)
  run_open-Keeps env r (register_user dto password) =
      search (keeps_rules, register-Keeps P s) depth 30
  run_open-Keeps env r (verify_address token) =
      search (keeps_rules, auth_verify_email-Keeps P s) depth 30
  run_open-Keeps env r (ask_reset address) = search (keeps_rules, reset_password-Keeps P s) depth 30
  run_open-Keeps env r (reset_by_token token p q) =
      search (keeps_rules, reset_password_token-Keeps P s) depth 30
  run_open-Keeps env r (sign_in address password) =
      search (keeps_rules, handle_sign_in-Keeps) depth 30
  run_open-Keeps env r (refresh token) = search (keeps_rules, refresh_token-Keeps P s) depth 30
  run_open-Keeps env r (oauth_callback profile state) =
      search (keeps_rules, ensure_device_id-Keeps, handle_oauth_callback-Keeps P s) depth 30
  run_open-Keeps env r (verify_code given user_id) =
      search (keeps_rules, ensure_device_id-Keeps, verify_2fa-Keeps P s) depth 30
  run_open-Keeps env r (verify_email_change token) =
      search (keeps_rules, change_email-Keeps P s) depth 30
  run_open-Keeps env r (revoke_email_change token) =
      search (keeps_rules, rollback_email-Keeps P s) depth 30
  run_open-Keeps env r list_roles = search (keeps_rules, find_all_roles-Keeps) depth 30
  run_open-Keeps env r (show_role id) = search (keeps_rules, find_role-Keeps P s) depth 30
  run_open-Keeps env r list_identity_types =
      search (keeps_rules, find_all_identity_types-Keeps P s) depth 30
  run_open-Keeps env r (show_identity_type id) =
      search (keeps_rules, find_identity_type-Keeps P s) depth 30

  through :
      (env : Env) (r : Incoming) (call : Protected)
      → ((user : Payload) → Keeps P (run_protected env r user call))
      → Keeps P (handle_protected env r call)
  unfolding handle_protected
  through env r call k = search (keeps_rules, k, auth-Keeps P s) depth 30

  pub change_role_of-Keeps :
      (roles : StableRoles P) (env : Env) (r : Incoming) (id role_id : ℕ)
      → Keeps P (handle_protected env r (change_role_of id role_id))
  change_role_of-Keeps roles env r id role_id =
      through env r (change_role_of id role_id)
        (λ user. search (keeps_rules, change_role-Keeps P s roles) depth 30)

  -- The endpoint that changes roles is left to the caller.
  pub handle_protected-Keeps :
      (env : Env) (r : Incoming)
      → ((id role_id : ℕ) → Keeps P (handle_protected env r (change_role_of id role_id)))
      → (call : Protected) → Keeps P (handle_protected env r call)
  handle_protected-Keeps env r change (change_own_password p q) =
      through env r (change_own_password p q)
        (λ user. search (keeps_rules, reset_password_logged-Keeps P s) depth 30)
  handle_protected-Keeps env r change log_out =
      through env r log_out (λ user. search (keeps_rules, logout-Keeps P s) depth 30)
  handle_protected-Keeps env r change (log_out_device id) =
      through env r (log_out_device id)
        (λ user. search (keeps_rules, logout_device-Keeps P s) depth 30)
  handle_protected-Keeps env r change log_out_all =
      through env r log_out_all (λ user. search (keeps_rules, logout_all-Keeps P s) depth 30)
  handle_protected-Keeps env r change (enable_factor type) =
      through env r (enable_factor type)
        (λ user. search (keeps_rules, enable_2fa-Keeps P s) depth 30)
  handle_protected-Keeps env r change (confirm_factor given) =
      through env r (confirm_factor given)
        (λ user. search (keeps_rules, confirm_2fa-Keeps P s) depth 30)
  handle_protected-Keeps env r change disable_factor =
      through env r disable_factor (λ user. search (keeps_rules, disable_2fa-Keeps P s) depth 30)
  handle_protected-Keeps env r change (unlink provider) =
      through env r (unlink provider)
        (λ user. search (keeps_rules, unlink_provider-Keeps P s) depth 30)
  handle_protected-Keeps env r change (reauthenticate_with p) =
      through env r (reauthenticate_with p)
        (λ user. search (keeps_rules, reauthenticate-Keeps P s) depth 30)
  handle_protected-Keeps env r change generate_codes =
      through env r generate_codes (λ user. search (keeps_rules, generate-Keeps P s) depth 30)
  handle_protected-Keeps env r change (show_user id) =
      through env r (show_user id) (λ user. search (keeps_rules, find_one-Keeps P s) depth 30)
  handle_protected-Keeps env r change (update_account id dto) =
      through env r (update_account id dto)
        (λ user. search (keeps_rules, update-Keeps P s) depth 30)
  handle_protected-Keeps env r change (remove_user id) =
      through env r (remove_user id) (λ user. search (keeps_rules, remove-Keeps P s) depth 30)
  handle_protected-Keeps env r change (change_role_of id role_id) = change id role_id
  handle_protected-Keeps env r change show_me =
      through env r show_me (λ user. search (keeps_rules, me-Keeps P s) depth 30)
  handle_protected-Keeps env r change (show_audit id) =
      through env r (show_audit id) (λ user. search (keeps_rules, find_audit-Keeps) depth 30)

  check_body-Keeps : (env : Env) (r : Incoming) (call : Open) → Keeps P (check_body env r call)
  check_body-Keeps env r (register_user dto password) = search keeps_rules
  check_body-Keeps env r (verify_address token) = search keeps_rules
  check_body-Keeps env r (ask_reset address) = search keeps_rules
  check_body-Keeps env r (reset_by_token token p q) = search keeps_rules
  check_body-Keeps env r (sign_in address password) = search keeps_rules
  check_body-Keeps env r (refresh token) = search keeps_rules
  check_body-Keeps env r (oauth_callback profile state) = search keeps_rules
  check_body-Keeps env r (verify_code given user_id) = search keeps_rules
  check_body-Keeps env r (verify_email_change token) = search keeps_rules
  check_body-Keeps env r (revoke_email_change token) = search keeps_rules
  check_body-Keeps env r list_roles = search keeps_rules
  check_body-Keeps env r (show_role id) = search keeps_rules
  check_body-Keeps env r list_identity_types = search keeps_rules
  check_body-Keeps env r (show_identity_type id) = search keeps_rules

  pub handle_open-Keeps :
      (env : Env) (r : Incoming) (call : Open) → Keeps P (handle_open env r call)
  unfolding handle_open
  handle_open-Keeps env r call = search (keeps_rules, check_body-Keeps, run_open-Keeps) depth 30
