-- ===== src/Tests/Tokens.antt =====
-- The theorems on refresh tokens, logging out, passwords and registering at concrete inputs.
use nestjs_auth_backend.Base.{
  ◌+◌, ◌≡◌, refl, true, false, none, some, arith, ◌==◌, insert_row, update_where,
}
use nestjs_auth_backend.Errors.{http, token_revoked, internal_error, crash}
use nestjs_auth_backend.World.{ok, err, send_mail}
use nestjs_auth_backend.RefreshTokens.{revoke_refresh_token, refresh_token_term}
use nestjs_auth_backend.World.Outcomes.{AllOrNothing}
use nestjs_auth_backend.Auth.Logout.{logout, logout_all}
use nestjs_auth_backend.Auth.Logout.Laws.{
  log_out, logout-AllOrNothing, SignedOut, logout_all-SignedOut,
}
use nestjs_auth_backend.Auth.Passwords.{replace_password, replace_steps, register, register_steps}
use nestjs_auth_backend.Auth.Passwords.Laws.{replace_password_atomic, register_atomic}
use nestjs_auth_backend.Auth.Passwords.Laws.Steps.{except_roles}
use nestjs_auth_backend.Credentials.{update_credentials, create_credentials}
use nestjs_auth_backend.Roles.{get_name_role_or_create}
use nestjs_auth_backend.Tokens.{create_token_email_verification}
use nestjs_auth_backend.Security.{create_security}
use nestjs_auth_backend.Users.Accounts.{create_user, validate_and_create_user, find_identity_type}
use nestjs_auth_backend.Auth.Refresh.{refresh_token}
use nestjs_auth_backend.Auth.Refresh.Laws.{refresh_token_rotates, refresh_token_burned}
use nestjs_auth_backend.Tests.Data.{
  toy, world, faulty_world, store, ana, user_role, ana_session, stored_token, request, claims,
  eve_dto, late_fault_world,
}

accepted : (revoke_refresh_token toy "jwt" world).0 ≡ ok (some ana_session)
unfolding revoke_refresh_token
accepted = refl

logout-AllOrNothing_example : AllOrNothing (log_out 5) store (logout 5 world)
logout-AllOrNothing_example = logout-AllOrNothing 5 world

logout_all-SignedOut_example : SignedOut 1 store (logout_all 1 none world)
logout_all-SignedOut_example = logout_all-SignedOut 1 none world refl

not_replaced : (replace_password toy ana "reset" "a" "b" faulty_world).0 ≡ err crash
unfolding replace_password replace_steps update_credentials
not_replaced = refl

replace_password_atomic_example :
    (replace_password toy ana "reset" "a" "b" faulty_world).1.db ≡ store
replace_password_atomic_example =
    replace_password_atomic toy ana "reset" "a" "b" faulty_world {e = crash} not_replaced

not_registered : (register toy eve_dto "pw" late_fault_world).0 ≡ err (http internal_error)
unfolding register register_steps create_user validate_and_create_user find_identity_type
    get_name_role_or_create create_credentials create_token_email_verification send_mail
    create_security
not_registered = refl

register_atomic_example :
    except_roles (register toy eve_dto "pw" late_fault_world).1.db ≡ except_roles store
register_atomic_example =
    register_atomic toy eve_dto "pw" late_fault_world {e = http internal_error} not_registered

refresh_token_rotates_example :
    ((refresh_token toy request "jwt" world).0
      ≡ ok (record { access_token = "signed"; refresh_token = "signed" }))
    × ((refresh_token toy request "jwt" world).1.db.refresh_tokens
        ≡ insert_row
            (record {
              id = 100;
              auth_session = 5;
              token = "#signed";
              expires_at = 1_000 + refresh_token_term;
              revoked = false;
            })
            (update_where (λ x. x.id == 7) (λ x. record x { revoked = true }) store.refresh_tokens))
    × ((refresh_token toy request "jwt" (refresh_token toy request "jwt" world).1).0
        ≡ err (http token_revoked))
refresh_token_rotates_example =
    refresh_token_rotates toy request "jwt" world (stored_token 7 "#jwt") ana_session ana user_role
      claims claims refl refl refl (omega arith, refl) refl refl refl refl refl

refresh_token_burned_example :
    ((refresh_token toy request "forged" world).0 ≡ err (http internal_error))
    × ((refresh_token toy request "forged" (refresh_token toy request "forged" world).1).0
        ≡ err (http token_revoked))
refresh_token_burned_example =
    refresh_token_burned toy request "forged" world (stored_token 10 "#forged") refl refl refl
      (omega arith, refl) refl
