-- ===== src/Tests/Changes.antt =====
-- The theorems on a successful sign-in, the lock-out, the second factor and email changes at
-- concrete inputs.
use nestjs_auth_backend.Base.{ℕ, ◌≡◌, refl, false, none, some, [], ◌∷◌, arith, insert_row}
use nestjs_auth_backend.Errors.{http, token_expired, brute_force_blocked}
use nestjs_auth_backend.Entities.{
  UserSecurity, totp, totp_confirmed, UserEmailChangeRequest, UserEmailChangeLog,
}
use nestjs_auth_backend.World.{World, Db, ok, err}
use nestjs_auth_backend.Permissions.{parse_permissions}
use nestjs_auth_backend.Attempts.{attempt_of, record_failure}
use nestjs_auth_backend.Guards.{brute_force_guard}
use nestjs_auth_backend.Guards.Access.{fifth_failure_blocks}
use nestjs_auth_backend.EmailChange.{change_email}
use nestjs_auth_backend.EmailChange.Laws.{changed, change_email_once}
use nestjs_auth_backend.Auth.SignIn.{login, signed_in, generated_token_and_refresh_token}
use nestjs_auth_backend.Auth.SignIn.Success.{new_session, new_token, login_succeeds}
use nestjs_auth_backend.Auth.TwoFactor.{load_subject, verify_2fa}
use nestjs_auth_backend.Auth.TwoFactor.Sound.{Shows, verify_2fa_sound}
use nestjs_auth_backend.World.{send_mail}
use nestjs_auth_backend.Attempts.{reset}
use nestjs_auth_backend.AuditLog.{create_audit}
use nestjs_auth_backend.UserSessions.{create_user_session}
use nestjs_auth_backend.Sessions.{create_auth_session, update_active}
use nestjs_auth_backend.RefreshTokens.{create_refresh_token}
use nestjs_auth_backend.Security.{find_one_by_user}
use nestjs_auth_backend.Users.Lookup.{find_one}
use nestjs_auth_backend.Auth.SignIn.{SignedIn, open_user_session}
use nestjs_auth_backend.Tests.Data.{
  toy, world, store, ana, bob, user_role, ana_credentials, request, http_request,
}

abbrev pub settings : ℕ → ℕ → UserSecurity
settings id user = record {
  id = id;
  user = user;
  two_factor_enabled = false;
  two_factor_type = some totp;
  two_factor_data = some (totp_confirmed "BASE32");
  last_changed_at = none;
}

abbrev pub request_row : UserEmailChangeRequest
request_row = record {
  id = 20;
  user = 1;
  old_email = "ana@x.org";
  new_email = "ana@y.org";
  token_hash = "#change";
  expires_at = 9_000;
  used = false;
}

abbrev pub log_row : UserEmailChangeLog
log_row = record {
  id = 21;
  user = 1;
  old_email = "ana@z.org";
  new_email = "ana@x.org";
  rollback_token = "back";
  expires_at = 9_000;
  revoked = false;
}

-- Ana has settings without a second factor, Bob, who is suspended, has a TOTP secret; and Ana has
-- asked for a new address.
abbrev pub prepared : Db
prepared = record store {
  securities = settings 30 1 ∷ settings 31 2 ∷ [];
  email_requests = request_row ∷ [];
  email_logs = log_row ∷ [];
}

abbrev pub prepared_world : World
prepared_world = record world { db = prepared; work = prepared }

login_succeeds_example :
    ((login toy request "ana@x.org" "pw" "new" prepared_world).0
      ≡ ok (
          signed_in (record {
            access_token = "signed";
            refresh_token = "signed";
            email = "ana@x.org";
            permissions = parse_permissions "{read}";
          })))
    × ((login toy request "ana@x.org" "pw" "new" prepared_world).1.db.sessions
        ≡ insert_row (new_session request "new" ana prepared_world) store.sessions)
    × ((login toy request "ana@x.org" "pw" "new" prepared_world).1.db.refresh_tokens
        ≡ insert_row (new_token toy ana user_role prepared_world) store.refresh_tokens)
    × (attempt_of "ana@x.org" (login toy request "ana@x.org" "pw" "new" prepared_world).1.db ≡ none)
    × ((login toy request "ana@x.org" "pw" "new" prepared_world).1.db.users ≡ store.users)
    × ((login toy request "ana@x.org" "pw" "new" prepared_world).1.db.roles ≡ store.roles)
login_succeeds_example =
    login_succeeds toy request "ana@x.org" "pw" "new" prepared_world ana user_role ana_credentials
      (settings 30 1) refl refl refl refl refl refl refl refl refl refl

fifth_failure_blocks_example :
    (brute_force_guard
      (record http_request { body_email = some "ana@x.org" })
      (record (record_failure "ana@x.org" "::1" world).1 { now = 2_000 })).0
    ≡ err (http brute_force_blocked)
fifth_failure_blocks_example =
    fifth_failure_blocks (record http_request { body_email = some "ana@x.org" }) "ana@x.org" "::1"
      world 2_000 refl refl (omega arith) (omega arith)

change_email_once_example :
    ((change_email toy "change" prepared_world).0 ≡ ok tt)
    × ((change_email toy "change" prepared_world).1.db
        ≡ changed toy request_row ana prepared_world prepared)
    × ((change_email toy "change" (change_email toy "change" prepared_world).1).0
        ≡ err (http token_expired))
change_email_once_example =
    change_email_once toy "change" prepared_world request_row ana refl refl (omega arith) refl refl
      refl

abbrev bob_signed_in : SignedIn
bob_signed_in = record {
  access_token = "signed";
  refresh_token = "signed";
  email = "bob@x.org";
  permissions = "read" ∷ [];
}

bob_verified :
    (verify_2fa toy request 2 "123456" "new" prepared_world).0 ≡ ok (signed_in bob_signed_in)
unfolding verify_2fa load_subject find_one find_one_by_user generated_token_and_refresh_token
    open_user_session create_user_session create_auth_session update_active create_refresh_token
    send_mail reset create_audit parse_permissions
bob_verified = refl

verify_2fa_sound_example : Shows toy (settings 31 2) "123456" prepared_world
verify_2fa_sound_example =
    verify_2fa_sound toy request 2 "123456" "new" prepared_world bob (settings 31 2)
      {x = signed_in bob_signed_in} refl refl refl bob_verified
