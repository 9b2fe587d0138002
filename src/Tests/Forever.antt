-- ===== src/Tests/Forever.antt =====
-- Witnesses of what holds after whole runs, and of the links of the mails.
use nestjs_auth_backend.Base.{select, ◌==◌, ◌≡◌, ◌≢◌, refl, true, some, [], ◌∷◌, arith}
use nestjs_auth_backend.Entities.{UserToken, AuthRefreshToken, UserEmailChangeRequest, AuthSession}
use nestjs_auth_backend.World.{Env, Payload, World, ok, send_mail}
use nestjs_auth_backend.Routes.{
  user_reply, show_me, handle_protected, done, refresh, reset_by_token, verify_address,
  verify_email_change,
}
use nestjs_auth_backend.EmailChange.{change_email, rollback_email, set_email}
use nestjs_auth_backend.EmailChange.RoundTrip.{rollback_email-change_email}
use nestjs_auth_backend.Auth.SignIn.{login, payload_of}
use nestjs_auth_backend.Auth.Refresh.{refresh_token}
use nestjs_auth_backend.Auth.Refresh.Renewal.{later_than, refresh_token-login}
use nestjs_auth_backend.System.FirstSteps.{show_me-login}
use nestjs_auth_backend.System.History.{open_call, serve, run_history}
use nestjs_auth_backend.System.UniqueEmails.{UniqueEmails, emails_stay_unique}
use nestjs_auth_backend.System.PasswordReset.{reset_signs_out_forever}
use nestjs_auth_backend.System.Spent.{answer_later, used_token_forever, used_request_forever}
use nestjs_auth_backend.Auth.Passwords.{reset_password_token, replace_password, replace_steps}
use nestjs_auth_backend.Tokens.{update_token_is_used, find_one_by_token, LoadedUserToken}
use nestjs_auth_backend.AuditLog.{create_audit}
use nestjs_auth_backend.Credentials.{update_credentials}
use nestjs_auth_backend.Users.Lookup.{find_user_by_email}
use nestjs_auth_backend.Users.Accounts.{update_password}
use nestjs_auth_backend.Auth.Logout.{logout_all, sign_out_everywhere}
use nestjs_auth_backend.Sessions.{find_by_session_id, update_inactive_user_id}
use nestjs_auth_backend.RefreshTokens.{owned_by, revoke_token_with_user_id}
use nestjs_auth_backend.RefreshTokens.Rotation.{row_of_hash}
use nestjs_auth_backend.Tests.Data.{
  toy, world, store, ana, bob, apart, reset_mail, ana_session, stored_token, request, user_role,
  ana_credentials, http_request,
}
use nestjs_auth_backend.Tests.Requests.{browser, morning}
use nestjs_auth_backend.Tests.Changes.{settings, prepared_world, prepared, request_row}

store-UniqueEmails : UniqueEmails store
store-UniqueEmails = (
  (λ e. refl, (λ e. absurd (apart "ana@x.org" "bob@x.org" refl e), tt)),
  ((λ e. absurd (apart "bob@x.org" "ana@x.org" refl e), (λ e. refl, tt)), tt),
)

emails_stay_unique_example : UniqueEmails (run_history toy morning world).db
emails_stay_unique_example = emails_stay_unique toy morning world refl store-UniqueEmails

-- The mail's token is used, and so is the request of the change.
abbrev used_mail : UserToken
used_mail = record reset_mail { is_used = true }

abbrev used_request : UserEmailChangeRequest
used_request = record request_row { used = true }

abbrev used_world : World
used_world =
    let later = record store { tokens = used_mail ∷ []; email_requests = used_request ∷ [] } in
    record world { db = later; work = later }

used_token_forever_example :
    (answer_later toy morning used_world 5 [] browser (reset_by_token "reset" "new" "new")
      ≢ ok done)
    × (answer_later toy morning used_world 5 [] browser (verify_address "reset") ≢ ok done)
used_token_forever_example =
    used_token_forever toy morning used_world 5 [] browser refl "reset" "new" "new" used_mail refl
      refl {out = done}

used_request_forever_example :
    answer_later toy morning used_world 5 [] browser (verify_email_change "change") ≢ ok done
used_request_forever_example =
    used_request_forever toy morning used_world 5 [] browser refl "change" used_request refl refl
      {out = done}

-- Bob has a session, a refresh token and a mail that resets his password.
abbrev bob_session : AuthSession
bob_session = record ana_session { user = 2 }

abbrev bob_world : World
bob_world =
    let later = record store { sessions = bob_session ∷ [] } in
    record world { db = later; work = later }

abbrev bob_token : AuthRefreshToken
bob_token = record (stored_token 7 "#jwt") { revoked = true }

abbrev bob_mail : LoadedUserToken
bob_mail = record { row = reset_mail; user = some bob }

mail_found : (find_one_by_token "reset" bob_world).0 ≡ ok bob_mail
unfolding find_one_by_token
mail_found = refl

bob_out :
    ((reset_password_token toy request "reset" "new" "new" bob_world).0 ≡ ok tt)
    × (row_of_hash "#jwt" (reset_password_token toy request "reset" "new" "new" bob_world).1.db
        ≡ some bob_token)
    × (owned_by 2 (reset_password_token toy request "reset" "new" "new" bob_world).1.db bob_token
        ≡ true)
unfolding reset_password_token find_one_by_token replace_password replace_steps send_mail
    update_credentials update_password update_token_is_used logout_all sign_out_everywhere
    revoke_token_with_user_id update_inactive_user_id create_audit find_user_by_email
    find_by_session_id
bob_out = (refl, refl, refl)

reset_signs_out_forever_example :
    (serve toy
      (record { elapsed = 5; outages = []; incoming = browser; call = open_call (refresh "jwt") })
      (run_history toy morning
        (reset_password_token toy request "reset" "new" "new" bob_world).1)).0
    ≢ ok done
reset_signs_out_forever_example =
    reset_signs_out_forever toy request "reset" "new" "new" bob_world bob_mail bob morning "jwt"
      bob_token 5 [] browser {reply = done} mail_found refl bob_out.0 bob_out.1 bob_out.2

rollback_email-change_email_example :
    ((rollback_email "uuid" (change_email toy "change" prepared_world).1).0 ≡ ok tt)
    × ((rollback_email "uuid" (change_email toy "change" prepared_world).1).1.db.users
        ≡ (set_email 1 "ana@x.org" prepared).users)
rollback_email-change_email_example =
    rollback_email-change_email toy "change" prepared_world request_row ana refl refl (omega arith)
      refl refl refl refl refl

-- JWTs that verify and decode to what the sign-in of Ana signs.
abbrev ana_payload : Payload
ana_payload = payload_of ana user_role 101

abbrev jwt_toy : Env
jwt_toy = record toy {
  jwt_verify = λ token secret now. some ana_payload;
  jwt_decode = λ token. some ana_payload;
}

refresh_token-login_example :
    (refresh_token jwt_toy request "signed"
      (later_than 9_000 (login jwt_toy request "ana@x.org" "pw" "new" prepared_world).1)).0
    ≡ ok (record { access_token = "signed"; refresh_token = "signed" })
refresh_token-login_example =
    refresh_token-login jwt_toy request "ana@x.org" "pw" "new" prepared_world ana user_role
      ana_credentials (settings 30 1) 9_000 request ana_payload refl refl refl refl refl refl refl
      refl refl refl refl refl refl refl refl (omega arith)

show_me-login_example :
    (handle_protected jwt_toy
      (record browser { http = record http_request { bearer = some "signed" } })
      show_me
      (later_than 9_000 (login jwt_toy request "ana@x.org" "pw" "new" prepared_world).1)).0
    ≡ ok (
        user_reply
          (record { row = ana; role = some user_role })
          (select
            (λ o. o.user == 1)
            (login jwt_toy request "ana@x.org" "pw" "new" prepared_world).1.db.oauths))
show_me-login_example =
    show_me-login jwt_toy request "ana@x.org" "pw" "new" prepared_world ana user_role
      ana_credentials (settings 30 1) 9_000
      (record browser { http = record http_request { bearer = some "signed" } }) refl refl refl refl
      refl refl refl refl refl refl refl refl refl refl refl refl
