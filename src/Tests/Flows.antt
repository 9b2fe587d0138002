-- ===== src/Tests/Flows.antt =====
-- The theorems on signing in, the guards and linking at concrete inputs.
use nestjs_auth_backend.Base.{◌+◌, ◌≡◌, ◌↔◌, refl, inl, inr, true, some, [], ◌∷◌, arith}
use nestjs_auth_backend.Errors.{http, invalid_password, crash}
use nestjs_auth_backend.World.{ok, err, Payload, send_mail}
use nestjs_auth_backend.Permissions.{parse_permissions}
use nestjs_auth_backend.Attempts.{attempt_of, reset}
use nestjs_auth_backend.Attempts.Lockout.{failures}
use nestjs_auth_backend.AuditLog.{create_audit}
use nestjs_auth_backend.UserSessions.{create_user_session}
use nestjs_auth_backend.Sessions.{create_auth_session, update_active}
use nestjs_auth_backend.RefreshTokens.{create_refresh_token}
use nestjs_auth_backend.Security.{find_one_by_user, create_security}
use nestjs_auth_backend.Users.Lookup.{find_one, find_one_by_email, get_user_secret}
use nestjs_auth_backend.Auth.SignIn.{
  SignedIn, signed_in, login, validate_2fa_user, second_factor, generated_token_and_refresh_token,
  open_user_session,
}
use nestjs_auth_backend.Auth.SignIn.Laws.{MaySignIn, login_sound, login_wrong_password, grants_of}
use nestjs_auth_backend.Guards.{permission_guard, auth_guard}
use nestjs_auth_backend.Guards.Decisions.{IsPermitted, permission_guard_iff}
use nestjs_auth_backend.Auth.External.{handle_oauth_callback}
use nestjs_auth_backend.Auth.External.Laws.{link_callback_foreign}
use nestjs_auth_backend.Tests.Data.{
  toy, world, store, ana, bob, ana_credentials, bob_google, request, http_request, claims, profile,
  apart,
}

abbrev ana_signed_in : SignedIn
ana_signed_in = record {
  access_token = "signed";
  refresh_token = "signed";
  email = "ana@x.org";
  permissions = "read" ∷ [];
}

ana_may_sign_in : (login toy request "ana@x.org" "pw" "dev" world).0 ≡ ok (signed_in ana_signed_in)
unfolding login find_one_by_email validate_2fa_user second_factor find_one_by_user create_security
    generated_token_and_refresh_token open_user_session create_user_session find_one
    create_auth_session update_active create_refresh_token send_mail reset create_audit
    parse_permissions
ana_may_sign_in = refl

login_sound_example : MaySignIn toy "ana@x.org" "pw" store
login_sound_example =
    login_sound toy request "ana@x.org" "pw" "dev" world {x = ana_signed_in} ana_may_sign_in

login_wrong_password_example :
    ((login toy request "ana@x.org" "no" "dev" world).0 ≡ err (http invalid_password))
    × (failures (attempt_of "ana@x.org" (login toy request "ana@x.org" "no" "dev" world).1.db)
        ≡ failures (attempt_of "ana@x.org" store) + 1)
    × (grants_of (login toy request "ana@x.org" "no" "dev" world).1.db ≡ grants_of store)
login_wrong_password_example =
    login_wrong_password toy request "ana@x.org" "no" "dev" world ana ana_credentials refl refl refl
      refl

permission_guard_iff_example :
    ((permission_guard ("read" ∷ []) (some claims) world).0 ≡ ok true)
    ↔ IsPermitted ("read" ∷ []) claims
permission_guard_iff_example = permission_guard_iff ("read" ∷ []) claims world

not-IsPermitted : ¬ IsPermitted ("write" ∷ []) claims
not-IsPermitted (inl e) = apart "user" "super_admin" refl e
not-IsPermitted (inr (inl e)) = ground arith
not-IsPermitted (inr (inr e)) = ground arith

ana_passes : (auth_guard toy http_request world).0 ≡ ok claims
unfolding auth_guard get_user_secret
ana_passes = refl

-- The payload of user 2, with the token of user 1.
abbrev other_claims : Payload
other_claims = record {
  sub = 2;
  session_id = 6;
  email = "bob@x.org";
  role_name = "user";
  permissions = [];
}

link_callback_foreign_example :
    handle_oauth_callback toy request (profile "g2") "bob" "dev" world ≡ (err crash, world)
link_callback_foreign_example =
    link_callback_foreign toy request (profile "g2") "bob" "dev" world 1 ana bob bob_google refl
      refl refl refl refl (omega arith)
