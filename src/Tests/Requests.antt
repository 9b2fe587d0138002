-- ===== src/Tests/Requests.antt =====
-- The theorems on whole requests and on runs of them at concrete inputs.
use nestjs_auth_backend.Base.{◌≡◌, ◌≢◌, refl, true, none, some, List, [], ◌∷◌, ◌++◌}
use nestjs_auth_backend.Errors.{http, brute_force_blocked, token_not_found}
use nestjs_auth_backend.Entities.{AuditLog, AuthRefreshToken}
use nestjs_auth_backend.World.{World, Env, Payload, ok, err}
use nestjs_auth_backend.AuditLog.{find_audit}
use nestjs_auth_backend.Users.Lookup.{get_user_secret}
use nestjs_auth_backend.Guards.{
  auth, auth_guard, permission_guard, superadmin_guard, re_auth_guard, has_permissions,
}
use nestjs_auth_backend.Requests.{Incoming}
use nestjs_auth_backend.Routes.{
  done, audit_reply, refresh, sign_in, log_out_all, show_audit, change_role_of, handle_protected,
  handle_open, ask_reset,
}
use nestjs_auth_backend.System.History.{Event, open_call, protected_call, serve, run_history}
use nestjs_auth_backend.System.Revoked.{revoked_forever}
use nestjs_auth_backend.System.AuditTrail.{audit_append_only}
use nestjs_auth_backend.System.Entrance.{Admitted, handle_protected_sound}
use nestjs_auth_backend.System.Privileges.{NoSuperadmin, user_row, role_kept}
use nestjs_auth_backend.System.SignedOut.{signed_out_forever}
use nestjs_auth_backend.Auth.Logout.{logout_all, sign_out_everywhere}
use nestjs_auth_backend.RefreshTokens.{revoke_token_with_user_id, owned_by}
use nestjs_auth_backend.RefreshTokens.Rotation.{row_of_hash}
use nestjs_auth_backend.Sessions.{update_inactive_user_id}
use nestjs_auth_backend.Base.{subst, if◌then◌else◌, ap, ◌∙◌, str_eq, arith}
use nestjs_auth_backend.Entities.{User}
use nestjs_auth_backend.System.Blocking.{sign_in_blocked}
use nestjs_auth_backend.Tests.Data.{
  bob, apart, toy, world, store, stored_token, http_request, claims,
}

abbrev pub browser : Incoming
browser = record {
  http = http_request;
  forwarded_for = none;
  remote_address = some "::1";
  user_agent = some "ua";
  device_cookie = some "dev";
  is_valid = true;
}

abbrev pub stranger : Incoming
stranger = record browser { http = record http_request { bearer = none } }

-- A sign-in, a log-out on all devices while the database is out of reach, and a reset that is asked for.
abbrev pub morning : List Event
morning =
    record {
      elapsed = 10;
      outages = [];
      incoming = browser;
      call = open_call (sign_in "Ana@x.org" "pw");
    }
    ∷ record {
      elapsed = 20;
      outages = true ∷ [];
      incoming = browser;
      call = protected_call log_out_all;
    }
    ∷ record {
      elapsed = 30;
      outages = [];
      incoming = stranger;
      call = open_call (ask_reset "ana@x.org");
    }
    ∷ []

abbrev spent_token : AuthRefreshToken
spent_token = record (stored_token 7 "#jwt") { revoked = true }

abbrev later_world : World
later_world =
    let later = record store { refresh_tokens = spent_token ∷ stored_token 10 "#forged" ∷ [] } in
    record world { db = later; work = later }

revoked_forever_example :
    (serve toy
      (record { elapsed = 5; outages = []; incoming = browser; call = open_call (refresh "jwt") })
      (run_history toy morning later_world)).0
    ≢ ok done
revoked_forever_example =
    revoked_forever toy morning later_world "jwt" spent_token 5 [] browser {out = done} refl refl
      refl

audit_append_only_example :
    (later : List AuditLog) × ((run_history toy morning world).db.audit ≡ [] ++ later)
audit_append_only_example = audit_append_only toy morning world refl

-- A token of the role `super_admin`.
abbrev root_claims : Payload
root_claims = record claims { role_name = "super_admin" }

abbrev root_env : Env
root_env = record toy { jwt_verify = λ token secret now. some root_claims }

root_reads_audit : (handle_protected root_env browser (show_audit 1) world).0 ≡ ok (audit_reply [])
unfolding handle_protected auth auth_guard get_user_secret re_auth_guard permission_guard
    has_permissions superadmin_guard find_audit
root_reads_audit = refl

handle_protected_sound_example :
    ((p : Payload) × Admitted root_env browser (show_audit 1) world p) × (true ≡ true)
handle_protected_sound_example =
    handle_protected_sound root_env browser (show_audit 1) world {out = audit_reply []}
      root_reads_audit

stranger_refused : (auth_guard toy stranger.http world).0 ≡ err (http token_not_found)
unfolding auth_guard
stranger_refused = refl

sign_in_blocked_example :
    handle_open toy browser (sign_in "bob@x.org" "pw") world
    ≡ (err (http brute_force_blocked), world)
sign_in_blocked_example = sign_in_blocked toy browser "bob@x.org" "pw" world refl refl refl

-- Two tokens verify: one of the role `user`, and one of a super admin.
abbrev two_tokens : Env
two_tokens = record toy {
  jwt_verify = λ token secret now.
      if str_eq token "jwt"
      then some claims
      else if str_eq token "root"
      then some root_claims
      else none;
}

-- A user asks for another role.
abbrev promotion : List Event
promotion =
    record {
      elapsed = 5;
      outages = [];
      incoming = browser;
      call = protected_call (change_role_of 2 2);
    }
    ∷ morning

browser-NoSuperadmin : NoSuperadmin two_tokens browser
browser-NoSuperadmin token secret now p sent verified =
    let same : token ≡ "jwt" = ground arith in
    let accepted : some claims ≡ some p =
      subst (λ t. two_tokens.jwt_verify t secret now ≡ some p) same verified in
    let payload : claims ≡ p = ground arith in
    λ root. apart "user" "super_admin" refl (ap (λ x. x.role_name) payload ∙ root)

stranger-NoSuperadmin : NoSuperadmin two_tokens stranger
stranger-NoSuperadmin token secret now p sent verified = absurd (cc)

role_kept_example :
    (v : User) × (user_row 2 (run_history two_tokens promotion world).db ≡ some v) × (v.role ≡ 1)
role_kept_example =
    role_kept two_tokens promotion world 2 bob
      (
        browser-NoSuperadmin,
        (browser-NoSuperadmin, (browser-NoSuperadmin, (stranger-NoSuperadmin, tt))),
      )
      refl refl

ana_out : (logout_all 1 (some 5) world).0 ≡ ok tt
unfolding logout_all sign_out_everywhere revoke_token_with_user_id update_inactive_user_id
ana_out = refl

ana_token : row_of_hash "#jwt" (logout_all 1 (some 5) world).1.db ≡ some spent_token
unfolding logout_all sign_out_everywhere revoke_token_with_user_id update_inactive_user_id
ana_token = refl

ana_owns_token : owned_by 1 (logout_all 1 (some 5) world).1.db spent_token ≡ true
unfolding logout_all sign_out_everywhere revoke_token_with_user_id update_inactive_user_id
ana_owns_token = refl

signed_out_forever_example :
    (serve toy
      (record { elapsed = 5; outages = []; incoming = browser; call = open_call (refresh "jwt") })
      (run_history toy morning (logout_all 1 (some 5) world).1)).0
    ≢ ok done
signed_out_forever_example =
    signed_out_forever toy 1 (some 5) world morning "jwt" spent_token 5 [] browser {out = done} refl
      ana_out ana_token ana_owns_token
