-- ===== src/Tests/Stores.antt =====
-- The theorems on attempts, one-time codes, re-authentication tokens and mails at concrete inputs.
use nestjs_auth_backend.Base.{
  ◌+◌, ◌≤◌, ◌≡◌, refl, true, false, none, some, List, [], ◌∷◌, arith, if◌then◌else◌, leb, All,
  select, length, ◌==◌,
}
use nestjs_auth_backend.Entities.{otp_email}
use nestjs_auth_backend.World.{ok}
use nestjs_auth_backend.Attempts.{calculate_block, one_day}
use nestjs_auth_backend.Attempts.Lockout.{block_length, calculate_block_lem}
use nestjs_auth_backend.Otps.{create_otp, verify_otps}
use nestjs_auth_backend.Otps.SingleUse.{pending_codes, create_otp_only, verify_otps_once, new_otp}
use nestjs_auth_backend.RecoveryCodes.{use_code, generate}
use nestjs_auth_backend.RecoveryCodes.Single.{use_code_once, generate_replaces}
use nestjs_auth_backend.Entities.{UserSecurityRecoveryCodes}
use nestjs_auth_backend.Tests.Data.{toy, world, bob, ana_otp, bob_security, bob_code}

calculate_block_lem_example :
    (block_length 5 ≤ block_length 12)
    × (block_length 12 ≤ one_day)
    × (calculate_block 1_000 12 ≡ (if leb 5 12 then some (1_000 + block_length 12) else none))
calculate_block_lem_example = calculate_block_lem 1_000 5 12 (omega arith)

create_otp_only_example :
    ((create_otp toy 1 otp_email world).0 ≡ ok "c0de")
    × (pending_codes 1 otp_email (create_otp toy 1 otp_email world).1.db
        ≡ new_otp toy 1 otp_email world ∷ [])
create_otp_only_example = create_otp_only toy 1 otp_email world refl

verify_otps_once_example :
    ((verify_otps toy 1 otp_email "123456" world).0 ≡ ok true)
    × ((verify_otps toy 1 otp_email "123456" (verify_otps toy 1 otp_email "123456" world).1).0
        ≡ ok false)
verify_otps_once_example =
    verify_otps_once toy 1 otp_email world refl ana_otp "123456" "123456" refl refl (omega arith)
      (omega arith) refl

use_code_once_example :
    ((use_code 2 " aabb " world).0 ≡ ok true)
    × ((use_code 2 " aabb " (use_code 2 " aabb " world).1).0 ≡ ok false)
use_code_once_example =
    use_code_once 2 " aabb " world bob bob_security bob_code refl refl refl refl refl

generate_replaces_example :
    (codes : List UserSecurityRecoveryCodes) × ((generate toy 2 world).0 ≡ ok codes)
    × (length codes ≡ 10)
    × All (λ r. r.used ≡ false) codes
    × (select (λ r. r.user_security == 6) (generate toy 2 world).1.db.recovery_codes ≡ codes)
generate_replaces_example = generate_replaces toy 2 world bob bob_security refl refl refl refl
