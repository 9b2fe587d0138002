-- ===== src/System/SignedOut.antt =====
-- Logging out on all devices, over whole runs: `logoutAll` of src/modules/auth/auth.service.ts.
use nestjs_auth_backend.Base.{
  ℕ, inl, inr, ◌≡◌, ◌≢◌, Bool, true, Option, some, String, List, arith, find-All, ap, ◌∙◌, find,
  is_some, not, ◌&&◌, ◌==◌, refl,
}
use nestjs_auth_backend.Entities.{AuthRefreshToken, User}
use nestjs_auth_backend.World.{World, Db, Result, ok, err, Action, ◌>>=◌, manager, transaction, Env}
use nestjs_auth_backend.World.Outcomes.{Result-cases}
use nestjs_auth_backend.RefreshTokens.{token_of_user, owned_by, revoke_token_with_user_id}
use nestjs_auth_backend.Users.Lookup.{is_live_user}
use nestjs_auth_backend.Sessions.{update_inactive_user_id}
use nestjs_auth_backend.RefreshTokens.Rotation.{row_of_hash, NoLiveToken}
use nestjs_auth_backend.Auth.Logout.{logout_all, look_up_unless, sign_out_everywhere}
use nestjs_auth_backend.Auth.Logout.Laws.{CutOff, logout_all-CutOff, logout_all-users}
use nestjs_auth_backend.Requests.{Incoming}
use nestjs_auth_backend.Routes.{Reply, refresh}
use nestjs_auth_backend.System.History.{Event, open_call, serve, run_history}
use nestjs_auth_backend.System.Revoked.{revoked_forever}

-- Between transactions both views are the same.
transaction-rest :
    {A : Type 0} (m : Action A) (w : World) → (transaction m w).1.work ≡ (transaction m w).1.db
transaction-rest m w = ground arith

pub logout_all-rest :
    (user_id : ℕ) (session_id : Option ℕ) (w : World)
    → (logout_all user_id session_id w).0 ≡ ok tt
    → (logout_all user_id session_id w).1.work ≡ (logout_all user_id session_id w).1.db
unfolding logout_all sign_out_everywhere
logout_all-rest user_id session_id w h = elim (Result-cases (look_up_unless session_id w).0) [
  | inl (a, e) ↦
      let rest =
        transaction-rest
          (revoke_token_with_user_id manager user_id >>= λ _.
            update_inactive_user_id manager user_id)
          (look_up_unless session_id w).1 in
      ground (arith, rest)
  | inr (x, failed) ↦ absurd (ground arith)
]

pub CutOff-ok :
    (user_id : ℕ) (before : Db) (r : Result (Unit {0}) × World)
    → r.0 ≡ ok tt
    → CutOff user_id before r
    → NoLiveToken user_id r.1.db
CutOff-ok user_id before (ok _, w) e h = h.0
CutOff-ok user_id before (err x, w) e h = absurd (cc)

-- After a log-out on all devices that succeeded, for a user who is not removed, no refresh token
-- of the user's sessions is accepted again by the endpoint `refresh`, after whatever run of
-- requests and whichever external calls fail.
pub signed_out_forever :
    (env : Env) (user_id : ℕ) (session_id : Option ℕ) (w : World) (es : List Event) (token : String)
    (t : AuthRefreshToken) (elapsed : ℕ) (outages : List Bool) (r : Incoming) {out : Reply}
    → is_live_user user_id w.db ≡ true
    → (logout_all user_id session_id w).0 ≡ ok tt
    → row_of_hash (env.sha256 token) (logout_all user_id session_id w).1.db ≡ some t
    → owned_by user_id (logout_all user_id session_id w).1.db t ≡ true
    → (serve env
        (record {
          elapsed = elapsed;
          outages = outages;
          incoming = r;
          call = open_call (refresh token);
        })
        (run_history env es (logout_all user_id session_id w).1)).0
      ≢ ok out
signed_out_forever env user_id session_id w es token t elapsed outages r {out} live done found own =
    let after = (logout_all user_id session_id w).1 in
    let dead : NoLiveToken user_id after.db =
      CutOff-ok user_id w.db (logout_all user_id session_id w) done
        (logout_all-CutOff user_id session_id w) in
    let there : is_live_user user_id after.db ≡ true =
      ap (λ us. is_some (find (λ (u : User). u.id == user_id && not (is_some u.deleted_at)) us))
        (logout_all-users user_id session_id w)
      ∙ live in
    revoked_forever env es after token t elapsed outages r {out = out}
      (logout_all-rest user_id session_id w done) found
      (find-All (λ x. token_of_user user_id after.db x ≡ true → x.revoked ≡ true) _
        after.db.refresh_tokens t dead found (rw (own, there) refl))
