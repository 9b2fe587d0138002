-- ===== src/System/Revoked.antt =====
-- A revoked refresh token stays refused: src/modules/auth/refresh-tokens and all that writes to it.
use nestjs_auth_backend.Base.{
  ℕ, ◌≡◌, ◌≢◌, refl, Bool, true, Option, some, String, List, arith, inl, inr, str_eq,
  find-update_where, find-insert_row_old, Bool-cases,
}
use nestjs_auth_backend.Entities.{AuthRefreshToken, AuthSession}
use nestjs_auth_backend.World.{World, Db, ok, Env}
use nestjs_auth_backend.World.Outcomes.{Result-cases}
use nestjs_auth_backend.RefreshTokens.{revoke_rows, revoke_refresh_token}
use nestjs_auth_backend.RefreshTokens.Rotation.{row_of_hash}
use nestjs_auth_backend.Auth.SignIn.{Request}
use nestjs_auth_backend.Auth.Refresh.{Refreshed, refresh_token}
use nestjs_auth_backend.Requests.{Incoming, request_of}
use nestjs_auth_backend.Routes.{Reply, refresh, handle_open}
use nestjs_auth_backend.System.Stable.{Stable}
use nestjs_auth_backend.System.History.{Event, open_call, serve, run_history, run_history-keeps_all}

-- The row that the hash finds is revoked.
abbrev pub IsRevoked : String → Db → Type 0
IsRevoked hash d = (t : AuthRefreshToken) × (row_of_hash hash d ≡ some t) × (t.revoked ≡ true)

IsRevoked-stable : (hash : String) → Stable (IsRevoked hash)
IsRevoked-stable hash = record {
  roles = λ d xs h. h;
  user_added = λ d u fresh h. h;
  user_saved = λ d p f same h. h;
  user_moved = λ d id email free h. h;
  user_updated = λ d id dto t email free h. h;
  credentials = λ d xs h. h;
  oauths = λ d xs h. h;
  token_added = λ d t h. h;
  tokens_used = λ d p h. h;
  securities = λ d xs h. h;
  otps = λ d xs h. h;
  recovery_codes = λ d xs h. h;
  user_sessions = λ d xs h. h;
  request_added = λ d r h. h;
  requests_used = λ d p h. h;
  log_added = λ d l h. h;
  logs_revoked = λ d p h. h;
  sessions = λ d xs h. h;
  attempts = λ d xs h. h;
  reauth_tokens = λ d xs h. h;
  revoked = λ d p h. revoke d p h.0 h.1 h.2;
  issued = λ d t h. (h.0, find-insert_row_old _ t h.0 d.refresh_tokens h.1, h.2);
  audited = λ d a h. h;
}
  where
    revoke :
        (d : Db) (p : AuthRefreshToken → Bool) (t : AuthRefreshToken)
        → row_of_hash hash d ≡ some t
        → t.revoked ≡ true
        → IsRevoked hash (revoke_rows p d)
    revoke d p t e r =
        let found =
          find-update_where (λ x. str_eq x.token hash) p (λ x. record x { revoked = true })
            d.refresh_tokens t (λ x. refl) e in
        elim (Bool-cases (p t)) [
          | inl c ↦ (record t { revoked = true }, rw c at found, refl)
          | inr c ↦ (t, rw c at found, r)
        ]

module _ (env : Env) (token : String) (w : World) (gone : IsRevoked (env.sha256 token) w.db) where
  revoke-refuses : {s : Option AuthSession} → (revoke_refresh_token env token w).0 ≢ ok s
  unfolding revoke_refresh_token
  revoke-refuses {s} h = ground (arith, gone.1, gone.2)

  refresh-refuses : (req : Request) {out : Refreshed} → (refresh_token env req token w).0 ≢ ok out
  unfolding refresh_token
  refresh-refuses req {out} h = elim (Result-cases (revoke_refresh_token env token w).0) [
    | inl (s, e) ↦ revoke-refuses e
    | inr (x, e) ↦ ground arith
  ]

  handle-refuses : (r : Incoming) {out : Reply} → (handle_open env r (refresh token) w).0 ≢ ok out
  unfolding handle_open
  handle-refuses r {out} h = elim (Result-cases (refresh_token env (request_of env r) token w).0) [
    | inl (s, e) ↦ refresh-refuses (request_of env r) e
    | inr (x, e) ↦ ground arith
  ]

-- A refresh token whose stored row is revoked is never accepted again: after any run of requests,
-- whatever they ask for, whoever sends them and whichever external calls fail, the endpoint
-- `refresh` answers the token with an error. The run starts outside a transaction.
pub revoked_forever :
    (env : Env) (es : List Event) (w : World) (token : String) (t : AuthRefreshToken) (elapsed : ℕ)
    (outages : List Bool) (r : Incoming) {out : Reply}
    → w.work ≡ w.db
    → row_of_hash (env.sha256 token) w.db ≡ some t
    → t.revoked ≡ true
    → (serve env
        (record {
          elapsed = elapsed;
          outages = outages;
          incoming = r;
          call = open_call (refresh token);
        })
        (run_history env es w)).0
      ≢ ok out
revoked_forever env es w token t elapsed outages r rest e gone =
    handle-refuses env token _
      (run_history-keeps_all _ (IsRevoked-stable (env.sha256 token))
        (record { role_set = λ d id role h. h }) env es w rest (t, e, gone))
      r
