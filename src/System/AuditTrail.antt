-- ===== src/System/AuditTrail.antt =====
-- The audit log of src/modules/audit-log over all requests.
use mathlib.Core.List.{append_assoc}
use nestjs_auth_backend.Base.{◌≡◌, refl, ◌∙◌, ap, List, [], ◌∷◌, ◌++◌, insert_row}
use nestjs_auth_backend.Entities.{AuditLog}
use nestjs_auth_backend.World.{World, Db, Env}
use nestjs_auth_backend.System.Stable.{Stable}
use nestjs_auth_backend.System.History.{Event, run_history, run_history-keeps_all}

-- The log begins with these rows.
abbrev pub Extends : List AuditLog → Db → Type 0
Extends old d = (later : List AuditLog) × (d.audit ≡ old ++ later)

append_nil : (xs : List AuditLog) → xs ≡ xs ++ []
append_nil [] = refl
append_nil (x ∷ xs) = ap (λ ys. x ∷ ys) (append_nil xs)

Extends-stable : (old : List AuditLog) → Stable (Extends old)
Extends-stable old = record {
  roles = λ d xs h. h;
  user_added = λ d u fresh h. h;
  user_saved = λ d p f same h. h;
  user_moved = λ d id email free h. h;
  user_updated = λ d id dto t email free h. h;
  credentials = λ d xs h. h;
  oauths = λ d xs h. h;
  token_added = λ d t h. h;
  tokens_used = λ d p h. h;
  securities = λ d xs h. h;
  otps = λ d xs h. h;
  recovery_codes = λ d xs h. h;
  user_sessions = λ d xs h. h;
  request_added = λ d r h. h;
  requests_used = λ d p h. h;
  log_added = λ d l h. h;
  logs_revoked = λ d p h. h;
  sessions = λ d xs h. h;
  attempts = λ d xs h. h;
  reauth_tokens = λ d xs h. h;
  revoked = λ d p h. h;
  issued = λ d t h. h;
  audited = λ d a h. (insert_row a h.0, ap (insert_row a) h.1 ∙ append_assoc old h.0 (a ∷ []));
}

-- The audit log is append-only: after any run of requests, whatever they ask for, whoever sends
-- them and whichever external calls fail, the rows that were there still are, unchanged and in
-- their places, and new rows stand behind them. The run starts outside a transaction.
pub audit_append_only :
    (env : Env) (es : List Event) (w : World)
    → w.work ≡ w.db
    → (later : List AuditLog) × ((run_history env es w).db.audit ≡ w.db.audit ++ later)
audit_append_only env es w rest =
    run_history-keeps_all _ (Extends-stable w.db.audit) (record { role_set = λ d id role h. h }) env
      es w rest ([], append_nil w.db.audit)
