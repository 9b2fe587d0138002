-- ===== src/System/Spent.antt =====
-- What was used or revoked stays so, over all requests: the tokens of src/modules/users/tokens, the
-- requests and logs of src/modules/users/email-change-request and email-log-changes.
use nestjs_auth_backend.Base.{
  ℕ, ◌≡◌, ◌≢◌, refl, inl, inr, Bool, true, false, some, String, List, arith, find, insert_row,
  update_where, find-update_where, find-insert_row_old, Bool-cases, str_eq,
}
use nestjs_auth_backend.Entities.{UserToken, UserEmailChangeRequest, UserEmailChangeLog}
use nestjs_auth_backend.World.{World, Result, ok, Action, ◌>>=◌, throw_if, Env}
use nestjs_auth_backend.World.Outcomes.{bind-ok}
use nestjs_auth_backend.Tokens.{token_row, find_one_by_token}
use nestjs_auth_backend.Errors.{ErrorCode}
use nestjs_auth_backend.EmailChange.{request_by_token, change_email, rollback_email}
use nestjs_auth_backend.Users.Profile
use nestjs_auth_backend.Auth.Passwords
use nestjs_auth_backend.Auth.Passwords.{reset_password_token}
use nestjs_auth_backend.Requests.{Incoming}
use nestjs_auth_backend.Routes.{
  Reply, Open, handle_open, reset_by_token, verify_address, verify_email_change,
  revoke_email_change,
}
use nestjs_auth_backend.System.Stable.{Stable}
use nestjs_auth_backend.System.History.{Event, open_call, serve, run_history, run_history-keeps_all}

-- The row that a lookup finds is done with.
abbrev pub FindsDone : {A : Type 0} → (A → Bool) → (A → Bool) → List A → Type 0
FindsDone {A} p done rows = (a : A) × (find p rows ≡ some a) × (done a ≡ true)

FindsDone-insert :
    {A : Type 0} (p done : A → Bool) (new : A) (rows : List A)
    → FindsDone p done rows
    → FindsDone p done (insert_row new rows)
FindsDone-insert p done new rows h = (h.0, find-insert_row_old p new h.0 rows h.1, h.2)

FindsDone-update :
    {A : Type 0} (p done q : A → Bool) (f : A → A) (rows : List A)
    → ((a : A) → p (f a) ≡ p a)
    → ((a : A) → done (f a) ≡ true)
    → FindsDone p done rows
    → FindsDone p done (update_where q f rows)
FindsDone-update p done q f rows same mark h =
    let found = find-update_where p q f rows h.0 same h.1 in
    elim (Bool-cases (q h.0)) [
      | inl c ↦ (f h.0, rw c at found, mark h.0)
      | inr c ↦ (h.0, rw c at found, h.2)
    ]

-- A predicate of the three tables that stands what the services do to them.
record Lasting (Q : List UserToken → List UserEmailChangeRequest → List UserEmailChangeLog → Type 0)
    : Type 0 where
  token_added :
      (t : UserToken) {a : List UserToken} {b : List UserEmailChangeRequest}
      {c : List UserEmailChangeLog}
      → Q a b c
      → Q (insert_row t a) b c
  tokens_used :
      (p : UserToken → Bool) {a : List UserToken} {b : List UserEmailChangeRequest}
      {c : List UserEmailChangeLog}
      → Q a b c
      → Q (update_where p (λ t. record t { is_used = true }) a) b c
  request_added :
      (r : UserEmailChangeRequest) {a : List UserToken} {b : List UserEmailChangeRequest}
      {c : List UserEmailChangeLog}
      → Q a b c
      → Q a (insert_row r b) c
  requests_used :
      (p : UserEmailChangeRequest → Bool) {a : List UserToken} {b : List UserEmailChangeRequest}
      {c : List UserEmailChangeLog}
      → Q a b c
      → Q a (update_where p (λ r. record r { used = true }) b) c
  log_added :
      (l : UserEmailChangeLog) {a : List UserToken} {b : List UserEmailChangeRequest}
      {c : List UserEmailChangeLog}
      → Q a b c
      → Q a b (insert_row l c)
  logs_revoked :
      (p : UserEmailChangeLog → Bool) {a : List UserToken} {b : List UserEmailChangeRequest}
      {c : List UserEmailChangeLog}
      → Q a b c
      → Q a b (update_where p (λ l. record l { revoked = true }) c)

Lasting-stable :
    (Q : List UserToken → List UserEmailChangeRequest → List UserEmailChangeLog → Type 0)
    → Lasting Q
    → Stable (λ d. Q d.tokens d.email_requests d.email_logs)
Lasting-stable Q l = record {
  roles = λ d xs h. h;
  user_added = λ d u fresh h. h;
  user_saved = λ d p f same h. h;
  user_moved = λ d id email free h. h;
  user_updated = λ d id dto t email free h. h;
  credentials = λ d xs h. h;
  oauths = λ d xs h. h;
  token_added = λ d t h. l.token_added t h;
  tokens_used = λ d p h. l.tokens_used p h;
  securities = λ d xs h. h;
  otps = λ d xs h. h;
  recovery_codes = λ d xs h. h;
  user_sessions = λ d xs h. h;
  request_added = λ d r h. l.request_added r h;
  requests_used = λ d p h. l.requests_used p h;
  log_added = λ d x h. l.log_added x h;
  logs_revoked = λ d p h. l.logs_revoked p h;
  sessions = λ d xs h. h;
  attempts = λ d xs h. h;
  reauth_tokens = λ d xs h. h;
  revoked = λ d p h. h;
  issued = λ d t h. h;
  audited = λ d a h. h;
}

-- `m` does not succeed from `w`.
record Refuses (w : World) {A : Type 0} (m : Action A) : Type 0 where
  apply : (a : A) → (m w).0 ≢ ok a

module _ (w : World) where
  Refuses-bind :
      {A B : Type 0} {m : Action A} (k : A → Action B) → Refuses w m → Refuses w (m >>= k)
  Refuses-bind {A} {B} {m} k h = record {
    apply = λ b done. let first = bind-ok m k w done in h.apply first.0 first.1;
  }

  Refuses-behind :
      {A : Type 0} (b : Bool) (c : ErrorCode) {m : Action A}
      → Refuses w m
      → Refuses w (throw_if b c >>= λ _. m)
  Refuses-behind true c h = record { apply = λ a. cc }
  Refuses-behind false c h = record { apply = λ a. h.apply a }

-- A token of a mail that is marked as used.
abbrev UsedToken :
    String → List UserToken → List UserEmailChangeRequest → List UserEmailChangeLog → Type 0
UsedToken token a b c = FindsDone (λ t. str_eq t.token token) (λ t. t.is_used) a

UsedToken-Lasting : (token : String) → Lasting (UsedToken token)
UsedToken-Lasting token = record {
  token_added = λ t {a} h. FindsDone-insert _ _ t a h;
  tokens_used = λ p {a} h. FindsDone-update _ _ p _ a (λ t. refl) (λ t. refl) h;
  request_added = λ r h. h;
  requests_used = λ p h. h;
  log_added = λ l h. h;
  logs_revoked = λ p h. h;
}

module _ (env : Env) (token : String) (w : World)
    (used : UsedToken token w.db.tokens w.db.email_requests w.db.email_logs) where
  lookup-Refuses : Refuses w (find_one_by_token token)
  unfolding find_one_by_token
  lookup-Refuses = record { apply = λ l done. ground (arith, used.1, used.2) }

  reset-Refuses :
      (r : Incoming) (p q : String) → Refuses w (handle_open env r (reset_by_token token p q))
  unfolding handle_open reset_password_token
  reset-Refuses r p q = search (Refuses-behind w, Refuses-bind w, lookup-Refuses) depth 20

  verify-Refuses : (r : Incoming) → Refuses w (handle_open env r (verify_address token))
  unfolding handle_open Passwords.verify_email Profile.verify_email
  verify-Refuses r = search (Refuses-behind w, Refuses-bind w, lookup-Refuses) depth 20

-- The request of an email change that is marked as used.
abbrev UsedRequest :
    Env → String → List UserToken → List UserEmailChangeRequest → List UserEmailChangeLog → Type 0
UsedRequest env token a b c =
    FindsDone (λ r. str_eq r.token_hash (env.sha256 token)) (λ r. r.used) b

UsedRequest-Lasting : (env : Env) (token : String) → Lasting (UsedRequest env token)
UsedRequest-Lasting env token = record {
  token_added = λ t h. h;
  tokens_used = λ p h. h;
  request_added = λ r {a} {b} h. FindsDone-insert _ _ r b h;
  requests_used = λ p {a} {b} h. FindsDone-update _ _ p _ b (λ r. refl) (λ r. refl) h;
  log_added = λ l h. h;
  logs_revoked = λ p h. h;
}

-- The log of an email change that is revoked.
abbrev RevokedLog :
    String → List UserToken → List UserEmailChangeRequest → List UserEmailChangeLog → Type 0
RevokedLog token a b c = FindsDone (λ l. str_eq l.rollback_token token) (λ l. l.revoked) c

RevokedLog-Lasting : (token : String) → Lasting (RevokedLog token)
RevokedLog-Lasting token = record {
  token_added = λ t h. h;
  tokens_used = λ p h. h;
  request_added = λ r h. h;
  requests_used = λ p h. h;
  log_added = λ l {a} {b} {c} h. FindsDone-insert _ _ l c h;
  logs_revoked = λ p {a} {b} {c} h. FindsDone-update _ _ p _ c (λ l. refl) (λ l. refl) h;
}

module _ (env : Env) (r : Incoming) (token : String) (w : World) where
  change_email-Refuses :
      UsedRequest env token w.db.tokens w.db.email_requests w.db.email_logs
      → Refuses w (change_email env token)
  unfolding change_email
  change_email-Refuses used = record { apply = λ a done. ground (arith, used.1, used.2) }

  rollback_email-Refuses :
      RevokedLog token w.db.tokens w.db.email_requests w.db.email_logs
      → Refuses w (rollback_email token)
  unfolding rollback_email
  rollback_email-Refuses gone = record { apply = λ a done. ground (arith, gone.1, gone.2) }

  change-Refuses :
      UsedRequest env token w.db.tokens w.db.email_requests w.db.email_logs
      → Refuses w (handle_open env r (verify_email_change token))
  unfolding handle_open
  change-Refuses used = search (Refuses-behind w, Refuses-bind w, change_email-Refuses) depth 20

  rollback-Refuses :
      RevokedLog token w.db.tokens w.db.email_requests w.db.email_logs
      → Refuses w (handle_open env r (revoke_email_change token))
  unfolding handle_open
  rollback-Refuses gone = search (Refuses-behind w, Refuses-bind w, rollback_email-Refuses) depth 20

-- The answer to an open request after a run.
abbrev pub answer_later : Env → List Event → World → ℕ → List Bool → Incoming → Open → Result Reply
answer_later env es w elapsed outages r call =
    (serve env
      (record { elapsed = elapsed; outages = outages; incoming = r; call = open_call call })
      (run_history env es w)).0

module _ (env : Env) (es : List Event) (w : World) (elapsed : ℕ) (outages : List Bool)
    (r : Incoming) (rest : w.work ≡ w.db) where
  -- What lasts holds when the later request comes.
  lasts :
      (Q : List UserToken → List UserEmailChangeRequest → List UserEmailChangeLog → Type 0)
      → Lasting Q
      → Q w.db.tokens w.db.email_requests w.db.email_logs
      → let d = (run_history env es w).db in Q d.tokens d.email_requests d.email_logs
  lasts Q l h =
      run_history-keeps_all _ (Lasting-stable Q l) (record { role_set = λ d id role h. h }) env es w
        rest h

  -- A token of a mail whose stored row is marked as used is never accepted again: after any run of
  -- requests, whatever they ask for, whoever sends them and whichever external calls fail, the
  -- endpoints that reset a password and that verify an address by this token answer with an error.
  -- The run starts outside a transaction.
  pub used_token_forever :
      (token p q : String) (t : UserToken)
      → token_row token w.db ≡ some t
      → t.is_used ≡ true
      → {out : Reply}
      → (answer_later env es w elapsed outages r (reset_by_token token p q) ≢ ok out)
        × (answer_later env es w elapsed outages r (verify_address token) ≢ ok out)
  used_token_forever token p q t found used {out} =
      let later = lasts (UsedToken token) (UsedToken-Lasting token) (t, found, used) in
      (
        (reset-Refuses env token _ later r p q).apply out,
        (verify-Refuses env token _ later r).apply out,
      )

  -- The token of an email change whose stored request is marked as used is never accepted again:
  -- after any run of requests, whatever they ask for, whoever sends them and whichever external
  -- calls fail, the endpoint that verifies the change by this token answers with an error. The run
  -- starts outside a transaction.
  pub used_request_forever :
      (token : String) (q : UserEmailChangeRequest)
      → request_by_token env token w.db ≡ some q
      → q.used ≡ true
      → {out : Reply} → answer_later env es w elapsed outages r (verify_email_change token) ≢ ok out
  used_request_forever token q found used {out} =
      (change-Refuses env r token _
          (lasts (UsedRequest env token) (UsedRequest-Lasting env token) (q, found, used))).apply
        out

  pub revoked_log_forever :
      (l : UserEmailChangeLog) (token : String)
      → find (λ x. str_eq x.rollback_token token) w.db.email_logs ≡ some l
      → l.revoked ≡ true
      → {out : Reply} → answer_later env es w elapsed outages r (revoke_email_change token) ≢ ok out
  revoked_log_forever l token found gone {out} =
      (rollback-Refuses env r token _
          (lasts (RevokedLog token) (RevokedLog-Lasting token) (l, found, gone))).apply
        out
