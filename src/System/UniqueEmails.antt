-- ===== src/System/UniqueEmails.antt =====
-- One account for an address, over all requests: the writes of users in
-- src/modules/users/users.service.ts and in the services of the email change.
use nestjs_auth_backend.Base.{
  ℕ, ◌≡◌, refl, sym, subst, inl, inr, Bool, false, Option, none, some, String, List, [], ◌∷◌, arith,
  eq_iff, ◌==◌, ==_iff, any, find, All, All-map, All-insert_row, find-holds, find-none-All,
  Option-cases, insert_row, update_where, if◌then◌else◌,
}
use nestjs_auth_backend.Entities.{User, IdentityType}
use nestjs_auth_backend.World.{World, Db, Env}
use nestjs_auth_backend.EmailChange.{email_taken}
use nestjs_auth_backend.Users.Accounts.{
  UserDto, update_user, violates_unique, apply_update, update_clashes,
}
use nestjs_auth_backend.System.Stable.{Stable, StableRoles}
use nestjs_auth_backend.System.History.{Event, run_history, run_history-keeps_all}

-- Rows with the same address are of the same account.
abbrev Agree : User → User → Type 0
Agree u v = u.email ≡ v.email → u.id ≡ v.id

abbrev Paired : List User → Type 0
Paired us = All (λ u. All (Agree u) us) us

-- No two accounts, removed ones included, have the same address.
abbrev pub UniqueEmails : Db → Type 0
UniqueEmails d = Paired d.users

any-false-All : (p : User → Bool) (us : List User) → any p us ≡ false → All (λ u. p u ≡ false) us
any-false-All p [] h = tt
any-false-All p (u ∷ us) h = (ground arith, any-false-All p us (ground arith))

All-rewritten :
    (P Q : User → Type 0) (p : User → Bool) (f : User → User) (us : List User)
    → ((u : User) → P u → Q (if p u then f u else u))
    → All P us
    → All Q (update_where p f us)
All-rewritten P Q p f [] keep h = tt
All-rewritten P Q p f (u ∷ us) keep h = (keep u h.0, All-rewritten P Q p f us keep h.1)

All-both : (P Q : User → Type 0) (us : List User) → All P us → All Q us → All (λ u. P u × Q u) us
All-both P Q [] h k = tt
All-both P Q (u ∷ us) h k = ((h.0, k.0), All-both P Q us h.1 k.1)

-- Rewriting rows keeps them paired, if it keeps each pair of rows with `P`.
Paired-rewritten :
    (P : User → Type 0) (p : User → Bool) (f : User → User) (us : List User)
    → ((u v : User)
        → P u
        → P v
        → Agree u v
        → Agree (if p u then f u else u) (if p v then f v else v))
    → All P us
    → Paired us
    → Paired (update_where p f us)
Paired-rewritten P p f us keep side h =
    All-rewritten (λ u. P u × All (Agree u) us) (λ u. All (Agree u) (update_where p f us)) p f us
      (λ u k.
        All-rewritten (λ v. P v × Agree u v) (Agree (if p u then f u else u)) p f us
          (λ v g. keep u v k.0 g.0 g.1) (All-both P (Agree u) us side k.1))
      (All-both P (λ u. All (Agree u) us) us side h)

All-trivial : (us : List User) → All (λ u. Unit {0}) us
All-trivial [] = tt
All-trivial (u ∷ us) = (tt, All-trivial us)

-- Rows whose id and email stay.
Paired-saved :
    (p : User → Bool) (f : User → User) (us : List User)
    → ((u : User) → ((f u).id ≡ u.id) × ((f u).email ≡ u.email))
    → Paired us
    → Paired (update_where p f us)
Paired-saved p f us same h =
    Paired-rewritten (λ u. Unit {0}) p f us (λ u v _ _ agree. kept u v agree) (All-trivial us) h
  where
    kept : (u v : User) → Agree u v → Agree (if p u then f u else u) (if p v then f v else v)
    kept u v agree e = ground (arith, same u, same v, agree)

-- The address is of nobody else.
abbrev OwnedBy : ℕ → String → User → Type 0
OwnedBy id email u = u.email ≡ email → u.id ≡ id

-- Rows of one account that get an address of nobody else.
Paired-moved :
    (id : ℕ) (email : String) (f : User → User) (us : List User)
    → ((u : User) → ((f u).id ≡ u.id) × ((f u).email ≡ email))
    → All (OwnedBy id email) us
    → Paired us
    → Paired (update_where (λ u. u.id == id) f us)
Paired-moved id email f us same own h =
    Paired-rewritten (OwnedBy id email) (λ u. u.id == id) f us kept own h
  where
    kept :
        (u v : User)
        → OwnedBy id email u
        → OwnedBy id email v
        → Agree u v
        → Agree (if u.id == id then f u else u) (if v.id == id then f v else v)
    kept u v a b agree e =
        ground (arith, same u, same v, a, b, agree, ==_iff u.id id, ==_iff v.id id)

-- What the unique indices tell of the rows where they do not refuse `n`.
violates_unique-OwnedBy :
    (n : User) (d : Db) → violates_unique n d ≡ false → All (OwnedBy n.id n.email) d.users
violates_unique-OwnedBy n d fresh =
    All-map _ (OwnedBy n.id n.email) d.users
      (λ u k e. ground (arith, k, eq_iff u.email n.email, ==_iff u.id n.id))
      (any-false-All _ d.users fresh)

Paired-added :
    (n : User) (us : List User)
    → All (OwnedBy n.id n.email) us
    → Paired us
    → Paired (insert_row n us)
Paired-added n us own h =
    All-insert_row (λ u. All (Agree u) (insert_row n us)) n us
      (All-insert_row (Agree n) n us (λ e. refl)
        (All-map _ (Agree n) us (λ u k e. sym (k (sym e))) own))
      (All-map _ _ us (λ u k. All-insert_row (Agree u) n us k.0 k.1)
        (All-both (OwnedBy n.id n.email) (λ u. All (Agree u) us) us own h))

module _ (id : ℕ) (d : Db) where
  email_taken-OwnedBy :
      (email : String) → email_taken id email d ≡ false → All (OwnedBy id email) d.users
  email_taken-OwnedBy email free =
      All-map _ (OwnedBy id email) d.users
        (λ u k e. ground (arith, k, eq_iff u.email email, ==_iff u.id id))
        (any-false-All _ d.users free)

  -- Nothing is rewritten where no row has the id.
  Paired-absent :
      (f : User → User)
      → find (λ u. u.id == id) d.users ≡ none
      → Paired d.users
      → Paired (update_where (λ u. u.id == id) f d.users)
  Paired-absent f absent h =
      Paired-rewritten (λ u. (u.id == id) ≡ false) (λ u. u.id == id) f d.users
        (λ u v a b agree. rw (a, b) agree) (find-none-All _ d.users absent) h

  Paired-updated :
      (dto : UserDto) (t : IdentityType) (email : Option String)
      → update_clashes id (apply_update dto t email) d ≡ false
      → Paired d.users
      → Paired (update_user id (apply_update dto t email) d).users
  Paired-updated dto t none free h =
      Paired-saved (λ u. u.id == id) (apply_update dto t none) d.users (λ u. (refl, refl)) h
  Paired-updated dto t (some email) free h = elim (Option-cases (find (λ u. u.id == id) d.users)) [
    | inl absent ↦ Paired-absent (apply_update dto t (some email)) absent h
    | inr (a, found) ↦
        let same : a.id ≡ id = (==_iff a.id id).0 (find-holds (λ u. u.id == id) d.users a found) in
        let fresh : violates_unique (apply_update dto t (some email) a) d ≡ false =
          rw found at free in
        Paired-moved id email (apply_update dto t (some email)) d.users (λ u. (refl, refl))
          (subst (λ i. All (OwnedBy i email) d.users) same
            (violates_unique-OwnedBy (apply_update dto t (some email) a) d fresh))
          h
  ]

UniqueEmails-stable : Stable UniqueEmails
UniqueEmails-stable = record {
  roles = λ d xs h. h;
  user_added = λ d u fresh h. Paired-added u d.users (violates_unique-OwnedBy u d fresh) h;
  user_saved = λ d p f same h. Paired-saved p f d.users (λ u. ((same u).0, (same u).2)) h;
  user_moved = λ d id email free h.
      Paired-moved id email (λ u. record u { email = email }) d.users (λ u. (refl, refl))
        (email_taken-OwnedBy id d email free) h;
  user_updated = λ d id dto t email free h. Paired-updated id d dto t email free h;
  credentials = λ d xs h. h;
  oauths = λ d xs h. h;
  token_added = λ d t h. h;
  tokens_used = λ d p h. h;
  securities = λ d xs h. h;
  otps = λ d xs h. h;
  recovery_codes = λ d xs h. h;
  user_sessions = λ d xs h. h;
  request_added = λ d r h. h;
  requests_used = λ d p h. h;
  log_added = λ d l h. h;
  logs_revoked = λ d p h. h;
  sessions = λ d xs h. h;
  attempts = λ d xs h. h;
  reauth_tokens = λ d xs h. h;
  revoked = λ d p h. h;
  issued = λ d t h. h;
  audited = λ d a h. h;
}

UniqueEmails-roles : StableRoles UniqueEmails
UniqueEmails-roles = record {
  role_set = λ d id role h.
      Paired-saved (λ u. u.id == id) (λ u. record u { role = role }) d.users (λ u. (refl, refl)) h;
}

-- No two accounts, removed ones included, ever share an email: where none do at the start, none do
-- after any run of requests, whatever they ask for, whoever sends them and whichever external
-- calls fail. The run starts outside a transaction.
pub emails_stay_unique :
    (env : Env) (es : List Event) (w : World)
    → w.work ≡ w.db
    → UniqueEmails w.db
    → UniqueEmails (run_history env es w).db
emails_stay_unique env es w rest h =
    run_history-keeps_all UniqueEmails UniqueEmails-stable UniqueEmails-roles env es w rest h
