-- ===== src/Health.antt =====
-- The health check: src/app.service.ts and src/app.controller.ts.
use nestjs_auth_backend.Base.{
  ℕ, Bool, true, false, not, ◌&&◌, Option, some, String, List, [], ◌∷◌, ◌≡◌, refl, arith,
  if◌then◌else◌,
}
use nestjs_auth_backend.World.{World, Result, ok, err, external}
use nestjs_auth_backend.Responses.{Body, ok_response}
use nestjs_auth_backend.Requests.{or_text}
use nestjs_auth_backend.Language.{LanguageSettings, is_enabled, fallback, supported_languages}

pub data ServiceStatus : Type 0 where
  up down : ServiceStatus

abbrev pub is_up : ServiceStatus → Bool
is_up up = true
is_up down = false

pub record Checks : Type 0 where
  pub database : ServiceStatus

-- `Object.values(checks)`
abbrev pub check_values : Checks → List ServiceStatus
check_values c = c.database ∷ []

-- `every((status) => status === 'up')`
abbrev pub all_up : List ServiceStatus → Bool
all_up [] = true
all_up (s ∷ rest) = is_up s && all_up rest

pub record LanguageReport : Type 0 where
  pub is_active : Bool
  pub default : String
  pub supported : List String

pub record Health : Type 0 where
  pub status : String
  pub service : String
  pub version : String
  pub uptime : ℕ
  pub checks : Checks
  pub timestamp : ℕ
  pub supported_languages : LanguageReport

pub record Meta : Type 0 where
  pub language : String
  pub framework : String

-- What the handler ends with: an answer of status 200, or a `ServiceUnavailableException`, whose
-- status is 503.
pub data HealthAnswer : Type 0 where
  available : Body Health Meta → HealthAnswer
  service_unavailable : Health → HealthAnswer

abbrev pub answer_status : HealthAnswer → ℕ
answer_status (available body) = 200
answer_status (service_unavailable health) = 503

abbrev pub status_of : Result (Unit {0}) → ServiceStatus
status_of (ok _) = up
status_of (err _) = down

-- `checkDatabase`: one query, whose failure is caught.
unfoldable pub check_database : World → ServiceStatus × World
check_database w = (status_of (external w).0, (external w).1)

-- Whether the next external call fails.
abbrev pub next_fails : List Bool → Bool
next_fails [] = false
next_fails (f ∷ rest) = f

abbrev pub reported : HealthAnswer → Option Health
reported (available body) = body.payload
reported (service_unavailable health) = some health

-- `package.json` and `process.uptime()` are parameters, and the language of the i18n context.
module _ (name version : String) (uptime : ℕ) (s : LanguageSettings) (lang : String) where
  abbrev pub language_report : LanguageReport
  language_report =
      let default = or_text lang (fallback s) in
      record {
        is_active = is_enabled s;
        default = default;
        supported = if is_enabled s then supported_languages else default ∷ [];
      }

  abbrev pub health_of : Checks → ℕ → Health
  health_of checks now = record {
    status = if all_up (check_values checks) then "ok" else "error";
    service = name;
    version = version;
    uptime = uptime;
    checks = checks;
    timestamp = now;
    supported_languages = language_report;
  }

  -- `getHealthStatus`
  unfoldable pub get_health_status : World → HealthAnswer × World
  unfolding check_database
  get_health_status w =
      let (database, w') = check_database w in
      let health = health_of (record { database = database }) w'.now in
      (
        if not (all_up (database ∷ []))
            then service_unavailable health
            else available (
                ok_response health
                  (some (record { language = "typescript"; framework = "nestjs" }))),
        w',
      )

  -- The status of the answer, and what its body says of the service and of the database.
  abbrev pub Reports : ℕ → String → ServiceStatus → HealthAnswer → Type 0
  Reports code status database a =
      (h : Health) × (answer_status a ≡ code)
      × (reported a ≡ some h)
      × (h.status ≡ status)
      × (h.checks.database ≡ database)
      × (h.supported_languages ≡ language_report)

  abbrev pub Told : Bool → HealthAnswer → Type 0
  Told false = Reports 200 "ok" up
  Told true = Reports 503 "error" down

  told :
      (faults : List Bool) (w : World)
      → w.faults ≡ faults
      → Told (next_fails faults) (get_health_status w).0
  unfolding get_health_status check_database
  told [] w e =
      let h = health_of (record { database = up }) w.now in
      (h, ground arith, ground arith, refl, refl, refl)
  told (true ∷ rest) w e =
      let h = health_of (record { database = down }) w.now in
      (h, ground arith, ground arith, refl, refl, refl)
  told (false ∷ rest) w e =
      let h = health_of (record { database = up }) w.now in
      (h, ground arith, ground arith, refl, refl, refl)

  -- The health check tells the state of the database: where the next external call does not fail,
  -- the answer has status 200, and its body says `ok` and that the database is up; where it fails,
  -- the answer has status 503, and its body says `error` and that the database is down. Both
  -- bodies report the same languages, and nothing is committed.
  pub get_health_status-Told :
      (w : World)
      → Told (next_fails w.faults) (get_health_status w).0 × ((get_health_status w).1.db ≡ w.db)
  unfolding get_health_status check_database
  get_health_status-Told w = (told w.faults w refl, ground arith)
