-- ===== src/Lib.antt =====
-- The services and the guards of an authentication backend on NestJS and TypeORM.
--
-- The program. Controllers pass a request through guards to `AuthService`, which signs users in
-- and out, registers them, resets passwords, runs the second factor and links OAuth accounts. It
-- calls one service for each table (users, credentials, tokens of mails, one-time codes, recovery
-- codes, sessions, refresh tokens, re-authentication tokens, failed attempts, roles, audit log) and
-- puts some of these calls into database transactions. The services share the database; one
-- service's writes are what the next one reads. Access tokens are signed with a secret of the
-- server and one of the user, so that a new password ends the user's access tokens.
--
-- The files, with the code they are about (paths from the repository's root):
--   Entities        src/modules/*/entities and src/common/enum: the rows and the enumerations
--   Errors          src/common/enum/errors/error-http-status.map.ts, src/common/exceptions
--   Permissions     src/common/utils/normalize-permissions.utils.ts
--   World           the database with its transactions, the outbox, the clock, failing calls, and
--                   the libraries; World/Rules, World/Outcomes and World/Invariants hold what
--                   actions and transactions keep
--   Attempts        src/modules/auth/attempts/attempts.service.ts
--   RefreshTokens   src/modules/auth/refresh-tokens/refresh-tokens.service.ts
--   Sessions        src/modules/auth/sessions/sessions.service.ts
--   ReAuth          src/modules/auth/re-auth/re-auth.service.ts
--   Guards          src/modules/auth/guards and src/modules/auth/decorators/auth.decorator.ts
--   Auth/SignIn     `login`, `loginById`, `__Validate2FAUser` and `__generatedTokenAndRefreshToken`
--                   of src/modules/auth/auth.service.ts
--   Auth/TwoFactor  `enable2fa`, `confirm2fa`, `verify2fa`, `disable2fa` of the same file, with
--                   src/modules/users/security/totp/totp.service.ts
--   Auth/Passwords  `register`, `verifyEmail` and the three ways to reset a password
--   Auth/Logout     `logout`, `logoutDevice`, `logoutAll`
--   Auth/Refresh    `refreshToken`
--   Auth/External   the OAuth callback, with src/modules/auth/guards/oauth/base-oauth.guard.ts and
--                   src/modules/auth/oauth/oauth.service.ts
--   Users           src/modules/users/users.service.ts: Lookup, Accounts, Profile and
--                   Listing
--   Credentials     src/modules/users/credentials/credentials.service.ts
--   Tokens          src/modules/users/tokens/tokens.service.ts
--   Security, Otps  src/modules/users/security/security.service.ts and otps/otps.service.ts
--   RecoveryCodes   src/modules/users/security-recovery-codes/security-recovery-codes.service.ts
--   OAuth           src/modules/users/oauth/oauth.service.ts, and OAuth/Strategies
--                   src/modules/auth/strategies
--   EmailChange     src/modules/users/email-change-request and src/modules/users/email-log-changes
--   UserSessions    src/modules/users/session/session.service.ts
--   Roles           src/modules/roles/roles.service.ts
--   AuditLog        src/modules/audit-log/audit-log.service.ts
--   PasswordPolicy  src/modules/auth/password-policy/password-policy.service.ts and
--                   src/common/validator/passwordPolicyConstraint.validator.ts
--   DynamicQuery    src/common/services/query/dynamic.service.ts and
--                   src/common/utils/typeorm.utils.ts; Users/Listing holds the two services that
--                   answer lists in pages
--   Requests        src/common/helpers/request-info.helper.ts, src/common/helpers/session.helper.ts,
--                   the transforms and the rules of the DTOs: what a handler reads of a request
--   Routes          src/modules/auth/auth.controller.ts, src/modules/users/users.controller.ts and
--                   the smaller controllers (Routes/Handlers): guards, pipe and handler of each
--                   endpoint
--   Lists           the endpoints of lists in pages, which read through TypeORM's repositories
--   Responses       src/common/exceptions: the bodies of answers and errors
--   Health          src/app.service.ts
--   Language        src/i18n and src/common/filters/validation.filter.ts: the language of a request
--   Config          src/config/validation.schema.ts, src/config/frontend.config.ts and
--                   src/config/mails.config.ts
--   System          runs of requests through Routes: System/Stable lists the changes that code makes
--                   of each table, System/History the runs; the other files go through the services
--                   one by one, or are about whole runs
--   Base            rows in insertion order, Boolean tests, and library names passed on
--   Tests           a small database, runs, and the theorems at concrete inputs
-- The modules below a component (Lockout, Rotation, SingleUse, Laws, ...) hold its theorems.
--
-- How code is modelled. A service method is an `Action`: it takes the world to an answer or a thrown
-- error and the world after it. A table is the list of its rows in insertion order, a lookup gives
-- the first row that fits, and a relation is the id of the other row. A world has the committed
-- database `db` and what the open transaction sees, `work`: a write through the `EntityManager`
-- changes `work` and is committed or dropped with the transaction; a write or a read through a
-- service's own repository goes to `db`, also inside a transaction. Each call of the database or the
-- mail server takes the next entry of `faults`, and fails if it says so; a theorem that asks for
-- `faults ≡ []` is one where no call fails. `try` and `catch` turn such a failure into
-- `INTERNAL_ERROR`; an error that no `try` meets and the `TypeError` of reading through `null` are
-- `crash`, whose status is 500. A condition of a query on an undefined value is no condition, as
-- TypeORM has it. A removed user is found by no lookup, and by no condition that goes through the
-- relation to users (`is_live_user`), but still occupies the unique indices. The lookups of
-- settings, credentials, linked accounts and re-authentication tokens of a user leave that join
-- out: their callers have found the user before. Ids, uuids and random codes come from the counter
-- `serial`. Times are milliseconds; the clock stands still during a call, and days are days of UTC.
-- There is no loop whose end is in question: every recursion is on a list or a number, and no fuel
-- is used.
--
-- Parameters (`Env`): the hash, bcrypt, uuids and random bytes, signing, verifying and decoding of
-- JWTs and of the OAuth state, TOTP, how the driver prints an array into a text column, and the
-- environment variables. No theorem assumes anything of them but what its hypotheses name.
--
-- A request (Requests) comes with the verdict of the validation pipe on its body: the rules of the
-- bodies are data (Requests/Rules), and class-validator applies them. `toLowerCase` is that of ASCII
-- letters. The repository of a dynamic query is a parameter, and what TypeORM documents of its pages
-- is a hypothesis. Numbers in query strings are behind `Number(...)`: naturals, which are exact,
-- `NaN`, or anything else. The objects of a query have no inherited properties: paths with names
-- such as `__proto__` or `constructor` are outside the model.
--
-- Not modelled: class-validator and the DTOs that only services fill, the texts of messages, mail
-- templates, the wiring of modules and the start, the throttler, cookies but the device's, and
-- requests that run at the same time: each call runs to its end before the next. A unique index of
-- the users refuses a row that an open transaction has written, too.
--
-- Parameters of single modules: Joi (Config), class-validator (Requests/Rules), the answer of the
-- location service (Requests/Location), the library of translations (Language, Responses), TypeORM's
-- repositories (DynamicQuery, Lists), package.json and the uptime (Health).
pub mod Base
pub mod Entities
pub mod Permissions
pub mod Errors
pub mod World
pub mod Attempts
pub mod RefreshTokens
pub mod Sessions
pub mod Security
pub mod Otps
pub mod Users
pub mod Roles
pub mod AuditLog
pub mod Config
pub mod Credentials
pub mod ReAuth
pub mod Tokens
pub mod OAuth
pub mod RecoveryCodes
pub mod UserSessions
pub mod EmailChange
pub mod Auth
pub mod Guards
pub mod Health
pub mod Language
pub mod PasswordPolicy
pub mod Requests
pub mod Responses
pub mod Routes
pub mod Lists
pub mod DynamicQuery
pub mod System
pub mod Tests
