-- ===== src/AuditLog.antt =====
-- src/modules/audit-log/audit-log.service.ts.
use nestjs_auth_backend.Base.{ℕ, List, ◌==◌, when_some, select, insert_row}
use nestjs_auth_backend.Entities.{AuditLog}
use nestjs_auth_backend.World.{Action, query, execute, try_catch, direct}

-- `create`
unfoldable pub create_audit : AuditLog → Action (Unit {0})
create_audit row = try_catch (execute direct (λ d. record d { audit = insert_row row d.audit }))

-- `findOne`
unfoldable pub find_audit : ℕ → Action (List AuditLog)
find_audit user_id =
    try_catch (query direct (λ d. select (λ a. when_some a.actor_id (λ i. i == user_id)) d.audit))
