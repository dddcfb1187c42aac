-- ===== src/Audit.antt =====
-- src/common/audit/audit.service.ts: events are only ever added.
use backendurdubolonest.Base.{ℕ, Option, String}
use backendurdubolonest.Prisma.{Prisma}
use backendurdubolonest.Http.{Action, modify}
use backendurdubolonest.Schema.{Backend, AuditEvent, AuditOutcome}

-- The fields of `AuditInput` that the handlers decide.
abbrev pub audit_input : Option ℕ → String → String → Option ℕ → AuditOutcome → ℕ → AuditEvent
audit_input actor_id action resource resource_id outcome request_id = record {
  actor_id = actor_id;
  action = action;
  resource = resource;
  resource_id = resource_id;
  outcome = outcome;
  request_id = request_id;
}

module _ (db : Prisma) where
  unfoldable pub write_audit : AuditEvent → Action Backend (Unit {0})
  unfolding modify
  write_audit input = modify λ s. record s { audit_events = db.insert input s.audit_events }
