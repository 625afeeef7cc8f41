-- ===== src/Repository/AuditLog.antt =====
-- repositories/PrismaAuditRepository.ts.
use bankos.Domain.Audit.{AuditEvent}
use bankos.Database.Mapper.{to_prisma_audit_event}
use bankos.Runtime.Packages.{Packages}
use bankos.Runtime.Action.{Action, stored, database_error}

module _ (env : Packages) where
  unfoldable pub save : AuditEvent → Action (Unit {0})
  save event w =
      stored (env.prisma.audit_event.create (to_prisma_audit_event event) w.audit)
        (λ t. record w { audit = t }) database_error w
