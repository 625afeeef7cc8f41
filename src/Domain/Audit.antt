-- ===== src/Domain/Audit.antt =====
-- core/domain/AuditEvent.ts. The payload is the list of its entries.
use bankos.Prelude.{ℕ, String, Option, List}

pub record AuditEvent : Type 0 where
  pub id : String
  pub event_type : String
  pub user_id : Option String
  pub payload : List (String × String)
  pub ip_address : String
  pub user_agent : String
  pub timestamp : ℕ
