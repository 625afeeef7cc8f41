-- ===== src/Domain/Event.antt =====
-- core/events and core/domain/IDomainEvent.ts. The time `occurredOn` is left out: nothing reads it.
use bankos.Prelude.{String, Option, none, some}

pub data DomainEvent : Type 0 where
  user_registered : (user_id email : String) → DomainEvent
  user_logged_in : (user_id ip_address user_agent : String) → DomainEvent
  user_locked : (user_id reason : String) → DomainEvent
  password_changed : (user_id : String) → DomainEvent
  password_reset_requested : (user_id : String) → DomainEvent
  email_verified : (user_id : String) → DomainEvent
  token_revoked : (token_id user_id reason : String) → DomainEvent
  role_created : (role_id role_name : String) → DomainEvent
  role_deleted : (role_id role_name : String) → DomainEvent
  role_assigned_to_user : (user_id role_id : String) → DomainEvent
  role_removed_from_user : (user_id role_id : String) → DomainEvent
  permission_created : (permission_id resource action : String) → DomainEvent
  permission_assigned : (role_id permission_id : String) → DomainEvent
  permission_removed : (role_id permission_id : String) → DomainEvent
  authorization_denied : (user_id required_policy : String) (resource : Option String) → DomainEvent

pub record Metadata : Type 0 where
  pub ip_address : String
  pub user_agent : String

pub record Event : Type 0 where
  pub body : DomainEvent
  pub metadata : Option Metadata

-- `new UserRegistered(…)` and its like: `metadata` is not set.
abbrev pub new_event : DomainEvent → Event
new_event body = record { body = body; metadata = none }

-- `eventName`; the events of the role administration and of denied requests have the empty name.
unfoldable pub event_name : DomainEvent → String
event_name (user_registered _ _) = "UserRegistered"
event_name (user_logged_in _ _ _) = "UserLoggedIn"
event_name (user_locked _ _) = "UserLocked"
event_name (password_changed _) = "PasswordChanged"
event_name (password_reset_requested _) = "PasswordResetRequested"
event_name (email_verified _) = "EmailVerified"
event_name (token_revoked _ _ _) = "TokenRevoked"
event_name _ = ""

-- `for (const event of events) event.metadata = …`
unfoldable pub with_metadata : Metadata → Event → Event
with_metadata meta event = record event { metadata = some meta }
