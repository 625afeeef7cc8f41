-- ===== src/Events.antt =====
-- infrastructure/events: the dispatcher, and the handler for the audit log.
pub mod Untouched
pub mod Metrics
use bankos.Prelude.{String, Option, none, some, List, [], ◌∷◌, ◌===◌, if◌then◌else◌}
use bankos.Domain.Event.{
  DomainEvent, user_registered, user_logged_in, user_locked, password_changed,
  password_reset_requested, email_verified, token_revoked, role_assigned_to_user,
  role_removed_from_user, authorization_denied, Event, Metadata, event_name,
}
use bankos.Repository.AuditLog as AuditLog
use bankos.Runtime.Packages.{Packages}
use bankos.Runtime.Action.{Action, now, generate_uuid, ◌>>=◌, for_each}

-- `event.metadata?.ipAddress || 'unknown'`
unfoldable pub known : (Metadata → String) → Option Metadata → String
known f none = "unknown"
known f (some meta) = if f meta === "" then "unknown" else f meta

-- The user of an event, where it has the field `userId`, and 'system' otherwise.
unfoldable pub target_user : DomainEvent → String
target_user (user_registered user_id _) = user_id
target_user (user_logged_in user_id _ _) = user_id
target_user (user_locked user_id _) = user_id
target_user (password_changed user_id) = user_id
target_user (password_reset_requested user_id) = user_id
target_user (email_verified user_id) = user_id
target_user (token_revoked _ user_id _) = user_id
target_user (role_assigned_to_user user_id _) = user_id
target_user (role_removed_from_user user_id _) = user_id
target_user (authorization_denied user_id _ _) = user_id
target_user _ = "system"

unfoldable pub details : DomainEvent → List (String × String)
details (user_registered _ email) = ("email", email) ∷ []
details (user_logged_in _ ip_address user_agent) =
    ("ipAddress", ip_address) ∷ ("userAgent", user_agent) ∷ []
details _ = []

module _ (env : Packages) where
  -- `AuditEventHandler.handle`
  unfoldable pub audit_handle : Event → Action (Unit {0})
  audit_handle event = do
    id ← generate_uuid env
    t ← now env
    AuditLog.save env (record {
      id = id;
      event_type = event_name event.body;
      user_id = some (target_user event.body);
      payload = details event.body;
      ip_address = known (λ m. m.ip_address) event.metadata;
      user_agent = known (λ m. m.user_agent) event.metadata;
      timestamp = t;
    })

  unfoldable pub handle_all : List (Event → Action (Unit {0})) → Event → Action (Unit {0})
  handle_all handlers event = for_each (λ handle. handle event) handlers

  -- `DomainEventDispatcher.dispatch`: each event goes to each handler, in their order.
  unfoldable pub dispatch_to : List (Event → Action (Unit {0})) → List Event → Action (Unit {0})
  dispatch_to handlers events = for_each (handle_all handlers) events

  -- The dispatcher of the authentication routes has the audit handler alone.
  unfoldable pub dispatch : List Event → Action (Unit {0})
  dispatch events = dispatch_to (audit_handle ∷ []) events
