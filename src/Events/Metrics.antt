-- ===== src/Events/Metrics.antt =====
-- infrastructure/events/handlers/MetricsEventHandler.ts: the counters of the role administration.
use bankos.Prelude.{ℕ, ◌+◌, String, ◌≡◌, refl, ap, ◌∙◌, ◌||◌, ◌===◌, List, [], ◌∷◌, if◌then◌else◌}
use bankos.Domain.Event.{
  DomainEvent, user_registered, user_logged_in, user_locked, password_changed,
  password_reset_requested, email_verified, token_revoked, role_created, role_deleted,
  role_assigned_to_user, role_removed_from_user, permission_created, permission_assigned,
  permission_removed, authorization_denied, Event, event_name,
}

pub record Counters : Type 0 where
  pub roles_created : ℕ
  pub permissions_created : ℕ
  pub role_assignments : ℕ
  pub permission_denied : ℕ

-- `switch (event.eventName)`
unfoldable pub count_name : String → Counters → Counters
count_name name c =
    if name === "RoleCreated"
    then record c { roles_created = c.roles_created + 1 }
    else if name === "PermissionCreated"
    then record c { permissions_created = c.permissions_created + 1 }
    else if (name === "RoleAssignedToUser") || (name === "PermissionAssigned")
    then record c { role_assignments = c.role_assignments + 1 }
    else if name === "AuthorizationDenied"
    then record c { permission_denied = c.permission_denied + 1 }
    else c

-- `MetricsEventHandler.handle`
unfoldable pub metrics_handle : Event → Counters → Counters
metrics_handle event c = count_name (event_name event.body) c

-- The handler on events, one after the other.
unfoldable pub metrics_handle_all : List Event → Counters → Counters
metrics_handle_all [] c = c
metrics_handle_all (event ∷ events) c = metrics_handle_all events (metrics_handle event c)

body_counts_nothing : (body : DomainEvent) (c : Counters) → count_name (event_name body) c ≡ c
unfolding count_name event_name
body_counts_nothing (user_registered a b) c = refl
body_counts_nothing (user_logged_in a b c') c = refl
body_counts_nothing (user_locked a b) c = refl
body_counts_nothing (password_changed a) c = refl
body_counts_nothing (password_reset_requested a) c = refl
body_counts_nothing (email_verified a) c = refl
body_counts_nothing (token_revoked a b c') c = refl
body_counts_nothing (role_created a b) c = refl
body_counts_nothing (role_deleted a b) c = refl
body_counts_nothing (role_assigned_to_user a b) c = refl
body_counts_nothing (role_removed_from_user a b) c = refl
body_counts_nothing (permission_created a b c') c = refl
body_counts_nothing (permission_assigned a b) c = refl
body_counts_nothing (permission_removed a b) c = refl
body_counts_nothing (authorization_denied a b c') c = refl

counts_nothing : (event : Event) (c : Counters) → metrics_handle event c ≡ c
unfolding metrics_handle
counts_nothing event c = body_counts_nothing event.body c

-- Whatever events reach the handler, no counter moves: the events that it counts have the empty name.
pub metrics_never_count : (events : List Event) (c : Counters) → metrics_handle_all events c ≡ c
unfolding metrics_handle_all
metrics_never_count [] c = refl
metrics_never_count (event ∷ events) c =
    ap (metrics_handle_all events) (counts_nothing event c) ∙ metrics_never_count events c
