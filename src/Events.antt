-- ===== src/Events.antt =====
-- Who receives an event (src/services/eventBus.ts: subscribe, listEventsSince). The rows of
-- `events` stand in the order of their ids, as ORDER BY id returns them.
pub mod CatchUp
mod Tests
use securestore.Common.{
  ℕ, Option, none, some, List, [], ◌∷◌, Bool, true, false, not, ◌&&◌, ◌||◌, ltb, nat_beq, nat_eq,
  Eq, eq_of_discrete, if◌then◌else◌, includes, filter, take,
}
use securestore.Database.{Event, EventType}

pub record SecureStoreEvent : Type 0 where
  pub id : ℕ
  pub event : Event
  pub open event use *
  pub created_at : ℕ

pub record Scope : Type 0 where
  pub org_id : ℕ
  pub workspace_ids : List ℕ
  pub include_workspaceless : Option Bool

-- scope.includeWorkspaceless ?? false, and its truth
abbrev pub workspaceless : Option Bool → Bool
workspaceless (some true) = true
workspaceless _ = false

abbrev pub is_org : Option ℕ → ℕ → Bool
is_org none org_id = false
is_org (some id) org_id = nat_beq id org_id

-- (workspaceId && includes(workspaceId)) || (!workspaceId && includeWorkspaceless)
abbrev pub in_workspace_scope : Option ℕ → Scope → Bool
in_workspace_scope none scope = workspaceless scope.include_workspaceless
in_workspace_scope (some id) scope = includes scope.workspace_ids id

unfoldable pub EventType-discrete : Discrete EventType
EventType-discrete = hlevel

instance abbrev pub event_type_eq : Eq EventType
event_type_eq = eq_of_discrete EventType-discrete

-- filter.eventTypes && !filter.eventTypes.includes(eventType)
abbrev pub filtered_out : Option (List EventType) → EventType → Bool
filtered_out none t = false
filtered_out (some ts) t = not (includes ts t)

-- Whether the listener of `subscribe` hands the event on.
unfoldable pub is_delivered : Scope → Option (List EventType) → SecureStoreEvent → Bool
is_delivered scope event_types event =
    if not (is_org event.org_id scope.org_id)
    then false
    else if not (in_workspace_scope event.workspace_id scope)
    then false
    else if filtered_out event_types event.event_type
    then false
    else true

-- workspace_id = ANY($3) OR ($4 AND workspace_id IS NULL)
abbrev pub row_in_workspace_scope : Option ℕ → List ℕ → Bool → Bool
row_in_workspace_scope none ids whole = whole
row_in_workspace_scope (some id) ids whole = includes ids id

-- The WHERE clause.
abbrev pub is_listed_since : ℕ → Scope → SecureStoreEvent → Bool
is_listed_since since_id scope row =
    ltb since_id row.id
    && (is_org row.org_id scope.org_id
        && row_in_workspace_scope row.workspace_id scope.workspace_ids
            (workspaceless scope.include_workspaceless))

unfoldable pub list_events_since :
    ℕ → Scope → (limit : ℕ) → List SecureStoreEvent → List SecureStoreEvent
list_events_since since_id scope limit events =
    take limit (filter (is_listed_since since_id scope) events)
