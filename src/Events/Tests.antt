-- ===== src/Events/Tests.antt =====
-- The theorems on events at concrete events.
use securestore.Common.{ℕ, Option, none, some, List, [], ◌∷◌, ◌++◌, true, ◌≡◌, refl, arith}
use securestore.Database.{credential_created, nothing}
use securestore.Events.{SecureStoreEvent, Scope, list_events_since}
use securestore.Events.CatchUp.{last_id, all_since, list_events_since-rest}

abbrev event_at : ℕ → ℕ → Option ℕ → SecureStoreEvent
event_at id org_id workspace_id = record {
  id = id;
  event = record {
    event_type = credential_created;
    org_id = some org_id;
    workspace_id = workspace_id;
    credential_id = none;
    agent_id = none;
    payload = nothing;
  };
  created_at = 0;
}

abbrev scope : Scope
scope = record { org_id = 1; workspace_ids = 10 ∷ []; include_workspaceless = some true }

-- The second event is another organization's, and the fourth in another workspace.
abbrev log : List SecureStoreEvent
log =
    event_at 3 1 (some 10)
    ∷ event_at 5 2 (some 10)
    ∷ event_at 6 1 none
    ∷ event_at 8 1 (some 20)
    ∷ event_at 9 1 (some 10)
    ∷ []

pages :
    (list_events_since 0 scope 2 log ≡ event_at 3 1 (some 10) ∷ event_at 6 1 none ∷ [])
    × (list_events_since 6 scope 2 log ≡ event_at 9 1 (some 10) ∷ [])
unfolding list_events_since
pages = (refl, refl)

list_events_since-rest_example :
    list_events_since 0 scope 2 log
      ++ all_since (last_id 0 (list_events_since 0 scope 2 log)) scope log
    ≡ all_since 0 scope log
list_events_since-rest_example =
    list_events_since-rest 0 scope 2 0 log
      (omega arith, (omega arith, (omega arith, (omega arith, (omega arith, tt)))))
