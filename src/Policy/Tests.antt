-- ===== src/Policy/Tests.antt =====
-- Runs of the policy engine, and its theorems at concrete requests.
use mathlib.Core.List.{Memᴰ}
use securestore.Common.{ℕ, none, some, List, [], ◌∷◌, true, false, ◌≡◌, refl, ◌↔◌}
use securestore.Policy.Types.{
  PolicyAction-discrete, secret_get, audit_query, low, strong, Effect, allow, deny, pos, Policy,
  PolicySubject, PolicyResource, PolicyRequestContext, brokered,
}
use securestore.Policy.Matching.{
  subject_matches, resource_matches, conditions_satisfied, in_window, utc_hours, cidr_matches,
}
use securestore.Policy.Sort.{insert_by_priority, sort}
use securestore.Policy.Engine.{tighten, conclude, decide_from, candidates, evaluate_policy}
use securestore.Policy.Engine.Limits.{IsWithin}
use securestore.Policy.Engine.Decisions.{
  guardrails_of, IsAllowed, IsPrimary, evaluate-allow_iff, evaluate-IsWithin, evaluate-IsPrimary,
  evaluate-effect_same,
}
use securestore.Policy.Service.{CheckPolicyRequest, load_applicable_policies, check_policy}
use securestore.Agent.Types.{AgentRecord}

engine : Unit {0}
unfolding PolicyAction-discrete subject_matches resource_matches conditions_satisfied in_window
    utc_hours cidr_matches insert_by_priority sort tighten conclude decide_from candidates
    evaluate_policy load_applicable_policies check_policy
engine = tt

abbrev subject : PolicySubject
subject = record {
  agent_id = 5;
  agent_type = "coding";
  risk_classification = low;
  owner_user_id = none;
}

abbrev resource : PolicyResource
resource = record {
  provider = "github";
  credential_type = "pat";
  environment = "development";
  tags = "ci" ∷ [];
  owner_scope = "workspace";
  sensitivity = "standard";
}

-- Ten o'clock on the first day, two secrets requested.
abbrev ctx : PolicyRequestContext
ctx = record {
  transport = "stdio";
  source_network = none;
  auth_strength = some strong;
  now_utc = 36_000_000;
  requested_count = some 2;
}

abbrev policy : ℕ → ℕ → Effect → Policy
policy id priority effect = record {
  id = id;
  org_id = some 1;
  workspace_id = none;
  name = "p";
  effect = effect;
  priority = pos priority;
  subjects = record {
    agent_ids = none;
    agent_types = some ("coding" ∷ []);
    risk_max = none;
    owner_user_ids = none;
  };
  actions = secret_get ∷ [];
  resources = record {
    providers = some ("github" ∷ []);
    credential_types = none;
    environments = none;
    tags = none;
    owner_scopes = none;
    sensitivities = none;
  };
  conditions = record {
    time_window_start_hour_utc = some 8;
    time_window_end_hour_utc = some 18;
    network_cidrs = none;
    min_auth_strength = none;
    require_approval = none;
    max_retrieval_count = none;
    max_session_seconds = none;
    cache_permitted = none;
    downstream_use_permitted = none;
    access_mode = none;
  };
  enabled = true;
}

abbrev loose : Policy
loose = policy 1 20 allow

abbrev strict : Policy
strict = record loose {
  id = 2;
  priority = pos 10;
  conditions = record loose.conditions {
    max_retrieval_count = some 3;
    cache_permitted = some false;
    access_mode = some brokered;
  };
}

abbrev policies : List Policy
policies = loose ∷ strict ∷ []

decides :
    ((evaluate_policy secret_get subject resource ctx policies).matched_policy_ids ≡ 2 ∷ 1 ∷ [])
    × ((evaluate_policy secret_get subject resource ctx policies).max_retrieval_count ≡ some 3)
    × ((evaluate_policy secret_get subject resource
          (record ctx { requested_count = some 4 })
          policies).effect
        ≡ deny)
    × ((evaluate_policy audit_query subject resource ctx policies).effect ≡ deny)
    × ((evaluate_policy secret_get subject resource ctx (policy 3 99 deny ∷ policies)).effect
        ≡ deny)
unfolding engine
decides = (refl, refl, refl, refl, refl)

evaluate-allow_iff_example :
    ((evaluate_policy secret_get subject resource ctx policies).effect ≡ allow)
    ↔ IsAllowed secret_get subject resource ctx policies
evaluate-allow_iff_example = evaluate-allow_iff secret_get subject resource ctx policies

evaluate-IsWithin_example :
    IsWithin (guardrails_of (evaluate_policy secret_get subject resource ctx policies)) strict
unfolding engine
evaluate-IsWithin_example =
    evaluate-IsWithin secret_get subject resource ctx policies strict refl
      (Memᴰ.tail (Memᴰ.head refl), refl)

evaluate-IsPrimary_example :
    (p : Policy) × IsPrimary secret_get subject resource ctx policies
      (evaluate_policy secret_get subject resource ctx policies)
      p
unfolding engine
evaluate-IsPrimary_example = evaluate-IsPrimary secret_get subject resource ctx policies refl

to : (p : Policy) → Memᴰ p policies → Memᴰ p (strict ∷ loose ∷ [])
to p (Memᴰ.head e) = Memᴰ.tail (Memᴰ.head e)
to p (Memᴰ.tail (Memᴰ.head e)) = Memᴰ.head e
to p (Memᴰ.tail (Memᴰ.tail m)) = elim m [ ]

from : (p : Policy) → Memᴰ p (strict ∷ loose ∷ []) → Memᴰ p policies
from p (Memᴰ.head e) = Memᴰ.tail (Memᴰ.head e)
from p (Memᴰ.tail (Memᴰ.head e)) = Memᴰ.head e
from p (Memᴰ.tail (Memᴰ.tail m)) = elim m [ ]

evaluate-effect_same_example :
    (evaluate_policy secret_get subject resource ctx policies).effect
    ≡ (evaluate_policy secret_get subject resource ctx (strict ∷ loose ∷ [])).effect
evaluate-effect_same_example =
    evaluate-effect_same secret_get subject resource ctx policies (strict ∷ loose ∷ []) to from

abbrev agent : AgentRecord
agent = record {
  id = 5;
  org_id = 1;
  name = "builder";
  agent_type = "coding";
  platform = none;
  owner_user_id = none;
  auth_method = "mtls";
  allowed_transports = [];
  allowed_tools = [];
  allowed_namespaces = [];
  allowed_providers = "github" ∷ [];
  allowed_operations = [];
  raw_secret_access = true;
  auto_ingestion_permission = false;
  metadata_enrichment_permission = true;
  rotation_permission = false;
  revocation_permission = false;
  metadata_admin_permission = false;
  risk_classification = low;
  revoked = false;
}

abbrev request : CheckPolicyRequest
request = record {
  action = secret_get;
  transport = "stdio";
  source_network = none;
  auth_strength = none;
  requested_count = some 1;
}
