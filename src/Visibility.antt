-- ===== src/Visibility.antt =====
-- Which credentials an agent may see: the gate in front of a single credential
-- (src/services/visibilityService.ts: isCredentialVisible) and the condition of a listing
-- (visibilityWhereClause).
pub mod Agreement
mod Tests
use securestore.Common.{
  ℕ, String, Option, none, some, List, [], ◌∷◌, Bool, true, false, ◌&&◌, ◌||◌, not, nat_beq, nat_eq,
  string_eq, ◌==◌, or_else, includes, if◌then◌else◌, sql_eq,
}
use securestore.Credential.Types.{Credential}
use securestore.Agent.Types.{AgentRecord}
use securestore.Agent.{is_agent_workspace_member}
use securestore.Database.{Db}

abbrev pub visibility_of : Credential → String
visibility_of c = or_else c.sharing_policy.visibility "workspace"

-- Both ids are there and equal.
abbrev pub both_same : Option ℕ → Option ℕ → Bool
both_same (some a) (some b) = nat_beq a b
both_same none _ = false
both_same _ none = false

abbrev pub owned_by : Option ℕ → ℕ → Bool
owned_by none id = false
owned_by (some owner) id = nat_beq owner id

abbrev pub named_agents : Credential → List ℕ
named_agents c = or_else c.sharing_policy.agent_ids []

abbrev pub member_of : ℕ → Option ℕ → Db → Bool
member_of agent_id none db = false
member_of agent_id (some workspace_id) db = is_agent_workspace_member agent_id workspace_id db

unfoldable pub is_credential_visible : AgentRecord → Credential → Db → Bool
is_credential_visible agent credential db =
    if not (nat_beq credential.org_id agent.org_id)
    then false
    else if visibility_of credential == "organization"
    then true
    else if visibility_of credential == "private"
    then (if owned_by credential.owner_agent_id agent.id
        then true
        else both_same credential.owner_user_id agent.owner_user_id)
    else if visibility_of credential == "agents"
    then includes (named_agents credential) agent.id
    else member_of agent.id credential.workspace_id db

-- c.workspace_id = ANY($n)
abbrev pub in_workspaces : Option ℕ → List ℕ → Bool
in_workspaces none workspaces = false
in_workspaces (some id) workspaces = includes workspaces id

-- The WHERE clause, with its three parameters.
unfoldable pub visibility_where_clause : ℕ → ℕ → List ℕ → Credential → Bool
visibility_where_clause org_id agent_id member_workspace_ids c =
    nat_beq c.org_id org_id
    && (visibility_of c == "organization"
        || (in_workspaces c.workspace_id member_workspace_ids
            || (owned_by c.owner_agent_id agent_id
                || (visibility_of c == "agents" && includes (named_agents c) agent_id))))
