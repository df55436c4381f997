-- ===== src/Agent/Tests.antt =====
-- Registering, revoking and opening a session on concrete tables, and the theorems there.
use securestore.Common.{ℕ, none, some, List, [], ◌∷◌, ◌++◌, ◌≡◌, ◌≢◌, refl, inl, codes}
use securestore.Crypto.{hash_api_key}
use securestore.Agent.{is_agent_workspace_member}
use securestore.Agent.Types.{AgentRecord}
use securestore.Agent.Registration.{
  RegisterAgentInput, new_agent, insert_agent, insert_api_key, insert_membership, join_workspace,
  join_workspaces, issue_key, register_agent, agent_of_key, authenticate_api_key,
  authenticate_by_identifier, revoke_agent, open_session,
}
use securestore.Agent.Registration.Access.{authenticate-register, authenticate-revoke}
use securestore.Agent.Registration.Scope.{AreInOrg, register_agent-AreInOrg}
use securestore.Credential.Samples.{toy_lib}
use securestore.Database.{
  Db, empty, Result, ok, err, workspace_access, workspace_of_other_org, ◌>>=◌,
}

agents : Unit {0}
unfolding hash_api_key is_agent_workspace_member insert_agent insert_api_key insert_membership
    join_workspace join_workspaces issue_key register_agent agent_of_key authenticate_api_key
    authenticate_by_identifier revoke_agent open_session ◌>>=◌
agents = tt

-- Workspaces 10 and 20, of the organizations 1 and 2.
abbrev start : Db
start = record empty {
  workspaces = record { id = 10; org_id = 1 } ∷ record { id = 20; org_id = 2 } ∷ [];
}

abbrev input_for : List ℕ → RegisterAgentInput
input_for workspaces = record {
  org_id = 1;
  name = "builder";
  agent_type = "coding";
  platform = none;
  version = none;
  owner_user_id = none;
  auth_method = none;
  public_key = none;
  auth_identifier = none;
  allowed_transports = none;
  allowed_tools = none;
  allowed_namespaces = none;
  allowed_providers = none;
  allowed_operations = none;
  raw_secret_access = none;
  auto_ingestion_permission = none;
  metadata_enrichment_permission = none;
  rotation_permission = none;
  revocation_permission = none;
  risk_classification = none;
  workspace_ids = some workspaces;
}

abbrev key : List ℕ
key = codes "sss_" ++ codes "xyz"

abbrev state_of {ℓ} : {A : Type ℓ} → Result (A × Db) → Db
state_of (ok r) = r.1
state_of (err e) = empty

registered : Db
registered = state_of (register_agent toy_lib 5 (codes "xyz") (input_for (10 ∷ [])) start)

abbrev builder : AgentRecord
builder = (new_agent 5 (input_for (10 ∷ []))).agent

agent_runs :
    (register_agent toy_lib 5 (codes "xyz") (input_for (20 ∷ [])) start
      ≡ err workspace_of_other_org)
    × (open_session 0 9 5 (some 20) "stdio" none registered ≡ err workspace_access)
    × ((authenticate_api_key toy_lib 3 key (revoke_agent 2 5 registered)).0 ≡ none)
unfolding agents registered
agent_runs = (refl, refl, refl)

authenticate-register_example : (authenticate_api_key toy_lib 3 key registered).0 ≡ some builder
unfolding agents registered
authenticate-register_example =
    authenticate-register toy_lib 5 (codes "xyz") (input_for (10 ∷ [])) start builder key registered
      3 refl

-- Another agent with a key of its own.
two_agents : Db
two_agents = state_of (register_agent toy_lib 6 (codes "abc") (input_for []) registered)

authenticate-revoke_example : (new_agent 6 (input_for [])).agent.id ≢ 5
unfolding agents registered two_agents
authenticate-revoke_example =
    authenticate-revoke toy_lib 2 5 3 (codes "sss_" ++ codes "abc") "oidc" "sub" two_agents
      (new_agent 6 (input_for [])).agent (inl refl)

registered-AreInOrg : AreInOrg registered
unfolding agents registered
registered-AreInOrg = (refl, tt)

register_agent-AreInOrg_example : AreInOrg two_agents
unfolding agents two_agents registered
register_agent-AreInOrg_example =
    register_agent-AreInOrg toy_lib 6 (codes "abc") (input_for []) registered _ two_agents
      registered-AreInOrg refl

opened : Db
opened = state_of (open_session 0 9 5 (some 10) "stdio" none registered)
