-- ===== src/Visibility/Tests.antt =====
-- The visibility theorems at a concrete agent and credential.
use securestore.Common.{ℕ, String, none, some, [], ◌∷◌, true, false, ◌≡◌, refl, inl}
use securestore.Policy.Types.{low}
use securestore.Credential.Types.{Credential}
use securestore.Credential.Samples.{sample_credential}
use securestore.Agent.Types.{AgentRecord}
use securestore.Database.{Db, empty}
use securestore.Visibility.{is_credential_visible}
use securestore.Visibility.Agreement.{is_listed, listed-visible}

abbrev agent : AgentRecord
agent = record {
  id = 5;
  org_id = 1;
  name = "builder";
  agent_type = "coding";
  platform = none;
  owner_user_id = some 40;
  auth_method = "mtls";
  allowed_transports = [];
  allowed_tools = [];
  allowed_namespaces = [];
  allowed_providers = [];
  allowed_operations = [];
  raw_secret_access = true;
  auto_ingestion_permission = false;
  metadata_enrichment_permission = false;
  rotation_permission = false;
  revocation_permission = false;
  metadata_admin_permission = false;
  risk_classification = low;
  revoked = false;
}

abbrev credential : ℕ → String → Credential
credential org_id visibility = record sample_credential {
  org_id = org_id;
  sharing_policy = record { visibility = some visibility; agent_ids = none };
}

-- The agent is a member of workspace 10.
abbrev db : Db
db = record empty { memberships = record { agent_id = 5; workspace_id = 10 } ∷ [] }

listed-visible_example :
    is_listed agent (credential 1 "workspace") db
    ≡ is_credential_visible agent (credential 1 "workspace") db
listed-visible_example = listed-visible agent (credential 1 "workspace") db (inl refl) refl
