-- ===== src/Tools/Samples.antt =====
-- A server with one credential, an agent that may use it, and one that may not see it.
use securestore.Common.{none, some, [], ◌∷◌, replicate, ◌++◌, true, false}
use securestore.Policy.Types.{
  secret_get, credential_execute, credential_proxy_session_create, audit_query, allow, low, pos,
  Policy,
}
use securestore.Policy.Types.{PolicyAction-discrete}
use securestore.Policy.Matching.{
  subject_matches, resource_matches, conditions_satisfied, in_window, utc_hours, cidr_matches,
}
use securestore.Policy.Sort.{insert_by_priority, sort}
use securestore.Policy.Engine.{tighten, conclude, decide_from, candidates, evaluate_policy}
use securestore.Policy.Service.{load_applicable_policies, check_policy}
use securestore.Visibility.{is_credential_visible}
use securestore.Agent.{is_agent_workspace_member}
use securestore.Crypto.{decrypt_secret, open_sealed}
use securestore.Credential.Queries.{load_credential, update_credential}
use securestore.Credential.Store.{touch_last_used}
use securestore.Credential.Lifecycle.{plaintext_of, reveal_transaction}
use securestore.Database
use securestore.Tools
use securestore.Agent.Types.{AgentRecord}
use securestore.Credential.Types.{Credential, VersionStatus, utf8}
use securestore.Credential.Samples.{toy_lib, env_at, sample_credential}
use securestore.Session.{proxy}
use securestore.Audit.{AuditRow}
use securestore.Database.{
  Db, empty, AuditEntry, success, nothing, with_transaction, record_audit, publish,
}
use securestore.Tools.{
  AgentContext, World, visible_credential, decision_for, enforce, require_policy,
  load_visible_credential, clear, transact,
}
use securestore.Tools.Secrets.{tool_secret_get, get_cleared}
use securestore.Tools.Brokered.{Adapter, responded}
use securestore.Tools.Calls.{Server, Fresh, handle}

abbrev pub agent : AgentRecord
agent = record {
  id = 5;
  org_id = 1;
  name = "builder";
  agent_type = "coding";
  platform = none;
  owner_user_id = none;
  auth_method = "mtls";
  allowed_transports = [];
  allowed_tools = [];
  allowed_namespaces = [];
  allowed_providers = [];
  allowed_operations = [];
  raw_secret_access = true;
  auto_ingestion_permission = false;
  metadata_enrichment_permission = true;
  rotation_permission = false;
  revocation_permission = false;
  metadata_admin_permission = false;
  risk_classification = low;
  revoked = false;
}

abbrev pub ctx : AgentContext
ctx = record {
  agent = agent;
  session_id = 8;
  workspace_id = some 10;
  transport = "stdio";
  source_network = none;
}

-- A member of another organization.
abbrev pub stranger : AgentContext
stranger = record ctx { agent = record agent { org_id = 2 } }

abbrev pub policy : Policy
policy = record {
  id = 1;
  org_id = some 1;
  workspace_id = none;
  name = "use";
  effect = allow;
  priority = pos 1;
  subjects = record {
    agent_ids = none;
    agent_types = none;
    risk_max = none;
    owner_user_ids = none;
  };
  actions = secret_get ∷ credential_execute ∷ credential_proxy_session_create ∷ audit_query ∷ [];
  resources = record {
    providers = none;
    credential_types = none;
    environments = none;
    tags = none;
    owner_scopes = none;
    sensitivities = none;
  };
  conditions = record {
    time_window_start_hour_utc = none;
    time_window_end_hour_utc = none;
    network_cidrs = none;
    min_auth_strength = none;
    require_approval = none;
    max_retrieval_count = none;
    max_session_seconds = some 60;
    cache_permitted = none;
    downstream_use_permitted = none;
    access_mode = none;
  };
  enabled = true;
}

abbrev pub with_approval : Policy
with_approval = record policy {
  conditions = record policy.conditions { require_approval = some true };
}

abbrev pub credential : Credential
credential = record sample_credential { current_version_id = some 200 }

-- The secret is the code points 7, 8.
abbrev pub world : World
world = record {
  db = record empty {
    credentials = credential ∷ record sample_credential { id = 102; org_id = 2 } ∷ [];
    versions =
        record {
          id = 200;
          credential_id = 101;
          version_number = 1;
          status = VersionStatus.active;
          rotation_of = none;
          expires_at = none;
          refresh_expires_at = none;
          scopes = [];
          created_by_agent_id = 5;
        }
        ∷ [];
    secrets =
        record {
          version_id = 200;
          encrypted = record {
            ciphertext = (7 ∷ 8 ∷ []) ++ replicate 16 0;
            nonce = [];
            wrapped_dek = [];
            kek_id = "local";
            kek_version = 1;
            encoding = utf8;
          };
        }
        ∷ [];
    memberships = record { agent_id = 5; workspace_id = 10 } ∷ [];
  };
  sessions =
      (
        77,
        record {
          credential_id = 101;
          agent_id = 5;
          workspace_id = some 10;
          uses_remaining = pos 2;
          mode = proxy;
          expires_at = 9000;
        },
      )
      ∷ [];
}

abbrev pub adapter : Adapter
adapter = record {
  default_base_endpoint = none;
  execute = λ c operation params. responded 200 "{}";
  validate = λ c. record { valid = true; result = "ok"; scopes = none; expires_at = none };
  sanitize_error = λ message. message;
}

abbrev pub audit_row : AuditRow
audit_row = record {
  entry = record {
    org_id = 1;
    agent_id = some 5;
    session_id = none;
    workspace_id = some 10;
    credential_id = some 101;
    credential_version = none;
    provider = none;
    operation = "secret_get";
    access_mode = none;
    creation_source = none;
    introducing_agent_id = none;
    metadata_source = none;
    policy_decision = none;
    source_network = none;
    mcp_transport = none;
    result = success;
    details = nothing;
  };
  occurred_at = 500;
}

abbrev pub server : Server
server = record {
  lib = toy_lib;
  ilike = λ name query. true;
  uuid_text = λ id. "";
  resolve = λ provider type. adapter;
  policies = policy ∷ [];
  audit_rows = audit_row ∷ [];
  event_rows = [];
}

abbrev pub fresh : Fresh
fresh = record { env = env_at 0; uuid = 300; token = 78; random = [] }

-- What a run of a tool unfolds.
unfoldable pub machine : Unit {0}
unfolding PolicyAction-discrete subject_matches resource_matches conditions_satisfied in_window
    utc_hours cidr_matches insert_by_priority sort tighten conclude decide_from candidates
    evaluate_policy load_applicable_policies check_policy load_credential is_credential_visible
    is_agent_workspace_member visible_credential decision_for enforce require_policy
    load_visible_credential clear transact with_transaction Tools.◌>>=◌ Database.◌>>=◌
    tool_secret_get get_cleared reveal_transaction plaintext_of decrypt_secret open_sealed
    touch_last_used update_credential record_audit publish handle
machine = tt
