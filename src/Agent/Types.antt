-- ===== src/Agent/Types.antt =====
-- Agents, their API keys and their sessions (src/services/types.ts: AgentRecord, and the columns
-- that src/services/agentService.ts reads and writes).
use securestore.Common.{ℕ, String, Option, List, Bool}
use securestore.Policy.Types.{Risk}

pub record AgentRecord : Type 0 where
  pub id : ℕ
  pub org_id : ℕ
  pub name : String
  pub agent_type : String
  pub platform : Option String
  pub owner_user_id : Option ℕ
  pub auth_method : String
  pub allowed_transports : List String
  pub allowed_tools : List String
  pub allowed_namespaces : List String
  pub allowed_providers : List String
  pub allowed_operations : List String
  pub raw_secret_access : Bool
  pub auto_ingestion_permission : Bool
  pub metadata_enrichment_permission : Bool
  pub rotation_permission : Bool
  pub revocation_permission : Bool
  pub metadata_admin_permission : Bool
  pub risk_classification : Risk
  pub revoked : Bool

-- A row of `agents`: what `rowToAgent` reads of it, and the other columns.
pub record AgentRow : Type 0 where
  pub agent : AgentRecord
  pub version : Option String
  pub public_key : Option String
  pub auth_identifier : Option String
  pub revoked_at : Option ℕ
  pub last_connected_at : Option ℕ

-- A row of `agent_api_keys`. A hash, 256 bits in hexadecimal, is a number.
pub record ApiKey : Type 0 where
  pub agent_id : ℕ
  pub prefix : List ℕ
  pub key_hash : ℕ
  pub expires_at : Option ℕ
  pub revoked_at : Option ℕ

-- A row of `agent_sessions`.
pub record AgentSession : Type 0 where
  pub id : ℕ
  pub agent_id : ℕ
  pub workspace_id : Option ℕ
  pub transport : String
  pub client_network : Option (List ℕ)
  pub expires_at : ℕ
  pub revoked_at : Option ℕ
