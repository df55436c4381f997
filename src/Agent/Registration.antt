-- ===== src/Agent/Registration.antt =====
-- Registering, authenticating and revoking agents, and opening sessions
-- (src/services/agentService.ts: registerAgent to openSession).
pub mod Access
pub mod Scope
pub mod Extent
use securestore.Common.{
  ◌||◌, nat_eq, ℕ, ◌+◌, String, Option, none, some, List, [], ◌∷◌, ◌++◌, Bool, true, false, not,
  ◌&&◌, ltb, nat_beq, string_eq, ◌==◌, sql_eq, or_else, if◌then◌else◌, any, find?, update_where,
}
use securestore.Policy.Types.{Risk, standard}
use securestore.Crypto.{CryptoLib, hash_api_key, generate_api_key}
use securestore.Agent.{is_agent_workspace_member}
use securestore.Agent.Types.{AgentRecord, AgentRow, ApiKey, AgentSession}
use securestore.Database.{
  Db, Membership, Tx, Result, ◌>>=◌, ◌>>◌, pure, ok, err, throw, modify, unique_violation,
  workspace_in_org, workspace_of_other_org, workspace_access,
}

pub record RegisterAgentInput : Type 0 where
  pub org_id : ℕ
  pub name : String
  pub agent_type : String
  pub platform : Option String
  pub version : Option String
  pub owner_user_id : Option ℕ
  pub auth_method : Option String
  pub public_key : Option String
  pub auth_identifier : Option String
  pub allowed_transports : Option (List String)
  pub allowed_tools : Option (List String)
  pub allowed_namespaces : Option (List String)
  pub allowed_providers : Option (List String)
  pub allowed_operations : Option (List String)
  pub raw_secret_access : Option Bool
  pub auto_ingestion_permission : Option Bool
  pub metadata_enrichment_permission : Option Bool
  pub rotation_permission : Option Bool
  pub revocation_permission : Option Bool
  pub risk_classification : Option Risk
  pub workspace_ids : Option (List ℕ)

-- The row of INSERT INTO agents, with the defaults of its columns; `id` is the database's UUID.
abbrev pub new_agent : (id : ℕ) → RegisterAgentInput → AgentRow
new_agent id input = record {
  agent = record {
    id = id;
    org_id = input.org_id;
    name = input.name;
    agent_type = input.agent_type;
    platform = input.platform;
    owner_user_id = input.owner_user_id;
    auth_method = or_else input.auth_method "api_key";
    allowed_transports = or_else input.allowed_transports [];
    allowed_tools = or_else input.allowed_tools [];
    allowed_namespaces = or_else input.allowed_namespaces [];
    allowed_providers = or_else input.allowed_providers [];
    allowed_operations = or_else input.allowed_operations [];
    raw_secret_access = or_else input.raw_secret_access false;
    auto_ingestion_permission = or_else input.auto_ingestion_permission true;
    metadata_enrichment_permission = or_else input.metadata_enrichment_permission true;
    rotation_permission = or_else input.rotation_permission false;
    revocation_permission = or_else input.revocation_permission false;
    metadata_admin_permission = false;
    risk_classification = or_else input.risk_classification standard;
    revoked = false;
  };
  version = input.version;
  public_key = input.public_key;
  auth_identifier = input.auth_identifier;
  revoked_at = none;
  last_connected_at = none;
}

abbrev pub has_agent_id : ℕ → AgentRow → Bool
has_agent_id id a = nat_beq a.agent.id id

-- The unique index on (auth_method, auth_identifier) WHERE auth_identifier IS NOT NULL.
abbrev pub same_identifier : String → Option String → AgentRow → Bool
same_identifier auth_method identifier a =
    a.agent.auth_method == auth_method && sql_eq a.auth_identifier identifier

unfoldable pub insert_agent : AgentRow → Tx (Unit {0})
insert_agent a db =
    if any (has_agent_id a.agent.id) db.agents
      || any (same_identifier a.agent.auth_method a.auth_identifier) db.agents
    then err unique_violation
    else ok (tt, record db { agents = db.agents ++ a ∷ [] })

unfoldable pub insert_api_key : ApiKey → Tx (Unit {0})
insert_api_key k db =
    if any (λ j. nat_beq j.key_hash k.key_hash) db.api_keys
    then err unique_violation
    else ok (tt, record db { api_keys = db.api_keys ++ k ∷ [] })

-- INSERT INTO agent_workspace_memberships … ON CONFLICT DO NOTHING
unfoldable pub insert_membership : ℕ → ℕ → Db → Db
insert_membership agent_id workspace_id db =
    if is_agent_workspace_member agent_id workspace_id db then db else record db {
      memberships =
          db.memberships ++ record { agent_id = agent_id; workspace_id = workspace_id } ∷ [];
    }

-- One turn of the loop over the workspaces.
unfoldable pub join_workspace : (org_id agent_id workspace_id : ℕ) → Tx (Unit {0})
join_workspace org_id agent_id workspace_id db =
    if workspace_in_org db workspace_id org_id
    then ok (tt, insert_membership agent_id workspace_id db)
    else err workspace_of_other_org

unfoldable pub join_workspaces : (org_id agent_id : ℕ) → List ℕ → Tx (Unit {0})
join_workspaces org_id agent_id [] = pure tt
join_workspaces org_id agent_id (id ∷ ids) = do
  join_workspace org_id agent_id id
  join_workspaces org_id agent_id ids

module _ (lib : CryptoLib) where
  -- An agent that authenticates with a key gets one.
  unfoldable pub issue_key : (agent_id : ℕ) (random : List ℕ) → Bool → Tx (Option (List ℕ))
  issue_key agent_id random false = pure none
  issue_key agent_id random true = do
    let (raw, prefix) = generate_api_key random
    insert_api_key (record {
      agent_id = agent_id;
      prefix = prefix;
      key_hash = hash_api_key lib raw;
      expires_at = none;
      revoked_at = none;
    })
    pure (some raw)

  unfoldable pub register_agent :
      (id : ℕ) (random : List ℕ) → RegisterAgentInput → Tx (AgentRecord × Option (List ℕ))
  register_agent id random input = do
    insert_agent (new_agent id input)
    join_workspaces input.org_id id (or_else input.workspace_ids [])
    api_key ← issue_key id random (or_else input.auth_method "api_key" == "api_key")
    pure ((new_agent id input).agent, api_key)

-- A key that is neither revoked nor expired, and an agent that is not revoked.
abbrev pub is_live_key : (now key_hash : ℕ) → ApiKey → Bool
is_live_key now key_hash k =
    nat_beq k.key_hash key_hash
    && (elim k.revoked_at [ none ↦ true | some t ↦ false ])
    && (elim k.expires_at [ none ↦ true | some t ↦ ltb now t ])

abbrev pub is_live_agent : ℕ → AgentRow → Bool
is_live_agent id a = nat_beq a.agent.id id && not a.agent.revoked

-- The first row of agent_api_keys JOIN agents.
unfoldable pub agent_of_key : (now key_hash : ℕ) → List AgentRow → List ApiKey → Option AgentRow
agent_of_key now key_hash agents [] = none
agent_of_key now key_hash agents (k ∷ ks) =
    let rest = agent_of_key now key_hash agents ks in
    if is_live_key now key_hash k
    then (elim (find? (is_live_agent k.agent_id) agents) [ some a ↦ some a | none ↦ rest ])
    else rest

-- UPDATE agents SET last_connected_at = now() WHERE id = $1
abbrev pub touch_connected : (now id : ℕ) → Db → Db
touch_connected now id db = record db {
  agents =
      update_where (has_agent_id id) (λ a. record a { last_connected_at = some now }) db.agents;
}

-- What both ways to authenticate do with the row that they found.
abbrev pub connected : ℕ → Option AgentRow → Db → Option AgentRecord × Db
connected now none db = (none, db)
connected now (some a) db = (some a.agent, touch_connected now a.agent.id db)

unfoldable pub authenticate_api_key : CryptoLib → ℕ → List ℕ → Db → Option AgentRecord × Db
authenticate_api_key lib now raw db =
    connected now (agent_of_key now (hash_api_key lib raw) db.agents db.api_keys) db

unfoldable pub authenticate_by_identifier : ℕ → String → String → Db → Option AgentRecord × Db
authenticate_by_identifier now auth_method identifier db =
    connected now
      (find? (λ a. same_identifier auth_method (some identifier) a && not a.agent.revoked)
        db.agents)
      db

unfoldable pub get_agent : ℕ → Db → Option AgentRecord
get_agent id db = elim (find? (has_agent_id id) db.agents) [ none ↦ none | some a ↦ some a.agent ]

abbrev pub revoked_row : ℕ → AgentRow → AgentRow
revoked_row now a = record a { agent = record a.agent { revoked = true }; revoked_at = some now }

abbrev pub is_open_session_of : ℕ → AgentSession → Bool
is_open_session_of id s =
    nat_beq s.agent_id id && (elim s.revoked_at [ none ↦ true | some t ↦ false ])

-- Two statements, outside a transaction.
unfoldable pub revoke_agent : (now id : ℕ) → Db → Db
revoke_agent now id db = record db {
  agents = update_where (has_agent_id id) (revoked_row now) db.agents;
  agent_sessions =
      update_where (is_open_session_of id) (λ s. record s { revoked_at = some now })
        db.agent_sessions;
}

-- workspaceId && !isAgentWorkspaceMember(agentId, workspaceId)
abbrev pub not_member : ℕ → Option ℕ → Db → Bool
not_member agent_id none db = false
not_member agent_id (some id) db = not (is_agent_workspace_member agent_id id db)

-- The session lasts twelve hours; `session_id` is the database's UUID.
unfoldable pub open_session :
    (now session_id agent_id : ℕ) → Option ℕ → String → Option (List ℕ) → Tx ℕ
open_session now session_id agent_id workspace_id transport client_network db =
    if not_member agent_id workspace_id db
    then err workspace_access
    else ok (
      session_id,
      record db {
        agent_sessions =
            db.agent_sessions
            ++ record {
              id = session_id;
              agent_id = agent_id;
              workspace_id = workspace_id;
              transport = transport;
              client_network = client_network;
              expires_at = now + 43_200_000;
              revoked_at = none;
            }
              ∷ [];
      },
    )
