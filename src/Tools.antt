-- ===== src/Tools.antt =====
-- What the tool handlers share (src/mcp/toolHandlers.ts to requirePolicy, src/mcp/context.ts):
-- the context of a call, its errors, the visibility gate and the policy gate. A handler is an
-- `Action`: what it wrote before it throws stays written.
pub mod Secrets
pub mod Changes
pub mod Brokered
pub mod Oversight
pub mod Samples
pub mod Calls
pub mod Steps
pub mod Extent
use securestore.Common.{ℕ, String, Option, none, some, List, Bool, true, false, if◌then◌else◌}
use securestore.Policy.Types.{
  PolicyAction, secret_get, secret_find, secret_list, secret_metadata, secret_store,
  secret_store_detected, secret_update, secret_enrich, secret_rotate, secret_revoke, secret_delete,
  secret_claim, secret_share, credential_execute, credential_validate,
  credential_proxy_session_create, credential_temporary_issue, oauth_authorize, oauth_refresh,
  audit_query, agent_to_agent_visibility, AccessMode, Effect, allow, deny, Policy, PolicyResource,
  PolicyDecision, Reason,
}
use securestore.Policy.Service.{check_policy}
use securestore.Policy.Approval.{record_access_denied}
use securestore.Agent.Types.{AgentRecord}
use securestore.Credential.Types.{
  CredentialMetadata, OwnerScope, personal, workspace, project, organization, agent,
  service_account, environment, ephemeral, CredentialStatus, CredentialHealth, EnrichmentStatus,
  CredentialRecord,
}
use securestore.Credential.Queries.{load_credential}
use securestore.Visibility.{is_credential_visible}
use securestore.Session.{Sessions}
use securestore.Database.{Db, Error, Result, ok, err, Tx, with_transaction}

pub record AgentContext : Type 0 where
  pub agent : AgentRecord
  pub session_id : ℕ
  pub workspace_id : Option ℕ
  pub transport : String
  pub source_network : Option (List ℕ)

-- A ToolError by its code, or an error that a service throws.
pub data ToolError : Type 0 where
  not_found bad_request capability_denied invalid_proxy_token : ToolError
  access_denied : Reason → ToolError
  wrong_access_mode : AccessMode → ToolError
  execution_failed : String → ToolError
  thrown : Error → ToolError

-- The tables, and the store of proxy sessions in the memory of the process.
pub record World : Type 0 where
  pub db : Db
  pub sessions : Sessions

pub data Outcome {ℓ} (A : Type ℓ) : Type ℓ where
  done : A → Outcome A
  raised : ToolError → Outcome A

abbrev pub Action {ℓ} : Type ℓ → Type ℓ
Action A = World → Outcome A × World

abbrev pub continue {ℓ} : {A B : Type ℓ} → (A → Action B) → Outcome A × World → Outcome B × World
continue f (done a, w) = f a w
continue f (raised e, w) = (raised e, w)

infixl 5 ◌>>=◌ ◌>>◌
unfoldable pub ◌>>=◌ {ℓ} : {A B : Type ℓ} → Action A → (A → Action B) → Action B
◌>>=◌ m f w = continue f (m w)

abbrev pub ◌>>◌ {ℓ} : {A B : Type ℓ} → Action A → Action B → Action B
m >> n = m >>= λ _. n

abbrev pub return {ℓ} : {A : Type ℓ} → A → Action A
return a w = (done a, w)

abbrev pub raise {ℓ} : {A : Type ℓ} → ToolError → Action A
raise e w = (raised e, w)

abbrev pub raise_if : Bool → ToolError → Action (Unit {0})
raise_if true e = raise e
raise_if false e = return tt

abbrev pub reads {ℓ} : {A : Type ℓ} → (Db → A) → Action A
reads f w = (done (f w.db), w)

abbrev pub outcome {ℓ} : {A : Type ℓ} → Result A → Outcome A
outcome (ok a) = done a
outcome (err e) = raised (thrown e)

-- A call of a service's function that runs in a transaction, or that only reads.
unfoldable pub transact {ℓ} : {A : Type ℓ} → Tx A → Action A
transact t w = let (r, db') = with_transaction t w.db in (outcome r, record w { db = db' })

abbrev pub or_raise {ℓ} : {A : Type ℓ} → ToolError → Option A → Action A
or_raise e none = raise e
or_raise e (some a) = return a

-- The text of an action or of a scope.
abbrev pub action_text : PolicyAction → String
action_text secret_get = "secret_get"
action_text secret_find = "secret_find"
action_text secret_list = "secret_list"
action_text secret_metadata = "secret_metadata"
action_text secret_store = "secret_store"
action_text secret_store_detected = "secret_store_detected"
action_text secret_update = "secret_update"
action_text secret_enrich = "secret_enrich"
action_text secret_rotate = "secret_rotate"
action_text secret_revoke = "secret_revoke"
action_text secret_delete = "secret_delete"
action_text secret_claim = "secret_claim"
action_text secret_share = "secret_share"
action_text credential_execute = "credential_execute"
action_text credential_validate = "credential_validate"
action_text credential_proxy_session_create = "credential_proxy_session_create"
action_text credential_temporary_issue = "credential_temporary_issue"
action_text oauth_authorize = "oauth_authorize"
action_text oauth_refresh = "oauth_refresh"
action_text audit_query = "audit_query"
action_text agent_to_agent_visibility = "agent_to_agent_visibility"

abbrev pub owner_scope_text : OwnerScope → String
owner_scope_text personal = "personal"
owner_scope_text workspace = "workspace"
owner_scope_text project = "project"
owner_scope_text organization = "organization"
owner_scope_text agent = "agent"
owner_scope_text service_account = "service_account"
owner_scope_text environment = "environment"
owner_scope_text ephemeral = "ephemeral"

-- The credential as the policy engine sees it.
abbrev pub resource_of : CredentialRecord → PolicyResource
resource_of c = record {
  provider = c.provider;
  credential_type = c.credential_type;
  environment = c.environment;
  tags = c.tags;
  owner_scope = owner_scope_text c.owner_scope;
  sensitivity = c.sensitivity;
}

pub record Summary : Type 0 where
  pub credential_id : ℕ
  pub name : String
  pub provider : String
  pub credential_type : String
  pub status : CredentialStatus
  pub environment : String
  pub sensitivity : String
  pub owner_scope : OwnerScope
  pub tags : List String
  pub health : CredentialHealth
  pub enrichment_status : EnrichmentStatus
  pub current_version : Option ℕ
  pub last_used_at : Option ℕ
  pub metadata : CredentialMetadata
  pub created_at : ℕ
  pub updated_at : ℕ

abbrev pub summarize : CredentialRecord → Summary
summarize c = record {
  credential_id = c.id;
  name = c.name;
  provider = c.provider;
  credential_type = c.credential_type;
  status = c.status;
  environment = c.environment;
  sensitivity = c.sensitivity;
  owner_scope = c.owner_scope;
  tags = c.tags;
  health = c.health;
  enrichment_status = c.enrichment_status;
  current_version = c.current_version_number;
  last_used_at = c.last_used_at;
  metadata = c.metadata;
  created_at = c.created_at;
  updated_at = c.updated_at;
}

-- The credential, if it is there and the agent may see it.
unfoldable pub visible_credential : AgentRecord → ℕ → Db → Option CredentialRecord
visible_credential a id db = elim (load_credential id db) [
  | none ↦ none
  | some c ↦ if is_credential_visible a c.row db then some c else none
]

module _ (now : ℕ) (policies : List Policy) (ctx : AgentContext) where
  -- Both refusals are the same error.
  unfoldable pub load_visible_credential : ℕ → Action CredentialRecord
  load_visible_credential id w = or_raise not_found (visible_credential ctx.agent id w.db) w

  unfoldable pub decision_for : PolicyAction → PolicyResource → PolicyDecision
  decision_for action resource = check_policy now policies ctx.agent resource (record {
    action = action;
    transport = ctx.transport;
    source_network = ctx.source_network;
    auth_strength = none;
    requested_count = none;
  })

  -- What the gate does with a decision.
  unfoldable pub enforce : PolicyAction → Option ℕ → PolicyDecision → Effect → Action PolicyDecision
  enforce action credential_id decision allow = return decision
  enforce action credential_id decision deny = do
    transact (
        record_access_denied ctx.agent.org_id ctx.agent.id ctx.workspace_id credential_id
          (action_text action) decision.reason)
    raise (access_denied decision.reason)

  unfoldable pub require_policy : PolicyAction → Option ℕ → PolicyResource → Action PolicyDecision
  require_policy action credential_id resource =
      let decision = decision_for action resource in
      enforce action credential_id decision decision.effect

  -- The two gates in front of every tool for one credential.
  unfoldable pub clear : PolicyAction → ℕ → Action (CredentialRecord × PolicyDecision)
  clear action id = do
    cred ← load_visible_credential id
    decision ← require_policy action (some cred.id) (resource_of cred)
    return (cred, decision)
