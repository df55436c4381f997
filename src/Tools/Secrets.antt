-- ===== src/Tools/Secrets.antt =====
-- The tools that read and store credentials (src/mcp/toolHandlers.ts: toolSecretGet to
-- toolSecretStore). `approval_uuid` is the UUID that the database generates.
pub mod Reveal
pub mod Approval
mod Tests
use securestore.Common.{
  ℕ, String, Option, none, some, List, [], ◌∷◌, Bool, true, false, or_else, map,
}
use securestore.Policy.Types.{
  secret_get, secret_find, secret_list, secret_metadata, secret_store, AccessMode, direct, Policy,
  PolicyResource, PolicyDecision, PolicyAction,
}
use securestore.Policy.Approval.{create_approval_request}
use securestore.Agent.{get_agent_workspace_ids}
use securestore.Crypto.{CryptoLib}
use securestore.Credential.Types.{
  Value, MetadataField, CredentialMetadata, OwnerScope, CredentialRecord,
}
use securestore.Credential.Versions.{Env, StoreCredentialInput}
use securestore.Credential.Store.{StoreResult, store_transaction}
use securestore.Credential.Search.{FindCredentialsQuery, VisibleTo, find_credentials}
use securestore.Credential.Lifecycle.{SessionContext, reveal_transaction}
use securestore.Database.{Db}
use securestore.Tools.{
  AgentContext, ToolError, wrong_access_mode, World, Outcome, done, Action, ◌>>=◌, ◌>>◌, return,
  raise, reads, transact, Summary, summarize, require_policy, clear,
}

pub record Revealed : Type 0 where
  pub credential_id : ℕ
  pub provider : String
  pub credential_type : String
  pub auth_scheme : Option String
  pub value : List ℕ
  pub metadata : CredentialMetadata
  pub version : Option ℕ

pub data GetResult : Type 0 where
  approval_required : (approval_id : ℕ) → GetResult
  revealed : Revealed → GetResult

pub record FindArgs : Type 0 where
  pub provider : Option String
  pub credential_type : Option String
  pub environment : Option String
  pub tags : Option (List String)
  pub name_query : Option String
  pub limit : Option ℕ

pub record StoreArgs : Type 0 where
  pub name : String
  pub provider : String
  pub credential_type : String
  pub secret_value : List ℕ
  pub auth_scheme : Option String
  pub environment : Option String
  pub sensitivity : Option String
  pub tags : Option (List String)
  pub metadata : Option (List (String × Value))
  pub idempotency_key : Option String

pub record StoreAnswer : Type 0 where
  pub credential_id : ℕ
  pub created : Bool
  pub rotated : Bool
  pub credential : Summary

-- The resource of a call that names no credential.
abbrev pub unnamed :
    (provider credential_type environment : String) → List String → String → PolicyResource
unnamed provider credential_type environment tags sensitivity = record {
  provider = provider;
  credential_type = credential_type;
  environment = environment;
  tags = tags;
  owner_scope = "workspace";
  sensitivity = sensitivity;
}

abbrev pub is_direct : AccessMode → Bool
is_direct direct = true
is_direct _ = false

abbrev pub create_approval : (now approval_uuid credential_id agent_id : ℕ) → String → Action ℕ
create_approval now approval_uuid credential_id agent_id operation w =
    let (id, db') =
      create_approval_request now approval_uuid credential_id agent_id operation w.db in
    (done id, record w { db = db' })

abbrev pub user_provided : ℕ → String × Value → String × MetadataField
user_provided now (k, v) = (
  k,
  record {
    value = v;
    confidence = 99;
    source = "user_provided";
    verified = true;
    updated_at = some now;
    introduced_by_agent_id = none;
  },
)

abbrev pub visible_to : AgentContext → List ℕ → VisibleTo
visible_to ctx member_workspace_ids = record {
  org_id = ctx.agent.org_id;
  agent_id = ctx.agent.id;
  member_workspace_ids = member_workspace_ids;
}

module _ (lib : CryptoLib) (env : Env) (policies : List Policy) (ctx : AgentContext) where
  abbrev pub session_context : SessionContext
  session_context = record {
    session_id = some ctx.session_id;
    mcp_transport = some ctx.transport;
    source_network = ctx.source_network;
  }

  abbrev pub reveal : CredentialRecord → Action GetResult
  reveal cred = do
    value ← transact (reveal_transaction lib env.now cred.id ctx.agent.id session_context)
    return (
        revealed (record {
          credential_id = cred.id;
          provider = cred.provider;
          credential_type = cred.credential_type;
          auth_scheme = cred.auth_scheme;
          value = value;
          metadata = cred.metadata;
          version = cred.current_version_number;
        }))

  -- After the gates: the approval, then the access mode.
  unfoldable pub get_cleared :
      (approval_uuid : ℕ)
      → CredentialRecord
      → (requires_approval is_direct_mode : Bool) → AccessMode
      → Action GetResult
  get_cleared approval_uuid cred true is_direct_mode mode = do
    id ← create_approval env.now approval_uuid cred.id ctx.agent.id "secret_get"
    return (approval_required id)
  get_cleared approval_uuid cred false true mode = reveal cred
  get_cleared approval_uuid cred false false mode = raise (wrong_access_mode mode)

  unfoldable pub tool_secret_get : (approval_uuid credential_id : ℕ) → Action GetResult
  tool_secret_get approval_uuid credential_id = do
    cleared ← clear env.now policies ctx secret_get credential_id
    get_cleared approval_uuid cleared.0 cleared.1.requires_approval
        (is_direct cleared.1.access_mode) cleared.1.access_mode

  unfoldable pub tool_secret_metadata : ℕ → Action Summary
  tool_secret_metadata credential_id = do
    cleared ← clear env.now policies ctx secret_metadata credential_id
    return (summarize cleared.0)

  unfoldable pub tool_secret_store : StoreArgs → Action StoreAnswer
  tool_secret_store args = do
    require_policy env.now policies ctx secret_store none (
        unnamed args.provider args.credential_type (or_else args.environment "development")
          (or_else args.tags []) (or_else args.sensitivity "medium"))
    stored ← transact (
        store_transaction lib env (record {
          org_id = ctx.agent.org_id;
          workspace_id = ctx.workspace_id;
          owner_scope = OwnerScope.workspace;
          owner_user_id = none;
          owner_agent_id = none;
          project_id = none;
          repository = none;
          name = args.name;
          provider = args.provider;
          service = none;
          credential_type = args.credential_type;
          auth_scheme = args.auth_scheme;
          secret_value = args.secret_value;
          secret_encoding = none;
          sensitivity = args.sensitivity;
          environment = args.environment;
          metadata = some (map (user_provided env.now) (or_else args.metadata []));
          tags = args.tags;
          introducing_agent_id = ctx.agent.id;
          creation_source = "manual";
          idempotency_key = args.idempotency_key;
          enrichment_status = none;
          status = none;
          session_id = some ctx.session_id;
          mcp_transport = some ctx.transport;
          source_network = ctx.source_network;
        }))
    return (record {
      credential_id = stored.credential.id;
      created = stored.created;
      rotated = stored.rotated;
      credential = summarize stored.credential;
    })

module _ (ilike : String → String → Bool) (now : ℕ) (policies : List Policy)
    (ctx : AgentContext) where
  abbrev pub find_visible : (List ℕ → FindCredentialsQuery) → Action (List Summary)
  find_visible query = do
    member_workspace_ids ← reads (get_agent_workspace_ids ctx.agent.id)
    results ← reads (find_credentials ilike (query member_workspace_ids))
    return (map summarize results)

  unfoldable pub tool_secret_find : FindArgs → Action (List Summary)
  tool_secret_find args = do
    require_policy now policies ctx secret_find none (
        unnamed (or_else args.provider "*") (or_else args.credential_type "*")
          (or_else args.environment "development") (or_else args.tags []) "medium")
    find_visible (λ ids. record {
      visible_to = visible_to ctx ids;
      workspace_id = ctx.workspace_id;
      provider = args.provider;
      credential_type = args.credential_type;
      environment = args.environment;
      tags = args.tags;
      name_query = args.name_query;
      status = none;
      limit = args.limit;
    })

  unfoldable pub tool_secret_list :
      (status : Option String) (limit : Option ℕ) → Action (List Summary)
  tool_secret_list status limit = do
    require_policy now policies ctx secret_list none (unnamed "*" "*" "development" [] "medium")
    find_visible (λ ids. record {
      visible_to = visible_to ctx ids;
      workspace_id = ctx.workspace_id;
      provider = none;
      credential_type = none;
      environment = none;
      tags = none;
      name_query = none;
      status = status;
      limit = limit;
    })
