-- ===== src/Tools/Changes.antt =====
-- The tools that change a credential (src/mcp/toolHandlers.ts: toolSecretUpdate to
-- toolSecretTransferOwnership). `uuid_text` is the text of a UUID.
use securestore.Common.{
  ℕ, String, Option, none, some, List, [], ◌∷◌, Bool, true, false, not, ◌&&◌, ◌||◌, or_else, map,
  nat_beq, if◌then◌else◌, string_eq, lookup, insert,
}
use securestore.Policy.Types.{
  secret_update, secret_enrich, secret_rotate, secret_revoke, secret_delete, secret_share, Policy,
}
use securestore.Agent.Types.{AgentRecord}
use securestore.Agent.Registration.{get_agent}
use securestore.Visibility.{owned_by, both_same}
use securestore.Crypto.{CryptoLib}
use securestore.Credential.Types.{
  Value, text, MetadataField, CredentialMetadata, Credential, CredentialRecord, complete,
  SharingPolicy,
}
use securestore.Credential.Queries.{update_credential}
use securestore.Credential.Versions.{Env}
use securestore.Credential.Store.{store_transaction, load_existing}
use securestore.Credential.Lifecycle.{
  update_metadata, revoke_credential, delete_credential, claim_credential, share_credential,
  transfer_ownership,
}
use securestore.Database.{Ownership, modify}
use securestore.Tools.{
  AgentContext, bad_request, capability_denied, Action, ◌>>=◌, ◌>>◌, return, raise_if, reads,
  transact, Summary, summarize, load_visible_credential, require_policy, resource_of, clear,
}

pub record UpdateArgs : Type 0 where
  pub name : Option String
  pub tags : Option (List String)
  pub notes : Option String
  pub sensitivity : Option String
  pub environment : Option String

pub record RotateAnswer : Type 0 where
  pub credential_id : ℕ
  pub rotated : Bool
  pub version : Option ℕ

abbrev pub is_absent {ℓ} : {A : Type ℓ} → Option A → Bool
is_absent none = true
is_absent (some a) = false

-- sets.length === 0
abbrev pub sets_nothing : UpdateArgs → Bool
sets_nothing args =
    is_absent args.name
    && (is_absent args.tags
        && (is_absent args.notes && (is_absent args.sensitivity && is_absent args.environment)))

-- The columns that are set, each if its argument is there.
abbrev pub updated : ℕ → UpdateArgs → Credential → Credential
updated now args c = record c {
  name = or_else args.name c.name;
  tags = or_else args.tags c.tags;
  notes = elim args.notes [ none ↦ c.notes | some n ↦ some n ];
  sensitivity = or_else args.sensitivity c.sensitivity;
  environment = or_else args.environment c.environment;
  updated_at = now;
}

abbrev pub enrichment : ℕ → Bool → String × Value → String × MetadataField
enrichment now verified (k, v) = (
  k,
  record {
    value = v;
    confidence = if verified then 100 else 70;
    source = "agent_enrichment";
    verified = verified;
    updated_at = some now;
    introduced_by_agent_id = none;
  },
)

abbrev pub unverified : ℕ → Value → (confidence : ℕ) → String → MetadataField
unverified now v confidence source = record {
  value = v;
  confidence = confidence;
  source = source;
  verified = false;
  updated_at = some now;
  introduced_by_agent_id = none;
}

-- The loop over the given fields, from the account identifier on.
abbrev pub declare_fields : ℕ → CredentialMetadata → List (String × Value) → CredentialMetadata
declare_fields now metadata [] = metadata
declare_fields now metadata ((k, v) ∷ fields) =
    declare_fields now (insert k (unverified now v 90 "agent_declared") metadata) fields

abbrev pub is_current_owner : AgentRecord → CredentialRecord → Bool
is_current_owner a cred =
    owned_by cred.owner_agent_id a.id || both_same cred.owner_user_id a.owner_user_id

-- !targetAgent || targetAgent.orgId !== ctx.agent.orgId
abbrev pub is_foreign : ℕ → Option AgentRecord → Bool
is_foreign org_id none = true
is_foreign org_id (some target) = not (nat_beq target.org_id org_id)

module _ (now : ℕ) (policies : List Policy) (ctx : AgentContext) where
  abbrev pub apply_update : ℕ → UpdateArgs → CredentialRecord → Bool → Action Summary
  apply_update credential_id args cred true = return (summarize cred)
  apply_update credential_id args cred false = do
    transact (modify (update_credential credential_id (updated now args)))
    found ← transact (load_existing credential_id)
    return (summarize found)

  unfoldable pub tool_secret_update : ℕ → UpdateArgs → Action Summary
  tool_secret_update credential_id args = do
    cleared ← clear now policies ctx secret_update credential_id
    apply_update credential_id args cleared.0 (sets_nothing args)

  unfoldable pub tool_secret_enrich : ℕ → List (String × Value) → Option Bool → Action Summary
  tool_secret_enrich credential_id fields verified = do
    cred ← load_visible_credential now policies ctx credential_id
    raise_if (not ctx.agent.metadata_enrichment_permission) capability_denied
    require_policy now policies ctx secret_enrich (some cred.id) (resource_of cred)
    found ← transact (
        update_metadata now credential_id ctx.agent.id
          (map (enrichment now (or_else verified false)) fields) (some complete))
    return (summarize found)

  unfoldable pub tool_secret_revoke : ℕ → Option String → Action ℕ
  tool_secret_revoke credential_id why = do
    clear now policies ctx secret_revoke credential_id
    transact (revoke_credential now credential_id ctx.agent.id why)
    return credential_id

  unfoldable pub tool_secret_delete : ℕ → Option Bool → Action ℕ
  tool_secret_delete credential_id hard = do
    clear now policies ctx secret_delete credential_id
    transact (delete_credential now credential_id ctx.agent.id (or_else hard false))
    return credential_id

  unfoldable pub tool_secret_claim : ℕ → Action Summary
  tool_secret_claim credential_id = do
    clear now policies ctx secret_enrich credential_id
    found ← transact (claim_credential now credential_id ctx.agent.id)
    return (summarize found)

  unfoldable pub tool_secret_share : ℕ → SharingPolicy → Action Summary
  tool_secret_share credential_id sharing_policy = do
    clear now policies ctx secret_share credential_id
    found ← transact (share_credential now credential_id ctx.agent.id sharing_policy)
    return (summarize found)

  -- The new owner, if there is one, is an agent of the organization.
  unfoldable pub check_target : Option ℕ → Action (Unit {0})
  check_target none = return tt
  check_target (some id) = do
    target ← reads (get_agent id)
    raise_if (is_foreign ctx.agent.org_id target) bad_request

  unfoldable pub tool_secret_transfer_ownership : ℕ → Ownership → Action Summary
  tool_secret_transfer_ownership credential_id to = do
    cleared ← clear now policies ctx secret_share credential_id
    raise_if (not (is_current_owner ctx.agent cleared.0) && not ctx.agent.metadata_admin_permission)
        capability_denied
    check_target to.owner_agent_id
    found ← transact (transfer_ownership now credential_id ctx.agent.id to)
    return (summarize found)

module _ (uuid_text : ℕ → String) (lib : CryptoLib) (env : Env) (policies : List Policy)
    (ctx : AgentContext) where
  -- cred.metadata["accountIdentifier"] ?? the credential's own id
  abbrev pub account_of : CredentialRecord → MetadataField
  account_of cred =
      or_else (lookup "accountIdentifier" cred.metadata)
        (unverified env.now (text (uuid_text cred.id)) 50 "fallback")

  unfoldable pub tool_secret_rotate :
      ℕ → (new_secret_value : List ℕ) → Option (List (String × Value)) → Action RotateAnswer
  tool_secret_rotate credential_id new_secret_value fields = do
    cleared ← clear env.now policies ctx secret_rotate credential_id
    let cred = cleared.0
    stored ← transact (
        store_transaction lib env (record {
          org_id = cred.org_id;
          workspace_id = cred.workspace_id;
          owner_scope = cred.owner_scope;
          owner_user_id = none;
          owner_agent_id = none;
          project_id = none;
          repository = none;
          name = cred.name;
          provider = cred.provider;
          service = none;
          credential_type = cred.credential_type;
          auth_scheme = cred.auth_scheme;
          secret_value = new_secret_value;
          secret_encoding = none;
          sensitivity = some cred.sensitivity;
          environment = some cred.environment;
          metadata = some (
              declare_fields env.now (("accountIdentifier", account_of cred) ∷ [])
                (or_else fields []));
          tags = none;
          introducing_agent_id = ctx.agent.id;
          creation_source = "rotation";
          idempotency_key = none;
          enrichment_status = none;
          status = none;
          session_id = some ctx.session_id;
          mcp_transport = some ctx.transport;
          source_network = ctx.source_network;
        }))
    return (record {
      credential_id = stored.credential.id;
      rotated = stored.rotated;
      version = stored.credential.current_version_number;
    })
