-- ===== src/Credential/Lifecycle.antt =====
-- Reading, annotating, revoking, deleting, claiming, sharing and transferring a credential
-- (src/services/credentialService.ts: revealSecret to transferOwnership).
use securestore.Common.{
  ℕ, String, Option, none, some, List, Bool, true, false, ◌&&◌, nat_beq, if◌then◌else◌, or_else,
  find?, nat_eq, ◌==◌, map,
}
use securestore.Policy.Types.{direct, allow}
use securestore.Crypto.{CryptoLib, decrypt_secret}
use securestore.Credential.Types.{
  CredentialMetadata, status_eq, active, unresolved, revoked, deleted, Credential, CredentialRecord,
  healthy, invalid, Version, VersionStatus, SharingPolicy, EnrichmentStatus,
}
use securestore.Credential.Metadata.{build_metadata, merge_metadata}
use securestore.Credential.Queries.{
  load_credential, update_credential, set_version_status, delete_rows,
}
use securestore.Credential.Store.{load_existing, touch_last_used}
use securestore.Database.{
  Db, Tx, Result, ◌>>=◌, ◌>>◌, pure, throw, modify, gets, with_transaction, record_audit, publish,
  AuditEntry, AuditResult, success, error, Details, nothing, fields, validation, valid, reason,
  hard, shared, transfer, ownership_transfer, used, Ownership, Error, credential_not_found,
  no_active_version, secret_missing, decrypt_failed, workspace_of_other_org, workspace_in_org,
  EventType, credential_used, credential_enriched, credential_validated, credential_revoked,
  credential_deleted, credential_shared,
}

-- The audit entry of an operation on a credential that is there.
abbrev pub audit_on : CredentialRecord → Option ℕ → String → AuditResult → Details → AuditEntry
audit_on cred agent_id operation outcome details = record {
  org_id = cred.org_id;
  agent_id = agent_id;
  session_id = none;
  workspace_id = cred.workspace_id;
  credential_id = some cred.id;
  credential_version = none;
  provider = some cred.provider;
  operation = operation;
  access_mode = some direct;
  creation_source = none;
  introducing_agent_id = none;
  metadata_source = none;
  policy_decision = some allow;
  source_network = none;
  mcp_transport = none;
  result = outcome;
  details = details;
}

abbrev pub publish_on : EventType → CredentialRecord → Option ℕ → Details → Db → Db
publish_on event_type cred agent_id payload =
    publish event_type (some cred.org_id) cred.workspace_id (some cred.id) agent_id payload

abbrev pub require {ℓ} : {A : Type ℓ} → Error → Option A → Tx A
require e none = throw e
require e (some a) = pure a

unfoldable pub find_credential : ℕ → Tx CredentialRecord
find_credential id db = require credential_not_found (load_credential id db) db

pub record SessionContext : Type 0 where
  pub session_id : Option ℕ
  pub mcp_transport : Option String
  pub source_network : Option (List ℕ)

module _ (lib : CryptoLib) where
  -- The secret of the current version, decrypted.
  unfoldable pub plaintext_of : Option CredentialRecord → Tx (CredentialRecord × List ℕ)
  plaintext_of found = do
    cred ← require no_active_version found
    version_id ← require no_active_version cred.current_version_id
    secrets ← gets (λ db. db.secrets)
    row ← require secret_missing (find? (λ s. nat_beq s.version_id version_id) secrets)
    plain ← require decrypt_failed (decrypt_secret lib row.encrypted)
    pure (cred, plain)

  unfoldable pub reveal_transaction : ℕ → ℕ → ℕ → SessionContext → Tx (List ℕ)
  reveal_transaction now id agent_id session = do
    found ← gets (load_credential id)
    revealed ← plaintext_of found
    modify (touch_last_used now id agent_id)
    let entry = audit_on revealed.0 (some agent_id) "secret_get" success nothing
    modify (
        record_audit (record entry {
          session_id = session.session_id;
          mcp_transport = session.mcp_transport;
          source_network = session.source_network;
        }))
    modify (publish_on credential_used revealed.0 (some agent_id) (used direct none))
    pure revealed.1

  unfoldable pub reveal_secret : ℕ → ℕ → ℕ → SessionContext → Db → Result (List ℕ) × Db
  reveal_secret now id agent_id session =
      with_transaction (reveal_transaction now id agent_id session)

  -- Outside a transaction, and with no audit entry: the caller writes it.
  unfoldable pub reveal_secret_for_brokered_use : ℕ → Tx (CredentialRecord × List ℕ)
  reveal_secret_for_brokered_use id = do found ← gets (load_credential id); plaintext_of found

unfoldable pub update_metadata :
    ℕ → ℕ → ℕ → CredentialMetadata → Option EnrichmentStatus → Tx CredentialRecord
update_metadata now id agent_id new_fields enrichment = do
  existing ← load_existing id
  let merged = merge_metadata existing.metadata (build_metadata now new_fields agent_id)
  modify (
      update_credential id (λ c. record c {
        metadata = merged;
        updated_at = now;
        enrichment_status = or_else enrichment c.enrichment_status;
      }))
  let entry =
      audit_on existing (some agent_id) "secret_enrich" success (fields (map (λ p. p.0) new_fields))
  modify (record_audit (record entry { metadata_source = some "manual_enrich" }))
  modify
      (publish_on credential_enriched existing (some agent_id) (fields (map (λ p. p.0) new_fields)))
  load_existing id

-- The CASE of the statement gives the status that was there on both branches.
abbrev pub validated : ℕ → Bool → String → Credential → Credential
validated now is_valid text c = record c {
  last_validation_at = some now;
  last_validation_result = some text;
  health = if is_valid then healthy else invalid;
}

unfoldable pub mark_found : ℕ → Option ℕ → Bool → String → Option CredentialRecord → Tx (Unit {0})
mark_found now agent_id is_valid text none = pure tt
mark_found now agent_id is_valid text (some cred) = do
  modify (update_credential cred.id (validated now is_valid text))
  modify (
      record_audit (
        audit_on cred agent_id "credential_validate" (if is_valid then success else error)
          (validation text)))
  modify (publish_on credential_validated cred agent_id (valid is_valid))

unfoldable pub mark_validation : ℕ → ℕ → Option ℕ → Bool → String → Tx (Unit {0})
mark_validation now id agent_id is_valid text = do
  found ← gets (load_credential id)
  mark_found now agent_id is_valid text found

-- The versions that a revocation changes.
abbrev pub is_active_version_of : ℕ → Version → Bool
is_active_version_of id v =
    nat_beq v.credential_id id && (elim v.status [ VersionStatus.active ↦ true | _ ↦ false ])

unfoldable pub revoke_credential : ℕ → ℕ → ℕ → Option String → Tx (Unit {0})
revoke_credential now id agent_id why = do
  cred ← find_credential id
  modify (update_credential id (λ c. record c { status = revoked; updated_at = now }))
  modify (set_version_status (is_active_version_of id) VersionStatus.revoked)
  modify (record_audit (audit_on cred (some agent_id) "secret_revoke" success (reason why)))
  modify (publish_on credential_revoked cred (some agent_id) (reason why))

abbrev pub remove_rows : ℕ → ℕ → Bool → Db → Db
remove_rows now id is_hard db =
    if is_hard
    then delete_rows id db
    else update_credential id (λ c. record c { status = deleted; deleted_at = some now }) db

unfoldable pub delete_credential : ℕ → ℕ → ℕ → Bool → Tx (Unit {0})
delete_credential now id agent_id is_hard = do
  cred ← find_credential id
  modify (remove_rows now id is_hard)
  modify (record_audit (audit_on cred (some agent_id) "secret_delete" success (hard is_hard)))
  modify (publish_on credential_deleted cred (some agent_id) (hard is_hard))

unfoldable pub claim_credential : ℕ → ℕ → ℕ → Tx CredentialRecord
claim_credential now id agent_id = do
  modify (
      update_credential id (λ c. record c {
        status = if c.status == unresolved then active else c.status;
        updated_at = now;
      }))
  cred ← load_existing id
  modify (record_audit (audit_on cred (some agent_id) "secret_claim" success nothing))
  pure cred

unfoldable pub share_credential : ℕ → ℕ → ℕ → SharingPolicy → Tx CredentialRecord
share_credential now id agent_id policy = do
  modify (update_credential id (λ c. record c { sharing_policy = policy; updated_at = now }))
  cred ← load_existing id
  modify (record_audit (audit_on cred (some agent_id) "secret_share" success (shared policy)))
  modify (publish_on credential_shared cred (some agent_id) (shared policy))
  pure cred

abbrev pub ownership_of : CredentialRecord → Ownership
ownership_of c = record {
  owner_scope = c.owner_scope;
  owner_user_id = c.owner_user_id;
  owner_agent_id = c.owner_agent_id;
  workspace_id = c.workspace_id;
}

abbrev pub check_workspace : Option ℕ → ℕ → Tx (Unit {0})
check_workspace none org_id db = pure tt db
check_workspace (some id) org_id db =
    (if workspace_in_org db id org_id then pure tt else throw workspace_of_other_org) db

abbrev pub coalesce : Option ℕ → Option ℕ → Option ℕ
coalesce none b = b
coalesce (some a) b = some a

-- `to.workspace_id` is none to keep the current workspace.
unfoldable pub transfer_ownership : ℕ → ℕ → ℕ → Ownership → Tx CredentialRecord
transfer_ownership now id actor_agent_id to = do
  before ← find_credential id
  check_workspace to.workspace_id before.org_id
  modify (
      update_credential id (λ c. record c {
        owner_scope = to.owner_scope;
        owner_user_id = to.owner_user_id;
        owner_agent_id = to.owner_agent_id;
        workspace_id = coalesce to.workspace_id c.workspace_id;
        updated_at = now;
      }))
  after ← load_existing id
  modify (
      record_audit (
        audit_on after (some actor_agent_id) "credential_ownership_transfer" success
          (transfer (ownership_of before) (ownership_of after))))
  modify (
      publish_on credential_shared after (some actor_agent_id)
        (ownership_transfer after.owner_scope))
  pure after
