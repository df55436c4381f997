-- ===== src/Credential/Store.antt =====
-- Storing a credential: the idempotency key, the fingerprint, a rotation or a new row
-- (src/services/credentialService.ts: storeCredential and the functions that it calls).
use securestore.Common.{
  ℕ, suc, String, Option, none, some, [], Bool, true, false, ◌&&◌, nat_beq, if◌then◌else◌, or_else,
  find?, string_eq, nat_eq, ◌==◌, sql_eq, truthy,
}
use securestore.Policy.Types.{direct, allow}
use securestore.Crypto.{CryptoLib, fingerprint_secret, normalize_secret_for_fingerprint}
use securestore.Credential.Types.{
  Value, text, CredentialMetadata, status_eq, active, Credential, CredentialRecord, unknown,
  pending, Fingerprint,
}
use securestore.Credential.Text.{same_text}
use securestore.Credential.Metadata.{field_value, build_metadata, merge_metadata}
use securestore.Credential.Queries.{
  load_credential, update_credential, same_idempotency, insert_credential, insert_fingerprint,
  max_version,
}
use securestore.Credential.Versions.{Env, StoreCredentialInput, insert_version}
use securestore.Database.{
  Db, Tx, Result, ◌>>=◌, ◌>>◌, pure, throw, modify, gets, with_transaction, record_audit, publish,
  AuditEntry, success, Details, deduped, stored, version_number, duplicate_credential,
  unique_violation, null_record, credential_detected, credential_created, credential_rotated,
}

pub record StoreResult : Type 0 where
  pub credential : CredentialRecord
  pub created : Bool
  pub rotated : Bool

-- The `!` of TypeScript: a null there is an error.
abbrev pub expect {ℓ} : {A : Type ℓ} → Option A → Tx A
expect none = throw null_record
expect (some a) = pure a

unfoldable pub load_existing : ℕ → Tx CredentialRecord
load_existing id db = expect (load_credential id db) db

-- The audit entry of a call that succeeded, from the caller's input.
abbrev pub audit_of :
    StoreCredentialInput
    → (credential_id : ℕ) → Option ℕ
    → (operation creation_source metadata_source : String) → Details
    → AuditEntry
audit_of input credential_id version operation creation_source metadata_source details = record {
  org_id = input.org_id;
  agent_id = some input.introducing_agent_id;
  session_id = input.session_id;
  workspace_id = input.workspace_id;
  credential_id = some credential_id;
  credential_version = version;
  provider = some input.provider;
  operation = operation;
  access_mode = some direct;
  creation_source = some creation_source;
  introducing_agent_id = some input.introducing_agent_id;
  metadata_source = some metadata_source;
  policy_decision = some allow;
  source_network = input.source_network;
  mcp_transport = input.mcp_transport;
  result = success;
  details = details;
}

unfoldable pub touch_last_used : ℕ → ℕ → ℕ → Db → Db
touch_last_used now id agent_id =
    update_credential id
      (λ c. record c { last_used_at = some now; last_used_agent_id = some agent_id })

abbrev pub set_metadata : ℕ → CredentialMetadata → Credential → Credential
set_metadata now metadata c = record c { metadata = metadata; updated_at = now }

unfoldable pub merge_incoming_metadata : ℕ → ℕ → StoreCredentialInput → Tx CredentialRecord
merge_incoming_metadata now id input = do
  existing ← load_existing id
  let incoming = build_metadata now (or_else input.metadata []) input.introducing_agent_id
  modify (update_credential id (set_metadata now (merge_metadata existing.metadata incoming)))
  load_existing id

-- fieldValue(…, "accountIdentifier") ?? fieldValue(…, "username")
abbrev pub first_of_values : Option Value → Option Value → Option Value
first_of_values (some v) w = some v
first_of_values none w = w

abbrev pub is_rotation_of : StoreCredentialInput → Value → Credential → Bool
is_rotation_of input account c =
    sql_eq c.workspace_id input.workspace_id
    && c.provider == input.provider
    && c.credential_type == input.credential_type
    && c.status == active
    && same_text (field_value (some c.metadata) "accountIdentifier") account

abbrev pub id_of : Option Credential → Option ℕ
id_of none = none
id_of (some c) = some c.id

-- `!accountId` is true of the empty text.
abbrev pub candidate_for : StoreCredentialInput → Option Value → Db → Option ℕ
candidate_for input none db = none
candidate_for input (some (text s)) db =
    if truthy (some s) then id_of (find? (is_rotation_of input (text s)) db.credentials) else none
candidate_for input (some v) db = id_of (find? (is_rotation_of input v) db.credentials)

unfoldable pub find_rotation_candidate : StoreCredentialInput → Db → Option ℕ
find_rotation_candidate input = candidate_for input (
    first_of_values (field_value input.metadata "accountIdentifier")
      (field_value input.metadata "username"))

-- The row of INSERT INTO credentials, with the defaults of its columns.
unfoldable pub new_credential : Env → StoreCredentialInput → Credential
new_credential env input = record {
  id = env.credential_uuid;
  org_id = input.org_id;
  workspace_id = input.workspace_id;
  owner_scope = input.owner_scope;
  owner_user_id = input.owner_user_id;
  owner_agent_id = input.owner_agent_id;
  project_id = input.project_id;
  repository = input.repository;
  name = input.name;
  provider = input.provider;
  service = input.service;
  credential_type = input.credential_type;
  auth_scheme = input.auth_scheme;
  status = or_else input.status active;
  current_version_id = none;
  sensitivity = or_else input.sensitivity "medium";
  environment = or_else input.environment "development";
  sharing_policy = record { visibility = some "workspace"; agent_ids = none };
  approval_required = false;
  metadata = build_metadata env.now (or_else input.metadata []) input.introducing_agent_id;
  tags = or_else input.tags [];
  notes = none;
  introducing_agent_id = some input.introducing_agent_id;
  creation_source = input.creation_source;
  last_used_at = none;
  last_used_agent_id = none;
  last_validation_at = none;
  last_validation_result = none;
  health = unknown;
  enrichment_status = or_else input.enrichment_status pending;
  idempotency_key = input.idempotency_key;
  created_at = env.now;
  updated_at = env.now;
  deleted_at = none;
}

module _ (lib : CryptoLib) (env : Env) where
  unfoldable pub create_credential : StoreCredentialInput → ℕ → Tx CredentialRecord
  create_credential input fingerprint = do
    let id = env.credential_uuid
    insert_credential (new_credential env input)
    version_id ← insert_version lib env id 1 none input
    insert_fingerprint duplicate_credential (record {
      fingerprint = fingerprint;
      credential_id = id;
      version_id = version_id;
      provider = input.provider;
      credential_type = input.credential_type;
    })
    modify (update_credential id (λ c. record c { current_version_id = some version_id }))
    modify (
        record_audit (
          audit_of input id none "secret_store" input.creation_source "ingestion_pipeline"
            (stored none input.credential_type)))
    modify (
        publish credential_created (some input.org_id) input.workspace_id (some id)
          (some input.introducing_agent_id) (stored (some input.provider) input.credential_type))
    load_existing id

  -- `FOR UPDATE` locks the row and changes nothing.
  unfoldable pub rotate_internal : ℕ → StoreCredentialInput → ℕ → Tx CredentialRecord
  rotate_internal id input fingerprint = do
    current ← load_existing id
    versions ← gets (λ db. db.versions)
    let next = suc (max_version id versions)
    version_id ← insert_version lib env id next current.current_version_id input
    insert_fingerprint unique_violation (record {
      fingerprint = fingerprint;
      credential_id = id;
      version_id = version_id;
      provider = input.provider;
      credential_type = current.credential_type;
    })
    modify (
        update_credential id (λ c. record c {
          current_version_id = some version_id;
          status = active;
          updated_at = env.now;
        }))
    merge_incoming_metadata env.now id input
    modify (
        record_audit (
          audit_of input id (some next) "secret_rotate" "rotation" "rotation_detected"
            (version_number next)))
    modify (
        publish credential_rotated (some input.org_id) input.workspace_id (some id)
          (some input.introducing_agent_id) (version_number next))
    load_existing id

  -- The branch for a fingerprint that is known.
  unfoldable pub reuse_credential : ℕ → StoreCredentialInput → Tx CredentialRecord
  reuse_credential id input = do
    merged ← merge_incoming_metadata env.now id input
    modify (touch_last_used env.now id input.introducing_agent_id)
    modify (
        record_audit (
          audit_of input id none
            (if input.creation_source == "auto_capture"
              then "secret_store_detected"
              else "secret_store")
            input.creation_source "dedup_merge" (deduped none)))
    modify (
        publish credential_detected (some input.org_id) input.workspace_id (some id)
          (some input.introducing_agent_id) (deduped (some input.provider)))
    pure merged

  -- SELECT id FROM credentials WHERE workspace_id = $1 AND idempotency_key = $2, if there is a key
  abbrev pub known_by_key : StoreCredentialInput → Db → Option Credential
  known_by_key input db =
      if truthy input.idempotency_key
      then find? (same_idempotency input.workspace_id input.idempotency_key) db.credentials
      else none

  -- SELECT credential_id FROM credential_fingerprints WHERE fingerprint = $1
  abbrev pub known_by_fingerprint : ℕ → Db → Option Fingerprint
  known_by_fingerprint fingerprint db =
      find? (λ f. nat_beq f.fingerprint fingerprint) db.fingerprints

  unfoldable pub fingerprint_of : StoreCredentialInput → ℕ
  fingerprint_of input =
      fingerprint_secret lib input.provider input.credential_type
        (normalize_secret_for_fingerprint input.secret_value)

  abbrev pub result : Bool → Bool → CredentialRecord → StoreResult
  result created rotated credential = record {
    credential = credential;
    created = created;
    rotated = rotated;
  }

  unfoldable pub store_new : StoreCredentialInput → ℕ → Option ℕ → Tx StoreResult
  store_new input fingerprint (some id) = do
    credential ← rotate_internal id input fingerprint
    pure (result false true credential)
  store_new input fingerprint none = do
    credential ← create_credential input fingerprint
    pure (result true false credential)

  unfoldable pub store_unkeyed : StoreCredentialInput → ℕ → Option Fingerprint → Tx StoreResult
  store_unkeyed input fingerprint (some f) = do
    credential ← reuse_credential f.credential_id input
    pure (result false false credential)
  store_unkeyed input fingerprint none = do
    candidate ← gets (find_rotation_candidate input)
    store_new input fingerprint candidate

  unfoldable pub store_keyed : StoreCredentialInput → ℕ → Option Credential → Tx StoreResult
  store_keyed input fingerprint (some c) = do
    credential ← load_existing c.id
    pure (result false false credential)
  store_keyed input fingerprint none = do
    known ← gets (known_by_fingerprint fingerprint)
    store_unkeyed input fingerprint known

  unfoldable pub store_transaction : StoreCredentialInput → Tx StoreResult
  store_transaction input db = store_keyed input (fingerprint_of input) (known_by_key input db) db

  unfoldable pub store_credential : StoreCredentialInput → Db → Result StoreResult × Db
  store_credential input = with_transaction (store_transaction input)
