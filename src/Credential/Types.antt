-- ===== src/Credential/Types.antt =====
-- The rows and records of credentials (src/services/types.ts and the columns that the queries of
-- src/services/credentialService.ts read and write). Timestamps are milliseconds, UUIDs numbers.
use securestore.Common.{ℕ, String, Option, List, Bool, Eq, eq_of_discrete}

-- A value of a metadata field: a text, a list of texts, or a text that is a timestamp.
pub data Value : Type 0 where
  text : String → Value
  texts : List String → Value
  time : ℕ → Value

-- `confidence` is in hundredths: 100 is 1.0.
pub record MetadataField : Type 0 where
  pub value : Value
  pub confidence : ℕ
  pub source : String
  pub verified : Bool
  pub updated_at : Option ℕ
  pub introduced_by_agent_id : Option ℕ

abbrev pub CredentialMetadata : Type 0
CredentialMetadata = List (String × MetadataField)

pub data OwnerScope : Type 0 where
  personal workspace project organization agent service_account environment ephemeral : OwnerScope

pub data CredentialStatus : Type 0 where
  active expiring expired revoked deleted archived unresolved : CredentialStatus

unfoldable pub CredentialStatus-discrete : Discrete CredentialStatus
CredentialStatus-discrete = hlevel

instance abbrev pub status_eq : Eq CredentialStatus
status_eq = eq_of_discrete CredentialStatus-discrete

pub data CredentialHealth : Type 0 where
  healthy degraded invalid unknown : CredentialHealth

pub data EnrichmentStatus : Type 0 where
  complete partial pending : EnrichmentStatus

-- sharing_policy: the two fields that the program reads.
pub record SharingPolicy : Type 0 where
  pub visibility : Option String
  pub agent_ids : Option (List ℕ)

-- A row of `credentials`.
pub record Credential : Type 0 where
  pub id : ℕ
  pub org_id : ℕ
  pub workspace_id : Option ℕ
  pub owner_scope : OwnerScope
  pub owner_user_id : Option ℕ
  pub owner_agent_id : Option ℕ
  pub project_id : Option String
  pub repository : Option String
  pub name : String
  pub provider : String
  pub service : Option String
  pub credential_type : String
  pub auth_scheme : Option String
  pub status : CredentialStatus
  pub current_version_id : Option ℕ
  pub sensitivity : String
  pub environment : String
  pub sharing_policy : SharingPolicy
  pub approval_required : Bool
  pub metadata : CredentialMetadata
  pub tags : List String
  pub notes : Option String
  pub introducing_agent_id : Option ℕ
  pub creation_source : String
  pub last_used_at : Option ℕ
  pub last_used_agent_id : Option ℕ
  pub last_validation_at : Option ℕ
  pub last_validation_result : Option String
  pub health : CredentialHealth
  pub enrichment_status : EnrichmentStatus
  pub idempotency_key : Option String
  pub created_at : ℕ
  pub updated_at : ℕ
  pub deleted_at : Option ℕ

-- What `rowToCredential` makes of a row of `credentials` joined with its current version.
pub record CredentialRecord : Type 0 where
  pub row : Credential
  pub open row use *
  pub current_version_number : Option ℕ

pub data VersionStatus : Type 0 where
  active superseded revoked : VersionStatus

-- A row of `credential_versions`.
pub record Version : Type 0 where
  pub id : ℕ
  pub credential_id : ℕ
  pub version_number : ℕ
  pub status : VersionStatus
  pub rotation_of : Option ℕ
  pub expires_at : Option ℕ
  pub refresh_expires_at : Option ℕ
  pub scopes : List String
  pub created_by_agent_id : ℕ

-- A row of `credential_fingerprints`. A fingerprint, 256 bits in hexadecimal, is a number.
pub record Fingerprint : Type 0 where
  pub fingerprint : ℕ
  pub credential_id : ℕ
  pub version_id : ℕ
  pub provider : String
  pub credential_type : String

pub data Encoding : Type 0 where
  utf8 json base64 pem : Encoding

-- src/crypto/envelope.ts: EncryptedSecret
pub record EncryptedSecret : Type 0 where
  pub ciphertext : List ℕ
  pub nonce : List ℕ
  pub wrapped_dek : List ℕ
  pub kek_id : String
  pub kek_version : ℕ
  pub encoding : Encoding

-- A row of `credential_secrets`.
pub record Secret : Type 0 where
  pub version_id : ℕ
  pub encrypted : EncryptedSecret
