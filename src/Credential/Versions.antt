-- ===== src/Credential/Versions.antt =====
-- A new version of a credential with its encrypted secret (src/services/credentialService.ts:
-- insertVersion), and what the queries of a store look for.
use securestore.Common.{
  ℕ, String, Option, none, some, List, [], nat_beq, if◌then◌else◌, or_else, string_eq, nat_eq,
  truthy,
}
use securestore.Crypto.{CryptoLib, encrypt_secret}
use securestore.Credential.Types.{
  Value, text, texts, time, CredentialMetadata, OwnerScope, CredentialStatus, status_eq,
  EnrichmentStatus, VersionStatus, Encoding, utf8,
}
use securestore.Credential.Metadata.{field_value}
use securestore.Credential.Queries.{insert_version_row, insert_secret, set_version_status}
use securestore.Database.{Db, Tx, ◌>>=◌, ◌>>◌, pure, throw, modify, invalid_date}

-- What a call takes from outside: the clock, the UUIDs that the database generates for a new
-- credential and a new version, and the random bytes of the encryption.
pub record Env : Type 0 where
  pub now : ℕ
  pub credential_uuid : ℕ
  pub version_uuid : ℕ
  pub dek : List ℕ
  pub nonce : List ℕ

pub record StoreCredentialInput : Type 0 where
  pub org_id : ℕ
  pub workspace_id : Option ℕ
  pub owner_scope : OwnerScope
  pub owner_user_id : Option ℕ
  pub owner_agent_id : Option ℕ
  pub project_id : Option String
  pub repository : Option String
  pub name : String
  pub provider : String
  pub service : Option String
  pub credential_type : String
  pub auth_scheme : Option String
  pub secret_value : List ℕ
  pub secret_encoding : Option Encoding
  pub sensitivity : Option String
  pub environment : Option String
  pub metadata : Option CredentialMetadata
  pub tags : Option (List String)
  pub introducing_agent_id : ℕ
  pub creation_source : String
  pub idempotency_key : Option String
  pub enrichment_status : Option EnrichmentStatus
  pub status : Option CredentialStatus
  pub session_id : Option ℕ
  pub mcp_transport : Option String
  pub source_network : Option (List ℕ)

-- value ? new Date(String(value)) : null. Only timestamps are dates; "" is false.
unfoldable pub date_of : Option Value → Tx (Option ℕ)
date_of none = pure none
date_of (some (time t)) = pure (some t)
date_of (some (text s)) = if truthy (some s) then throw invalid_date else pure none
date_of (some (texts ss)) = throw invalid_date

abbrev pub scopes_of : Option Value → List String
scopes_of (some (texts ss)) = ss
scopes_of _ = []

abbrev pub supersede : Option ℕ → Db → Db
supersede none db = db
supersede (some id) db = set_version_status (λ v. nat_beq v.id id) VersionStatus.superseded db

module _ (lib : CryptoLib) (env : Env) where
  unfoldable pub insert_version : ℕ → ℕ → Option ℕ → StoreCredentialInput → Tx ℕ
  insert_version credential_id version_number rotation_of input = do
    let encrypted =
        encrypt_secret lib env.dek env.nonce input.secret_value (or_else input.secret_encoding utf8)
    expires_at ← date_of (field_value input.metadata "tokenExpirationTime")
    refresh_expires_at ← date_of (field_value input.metadata "refreshTokenExpiration")
    insert_version_row (record {
      id = env.version_uuid;
      credential_id = credential_id;
      version_number = version_number;
      status = VersionStatus.active;
      rotation_of = rotation_of;
      expires_at = expires_at;
      refresh_expires_at = refresh_expires_at;
      scopes = scopes_of (field_value input.metadata "grantedScopes");
      created_by_agent_id = input.introducing_agent_id;
    })
    insert_secret (record { version_id = env.version_uuid; encrypted = encrypted })
    modify (supersede rotation_of)
    pure env.version_uuid
