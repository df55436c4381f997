-- ===== src/Credential/Samples.antt =====
-- Concrete inputs for the tests and instances: a toy cipher and a few calls.
use securestore.Common.{false, ℕ, ◌+◌, ◌*◌, String, none, some, [], ◌∷◌, replicate, refl, codes}
use mathlib.Core.List.{foldr}
use securestore.Crypto.{CryptoLib, IsFaithful}
use securestore.Credential.Types.{
  Credential, CredentialStatus, unknown, complete, workspace, CredentialMetadata, text,
  MetadataField,
}
use securestore.Credential.Versions.{Env, StoreCredentialInput}

abbrev pub toy_lib : CryptoLib
toy_lib = record {
  hmac = foldr (λ c acc. c + 257 * acc) 0;
  api_key_hmac = foldr (λ c acc. c + 257 * acc) 0;
  to_utf8 = λ s. s;
  from_utf8 = λ s. s;
  gcm_encrypt = λ k n p. p;
  gcm_tag = λ k n p. replicate 16 0;
  gcm_decrypt = λ k n c t. some c;
  kek_id = "local";
  kek_version = 1;
  wrap_key = λ k. k;
  unwrap_key = λ k id v. some k;
}

pub toy_lib-IsFaithful : IsFaithful toy_lib
toy_lib-IsFaithful = record {
  utf8_roundtrip = λ s. refl;
  tag_length = λ k n p. refl;
  gcm_roundtrip = λ k n p. refl;
  unwrap-wrap = λ k. refl;
}

abbrev pub env_at : ℕ → Env
env_at n = record {
  now = 1000 + n;
  credential_uuid = 100 + n;
  version_uuid = 200 + n;
  dek = 7 ∷ [];
  nonce = 9 ∷ [];
}

abbrev pub declared : String → MetadataField
declared s = record {
  value = text s;
  confidence = 90;
  source = "agent_declared";
  verified = false;
  updated_at = none;
  introduced_by_agent_id = none;
}

abbrev pub input_with : String → CredentialMetadata → StoreCredentialInput
input_with secret metadata = record {
  org_id = 1;
  workspace_id = some 10;
  owner_scope = workspace;
  owner_user_id = none;
  owner_agent_id = none;
  project_id = none;
  repository = none;
  name = "ci";
  provider = "github";
  service = none;
  credential_type = "pat";
  auth_scheme = some "bearer";
  secret_value = codes secret;
  secret_encoding = none;
  sensitivity = none;
  environment = none;
  metadata = some metadata;
  tags = none;
  introducing_agent_id = 5;
  creation_source = "manual";
  idempotency_key = none;
  enrichment_status = none;
  status = none;
  session_id = none;
  mcp_transport = none;
  source_network = none;
}

abbrev pub sample_credential : Credential
sample_credential = record {
  id = 101;
  org_id = 1;
  workspace_id = some 10;
  owner_scope = workspace;
  owner_user_id = some 41;
  owner_agent_id = some 6;
  project_id = none;
  repository = none;
  name = "ci";
  provider = "github";
  service = none;
  credential_type = "pat";
  auth_scheme = none;
  status = CredentialStatus.active;
  current_version_id = none;
  sensitivity = "standard";
  environment = "development";
  sharing_policy = record { visibility = some "workspace"; agent_ids = none };
  approval_required = false;
  metadata = [];
  tags = [];
  notes = none;
  introducing_agent_id = none;
  creation_source = "manual";
  last_used_at = none;
  last_used_agent_id = none;
  last_validation_at = none;
  last_validation_result = none;
  health = unknown;
  enrichment_status = complete;
  idempotency_key = none;
  created_at = 0;
  updated_at = 0;
  deleted_at = none;
}
