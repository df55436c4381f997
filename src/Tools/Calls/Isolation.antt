-- ===== src/Tools/Calls/Isolation.antt =====
-- No call changes a credential of another organization, unless it stores a secret.
use securestore.Common.{ℕ, Option, none, some, Bool, true, false}
use securestore.Credential.Types.{Credential}
use securestore.Tools.Calls.{
  ToolCall, secret_get, secret_claim, credential_validate, secret_store, secret_update,
  secret_enrich, secret_rotate, secret_revoke, secret_delete, secret_share,
  secret_transfer_ownership,
}

-- The credential whose row a call may change, for a call that stores no secret.
abbrev changed_id : ToolCall → Option ℕ
changed_id (secret_get id) = some id
changed_id (secret_claim id) = some id
changed_id (credential_validate id) = some id
changed_id (secret_update id args) = some id
changed_id (secret_enrich id fields verified) = some id
changed_id (secret_revoke id why) = some id
changed_id (secret_delete id hard) = some id
changed_id (secret_share id policy) = some id
changed_id (secret_transfer_ownership id to) = some id
changed_id _ = none

abbrev pub stores_secret : ToolCall → Bool
stores_secret (secret_store args) = true
stores_secret (secret_rotate id value fields) = true
stores_secret _ = false
