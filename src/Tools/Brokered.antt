-- ===== src/Tools/Brokered.antt =====
-- The tools that use a credential without handing it out (src/mcp/toolHandlers.ts:
-- toolCredentialExecute to toolCredentialTemporaryIssue). `resolve` is the registry's choice of
-- an adapter.
pub mod Tokens
mod Tests
use securestore.Common.{
  ℕ, String, Option, none, some, List, [], Bool, true, false, not, min, or_else, nat_beq, ◌+◌, ◌*◌,
}
use securestore.Policy.Types.{
  credential_execute, credential_validate, credential_proxy_session_create,
  credential_temporary_issue, brokered, AccessMode, allow, Policy, pos, ℤ,
}
use securestore.Crypto.{CryptoLib}
use securestore.Credential.Types.{Value, text, CredentialRecord}
use securestore.Credential.Metadata.{field_value}
use securestore.Credential.Queries.{load_credential}
use securestore.Credential.Lifecycle.{reveal_secret_for_brokered_use, mark_validation, publish_on}
use securestore.Session.{ProxySession, SessionMode, proxy, temporary, Sessions, create, redeem}
use securestore.Database.{
  Db, Tx, AuditEntry, success, executed, used, record_audit, publish, credential_used, modify,
}
use securestore.Tools.{
  AgentContext, ToolError, not_found, bad_request, invalid_proxy_token, execution_failed, World,
  Outcome, done, Action, ◌>>=◌, ◌>>◌, return, raise, raise_if, reads, or_raise, transact, clear,
}

-- src/adapters/types.ts: AdapterContext
pub record AdapterContext : Type 0 where
  pub secret_value : List ℕ
  pub auth_scheme : Option String
  pub header_name : Option Value
  pub header_prefix : Option Value
  pub base_endpoint : Option Value

-- The answer of a provider to an operation, or the error that the adapter throws.
pub data Answer : Type 0 where
  responded : (status : ℕ) (body : String) → Answer
  failed : String → Answer

pub record ValidationOutcome : Type 0 where
  pub valid : Bool
  pub result : String
  pub scopes : Option (List String)
  pub expires_at : Option ℕ

-- src/adapters/types.ts: ProviderAdapter, what the tools use of it.
pub record Adapter : Type 0 where
  pub default_base_endpoint : Option String
  pub execute : AdapterContext → (operation : String) → (params : List (String × String)) → Answer
  pub validate : AdapterContext → ValidationOutcome
  pub sanitize_error : String → String

pub record ExecuteArgs : Type 0 where
  pub credential_id : Option ℕ
  pub proxy_token : Option ℕ
  pub operation : String
  pub params : Option (List (String × String))

pub record SessionAnswer : Type 0 where
  pub proxy_token : ℕ
  pub expires_at : ℕ
  pub ttl_seconds : ℕ

abbrev pub endpoint : Option Value → Option String → Option Value
endpoint (some v) fallback = some v
endpoint none none = none
endpoint none (some e) = some (text e)

abbrev pub adapter_context : Adapter → Option String → CredentialRecord × List ℕ → AdapterContext
adapter_context adapter auth_scheme (row, secret_value) = record {
  secret_value = secret_value;
  auth_scheme = auth_scheme;
  header_name = field_value (some row.metadata) "headerName";
  header_prefix = field_value (some row.metadata) "headerPrefix";
  base_endpoint =
      endpoint (field_value (some row.metadata) "baseEndpoint") adapter.default_base_endpoint;
}

-- The store of sessions, as the tools call it.
unfoldable pub redeem_token : (now token : ℕ) → Action (Option ProxySession)
redeem_token now token w =
    let (found, sessions') = redeem now token w.sessions in
    (done found, record w { sessions = sessions' })

unfoldable pub create_session : (now token ttl_seconds : ℕ) → ProxySession → Action SessionAnswer
create_session now token ttl_seconds session w = (
  done (record {
    proxy_token = token;
    expires_at = now + ttl_seconds * 1000;
    ttl_seconds = ttl_seconds;
  }),
  record w { sessions = create now token ttl_seconds session w.sessions },
)

-- The session that a tool asks for; the store sets the expiry.
abbrev pub session_of :
    AgentContext → CredentialRecord → SessionMode → ℤ → (expires_at : ℕ) → ProxySession
session_of ctx cred mode uses expires_at = record {
  credential_id = cred.id;
  agent_id = ctx.agent.id;
  workspace_id = ctx.workspace_id;
  uses_remaining = uses;
  mode = mode;
  expires_at = expires_at;
}

module _ (now : ℕ) (policies : List Policy) (ctx : AgentContext) where
  -- The session of a token, if the token was issued to this agent.
  unfoldable pub own_session : ℕ → Action ProxySession
  own_session token = do
    found ← redeem_token now token
    session ← or_raise invalid_proxy_token found
    raise_if (not (nat_beq session.agent_id ctx.agent.id)) invalid_proxy_token
    return session

  abbrev pub by_token : ℕ → Action CredentialRecord
  by_token token = do
    session ← own_session token
    found ← reads (load_credential session.credential_id)
    or_raise not_found found

  abbrev pub by_id : Option ℕ → Action CredentialRecord
  by_id none = raise bad_request
  by_id (some credential_id) = do
    cleared ← clear now policies ctx credential_execute credential_id
    return cleared.0

  -- The credential of a call: by its token, or else by its id and the gates.
  unfoldable pub credential_for : Option ℕ → Option ℕ → Action CredentialRecord
  credential_for (some token) credential_id = by_token token
  credential_for none credential_id = by_id credential_id

  abbrev pub executed_entry : CredentialRecord → String → ℕ → AuditEntry
  executed_entry cred operation status = record {
    org_id = cred.org_id;
    agent_id = some ctx.agent.id;
    session_id = some ctx.session_id;
    workspace_id = cred.workspace_id;
    credential_id = some cred.id;
    credential_version = none;
    provider = some cred.provider;
    operation = "credential_execute";
    access_mode = some brokered;
    creation_source = none;
    introducing_agent_id = none;
    metadata_source = none;
    policy_decision = some allow;
    source_network = ctx.source_network;
    mcp_transport = some ctx.transport;
    result = success;
    details = executed operation status;
  }

  abbrev pub record_use : CredentialRecord → String → ℕ → Tx (Unit {0})
  record_use cred operation status = modify (λ db.
      publish_on credential_used cred (some ctx.agent.id) (used brokered (some operation))
        (record_audit (executed_entry cred operation status) db))

  -- The `try` of the call: an error comes back with its text sanitized.
  unfoldable pub conclude_execution :
      Adapter → CredentialRecord → String → Answer → Action (ℕ × String)
  conclude_execution adapter cred operation (failed message) =
      raise (execution_failed (adapter.sanitize_error message))
  conclude_execution adapter cred operation (responded status body) = do
    transact (record_use cred operation status)
    return (status, body)

  unfoldable pub tool_credential_proxy_session_create :
      (token credential_id : ℕ) (ttl_seconds : Option ℕ) (max_uses : Option ℤ)
      → Action SessionAnswer
  tool_credential_proxy_session_create token credential_id ttl_seconds max_uses = do
    cleared ← clear now policies ctx credential_proxy_session_create credential_id
    let ttl = min (or_else ttl_seconds 300) (or_else cleared.1.max_session_seconds 3600)
    let uses = or_else max_uses (pos (or_else cleared.1.max_retrieval_count 10))
    create_session now token ttl (session_of ctx cleared.0 proxy uses now)

  unfoldable pub tool_credential_temporary_issue :
      (token credential_id : ℕ) (ttl_seconds : Option ℕ) (max_uses : Option ℤ)
      → Action SessionAnswer
  tool_credential_temporary_issue token credential_id ttl_seconds max_uses = do
    cleared ← clear now policies ctx credential_temporary_issue credential_id
    let ttl = min (or_else ttl_seconds 60) 900
    create_session now token ttl (session_of ctx cleared.0 temporary (or_else max_uses (pos 1)) now)

  module _ (resolve : (provider credential_type : String) → Adapter) (lib : CryptoLib) where
    unfoldable pub tool_credential_execute : ExecuteArgs → Action (ℕ × String)
    tool_credential_execute args = do
      cred ← credential_for args.proxy_token args.credential_id
      brokered_use ← transact (reveal_secret_for_brokered_use lib cred.id)
      let adapter = resolve cred.provider cred.credential_type
      conclude_execution adapter cred args.operation (
          adapter.execute (adapter_context adapter brokered_use.0.auth_scheme brokered_use)
            args.operation (or_else args.params []))

    unfoldable pub tool_credential_validate : ℕ → Action ValidationOutcome
    tool_credential_validate credential_id = do
      cleared ← clear now policies ctx credential_validate credential_id
      brokered_use ← transact (reveal_secret_for_brokered_use lib credential_id)
      let adapter = resolve cleared.0.provider cleared.0.credential_type
      let outcome = adapter.validate (adapter_context adapter none brokered_use)
      transact (mark_validation now credential_id (some ctx.agent.id) outcome.valid outcome.result)
      return outcome
