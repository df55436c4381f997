-- ===== src/Tools/Calls.antt =====
-- The tools as an agent calls them: the table of src/mcp/registerTools.ts, less
-- secret_store_detected, oauth_authorize and oauth_refresh.
pub mod Gates
pub mod Denial
pub mod Isolation
mod Tests
use securestore.Common.{ℕ, String, Option, none, some, List, Bool}
use securestore.Policy.Types.{PolicyAction, PolicyDecision, Policy, ℤ}
use securestore.Agent.Types.{AgentSession}
use securestore.Agent.Registration.{RegisterAgentInput}
use securestore.Audit.{AuditRow}
use securestore.Events.{SecureStoreEvent}
use securestore.Crypto.{CryptoLib}
use securestore.Credential.Types.{Value, SharingPolicy}
use securestore.Credential.Versions.{Env}
use securestore.Database.{Ownership, EventType}
use securestore.Tools.{
  AgentContext, ToolError, World, Outcome, done, raised, Action, ◌>>=◌, return, Summary,
}
use securestore.Tools.Secrets.{
  GetResult, FindArgs, StoreArgs, StoreAnswer, tool_secret_get, tool_secret_find, tool_secret_list,
  tool_secret_metadata, tool_secret_store,
}
use securestore.Tools.Changes.{
  UpdateArgs, RotateAnswer, tool_secret_update, tool_secret_enrich, tool_secret_rotate,
  tool_secret_revoke, tool_secret_delete, tool_secret_claim, tool_secret_share,
  tool_secret_transfer_ownership,
}
use securestore.Tools.Brokered.{
  Adapter, ExecuteArgs, SessionAnswer, ValidationOutcome, tool_credential_execute,
  tool_credential_validate, tool_credential_proxy_session_create, tool_credential_temporary_issue,
}
use securestore.Tools.Oversight.{
  ApprovalArgs, ApprovalAnswer, AuditArgs, EventsAnswer, tool_policy_check, tool_approval_request,
  tool_audit_query, tool_agent_register, tool_agent_session_list, tool_credential_event_subscribe,
}

pub data ToolCall : Type 0 where
  secret_get secret_metadata secret_claim credential_validate : (credential_id : ℕ) → ToolCall
  secret_find : FindArgs → ToolCall
  secret_list : (status : Option String) (limit : Option ℕ) → ToolCall
  secret_store : StoreArgs → ToolCall
  secret_update : (credential_id : ℕ) → UpdateArgs → ToolCall
  secret_enrich : (credential_id : ℕ) → List (String × Value) → Option Bool → ToolCall
  secret_rotate : (credential_id : ℕ) → List ℕ → Option (List (String × Value)) → ToolCall
  secret_revoke : (credential_id : ℕ) → Option String → ToolCall
  secret_delete : (credential_id : ℕ) (hard : Option Bool) → ToolCall
  secret_share : (credential_id : ℕ) → SharingPolicy → ToolCall
  secret_transfer_ownership : (credential_id : ℕ) → Ownership → ToolCall
  credential_execute : ExecuteArgs → ToolCall
  credential_proxy_session_create credential_temporary_issue :
      (credential_id : ℕ) (ttl_seconds : Option ℕ) (max_uses : Option ℤ) → ToolCall
  policy_check : PolicyAction → (provider credential_type : String) → Option String → ToolCall
  approval_request : ApprovalArgs → ToolCall
  audit_query : AuditArgs → ToolCall
  agent_register : RegisterAgentInput → ToolCall
  agent_session_list : Option ℕ → ToolCall
  credential_event_subscribe : Option ℕ → Option (List EventType) → ToolCall

pub data Response : Type 0 where
  got : GetResult → Response
  summary : Summary → Response
  summaries : List Summary → Response
  stored : StoreAnswer → Response
  rotated : RotateAnswer → Response
  credential : (credential_id : ℕ) → Response
  executed : ℕ × String → Response
  validation : ValidationOutcome → Response
  session : SessionAnswer → Response
  decision : PolicyDecision → Response
  approval : ApprovalAnswer → Response
  entries : List AuditRow → Response
  registered : ℕ × Option (List ℕ) → Response
  agent_sessions : ℕ × List AgentSession → Response
  events : EventsAnswer → Response

-- What the process has beside its tables: the libraries, the providers, the table of policies,
-- and the rows of `audit_log` and `events` with their times.
pub record Server : Type 0 where
  pub lib : CryptoLib
  pub ilike : String → String → Bool
  pub uuid_text : ℕ → String
  pub resolve : (provider credential_type : String) → Adapter
  pub policies : List Policy
  pub audit_rows : List AuditRow
  pub event_rows : List SecureStoreEvent

-- What a call takes from outside: the clock and the generated values.
pub record Fresh : Type 0 where
  pub env : Env
  pub uuid : ℕ
  pub token : ℕ
  pub random : List ℕ

abbrev pub answer {ℓ} : {A : Type ℓ} → (A → Response) → Outcome A × World → Outcome Response × World
answer f (done a, w) = (done (f a), w)
answer f (raised e, w) = (raised e, w)

module _ (server : Server) (fresh : Fresh) (ctx : AgentContext) where
  abbrev pub now : ℕ
  now = fresh.env.now

  -- The handler of each tool.
  unfoldable pub handle : ToolCall → Action Response
  handle (secret_get id) w =
      answer got (tool_secret_get server.lib fresh.env server.policies ctx fresh.uuid id w)
  handle (secret_metadata id) w =
      answer summary (tool_secret_metadata server.lib fresh.env server.policies ctx id w)
  handle (secret_claim id) w = answer summary (tool_secret_claim now server.policies ctx id w)
  handle (credential_validate id) w =
      answer validation
        (tool_credential_validate now server.policies ctx server.resolve server.lib id w)
  handle (secret_find args) w =
      answer summaries (tool_secret_find server.ilike now server.policies ctx args w)
  handle (secret_list status limit) w =
      answer summaries (tool_secret_list server.ilike now server.policies ctx status limit w)
  handle (secret_store args) w =
      answer stored (tool_secret_store server.lib fresh.env server.policies ctx args w)
  handle (secret_update id args) w =
      answer summary (tool_secret_update now server.policies ctx id args w)
  handle (secret_enrich id fields verified) w =
      answer summary (tool_secret_enrich now server.policies ctx id fields verified w)
  handle (secret_rotate id value fields) w = answer rotated (
      tool_secret_rotate server.uuid_text server.lib fresh.env server.policies ctx id value fields
        w)
  handle (secret_revoke id why) w =
      answer credential (tool_secret_revoke now server.policies ctx id why w)
  handle (secret_delete id hard) w =
      answer credential (tool_secret_delete now server.policies ctx id hard w)
  handle (secret_share id policy) w =
      answer summary (tool_secret_share now server.policies ctx id policy w)
  handle (secret_transfer_ownership id to) w =
      answer summary (tool_secret_transfer_ownership now server.policies ctx id to w)
  handle (credential_execute args) w =
      answer executed
        (tool_credential_execute now server.policies ctx server.resolve server.lib args w)
  handle (credential_proxy_session_create id ttl uses) w =
      answer session
        (tool_credential_proxy_session_create now server.policies ctx fresh.token id ttl uses w)
  handle (credential_temporary_issue id ttl uses) w =
      answer session
        (tool_credential_temporary_issue now server.policies ctx fresh.token id ttl uses w)
  handle (policy_check action provider type environment) w =
      answer decision (tool_policy_check now server.policies ctx action provider type environment w)
  handle (approval_request args) w =
      answer approval (tool_approval_request now server.policies ctx fresh.uuid args w)
  handle (audit_query args) w =
      answer entries (tool_audit_query now server.policies ctx server.audit_rows args w)
  handle (agent_register args) w =
      answer registered (tool_agent_register ctx server.lib fresh.uuid fresh.random args w)
  handle (agent_session_list id) w = answer agent_sessions (tool_agent_session_list ctx id w)
  handle (credential_event_subscribe since types) w =
      answer events (tool_credential_event_subscribe ctx server.event_rows since types w)
