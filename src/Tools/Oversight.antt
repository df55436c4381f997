-- ===== src/Tools/Oversight.antt =====
-- The tools on policies, approvals, the audit log, agents and events (src/mcp/toolHandlers.ts:
-- toolPolicyCheck to toolCredentialEventSubscribe). The rows of `audit_log` and `events` with
-- their times and ids are arguments.
pub mod Scope
mod Tests
use securestore.Common.{
  ℕ, String, Option, none, some, List, [], ◌∷◌, Bool, true, false, not, ◌&&◌, or_else, nat_beq,
  truthy, filter, take, reverse, includes, if◌then◌else◌,
}
use securestore.Policy.Types.{
  PolicyAction, PolicyDecision, Policy, ApprovalRequest, audit_query, low,
}
use securestore.Policy.Approval.{create_approval_request, decide_approval, get_approval_status}
use securestore.Agent.{get_agent_workspace_ids}
use securestore.Agent.Types.{AgentRecord, AgentSession}
use securestore.Agent.Registration.{RegisterAgentInput, register_agent, get_agent}
use securestore.Audit.{AuditRow, AuditQuery, query_audit}
use securestore.Events.{SecureStoreEvent, event_type_eq, list_events_since}
use securestore.Crypto.{CryptoLib}
use securestore.Database.{Db, EventType}
use securestore.Tools.{
  AgentContext, ToolError, not_found, bad_request, capability_denied, World, Outcome, done, Action,
  ◌>>=◌, ◌>>◌, return, raise, raise_if, reads, or_raise, transact, require_policy, decision_for,
  load_visible_credential,
}
use securestore.Tools.Secrets.{unnamed, create_approval}

pub data ApprovalArgs : Type 0 where
  create : (credential_id : Option ℕ) (operation : Option String) → ApprovalArgs
  decide : (approval_id : Option ℕ) (approve : Option Bool) (reason : Option String) → ApprovalArgs
  status : (approval_id : Option ℕ) → ApprovalArgs

pub data ApprovalAnswer : Type 0 where
  created : (approval_id : ℕ) → ApprovalAnswer
  row : ApprovalRequest → ApprovalAnswer

pub record AuditArgs : Type 0 where
  pub credential_id : Option ℕ
  pub agent_id : Option ℕ
  pub operation : Option String
  pub since : Option ℕ
  pub limit : Option ℕ

pub record EventsAnswer : Type 0 where
  pub events : List SecureStoreEvent
  pub next_since_event_id : ℕ

-- SELECT * FROM agent_sessions WHERE agent_id = $1 ORDER BY started_at DESC LIMIT 100. A row is
-- inserted when its session starts, so the rows stand in that order.
unfoldable pub list_sessions : ℕ → Db → List AgentSession
list_sessions agent_id db =
    take 100 (reverse (filter (λ s. nat_beq s.agent_id agent_id) db.agent_sessions))

-- The agent, if it is one of the organization.
abbrev pub agent_of_org : ℕ → Option AgentRecord → Option AgentRecord
agent_of_org org_id none = none
agent_of_org org_id (some target) = if nat_beq target.org_id org_id then some target else none

-- The id of the last event, or `since` of an empty page.
abbrev pub next_since : ℕ → List SecureStoreEvent → ℕ
next_since since [] = since
next_since since (e ∷ es) = next_since e.id es

-- An empty list of types is no filter.
abbrev pub of_types : Option (List EventType) → List SecureStoreEvent → List SecureStoreEvent
of_types none events = events
of_types (some []) events = events
of_types (some (t ∷ ts)) events = filter (λ e. includes (t ∷ ts) e.event_type) events

module _ (now : ℕ) (policies : List Policy) (ctx : AgentContext) where
  unfoldable pub tool_policy_check :
      PolicyAction → (provider credential_type : String) → Option String → Action PolicyDecision
  tool_policy_check action provider credential_type environment = return (
      decision_for now policies ctx action
        (unnamed provider credential_type (or_else environment "development") [] "medium"))

  abbrev pub decide_row : ℕ → Option Bool → Option String → Action (Option ApprovalRequest)
  decide_row approval_id approve why =
      transact
        (decide_approval now ctx.agent.org_id approval_id ctx.agent.id (or_else approve false) why)

  unfoldable pub request_approval :
      (approval_uuid : ℕ) → Option ℕ → Option String → Action ApprovalAnswer
  request_approval approval_uuid (some credential_id) (some operation) = do
    raise_if (not (truthy (some operation))) bad_request
    cred ← load_visible_credential now policies ctx credential_id
    id ← create_approval now approval_uuid cred.id ctx.agent.id operation
    return (created id)
  request_approval approval_uuid _ _ = raise bad_request

  unfoldable pub tool_approval_request : (approval_uuid : ℕ) → ApprovalArgs → Action ApprovalAnswer
  tool_approval_request approval_uuid (create credential_id operation) =
      request_approval approval_uuid credential_id operation
  tool_approval_request approval_uuid (decide approval_id approve why) = do
    raise_if (not ctx.agent.metadata_admin_permission) capability_denied
    id ← or_raise bad_request approval_id
    decided ← decide_row id approve why
    found ← or_raise not_found decided
    return (row found)
  tool_approval_request approval_uuid (status approval_id) = do
    id ← or_raise bad_request approval_id
    current ← reads (get_approval_status ctx.agent.org_id id)
    found ← or_raise not_found current
    return (row found)

  unfoldable pub tool_audit_query : List AuditRow → AuditArgs → Action (List AuditRow)
  tool_audit_query rows args = do
    require_policy now policies ctx audit_query none (unnamed "*" "*" "development" [] "low")
    member_workspace_ids ← reads (get_agent_workspace_ids ctx.agent.id)
    return (
        query_audit
          (record {
            org_id = ctx.agent.org_id;
            workspace_scope = some (record {
              workspace_ids = member_workspace_ids;
              include_workspaceless = ctx.agent.metadata_admin_permission;
            });
            credential_id = args.credential_id;
            agent_id = args.agent_id;
            operation = args.operation;
            since = args.since;
            limit = args.limit;
          })
          rows)

module _ (ctx : AgentContext) where
  -- The organization of the input is overwritten.
  unfoldable pub tool_agent_register :
      CryptoLib → (uuid : ℕ) (random : List ℕ) → RegisterAgentInput → Action (ℕ × Option (List ℕ))
  tool_agent_register lib uuid random args = do
    raise_if (not ctx.agent.metadata_admin_permission) capability_denied
    registered ←
        transact (register_agent lib uuid random (record args { org_id = ctx.agent.org_id }))
    return (registered.0.id, registered.1)

  unfoldable pub tool_agent_session_list : Option ℕ → Action (ℕ × List AgentSession)
  tool_agent_session_list agent_id = do
    let target_id = or_else agent_id ctx.agent.id
    raise_if (not (nat_beq target_id ctx.agent.id) && not ctx.agent.metadata_admin_permission)
        capability_denied
    target ← reads (get_agent target_id)
    or_raise not_found (agent_of_org ctx.agent.org_id target)
    sessions ← reads (list_sessions target_id)
    return (target_id, sessions)

  unfoldable pub tool_credential_event_subscribe :
      List SecureStoreEvent → Option ℕ → Option (List EventType) → Action EventsAnswer
  tool_credential_event_subscribe rows since_event_id event_types = do
    let since = or_else since_event_id 0
    member_workspace_ids ← reads (get_agent_workspace_ids ctx.agent.id)
    let events =
        list_events_since since
          (record {
            org_id = ctx.agent.org_id;
            workspace_ids = member_workspace_ids;
            include_workspaceless = some ctx.agent.metadata_admin_permission;
          })
          500 rows
    return (record {
      events = of_types event_types events;
      next_since_event_id = next_since since events;
    })
