-- ===== src/Policy/Approval.antt =====
-- Denials and approval requests (src/services/policyService.ts: recordAccessDenied to
-- getApprovalStatus). `id` is the UUID that the database generates.
pub mod Isolation
mod Tests
use securestore.Common.{
  ℕ, String, Option, none, some, List, [], ◌∷◌, ◌++◌, Bool, true, false, ◌&&◌, nat_beq,
  if◌then◌else◌, any, find?, update_where, includes, not, nat_eq,
}
use securestore.Policy.Types.{
  deny, Reason, ApprovalStatus, pending, approved, denied, ApprovalRequest,
}
use securestore.Credential.Queries.{has_id}
use securestore.Database.{
  Db, Tx, ok, err, foreign_key_violation, ◌>>=◌, ◌>>◌, modify, record_audit, publish, AuditEntry,
  AuditResult, denial_reason, denial, access_denied,
}

unfoldable pub record_access_denied :
    (org_id agent_id : ℕ) → Option ℕ → Option ℕ → (operation : String) → Reason → Tx (Unit {0})
record_access_denied org_id agent_id workspace_id credential_id operation why = do
  modify (
      record_audit (record {
        org_id = org_id;
        agent_id = some agent_id;
        session_id = none;
        workspace_id = workspace_id;
        credential_id = credential_id;
        credential_version = none;
        provider = none;
        operation = operation;
        access_mode = none;
        creation_source = none;
        introducing_agent_id = none;
        metadata_source = none;
        policy_decision = some deny;
        source_network = none;
        mcp_transport = none;
        result = AuditResult.denied;
        details = denial_reason why;
      }))
  modify (
      publish access_denied (some org_id) workspace_id credential_id (some agent_id)
        (denial operation why))

-- The row of INSERT INTO approval_requests, with the defaults of its columns.
abbrev pub request_of : (now id credential_id agent_id : ℕ) → String → ApprovalRequest
request_of now id credential_id agent_id operation = record {
  id = id;
  credential_id = credential_id;
  agent_id = agent_id;
  operation = operation;
  requested_at = now;
  status = pending;
  decided_by = none;
  decided_at = none;
  reason = none;
}

unfoldable pub create_approval_request : (now id credential_id agent_id : ℕ) → String → Db → ℕ × Db
create_approval_request now id credential_id agent_id operation db = (
  id,
  record db { approvals = db.approvals ++ request_of now id credential_id agent_id operation ∷ [] },
)

-- The join with `credentials` on the organization.
abbrev pub credential_in_org : Db → ℕ → ℕ → Bool
credential_in_org db org_id credential_id =
    any (λ c. has_id credential_id c && nat_beq c.org_id org_id) db.credentials

-- ar.id = … AND ar.credential_id = c.id AND c.org_id = …
abbrev pub is_approval_of : Db → ℕ → ℕ → ApprovalRequest → Bool
is_approval_of db org_id approval_id ar =
    nat_beq ar.id approval_id && credential_in_org db org_id ar.credential_id

unfoldable pub get_approval_status : ℕ → ℕ → Db → Option ApprovalRequest
get_approval_status org_id approval_id db =
    find? (is_approval_of db org_id approval_id) db.approvals

abbrev pub decided : (now decided_by : ℕ) → Bool → Option String → ApprovalRequest → ApprovalRequest
decided now decided_by approve why ar = record ar {
  status = if approve then approved else denied;
  decided_by = some decided_by;
  decided_at = some now;
  reason = why;
}

-- An updated row refers to its user: decided_by REFERENCES users(id). RETURNING gives the first
-- updated row as it is after the UPDATE.
unfoldable pub decide_approval :
    (now org_id approval_id decided_by : ℕ) → Bool → Option String → Tx (Option ApprovalRequest)
decide_approval now org_id approval_id decided_by approve why db =
    let mine = is_approval_of db org_id approval_id in
    let rows = update_where mine (decided now decided_by approve why) db.approvals in
    if any mine db.approvals && not (includes db.users decided_by)
    then err foreign_key_violation
    else ok (find? mine rows, record db { approvals = rows })
