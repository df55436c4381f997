-- ===== src/Tools/Oversight/Scope.antt =====
-- What an agent learns of other workspaces and agents.
use securestore.Common.{
  ℕ, Option, none, some, List, true, All, All-weaken, ◌≡◌, sym, ap, ◌∙◌, arith, nat_eq,
}
use securestore.Policy.Types.{Policy, audit_query}
use securestore.Agent.{is_agent_workspace_member, get_agent_workspace_ids}
use securestore.Audit.{AuditRow, AuditQuery, in_scope, is_selected, query_audit}
use securestore.Audit.Isolation.{query_audit-selected}
use securestore.Visibility.Agreement.{includes_members}
use mathlib.Core.Path.{subst}
use securestore.Database.{Db}
use securestore.Tools.{AgentContext, World, done}
use securestore.Tools.Steps.{on_done, done-same, require-done}
use securestore.Tools.Oversight.{AuditArgs, tool_audit_query}

-- What the agent may see of a workspace: its own workspaces, and for an administrator also what
-- belongs to none.
abbrev pub MayRead : AgentContext → Db → Option ℕ → Type 0
MayRead ctx db none = ctx.agent.metadata_admin_permission ≡ true
MayRead ctx db (some id) = is_agent_workspace_member ctx.agent.id id db ≡ true

in_scope-MayRead :
    (ctx : AgentContext) (db : Db) (workspace_id : Option ℕ)
    → in_scope
        (some (record {
          workspace_ids = get_agent_workspace_ids ctx.agent.id db;
          include_workspaceless = ctx.agent.metadata_admin_permission;
        }))
        workspace_id
      ≡ true
    → MayRead ctx db workspace_id
unfolding get_agent_workspace_ids is_agent_workspace_member
in_scope-MayRead ctx db none h = h
in_scope-MayRead ctx db (some id) h = sym (includes_members ctx.agent.id id db.memberships) ∙ h

selected-scope :
    (q : AuditQuery) (r : AuditRow)
    → is_selected q r ≡ true
    → (r.org_id ≡ q.org_id) × (in_scope q.workspace_scope r.workspace_id ≡ true)
unfolding is_selected
selected-scope q r h = (ground arith, ground arith)

-- The query of the tool, with the workspaces of the agent.
abbrev query_of : AgentContext → AuditArgs → List ℕ → AuditQuery
query_of ctx args ids = record {
  org_id = ctx.agent.org_id;
  workspace_scope =
      some (record {
        workspace_ids = ids;
        include_workspaceless = ctx.agent.metadata_admin_permission;
      });
  credential_id = args.credential_id;
  agent_id = args.agent_id;
  operation = args.operation;
  since = args.since;
  limit = args.limit;
}

module _ (now : ℕ) (policies : List Policy) (ctx : AgentContext) where
  -- audit_query shows an agent only entries of its own organization, and of these only those of
  -- workspaces that it is a member of; entries of no workspace only with the admin permission.
  pub audit_query-MayRead :
      (rows : List AuditRow) (args : AuditArgs) (w : World) {shown : List AuditRow} {end : World}
      → tool_audit_query now policies ctx rows args w ≡ (done shown, end)
      → All (λ r. (r.org_id ≡ ctx.agent.org_id) × MayRead ctx w.db r.workspace_id) shown
  unfolding tool_audit_query
  audit_query-MayRead rows args w {shown} h = on_done _ _ w h λ d w1 e1 k1.
      on_done _ _ w1 k1 λ ids w2 e2 k2.
        let (still, decided, allowed) = require-done _ _ ctx audit_query none _ w e1 in
        let (listed, same) = done-same e2 in
        let (answer, last) = done-same k2 in
        let ids_of = get_agent_workspace_ids ctx.agent.id in
        let path =
          ap (λ i. query_audit (query_of ctx args i) rows)
            (ap (λ x. ids_of x.db) (sym still) ∙ listed) in
        let q = query_of ctx args (ids_of w.db) in
        subst (All (λ r. (r.org_id ≡ ctx.agent.org_id) × MayRead ctx w.db r.workspace_id))
          (path ∙ answer)
          (All-weaken _ _ (query_audit q rows)
            (λ r e.
              let (org, scope) = selected-scope q r e in
              (org, in_scope-MayRead ctx w.db r.workspace_id scope))
            (query_audit-selected q rows))
