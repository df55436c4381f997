-- ===== src/Tools/Oversight/Tests.antt =====
-- The theorem on audit_query at a concrete server.
use securestore.Common.{none, [], ◌∷◌, ◌≡◌, refl, All}
use securestore.Audit.{AuditRow, is_selected, insert_by_time, order_by_time, query_audit}
use securestore.Agent.{get_agent_workspace_ids}
use securestore.Tools.Samples.{machine, ctx, policy, world, audit_row}
use securestore.Tools.Oversight.{tool_audit_query}
use securestore.Tools.Oversight.Scope.{MayRead, audit_query-MayRead}

audit_query-MayRead_example :
    All (λ (r : AuditRow). (r.org_id ≡ 1) × MayRead ctx world.db r.workspace_id) (audit_row ∷ [])
unfolding machine is_selected insert_by_time order_by_time query_audit get_agent_workspace_ids
    tool_audit_query
audit_query-MayRead_example =
    audit_query-MayRead 1000 (policy ∷ []) ctx (audit_row ∷ [])
      (record {
        credential_id = none;
        agent_id = none;
        operation = none;
        since = none;
        limit = none;
      })
      world refl
