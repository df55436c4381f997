-- ===== src/Audit/Tests.antt =====
-- The theorem on queries of the audit log holds of every log: a run of a query.
use securestore.Common.{List, false, some, none, [], ◌∷◌, ◌≡◌, refl, map}
use securestore.Tools.Samples.{audit_row}
use securestore.Audit.{
  AuditRow, AuditQuery, is_selected, insert_by_time, order_by_time, query_audit,
}
use securestore.Audit.Isolation.{IsLatest, query_audit-IsLatest}

abbrev two : AuditQuery
two = record {
  org_id = 1;
  workspace_scope = some (record { workspace_ids = 10 ∷ []; include_workspaceless = false });
  credential_id = none;
  agent_id = none;
  operation = none;
  since = none;
  limit = some 2;
}

abbrev log : List AuditRow
log =
    record audit_row { occurred_at = 3 }
    ∷ record audit_row { occurred_at = 5 }
    ∷ record audit_row { occurred_at = 4 }
    ∷ []

latest_two : map (λ r. r.occurred_at) (query_audit two log) ≡ 5 ∷ 4 ∷ []
unfolding query_audit is_selected order_by_time insert_by_time
latest_two = refl

query_audit-IsLatest_example : IsLatest two log (query_audit two log)
query_audit-IsLatest_example = query_audit-IsLatest two log
