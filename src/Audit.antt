-- ===== src/Audit.antt =====
-- Reading the audit log (src/services/auditService.ts: queryAudit). A row is an entry with the
-- time at which it was written.
pub mod Order
pub mod Matches
pub mod Isolation
mod Tests
use securestore.Common.{
  ℕ, String, Option, none, some, List, [], ◌∷◌, Bool, true, false, ◌&&◌, leb, min, or_else, truthy,
  nat_beq, nat_eq, string_eq, ◌==◌, includes, filter, take, if◌then◌else◌,
}
use securestore.Database.{AuditEntry}

pub record AuditRow : Type 0 where
  pub entry : AuditEntry
  pub open entry use *
  pub occurred_at : ℕ

pub record WorkspaceScope : Type 0 where
  pub workspace_ids : List ℕ
  pub include_workspaceless : Bool

pub record AuditQuery : Type 0 where
  pub org_id : ℕ
  pub workspace_scope : Option WorkspaceScope
  pub credential_id : Option ℕ
  pub agent_id : Option ℕ
  pub operation : Option String
  pub since : Option ℕ
  pub limit : Option ℕ

-- workspace_id = ANY($n), OR workspace_id IS NULL with `include_workspaceless`
abbrev pub in_scope : Option WorkspaceScope → Option ℕ → Bool
in_scope none workspace_id = true
in_scope (some scope) none = scope.include_workspaceless
in_scope (some scope) (some id) = includes scope.workspace_ids id

-- A clause on a column that may be NULL, if the field is there.
abbrev pub column_is : Option ℕ → Option ℕ → Bool
column_is none column = true
column_is (some id) none = false
column_is (some id) (some column) = nat_beq column id

abbrev pub text_is : Option String → String → Bool
text_is field column = if truthy field then column == or_else field "" else true

abbrev pub not_before : Option ℕ → ℕ → Bool
not_before none occurred_at = true
not_before (some since) occurred_at = leb since occurred_at

unfoldable pub is_selected : AuditQuery → AuditRow → Bool
is_selected q row =
    nat_beq row.org_id q.org_id
    && (in_scope q.workspace_scope row.workspace_id
        && (column_is q.credential_id row.credential_id
            && (column_is q.agent_id row.agent_id
                && (text_is q.operation row.operation && not_before q.since row.occurred_at))))

-- ORDER BY occurred_at DESC
unfoldable pub insert_by_time : AuditRow → List AuditRow → List AuditRow
insert_by_time r [] = r ∷ []
insert_by_time r (s ∷ rows) =
    let rest = insert_by_time r rows in
    if leb s.occurred_at r.occurred_at then r ∷ s ∷ rows else s ∷ rest

unfoldable pub order_by_time : List AuditRow → List AuditRow
unfolding insert_by_time
order_by_time [] = []
order_by_time (r ∷ rows) = insert_by_time r (order_by_time rows)

unfoldable pub query_audit : AuditQuery → List AuditRow → List AuditRow
query_audit q rows =
    take (min (or_else q.limit 100) 1000) (order_by_time (filter (is_selected q) rows))
