-- ===== src/Audit/Matches.antt =====
-- The rows that a query of the audit log asks for.
use mathlib.Core.List.{Memᴰ}
use mathlib.Core.Path.{subst}
use securestore.Common.{
  and_both, ℕ, ◌≤◌, String, Option, none, some, Bool, true, string_eq, any_of_mem, mem_of_any,
  nat_beq, nat_beq_iff, eq_iff, ◌≡◌, refl, ap, arith, ◌⊎◌, inl, inr, Bool-cases,
}
use securestore.Audit.{
  AuditRow, WorkspaceScope, AuditQuery, in_scope, column_is, text_is, not_before, is_selected,
}

-- In one of the workspaces, or in none where the scope takes these too.
pub InScope : Option WorkspaceScope → Option ℕ → Type 0
InScope none workspace_id = Unit
InScope (some scope) none = scope.include_workspaceless ≡ true
InScope (some scope) (some id) = Memᴰ id scope.workspace_ids

-- The column has the value of the field, if the query has the field.
pub Asks : Option ℕ → Option ℕ → Type 0
Asks none column = Unit
Asks (some id) column = column ≡ some id

-- An empty text asks for nothing.
pub AsksText : Option String → String → Type 0
AsksText none column = Unit
AsksText (some s) column = (s ≡ "") ⊎ (column ≡ s)

pub IsSince : Option ℕ → ℕ → Type 0
IsSince none occurred_at = Unit
IsSince (some since) occurred_at = since ≤ occurred_at

pub record Matches (q : AuditQuery) (row : AuditRow) : Type 0 where
  pub same_org : row.org_id ≡ q.org_id
  pub scope : InScope q.workspace_scope row.workspace_id
  pub credential : Asks q.credential_id row.credential_id
  pub agent : Asks q.agent_id row.agent_id
  pub operation : AsksText q.operation row.operation
  pub since : IsSince q.since row.occurred_at

-- A test that is true exactly if a statement holds.
abbrev Tests : Bool → Type 0 → Type 0
Tests b P = (b ≡ true → P) × (P → b ≡ true)

scope_test : (s : Option WorkspaceScope) (id : Option ℕ) → Tests (in_scope s id) (InScope s id)
unfolding InScope
scope_test none id = (λ _. tt, λ _. refl)
scope_test (some s) none = (λ h. h, λ h. h)
scope_test (some s) (some id) = (
  λ h.
      let (x, m, e) = mem_of_any (λ x. nat_beq x id) s.workspace_ids h in
      subst (λ y. Memᴰ y s.workspace_ids) ((nat_beq_iff x id).0 e) m,
  λ m. any_of_mem (λ x. nat_beq x id) id s.workspace_ids m ((nat_beq_iff id id).1 refl),
)

column_test : (field column : Option ℕ) → Tests (column_is field column) (Asks field column)
unfolding Asks
column_test none column = (λ _. tt, λ _. refl)
column_test (some id) none = (λ h. absurd (cc h), λ h. absurd (cc h))
column_test (some id) (some c) = (λ h. ap some ((nat_beq_iff c id).0 h), λ h. ground (arith, h))

text_test :
    (field : Option String) (column : String) → Tests (text_is field column) (AsksText field column)
unfolding AsksText
text_test none column = (λ _. tt, λ _. refl)
text_test (some s) column = elim (Bool-cases (string_eq.beq s "")) [
  | inl e ↦ (λ _. inl ((eq_iff s "").0 e), λ _. rw e refl)
  | inr e ↦ rw e (
    λ h. inr ((eq_iff column s).0 h),
    λ h. (elim h [ inl k ↦ absurd (cc ((eq_iff s "").1 k, e)) | inr k ↦ (eq_iff column s).1 k ]),
  )
]

IsSince-test : (since : Option ℕ) (t : ℕ) → Tests (not_before since t) (IsSince since t)
unfolding IsSince
IsSince-test none t = (λ _. tt, λ _. refl)
IsSince-test (some since) t = (λ h. ground arith, λ h. ground arith)

pub selected-Matches : (q : AuditQuery) (row : AuditRow) → is_selected q row ≡ true → Matches q row
unfolding is_selected
selected-Matches q row h =
    let (a, ha) = and_both (nat_beq row.org_id q.org_id) _ h in
    let (b, hb) = and_both (in_scope q.workspace_scope row.workspace_id) _ ha in
    let (c, hc) = and_both (column_is q.credential_id row.credential_id) _ hb in
    let (d, hd) = and_both (column_is q.agent_id row.agent_id) _ hc in
    let (e, f) = and_both (text_is q.operation row.operation) _ hd in
    record {
      same_org = (nat_beq_iff row.org_id q.org_id).0 a;
      scope = (scope_test q.workspace_scope row.workspace_id).0 b;
      credential = (column_test q.credential_id row.credential_id).0 c;
      agent = (column_test q.agent_id row.agent_id).0 d;
      operation = (text_test q.operation row.operation).0 e;
      since = (IsSince-test q.since row.occurred_at).0 f;
    }

pub Matches-selected : (q : AuditQuery) (row : AuditRow) → Matches q row → is_selected q row ≡ true
unfolding is_selected
Matches-selected q row m =
    rw
      (
        (nat_beq_iff row.org_id q.org_id).1 m.same_org,
        (scope_test q.workspace_scope row.workspace_id).1 m.scope,
        (column_test q.credential_id row.credential_id).1 m.credential,
        (column_test q.agent_id row.agent_id).1 m.agent,
        (text_test q.operation row.operation).1 m.operation,
      )
      ((IsSince-test q.since row.occurred_at).1 m.since)
