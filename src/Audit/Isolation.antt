-- ===== src/Audit/Isolation.antt =====
-- What a query of the audit log returns: the latest of the rows that it asks for.
use mathlib.Core.List.{append_assoc, Perm}
use mathlib.Core.List.Perm
use mathlib.Core.Path.{subst}
use securestore.Common.{
  ◌≤◌, min, List, ◌++◌, true, not, or_else, filter, take, drop, length, All, All-filter, ◌≡◌, sym,
  ap, ◌∙◌,
}
use securestore.Audit.{AuditRow, AuditQuery, is_selected, order_by_time, query_audit}
use securestore.Audit.Matches.{Matches, selected-Matches, Matches-selected}
use securestore.Audit.Order.{
  IsDescending, All-order_by_time, All-take, All-drop, order_by_time-IsDescending,
  take-IsDescending, drop-le-take, order_by_time-Perm, filter-Perm, take-drop, length-take,
}

-- The log falls into the answer, matching rows that are left out, and rows that do not match.
pub record IsLatest (q : AuditQuery) (rows answer : List AuditRow) : Type 0 where
  pub left : List AuditRow
  pub others : List AuditRow
  pub parts : Perm (answer ++ (left ++ others)) rows
  pub answer_matches : All (Matches q) answer
  pub left_matches : All (Matches q) left
  pub others_differ : All (λ r. ¬ Matches q r) others
  pub is_ordered : IsDescending answer
  pub left_is_older : All (λ r. All (λ s. r.occurred_at ≤ s.occurred_at) answer) left
  pub size : length answer ≡ min (min (or_else q.limit 100) 1000) (length (answer ++ left))

pub query_audit-selected :
    (q : AuditQuery) (rows : List AuditRow) → All (λ r. is_selected q r ≡ true) (query_audit q rows)
unfolding query_audit
query_audit-selected q rows =
    let chosen = filter (is_selected q) rows in
    All-take _ (min (or_else q.limit 100) 1000) (order_by_time chosen)
      (All-order_by_time _ chosen (All-filter _ (is_selected q) rows (λ r e. e)))

-- A query returns the latest of the rows that match its conditions, newest first, each as often as
-- it is in the log, and as many as there are up to the limit: the one asked for, or 100, and at
-- most 1000. A matching row that is left out is no newer than any that is returned.
pub query_audit-IsLatest :
    (q : AuditQuery) (rows : List AuditRow) → IsLatest q rows (query_audit q rows)
unfolding query_audit
query_audit-IsLatest q rows =
    let n = min (or_else q.limit 100) 1000 in
    let chosen = filter (is_selected q) rows in
    let others = filter (λ r. not (is_selected q r)) rows in
    let ordered = order_by_time chosen in
    let matching =
      All-order_by_time (Matches q) chosen
        (All-filter (Matches q) (is_selected q) rows (selected-Matches q)) in
    record {
      left = drop n ordered;
      others = others;
      parts =
          subst (λ (l : List AuditRow). Perm l rows)
            (ap (λ (l : List AuditRow). l ++ others) (sym (take-drop n ordered))
              ∙ append_assoc (take n ordered) (drop n ordered) others)
            (Perm.trans (Perm.append_right others (order_by_time-Perm chosen))
              (filter-Perm (is_selected q) rows));
      answer_matches = All-take _ n ordered matching;
      left_matches = All-drop _ n ordered matching;
      others_differ =
          All-filter _ (λ r. not (is_selected q r)) rows
            (λ r e m. cc (sym (ap not (Matches-selected q r m)) ∙ e));
      is_ordered = take-IsDescending n ordered (order_by_time-IsDescending chosen);
      left_is_older = drop-le-take n ordered (order_by_time-IsDescending chosen);
      size =
          length-take n ordered
          ∙ ap (λ (l : List AuditRow). min n (length l)) (sym (take-drop n ordered));
    }
