-- ===== src/Audit/Order.antt =====
-- The order of the rows that a query of the audit log returns, and what its LIMIT cuts off.
use mathlib.Core.List.{perm_middle, Perm}
use mathlib.Core.List.Perm
use securestore.Common.{
  ℕ, zero, suc, ◌≤◌, min, List, [], ◌∷◌, ◌++◌, Bool, not, leb, filter, take, drop, length, All,
  All-weaken, ◌≡◌, refl, ap, arith, inl, inr, Bool-cases,
}
use securestore.Audit.{AuditRow, insert_by_time, order_by_time}

-- Newest first.
pub IsDescending : List AuditRow → Type 0
IsDescending [] = Unit
IsDescending (r ∷ rows) = All (λ s. s.occurred_at ≤ r.occurred_at) rows × IsDescending rows

module _ (P : AuditRow → Type 0) where
  All-insert_by_time :
      (r : AuditRow) (rows : List AuditRow) → P r → All P rows → All P (insert_by_time r rows)
  unfolding insert_by_time
  All-insert_by_time r [] p h = (p, tt)
  All-insert_by_time r (s ∷ rows) p h = elim (Bool-cases (leb s.occurred_at r.occurred_at)) [
    | inl e ↦ rw e (p, h)
    | inr e ↦ rw e (h.0, All-insert_by_time r rows p h.1)
  ]

  pub All-order_by_time : (rows : List AuditRow) → All P rows → All P (order_by_time rows)
  unfolding order_by_time
  All-order_by_time [] h = tt
  All-order_by_time (r ∷ rows) h =
      All-insert_by_time r (order_by_time rows) h.0 (All-order_by_time rows h.1)

  pub All-take : (n : ℕ) (rows : List AuditRow) → All P rows → All P (take n rows)
  All-take zero rows h = tt
  All-take (suc n) [] h = tt
  All-take (suc n) (r ∷ rows) h = (h.0, All-take n rows h.1)

  pub All-drop : (n : ℕ) (rows : List AuditRow) → All P rows → All P (drop n rows)
  All-drop zero rows h = h
  All-drop (suc n) [] h = tt
  All-drop (suc n) (r ∷ rows) h = All-drop n rows h.1

All-both :
    (P Q : AuditRow → Type 0) (rows : List AuditRow)
    → All P rows
    → All Q rows
    → All (λ r. P r × Q r) rows
All-both P Q [] h k = tt
All-both P Q (r ∷ rows) h k = ((h.0, k.0), All-both P Q rows h.1 k.1)

All-unit : (rows : List AuditRow) → All (λ r. Unit {0}) rows
All-unit [] = tt
All-unit (r ∷ rows) = (tt, All-unit rows)

insert_by_time-IsDescending :
    (r : AuditRow) (rows : List AuditRow) → IsDescending rows → IsDescending (insert_by_time r rows)
unfolding insert_by_time IsDescending
insert_by_time-IsDescending r [] h = (tt, tt)
insert_by_time-IsDescending r (s ∷ rows) h = elim (Bool-cases (leb s.occurred_at r.occurred_at)) [
  | inl e ↦ rw e ((ground arith, All-weaken _ _ rows (λ x le. ground (arith, le, e)) h.0), h)
  | inr e ↦ rw e (
    All-insert_by_time (λ x. x.occurred_at ≤ s.occurred_at) r rows (ground arith) h.0,
    insert_by_time-IsDescending r rows h.1,
  )
]

pub order_by_time-IsDescending : (rows : List AuditRow) → IsDescending (order_by_time rows)
unfolding order_by_time IsDescending
order_by_time-IsDescending [] = tt
order_by_time-IsDescending (r ∷ rows) =
    insert_by_time-IsDescending r (order_by_time rows) (order_by_time-IsDescending rows)

pub take-IsDescending :
    (n : ℕ) (rows : List AuditRow) → IsDescending rows → IsDescending (take n rows)
unfolding IsDescending
take-IsDescending zero rows h = tt
take-IsDescending (suc n) [] h = tt
take-IsDescending (suc n) (r ∷ rows) h = (All-take _ n rows h.0, take-IsDescending n rows h.1)

-- A row that is cut off is no newer than any that is kept.
pub drop-le-take :
    (n : ℕ) (rows : List AuditRow)
    → IsDescending rows
    → All (λ r. All (λ s. r.occurred_at ≤ s.occurred_at) (take n rows)) (drop n rows)
unfolding IsDescending
drop-le-take zero rows h = All-unit rows
drop-le-take (suc n) [] h = tt
drop-le-take (suc n) (r ∷ rows) h =
    All-both _ _ (drop n rows) (All-drop _ n rows h.0) (drop-le-take n rows h.1)

insert_by_time-Perm :
    (r : AuditRow) (rows : List AuditRow) → Perm (insert_by_time r rows) (r ∷ rows)
unfolding insert_by_time
insert_by_time-Perm r [] = Perm.rfl
insert_by_time-Perm r (s ∷ rows) = elim (Bool-cases (leb s.occurred_at r.occurred_at)) [
  | inl e ↦ rw e Perm.rfl
  | inr e ↦ rw e (Perm.trans (Perm.cons s (insert_by_time-Perm r rows)) (Perm.swap r s rows))
]

pub order_by_time-Perm : (rows : List AuditRow) → Perm (order_by_time rows) rows
unfolding order_by_time
order_by_time-Perm [] = Perm.rfl
order_by_time-Perm (r ∷ rows) =
    Perm.trans (insert_by_time-Perm r (order_by_time rows)) (Perm.cons r (order_by_time-Perm rows))

-- The rows that a test selects, and the others.
pub filter-Perm :
    (p : AuditRow → Bool) (rows : List AuditRow)
    → Perm (filter p rows ++ filter (λ r. not (p r)) rows) rows
filter-Perm p [] = Perm.rfl
filter-Perm p (r ∷ rows) = elim (Bool-cases (p r)) [
  | inl e ↦ rw e (Perm.cons r (filter-Perm p rows))
  | inr e ↦ rw e (
      Perm.trans (perm_middle (filter p rows) (filter (λ s. not (p s)) rows))
        (Perm.cons r (filter-Perm p rows)))
]

pub take-drop : (n : ℕ) (rows : List AuditRow) → take n rows ++ drop n rows ≡ rows
take-drop zero rows = refl
take-drop (suc n) [] = refl
take-drop (suc n) (r ∷ rows) = ap (λ (l : List AuditRow). r ∷ l) (take-drop n rows)

pub length-take : (n : ℕ) (rows : List AuditRow) → length (take n rows) ≡ min n (length rows)
length-take zero rows = ground arith
length-take (suc n) [] = ground arith
length-take (suc n) (r ∷ rows) = ground (arith, length-take n rows)
