-- ===== src/Policy/Sort.antt =====
-- The stable sort by priority that `evaluatePolicy` applies to the candidates, and what a fold
-- or a test over the sorted list sees.
use securestore.Common.{
  List, [], ◌∷◌, Bool, true, false, ◌||◌, leb, any, filter, All, if◌then◌else◌, refl, ◌≡◌, arith,
  ap, Bool-cases, ◌⊎◌, inl, inr, inl, inr, ◌∙◌,
}
use mathlib.Core.List.{Memᴰ}
use securestore.Common.{mem-cons_cases}
use securestore.Policy.Types.{ℤ, pos, negsuc, Policy}

-- a <= b
abbrev pub leb_int : ℤ → ℤ → Bool
leb_int (pos a) (pos b) = leb a b
leb_int (pos a) (negsuc b) = false
leb_int (negsuc a) (pos b) = true
leb_int (negsuc a) (negsuc b) = leb b a

pub leb_int_refl : (a : ℤ) → leb_int a a ≡ true
leb_int_refl (pos a) = ground arith
leb_int_refl (negsuc a) = ground arith

pub leb_int_total : (a b : ℤ) → leb_int a b ≡ false → leb_int b a ≡ true
leb_int_total (pos a) (pos b) h = ground arith
leb_int_total (pos a) (negsuc b) h = refl
leb_int_total (negsuc a) (pos b) h = absurd (cc h)
leb_int_total (negsuc a) (negsuc b) h = ground arith

pub leb_int_trans : (a b c : ℤ) → leb_int a b ≡ true → leb_int b c ≡ true → leb_int a c ≡ true
leb_int_trans (pos a) (pos b) (pos c) h k = ground arith
leb_int_trans (negsuc a) (negsuc b) (negsuc c) h k = ground arith
leb_int_trans (negsuc a) _ (pos c) h k = refl
leb_int_trans (pos a) (pos b) (negsuc c) h k = absurd (cc k)
leb_int_trans (pos a) (negsuc b) (pos c) h k = absurd (cc h)
leb_int_trans (pos a) (negsuc b) (negsuc c) h k = absurd (cc h)
leb_int_trans (negsuc a) (pos b) (negsuc c) h k = absurd (cc k)

-- A policy goes before those of a greater or the same priority number that follow it.
unfoldable pub insert_by_priority : Policy → List Policy → List Policy
insert_by_priority p [] = p ∷ []
insert_by_priority p (q ∷ qs) =
    let rest = insert_by_priority p qs in
    if leb_int p.priority q.priority then p ∷ q ∷ qs else q ∷ rest

-- candidates.sort((a, b) => a.priority - b.priority), which is stable
unfoldable pub sort : List Policy → List Policy
unfolding insert_by_priority
sort [] = []
sort (p ∷ ps) = insert_by_priority p (sort ps)

any-insert :
    (f : Policy → Bool) (p : Policy) (qs : List Policy)
    → any f (insert_by_priority p qs) ≡ (f p || any f qs)
unfolding insert_by_priority
any-insert f p [] = refl
any-insert f p (q ∷ qs) = ground (arith, any-insert f p qs)

pub any-sort : (f : Policy → Bool) (ps : List Policy) → any f (sort ps) ≡ any f ps
unfolding sort
any-sort f [] = refl
any-sort f (p ∷ ps) = ground (arith, any-insert f p (sort ps), any-sort f ps)

-- Every element's priority is at least `k`.
abbrev pub AtLeast : ℤ → List Policy → Type 0
AtLeast k ps = All (λ q. leb_int k q.priority ≡ true) ps

abbrev pub IsSorted : List Policy → Type 0
IsSorted [] = Unit
IsSorted (p ∷ ps) = AtLeast p.priority ps × IsSorted ps

All-insert {ℓ} :
    (P : Policy → Type ℓ) (p : Policy) (qs : List Policy)
    → P p
    → All P qs
    → All P (insert_by_priority p qs)
unfolding insert_by_priority
All-insert P p [] h k = (h, tt)
All-insert P p (q ∷ qs) h k = elim (Bool-cases (leb_int p.priority q.priority)) [
  | inl e ↦ rw e (h, k)
  | inr e ↦ rw e (k.0, All-insert P p qs h k.1)
]

AtLeast-trans : (a b : ℤ) (ps : List Policy) → leb_int a b ≡ true → AtLeast b ps → AtLeast a ps
AtLeast-trans a b [] h k = tt
AtLeast-trans a b (p ∷ ps) h k = (leb_int_trans a b p.priority h k.0, AtLeast-trans a b ps h k.1)

insert-IsSorted : (p : Policy) (qs : List Policy) → IsSorted qs → IsSorted (insert_by_priority p qs)
unfolding insert_by_priority
insert-IsSorted p [] h = (tt, tt)
insert-IsSorted p (q ∷ qs) h = elim (Bool-cases (leb_int p.priority q.priority)) [
  | inl e ↦ rw e ((e, AtLeast-trans p.priority q.priority qs e h.0), h)
  | inr e ↦ rw e (
    All-insert (λ r. leb_int q.priority r.priority ≡ true) p qs
        (leb_int_total p.priority q.priority e) h.0,
    insert-IsSorted p qs h.1,
  )
]

pub sort-IsSorted : (ps : List Policy) → IsSorted (sort ps)
unfolding sort
sort-IsSorted [] = tt
sort-IsSorted (p ∷ ps) = insert-IsSorted p (sort ps) (sort-IsSorted ps)

All-filter_keeps {ℓ} :
    (P : Policy → Type ℓ) (f : Policy → Bool) (ps : List Policy) → All P ps → All P (filter f ps)
All-filter_keeps P f [] h = tt
All-filter_keeps P f (p ∷ ps) h = elim (Bool-cases (f p)) [
  | inl e ↦ rw e (h.0, All-filter_keeps P f ps h.1)
  | inr e ↦ rw e (All-filter_keeps P f ps h.1)
]

pub filter-IsSorted : (f : Policy → Bool) (ps : List Policy) → IsSorted ps → IsSorted (filter f ps)
filter-IsSorted f [] h = tt
filter-IsSorted f (p ∷ ps) h = elim (Bool-cases (f p)) [
  | inl e ↦ rw e (
    All-filter_keeps (λ q. leb_int p.priority q.priority ≡ true) f ps h.0,
    filter-IsSorted f ps h.1,
  )
  | inr e ↦ rw e (filter-IsSorted f ps h.1)
]

-- A loop whose steps commute ends in the same state for the sorted list.
module _ {ℓ} {S : Type ℓ} (step : S → Policy → S) where
  abbrev pub loop : S → List Policy → S
  loop s [] = s
  loop s (p ∷ ps) = loop (step s p) ps

  module _ (commutes : (s : S) (p q : Policy) → step (step s p) q ≡ step (step s q) p) where
    loop-insert :
        (f : Policy → Bool) (p : Policy) (qs : List Policy) (s : S)
        → loop s (filter f (insert_by_priority p qs)) ≡ loop s (filter f (p ∷ qs))
    unfolding insert_by_priority
    loop-insert f p [] s = refl
    loop-insert f p (q ∷ qs) s = elim (Bool-cases (leb_int p.priority q.priority)) [
      | inl e ↦ rw e
      | inr e ↦ elim (Bool-cases (f q)) [
        | inl kept ↦ elim (Bool-cases (f p)) [
          | inl fp ↦
              rw (e, kept, fp)
                ((rw fp at (loop-insert f p qs (step s q)))
                  ∙ ap (λ t. loop t (filter f qs)) (commutes s q p))
          | inr fp ↦ rw (e, kept, fp) (rw fp at (loop-insert f p qs (step s q)))
        ]
        | inr gone ↦ rw (e, gone) (loop-insert f p qs s)
      ]
    ]

    pub loop-sort :
        (f : Policy → Bool) (ps : List Policy) (s : S)
        → loop s (filter f (sort ps)) ≡ loop s (filter f ps)
    unfolding sort
    loop-sort f [] s = refl
    loop-sort f (p ∷ ps) s = elim (Bool-cases (f p)) [
      | inl e ↦ loop-insert f p (sort ps) s ∙ rw e (loop-sort f ps (step s p))
      | inr e ↦ loop-insert f p (sort ps) s ∙ rw e (loop-sort f ps s)
    ]

mem-insert :
    (x p : Policy) (qs : List Policy) → (x ≡ p) ⊎ Memᴰ x qs → Memᴰ x (insert_by_priority p qs)
unfolding insert_by_priority
mem-insert x p [] (inl e) = Memᴰ.head e
mem-insert x p [] (inr m) = elim m [ ]
mem-insert x p (q ∷ qs) h = elim (Bool-cases (leb_int p.priority q.priority)) [
  | inl e ↦ rw e (elim h [ inl here ↦ Memᴰ.head here | inr m ↦ Memᴰ.tail m ])
  | inr e ↦ rw e (elim h [
    | inl here ↦ Memᴰ.tail (mem-insert x p qs (inl here))
    | inr m ↦ elim (mem-cons_cases m) [
      | inl first ↦ Memᴰ.head first
      | inr later ↦ Memᴰ.tail (mem-insert x p qs (inr later))
    ]
  ])
]

mem_of_insert :
    (x p : Policy) (qs : List Policy) → Memᴰ x (insert_by_priority p qs) → (x ≡ p) ⊎ Memᴰ x qs
unfolding insert_by_priority
mem_of_insert x p [] m = mem-cons_cases m
mem_of_insert x p (q ∷ qs) m = elim (Bool-cases (leb_int p.priority q.priority)) [
  | inl e ↦ mem-cons_cases (rw e at m)
  | inr e ↦ elim (mem-cons_cases (rw e at m)) [
    | inl first ↦ inr (Memᴰ.head first)
    | inr later ↦ elim (mem_of_insert x p qs later) [
      | inl here ↦ inl here
      | inr there ↦ inr (Memᴰ.tail there)
    ]
  ]
]

pub mem-sort : (x : Policy) (ps : List Policy) → Memᴰ x ps → Memᴰ x (sort ps)
unfolding sort
mem-sort x [] m = elim m [ ]
mem-sort x (p ∷ ps) (Memᴰ.head e) = mem-insert x p (sort ps) (inl e)
mem-sort x (p ∷ ps) (Memᴰ.tail m) = mem-insert x p (sort ps) (inr (mem-sort x ps m))

pub mem_of_sort : (x : Policy) (ps : List Policy) → Memᴰ x (sort ps) → Memᴰ x ps
unfolding sort
mem_of_sort x [] m = elim m [ ]
mem_of_sort x (p ∷ ps) m = elim (mem_of_insert x p (sort ps) m) [
  | inl here ↦ Memᴰ.head here
  | inr there ↦ Memᴰ.tail (mem_of_sort x ps there)
]
