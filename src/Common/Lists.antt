-- ===== src/Common/Lists.antt =====
-- Lists under Boolean tests: `filter`, `some`, `includes`, and a table's UPDATE and SELECT.
use Prim.Native.Nat.{ℕ, zero, suc, ◌+◌}
use mathlib.Core.Path.{subst, ◌≡◌, refl, ap}
use mathlib.Core.Logic.{inl, inr}
use mathlib.Core.Logic.{◌⊎◌, inl, inr}
use mathlib.Core.Bool.{Bool, true, false, ◌&&◌, ◌||◌}
use mathlib.Core.Option.{some-injective, Option, none, some}
use mathlib.Core.List.{List, [], ◌∷◌, ◌++◌, Memᴰ}
use native.Mathlib.Omega.{arith}
use securestore.Common.Tests.{Eq, if◌then◌else◌, Bool-cases}

module _ {ℓ} {A : Type ℓ} where
  abbrev pub length : List A → ℕ
  length [] = 0
  length (x ∷ xs) = suc (length xs)

  -- xs.filter(p)
  abbrev pub filter : (A → Bool) → List A → List A
  filter p [] = []
  filter p (x ∷ xs) = let rest = filter p xs in if p x then x ∷ rest else rest

  -- xs.some(p)
  abbrev pub any : (A → Bool) → List A → Bool
  any p [] = false
  any p (x ∷ xs) = p x || any p xs

  -- rows[0] of SELECT … WHERE p
  abbrev pub find? : (A → Bool) → List A → Option A
  find? p [] = none
  find? p (x ∷ xs) = let rest = find? p xs in if p x then some x else rest

  -- UPDATE … SET f WHERE p
  abbrev pub update_where : (A → Bool) → (A → A) → List A → List A
  update_where p f [] = []
  update_where p f (x ∷ xs) = (if p x then f x else x) ∷ update_where p f xs

  abbrev pub take : ℕ → List A → List A
  take zero xs = []
  take (suc n) [] = []
  take (suc n) (x ∷ xs) = x ∷ take n xs

  abbrev pub drop : ℕ → List A → List A
  drop zero xs = xs
  drop (suc n) [] = []
  drop (suc n) (x ∷ xs) = drop n xs

  abbrev pub replicate : ℕ → A → List A
  replicate zero a = []
  replicate (suc n) a = a ∷ replicate n a

  abbrev pub All {κ} : (A → Type κ) → List A → Type κ
  All P [] = Unit
  All P (x ∷ xs) = P x × All P xs

-- xs.includes(a)
abbrev pub includes {ℓ} : {A : Type ℓ} ⦃e : Eq A⦄ → List A → A → Bool
includes ⦃e⦄ xs a = any (λ x. e.beq x a) xs

module _ {ℓ} {A : Type ℓ} where
  pub length-append : (xs ys : List A) → length (xs ++ ys) ≡ length xs + length ys
  length-append [] ys = omega arith
  length-append (x ∷ xs) ys = omega (arith, length-append xs ys)

  pub length-update_where :
      (p : A → Bool) (f : A → A) (xs : List A) → length (update_where p f xs) ≡ length xs
  length-update_where p f [] = refl
  length-update_where p f (x ∷ xs) = ap suc (length-update_where p f xs)

  pub any-append : (p : A → Bool) (xs ys : List A) → any p (xs ++ ys) ≡ (any p xs || any p ys)
  any-append p [] ys = refl
  any-append p (x ∷ xs) ys = ground (arith, any-append p xs ys)

  pub any_of_mem : (p : A → Bool) (x : A) (xs : List A) → Memᴰ x xs → p x ≡ true → any p xs ≡ true
  any_of_mem p x [] m h = elim m [ ]
  any_of_mem p x (y ∷ ys) (Memᴰ.head e) h = ground (arith, ap p e)
  any_of_mem p x (y ∷ ys) (Memᴰ.tail m) h = ground (arith, any_of_mem p x ys m h)

  pub mem_of_any :
      (p : A → Bool) (xs : List A) → any p xs ≡ true → (x : A) × Memᴰ x xs × (p x ≡ true)
  mem_of_any p [] h = absurd (cc h)
  mem_of_any p (x ∷ xs) h = elim (Bool-cases (p x)) [
    | inl here ↦ (x, Memᴰ.head refl, here)
    | inr miss ↦ let (y, m, e) = mem_of_any p xs (ground arith) in (y, Memᴰ.tail m, e)
  ]

  pub any-filter : (p q : A → Bool) (xs : List A) → any q (filter p xs) ≡ any (λ x. p x && q x) xs
  any-filter p q [] = refl
  any-filter p q (x ∷ xs) = ground (arith, any-filter p q xs)

  pub filter-filter :
      (p q : A → Bool) (xs : List A) → filter q (filter p xs) ≡ filter (λ x. p x && q x) xs
  filter-filter p q [] = refl
  filter-filter p q (x ∷ xs) = ground (arith, filter-filter p q xs)

  pub All-filter {κ} :
      (P : A → Type κ) (p : A → Bool) (xs : List A)
      → ((x : A) → p x ≡ true → P x)
      → All P (filter p xs)
  All-filter P p [] h = tt
  All-filter P p (x ∷ xs) h = elim (Bool-cases (p x)) [
    | inl e ↦ rw e (h x e, All-filter P p xs h)
    | inr e ↦ rw e (All-filter P p xs h)
  ]

  pub All-update_where {κ} :
      (P : A → Type κ) (p : A → Bool) (f : A → A) (xs : List A)
      → ((x : A) → p x ≡ true → P x → P (f x))
      → All P xs
      → All P (update_where p f xs)
  All-update_where P p f [] h a = tt
  All-update_where P p f (x ∷ xs) h a = elim (Bool-cases (p x)) [
    | inl e ↦ rw e (h x e a.0, All-update_where P p f xs h a.1)
    | inr e ↦ rw e (a.0, All-update_where P p f xs h a.1)
  ]

  pub All-append {κ} : (P : A → Type κ) (xs ys : List A) → All P xs → All P ys → All P (xs ++ ys)
  All-append P [] ys h k = k
  All-append P (x ∷ xs) ys h k = (h.0, All-append P xs ys h.1 k)

  pub find?_sound : (p : A → Bool) (xs : List A) {x : A} → find? p xs ≡ some x → p x ≡ true
  find?_sound p [] h = absurd (cc h)
  find?_sound p (y ∷ ys) {x} h = elim (Bool-cases (p y)) [
    | inl e ↦ ground (arith, ap (λ (o : Option A). o) h)
    | inr e ↦ find?_sound p ys (rw e at h)
  ]

  pub find?-append :
      (p : A → Bool) (xs ys : List A) {x : A} → find? p xs ≡ some x → find? p (xs ++ ys) ≡ some x
  find?-append p [] ys h = absurd (cc h)
  find?-append p (y ∷ xs) ys h = elim (Bool-cases (p y)) [
    | inl e ↦ rw e (rw e at h)
    | inr e ↦ rw e (find?-append p xs ys (rw e at h))
  ]

  pub find?-append_none :
      (p : A → Bool) (xs ys : List A) → find? p xs ≡ none → find? p (xs ++ ys) ≡ find? p ys
  find?-append_none p [] ys h = refl
  find?-append_none p (y ∷ xs) ys h = elim (Bool-cases (p y)) [
    | inl e ↦ absurd (cc (rw e at h))
    | inr e ↦ rw e (find?-append_none p xs ys (rw e at h))
  ]

  pub mem-filter_to :
      (p : A → Bool) (x : A) (xs : List A) → Memᴰ x xs → p x ≡ true → Memᴰ x (filter p xs)
  mem-filter_to p x [] m h = elim m [ ]
  mem-filter_to p x (y ∷ ys) (Memᴰ.head e) h = rw (← e, h) (Memᴰ.head refl)
  mem-filter_to p x (y ∷ ys) (Memᴰ.tail m) h = elim (Bool-cases (p y)) [
    | inl k ↦ rw k (Memᴰ.tail (mem-filter_to p x ys m h))
    | inr k ↦ rw k (mem-filter_to p x ys m h)
  ]

  pub mem-cons_cases : {x y : A} {ys : List A} → Memᴰ x (y ∷ ys) → (x ≡ y) ⊎ Memᴰ x ys
  mem-cons_cases (Memᴰ.head e) = inl e
  mem-cons_cases (Memᴰ.tail m) = inr m

  pub mem_of_filter :
      (p : A → Bool) (x : A) (xs : List A) → Memᴰ x (filter p xs) → Memᴰ x xs × (p x ≡ true)
  mem_of_filter p x [] m = elim m [ ]
  mem_of_filter p x (y ∷ ys) m = elim (Bool-cases (p y)) [
    | inl k ↦ elim (mem-cons_cases (rw k at m)) [
      | inl e ↦ (Memᴰ.head e, rw e k)
      | inr t ↦ let (there, h) = mem_of_filter p x ys t in (Memᴰ.tail there, h)
    ]
    | inr k ↦ let (there, h) = mem_of_filter p x ys (rw k at m) in (Memᴰ.tail there, h)
  ]

  pub All-find? {κ} :
      (P : A → Type κ) (p : A → Bool) (xs : List A) {x : A} → All P xs → find? p xs ≡ some x → P x
  All-find? P p [] h e = absurd (cc e)
  All-find? P p (y ∷ ys) h e = elim (Bool-cases (p y)) [
    | inl here ↦ subst P (some-injective _ _ (rw here at e)) h.0
    | inr other ↦ All-find? P p ys h.1 (rw other at e)
  ]

  pub All-weaken {κ} :
      (P Q : A → Type κ) (xs : List A) → ((x : A) → P x → Q x) → All P xs → All Q xs
  All-weaken P Q [] f h = tt
  All-weaken P Q (x ∷ xs) f h = (f x h.0, All-weaken P Q xs f h.1)

  pub any-false_of :
      (p q : A → Bool) (xs : List A)
      → ((x : A) → p x ≡ true → q x ≡ true)
      → any q xs ≡ false
      → any p xs ≡ false
  any-false_of p q [] f h = refl
  any-false_of p q (x ∷ xs) f h = elim (Bool-cases (p x)) [
    | inl e ↦ absurd (cc (rw (f x e) at h))
    | inr e ↦ ground (arith, any-false_of p q xs f)
  ]
