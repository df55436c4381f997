-- ===== src/Common/Assoc.antt =====
-- Objects and maps with keys: an association list, in insertion order.
use mathlib.Core.Path.{◌≡◌, refl}
use mathlib.Core.Bool.{Bool, false}
use mathlib.Core.Option.{Option, none, some}
use mathlib.Core.List.{List, [], ◌∷◌}
use native.Mathlib.Omega.{arith}
use securestore.Common.Tests.{Eq, if◌then◌else◌}
use securestore.Common.Lists.{any}

module _ {ℓ κ} {K : Type ℓ} {V : Type κ} ⦃e : Eq K⦄ where
  -- m[k], m.get(k)
  unfoldable pub lookup : K → List (K × V) → Option V
  lookup k [] = none
  lookup k ((j, v) ∷ m) = let rest = lookup k m in if e.beq j k then some v else rest

  -- m[k] = v, m.set(k, v): a key that is there keeps its place
  unfoldable pub insert : K → V → List (K × V) → List (K × V)
  insert k v [] = (k, v) ∷ []
  insert k v ((j, w) ∷ m) =
      let rest = insert k v m in if e.beq j k then (k, v) ∷ m else (j, w) ∷ rest

  -- m.delete(k)
  unfoldable pub without : K → List (K × V) → List (K × V)
  without k [] = []
  without k ((j, v) ∷ m) = let rest = without k m in if e.beq j k then rest else (j, v) ∷ rest

  -- No key occurs twice: what an object's entries satisfy.
  abbrev pub has_key : K → List (K × V) → Bool
  has_key k m = any (λ p. e.beq p.0 k) m

  abbrev pub UniqueKeys : List (K × V) → Type 0
  UniqueKeys [] = Unit
  UniqueKeys ((k, v) ∷ m) = (has_key k m ≡ false) × UniqueKeys m

  pub lookup-insert :
      (k j : K) (v : V) (m : List (K × V))
      → lookup j (insert k v m) ≡ (if e.beq k j then some v else lookup j m)
  unfolding lookup insert
  lookup-insert k j v [] = refl
  lookup-insert k j v ((i, w) ∷ m) =
      ground (arith, e.beq_iff k j, e.beq_iff i k, e.beq_iff i j, lookup-insert k j v m)

  pub lookup-without :
      (k j : K) (m : List (K × V))
      → lookup j (without k m) ≡ (if e.beq k j then none else lookup j m)
  unfolding lookup without
  lookup-without k j [] = ground arith
  lookup-without k j ((i, w) ∷ m) =
      ground (arith, e.beq_iff k j, e.beq_iff i k, e.beq_iff i j, lookup-without k j m)

  pub lookup-head :
      (k j : K) (v : V) (m : List (K × V))
      → lookup k ((j, v) ∷ m) ≡ (if e.beq j k then some v else lookup k m)
  unfolding lookup
  lookup-head k j v m = refl

  pub lookup-eq-none : (k : K) (m : List (K × V)) → has_key k m ≡ false → lookup k m ≡ none
  unfolding lookup
  lookup-eq-none k [] h = refl
  lookup-eq-none k ((j, v) ∷ m) h = ground (arith, lookup-eq-none k m)

pub ruleset assoc_laws = (lookup-insert, lookup-without)
