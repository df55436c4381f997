-- ===== src/Policy/Engine/Limits.antt =====
-- The loop over the allow policies: its steps commute, and its result is the strictest of all.
use securestore.Common.{
  ℕ, ◌≤◌, Option, none, some, List, [], ◌∷◌, true, false, ◌≡◌, refl, arith, ◌⊎◌, inl, inr,
}
use securestore.Policy.Types.{Policy}
use securestore.Policy.Sort.{loop}
use securestore.Policy.Engine.{Guardrails, strictest, tighten}
use mathlib.Core.List.{Memᴰ}

strictest_comm : (o a b : Option ℕ) → strictest (strictest o a) b ≡ strictest (strictest o b) a
strictest_comm none none none = refl
strictest_comm none none (some b) = refl
strictest_comm none (some a) none = refl
strictest_comm none (some a) (some b) = ground arith
strictest_comm (some o) none none = refl
strictest_comm (some o) none (some b) = refl
strictest_comm (some o) (some a) none = refl
strictest_comm (some o) (some a) (some b) = ground arith

pub tighten_comm :
    (g : Guardrails) (p q : Policy) → tighten (tighten g p) q ≡ tighten (tighten g q) p
unfolding tighten
tighten_comm g p q = ground (
  arith,
  strictest_comm g.max_retrieval_count p.conditions.max_retrieval_count
      q.conditions.max_retrieval_count,
  strictest_comm g.max_session_seconds p.conditions.max_session_seconds
      q.conditions.max_session_seconds,
)

-- A limit as strict as another: none is no limit.
abbrev pub AsStrict : Option ℕ → Option ℕ → Type 0
AsStrict limit none = Unit
AsStrict none (some k) = ⊥
AsStrict (some m) (some k) = m ≤ k

-- `g` is no looser than the conditions of `p`.
pub record IsWithin (g : Guardrails) (p : Policy) : Type 0 where
  pub count : AsStrict g.max_retrieval_count p.conditions.max_retrieval_count
  pub seconds : AsStrict g.max_session_seconds p.conditions.max_session_seconds
  pub cache : p.conditions.cache_permitted ≡ some false → g.cache_permitted ≡ false
  pub downstream :
      p.conditions.downstream_use_permitted ≡ some false → g.downstream_use_permitted ≡ false
  pub approval : p.conditions.require_approval ≡ some true → g.requires_approval ≡ true

strictest-AsStrict : (o c k : Option ℕ) → AsStrict o k ⊎ AsStrict c k → AsStrict (strictest o c) k
strictest-AsStrict o c none h = tt
strictest-AsStrict none none (some k) h = ground arith
strictest-AsStrict none (some c) (some k) h = ground arith
strictest-AsStrict (some o) none (some k) h = ground arith
strictest-AsStrict (some o) (some c) (some k) h = ground arith

AsStrict-refl : (o : Option ℕ) → AsStrict o o
AsStrict-refl none = tt
AsStrict-refl (some m) = omega arith

tighten-IsWithin_self : (g : Guardrails) (p : Policy) → IsWithin (tighten g p) p
unfolding tighten
tighten-IsWithin_self g p = record {
  count = strictest-AsStrict g.max_retrieval_count _ _ (inr (AsStrict-refl _));
  seconds = strictest-AsStrict g.max_session_seconds _ _ (inr (AsStrict-refl _));
  cache = ground arith;
  downstream = ground arith;
  approval = ground arith;
}

tighten-IsWithin : (g : Guardrails) (p q : Policy) → IsWithin g q → IsWithin (tighten g p) q
unfolding tighten
tighten-IsWithin g p q h = record {
  count = strictest-AsStrict g.max_retrieval_count p.conditions.max_retrieval_count _ (inl h.count);
  seconds =
      strictest-AsStrict g.max_session_seconds p.conditions.max_session_seconds _ (inl h.seconds);
  cache = ground (arith, h.cache);
  downstream = ground (arith, h.downstream);
  approval = ground (arith, h.approval);
}

loop-IsWithin :
    (ps : List Policy) (g : Guardrails) (q : Policy) → IsWithin g q → IsWithin (loop tighten g ps) q
loop-IsWithin [] g q h = h
loop-IsWithin (p ∷ ps) g q h = loop-IsWithin ps (tighten g p) q (tighten-IsWithin g p q h)

pub loop-IsWithin_mem :
    (ps : List Policy) (g : Guardrails) (q : Policy) → Memᴰ q ps → IsWithin (loop tighten g ps) q
loop-IsWithin_mem [] g q m = elim m [ ]
loop-IsWithin_mem (p ∷ ps) g q (Memᴰ.head e) =
    loop-IsWithin ps (tighten g p) q (rw e (tighten-IsWithin_self g p))
loop-IsWithin_mem (p ∷ ps) g q (Memᴰ.tail m) = loop-IsWithin_mem ps (tighten g p) q m

-- The limit on retrievals is that of one of the policies.
strictest_either : (o c : Option ℕ) (m : ℕ) → strictest o c ≡ some m → (o ≡ some m) ⊎ (c ≡ some m)
strictest_either none none m h = inl h
strictest_either none (some c) m h = inr h
strictest_either (some o) none m h = inl h
strictest_either (some o) (some c) m h = ground arith

pub loop-count_source :
    (ps : List Policy) (g : Guardrails) (m : ℕ)
    → (loop tighten g ps).max_retrieval_count ≡ some m
    → (g.max_retrieval_count ≡ some m)
      ⊎ ((p : Policy) × Memᴰ p ps × (p.conditions.max_retrieval_count ≡ some m))
unfolding tighten
loop-count_source [] g m h = inl h
loop-count_source (p ∷ ps) g m h = elim (loop-count_source ps (tighten g p) m h) [
  | inr (q, there, e) ↦ inr (q, Memᴰ.tail there, e)
  | inl e ↦ elim (strictest_either g.max_retrieval_count _ m e) [
    | inl old ↦ inl old
    | inr new ↦ inr (p, Memᴰ.head refl, new)
  ]
]
