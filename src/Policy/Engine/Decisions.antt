-- ===== src/Policy/Engine/Decisions.antt =====
-- What a decision of `evaluatePolicy` says of the policies that apply to the request.
use mathlib.Core.List.{Memᴰ}
use securestore.Common.{
  List, Bool, true, ◌&&◌, ◌≡◌, ap, filter, includes, filter-filter, mem-filter_to, mem_of_filter,
}
use securestore.Common.{
  ℕ, ◌≤◌, Option, none, some, [], ◌∷◌, true, false, refl, sym, arith, inl, inr, ◌↔◌, or_else,
  Bool-cases, Option-cases,
}
use securestore.Policy.Types.{ℤ}
use securestore.Common.{mem-cons_cases}
use securestore.Policy.Sort.{leb_int_refl}
use securestore.Policy.Types.{direct, Effect, allow, deny, PolicyDecision, allowed_by}
use securestore.Policy.Sort.{loop, leb_int, AtLeast, IsSorted, sort-IsSorted, filter-IsSorted}
use securestore.Policy.Engine.{
  Guardrails, no_guardrails, tighten, is_deny, is_allow, exceeds, decide_from, evaluate_policy,
  allow_decision,
}
use securestore.Policy.Engine.Limits.{IsWithin, loop-IsWithin_mem, loop-count_source}
use securestore.Policy.Types.{
  PolicyAction, action_eq, Policy, PolicySubject, PolicyResource, PolicyRequestContext,
}
use securestore.Policy.Matching.{subject_matches, resource_matches, conditions_satisfied}
use securestore.Policy.Sort.{sort, mem-sort, mem_of_sort}
use securestore.Policy.Engine.{candidates}

effects_agree : (a b : Effect) → (a ≡ allow → b ≡ allow) → (b ≡ allow → a ≡ allow) → a ≡ b
effects_agree allow b h k = sym (h refl)
effects_agree deny allow h k = k refl
effects_agree deny deny h k = refl

-- The guardrails that a decision carries.
abbrev pub guardrails_of : PolicyDecision → Guardrails
guardrails_of d = record {
  max_retrieval_count = d.max_retrieval_count;
  max_session_seconds = d.max_session_seconds;
  cache_permitted = d.cache_permitted;
  downstream_use_permitted = d.downstream_use_permitted;
  requires_approval = d.requires_approval;
}

module _ (action : PolicyAction) (subject : PolicySubject) (resource : PolicyResource)
    (ctx : PolicyRequestContext) where
  -- An enabled policy that names the action and matches the subject, the resource and the context.
  abbrev applies : Policy → Bool
  applies p =
      (((p.enabled && includes p.actions action) && subject_matches p.subjects subject)
        && resource_matches p.resources resource)
      && conditions_satisfied p.conditions ctx

  -- `p` is one of the policies and applies.
  abbrev pub IsApplicable : List Policy → Policy → Type 0
  IsApplicable ps p = Memᴰ p ps × (applies p ≡ true)

  candidates-eq :
      (ps : List Policy) → candidates action subject resource ctx ps ≡ sort (filter applies ps)
  unfolding candidates
  candidates-eq ps = ap sort (simp filter-filter)

  mem_found :
      (kind : Policy → Bool) (ps : List Policy) (p : Policy)
      → IsApplicable ps p
      → kind p ≡ true
      → Memᴰ p (filter kind (candidates action subject resource ctx ps))
  mem_found kind ps p a k =
      rw candidates-eq
        (mem-filter_to kind p _ (mem-sort p _ (mem-filter_to applies p ps a.0 a.1)) k)

  found_mem :
      (kind : Policy → Bool) (ps : List Policy) (p : Policy)
      → Memᴰ p (filter kind (candidates action subject resource ctx ps))
      → IsApplicable ps p × (kind p ≡ true)
  found_mem kind ps p m =
      let (there, k) = mem_of_filter kind p _ (rw candidates-eq at m) in
      (mem_of_filter applies p ps (mem_of_sort p _ there), k)

  -- The shape of a decision to allow.
  record IsGrant (denies allows : List Policy) (d : PolicyDecision) : Type 0 where
    no_deny : denies ≡ []
    primary : Policy
    rest : List Policy
    found : allows ≡ primary ∷ rest
    in_count :
        exceeds ctx.requested_count (loop tighten no_guardrails allows).max_retrieval_count ≡ false
    shape : d ≡ allow_decision primary allows (loop tighten no_guardrails allows)

  decide_from-IsGrant :
      (denies allows : List Policy)
      → (decide_from ctx denies allows).effect ≡ allow
      → IsGrant denies allows (decide_from ctx denies allows)
  unfolding decide_from
  decide_from-IsGrant (d ∷ ds) allows h = absurd (cc h)
  decide_from-IsGrant [] [] h = absurd (cc h)
  decide_from-IsGrant [] (p ∷ ps) h =
      elim (Bool-cases
        (exceeds ctx.requested_count (loop tighten no_guardrails (p ∷ ps)).max_retrieval_count)) [
          | inl over ↦ absurd (cc (rw over at h))
          | inr fits ↦ record {
            no_deny = refl;
            primary = p;
            rest = ps;
            found = refl;
            in_count = fits;
            shape = rw fits;
          }
        ]

  abbrev denies_of : List Policy → List Policy
  denies_of ps = filter is_deny (candidates action subject resource ctx ps)

  abbrev allows_of : List Policy → List Policy
  allows_of ps = filter is_allow (candidates action subject resource ctx ps)

  evaluate-IsGrant :
      (ps : List Policy)
      → (evaluate_policy action subject resource ctx ps).effect ≡ allow
      → IsGrant (denies_of ps) (allows_of ps) (evaluate_policy action subject resource ctx ps)
  unfolding evaluate_policy
  evaluate-IsGrant ps h = decide_from-IsGrant _ _ h

  -- What a request needs: no applicable policy denies, one allows, and the requested count is
  -- within every applicable policy's maximum.
  pub record IsAllowed (ps : List Policy) : Type 0 where
    pub no_deny : (p : Policy) → IsApplicable ps p → p.effect ≡ allow
    pub some_allow : (p : Policy) × IsApplicable ps p × (p.effect ≡ allow)
    pub in_count :
        (p : Policy) (m r : ℕ)
        → IsApplicable ps p
        → p.conditions.max_retrieval_count ≡ some m
        → ctx.requested_count ≡ some r
        → r ≤ m

  not_mem_of_nil : (p : Policy) (qs : List Policy) → qs ≡ [] → ¬ Memᴰ p qs
  not_mem_of_nil p [] e m = elim m [ ]
  not_mem_of_nil p (q ∷ qs) e m = absurd (cc e)

  effect_of_no_deny : (p : Policy) → ¬ (is_deny p ≡ true) → p.effect ≡ allow
  effect_of_no_deny p h = elim (Bool-cases (is_deny p)) [
    | inl d ↦ absurd (h d)
    | inr a ↦ ground arith
  ]

  is_allow_of_effect : (p : Policy) → p.effect ≡ allow → is_allow p ≡ true
  is_allow_of_effect p h = ground arith

  in_count_of_within :
      (g : Guardrails) (p : Policy) (m r : ℕ)
      → IsWithin g p
      → exceeds ctx.requested_count g.max_retrieval_count ≡ false
      → p.conditions.max_retrieval_count ≡ some m
      → ctx.requested_count ≡ some r
      → r ≤ m
  in_count_of_within g p m r w fits pm cr = ground (arith, w.count)

  evaluate-allow_sound :
      (ps : List Policy)
      → (evaluate_policy action subject resource ctx ps).effect ≡ allow
      → IsAllowed ps
  evaluate-allow_sound ps h =
      let g = evaluate-IsGrant ps h in
      let first : Memᴰ g.primary (allows_of ps) = rw g.found (Memᴰ.head refl) in
      let all_allow : (p : Policy) → IsApplicable ps p → p.effect ≡ allow = λ p a.
        effect_of_no_deny p (λ d. not_mem_of_nil p _ g.no_deny (mem_found is_deny ps p a d)) in
      record {
        no_deny = all_allow;
        some_allow =
            (let (a, k) = found_mem is_allow ps g.primary first in
              (g.primary, a, all_allow g.primary a));
        in_count = λ p m r a.
            in_count_of_within (loop tighten no_guardrails (allows_of ps)) p m r
              (loop-IsWithin_mem (allows_of ps) no_guardrails p
                (mem_found is_allow ps p a (is_allow_of_effect p (all_allow p a))))
              g.in_count;
      }

  decide_from-allow :
      (denies allows : List Policy)
      → ((p : Policy) → ¬ Memᴰ p denies)
      → (p : Policy) → Memᴰ p allows
      → exceeds ctx.requested_count (loop tighten no_guardrails allows).max_retrieval_count ≡ false
      → (decide_from ctx denies allows).effect ≡ allow
  unfolding decide_from
  decide_from-allow (d ∷ ds) allows none_there p m fits = absurd (none_there d (Memᴰ.head refl))
  decide_from-allow [] [] none_there p m fits = elim m [ ]
  decide_from-allow [] (q ∷ qs) none_there p m fits = rw fits

  not_over :
      (o : Option ℕ)
      → ((m r : ℕ) → o ≡ some m → ctx.requested_count ≡ some r → r ≤ m)
      → exceeds ctx.requested_count o ≡ false
  not_over none h = ground arith
  not_over (some m) h = elim (Option-cases ctx.requested_count) [
    | inl e ↦ rw e
    | inr (r, e) ↦ rw e (ground (arith, h m r refl e))
  ]

  evaluate-allow_complete :
      (ps : List Policy)
      → IsAllowed ps
      → (evaluate_policy action subject resource ctx ps).effect ≡ allow
  unfolding evaluate_policy
  evaluate-allow_complete ps h =
      let (p, a, e) = h.some_allow in
      decide_from-allow (denies_of ps) (allows_of ps)
        (λ q m. let (b, d) = found_mem is_deny ps q m in absurd (cc (d, h.no_deny q b))) p
        (mem_found is_allow ps p a (is_allow_of_effect p e))
        (not_over _ (λ m r em. elim (loop-count_source (allows_of ps) no_guardrails m em) [
          | inl old ↦ absurd (cc old)
          | inr (q, there, qm) ↦ h.in_count q m r (found_mem is_allow ps q there).0 qm
        ]))

  -- The decision is to allow exactly when no applicable policy denies, some applicable policy
  -- allows, and the requested count, if there is one, is within the maximum of every applicable
  -- policy that sets one.
  pub evaluate-allow_iff :
      (ps : List Policy)
      → ((evaluate_policy action subject resource ctx ps).effect ≡ allow) ↔ IsAllowed ps
  evaluate-allow_iff ps = (evaluate-allow_sound ps, evaluate-allow_complete ps)

  -- When the decision is to allow, its limits on retrievals and session seconds are at most those
  -- of every applicable policy that sets them, it permits caching and downstream use only if no
  -- applicable policy forbids them, and it requires approval if an applicable policy does.
  pub evaluate-IsWithin :
      (ps : List Policy) (p : Policy)
      → (evaluate_policy action subject resource ctx ps).effect ≡ allow
      → IsApplicable ps p
      → IsWithin (guardrails_of (evaluate_policy action subject resource ctx ps)) p
  evaluate-IsWithin ps p h a =
      let g = evaluate-IsGrant ps h in
      rw (ap guardrails_of g.shape) (
        loop-IsWithin_mem (allows_of ps) no_guardrails p (
          mem_found is_allow ps p a
            (is_allow_of_effect p ((evaluate-allow_sound ps h).no_deny p a))))

  -- The policy that names the access mode.
  pub record IsPrimary (ps : List Policy) (d : PolicyDecision) (p : Policy) : Type 0 where
    pub applicable : IsApplicable ps p
    pub least : (q : Policy) → IsApplicable ps q → leb_int p.priority q.priority ≡ true
    pub mode : d.access_mode ≡ or_else p.conditions.access_mode direct
    pub why : d.reason ≡ allowed_by p.name

  AtLeast-mem :
      (k : ℤ) (qs : List Policy) (q : Policy)
      → AtLeast k qs
      → Memᴰ q qs
      → leb_int k q.priority ≡ true
  AtLeast-mem k [] q h m = elim m [ ]
  AtLeast-mem k (x ∷ xs) q h (Memᴰ.head e) = rw e h.0
  AtLeast-mem k (x ∷ xs) q h (Memᴰ.tail m) = AtLeast-mem k xs q h.1 m

  first_least :
      (p : Policy) (qs rest : List Policy) (q : Policy)
      → qs ≡ p ∷ rest
      → IsSorted qs
      → Memᴰ q qs
      → leb_int p.priority q.priority ≡ true
  first_least p qs rest q e s m = elim (mem-cons_cases (rw e at m)) [
    | inl same ↦ rw same (leb_int_refl p.priority)
    | inr later ↦ AtLeast-mem p.priority rest q (rw e at s).0 later
  ]

  -- When the decision is to allow, its access mode and reason are those of an applicable policy
  -- whose priority number is least among the applicable policies.
  pub evaluate-IsPrimary :
      (ps : List Policy)
      → (evaluate_policy action subject resource ctx ps).effect ≡ allow
      → (p : Policy) × IsPrimary ps (evaluate_policy action subject resource ctx ps) p
  evaluate-IsPrimary ps h =
      let g = evaluate-IsGrant ps h in
      let sorted : IsSorted (allows_of ps) =
        filter-IsSorted is_allow (candidates action subject resource ctx ps)
          (rw candidates-eq (sort-IsSorted (filter applies ps))) in
      (
        g.primary,
        record {
          applicable = (found_mem is_allow ps g.primary (rw g.found (Memᴰ.head refl))).0;
          least = λ q a. first_least g.primary (allows_of ps) g.rest q g.found sorted (
              mem_found is_allow ps q a
                (is_allow_of_effect q ((evaluate-allow_sound ps h).no_deny q a)));
          mode = ap (λ (d : PolicyDecision). d.access_mode) g.shape;
          why = ap (λ (d : PolicyDecision). d.reason) g.shape;
        },
      )

  IsAllowed-mono :
      (ps qs : List Policy)
      → ((p : Policy) → Memᴰ p ps → Memᴰ p qs)
      → ((p : Policy) → Memᴰ p qs → Memᴰ p ps)
      → IsAllowed ps
      → IsAllowed qs
  IsAllowed-mono ps qs to from h = record {
    no_deny = λ p a. h.no_deny p (from p a.0, a.1);
    some_allow = (let (p, a, e) = h.some_allow in (p, (to p a.0, a.1), e));
    in_count = λ p m r a. h.in_count p m r (from p a.0, a.1);
  }

  -- Two lists with the same policies, in whatever order and however often, give the same effect.
  pub evaluate-effect_same :
      (ps qs : List Policy)
      → ((p : Policy) → Memᴰ p ps → Memᴰ p qs)
      → ((p : Policy) → Memᴰ p qs → Memᴰ p ps)
      → (evaluate_policy action subject resource ctx ps).effect
        ≡ (evaluate_policy action subject resource ctx qs).effect
  evaluate-effect_same ps qs to from =
      effects_agree _ _
        (λ h.
          (evaluate-allow_iff qs).1 (IsAllowed-mono ps qs to from ((evaluate-allow_iff ps).0 h)))
        (λ h.
          (evaluate-allow_iff ps).1 (IsAllowed-mono qs ps from to ((evaluate-allow_iff qs).0 h)))
