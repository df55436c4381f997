-- ===== src/Policy/Engine.antt =====
-- `evaluatePolicy` (src/policy/engine.ts): deny overrides, then the guardrails of every matching
-- allow policy. The parameters are the request; the policies come last.
pub mod Limits
pub mod Decisions
use securestore.Common.{
  ℕ, Option, none, some, List, [], ◌∷◌, Bool, true, false, ◌&&◌, ltb, filter, includes, map, min,
  or_else, if◌then◌else◌,
}
use securestore.Policy.Types.{
  PolicyAction, action_eq, AccessMode, direct, Effect, allow, deny, Policy, PolicySubject,
  PolicyResource, PolicyRequestContext, PolicyDecision, Reason, denied_by, no_matching_allow,
  count_exceeds, allowed_by,
}
use securestore.Policy.Matching.{subject_matches, resource_matches, conditions_satisfied}
use securestore.Policy.Sort.{sort, loop}

-- The variables of the loop over the matching allow policies.
pub record Guardrails : Type 0 where
  pub max_retrieval_count : Option ℕ
  pub max_session_seconds : Option ℕ
  pub cache_permitted : Bool
  pub downstream_use_permitted : Bool
  pub requires_approval : Bool

abbrev pub no_guardrails : Guardrails
no_guardrails = record {
  max_retrieval_count = none;
  max_session_seconds = none;
  cache_permitted = true;
  downstream_use_permitted = true;
  requires_approval = false;
}

-- limit === undefined ? c : Math.min(limit, c), when c is defined
abbrev pub strictest : Option ℕ → Option ℕ → Option ℕ
strictest limit none = limit
strictest none (some c) = some c
strictest (some m) (some c) = some (min m c)

-- flag = false, if the condition is false
abbrev pub unless_false : Bool → Option Bool → Bool
unless_false flag (some false) = false
unless_false flag _ = flag

abbrev pub or_true : Bool → Option Bool → Bool
or_true flag (some true) = true
or_true flag _ = flag

unfoldable pub tighten : Guardrails → Policy → Guardrails
tighten g p = record {
  max_retrieval_count = strictest g.max_retrieval_count p.conditions.max_retrieval_count;
  max_session_seconds = strictest g.max_session_seconds p.conditions.max_session_seconds;
  cache_permitted = unless_false g.cache_permitted p.conditions.cache_permitted;
  downstream_use_permitted =
      unless_false g.downstream_use_permitted p.conditions.downstream_use_permitted;
  requires_approval = or_true g.requires_approval p.conditions.require_approval;
}

abbrev pub is_deny : Policy → Bool
is_deny p = elim p.effect [ allow ↦ false | deny ↦ true ]

abbrev pub is_allow : Policy → Bool
is_allow p = elim p.effect [ allow ↦ true | deny ↦ false ]

-- Every refusal has the same shape.
abbrev pub deny_decision : List ℕ → Reason → PolicyDecision
deny_decision ids why = record {
  effect = deny;
  access_mode = direct;
  requires_approval = false;
  max_retrieval_count = none;
  max_session_seconds = none;
  cache_permitted = false;
  downstream_use_permitted = false;
  matched_policy_ids = ids;
  reason = why;
}

abbrev pub ids : List Policy → List ℕ
ids ps = map (λ p. p.id) ps

-- requested !== undefined && maximum !== undefined && requested > maximum
abbrev pub exceeds : Option ℕ → Option ℕ → Bool
exceeds (some requested) (some maximum) = ltb maximum requested
exceeds _ _ = false

abbrev pub allow_decision : Policy → List Policy → Guardrails → PolicyDecision
allow_decision primary allows g = record {
  effect = allow;
  access_mode = or_else primary.conditions.access_mode direct;
  requires_approval = g.requires_approval;
  max_retrieval_count = g.max_retrieval_count;
  max_session_seconds = g.max_session_seconds;
  cache_permitted = g.cache_permitted;
  downstream_use_permitted = g.downstream_use_permitted;
  matched_policy_ids = ids allows;
  reason = allowed_by primary.name;
}

unfoldable pub conclude : PolicyRequestContext → Policy → List Policy → Guardrails → PolicyDecision
conclude ctx primary allows g =
    if exceeds ctx.requested_count g.max_retrieval_count
    then deny_decision (ids allows)
        (count_exceeds (or_else ctx.requested_count 0) (or_else g.max_retrieval_count 0))
    else allow_decision primary allows g

unfoldable pub decide_from : PolicyRequestContext → List Policy → List Policy → PolicyDecision
unfolding conclude tighten
decide_from ctx (d ∷ ds) allows = deny_decision (ids (d ∷ ds)) (denied_by d.name)
decide_from ctx [] [] = deny_decision [] no_matching_allow
decide_from ctx [] (p ∷ ps) = conclude ctx p (p ∷ ps) (loop tighten no_guardrails (p ∷ ps))

module _ (action : PolicyAction) (subject : PolicySubject) (resource : PolicyResource)
    (ctx : PolicyRequestContext) where
  unfoldable pub candidates : List Policy → List Policy
  candidates policies = sort (
      filter (λ p. conditions_satisfied p.conditions ctx)
        (filter (λ p. resource_matches p.resources resource)
          (filter (λ p. subject_matches p.subjects subject)
            (filter (λ p. p.enabled && includes p.actions action) policies))))

  unfoldable pub evaluate_policy : List Policy → PolicyDecision
  unfolding candidates decide_from
  evaluate_policy policies =
      let found = candidates policies in
      decide_from ctx (filter is_deny found) (filter is_allow found)
