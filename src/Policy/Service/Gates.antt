-- ===== src/Policy/Service/Gates.antt =====
-- What an agent and the stored policies must be like for `checkPolicy` to allow.
use mathlib.Core.List.{Memᴰ}
use securestore.Common.{
  ℕ, Option, none, some, List, true, false, ◌&&◌, ◌≡◌, arith, Bool-cases, Option-cases, inl, inr,
  ◌⊎◌, mem_of_filter, if◌then◌else◌,
}
use securestore.Policy.Types.{CapabilityField, Policy, PolicyResource, allow}
use securestore.Policy.Engine.Decisions.{evaluate-allow_iff}
use securestore.Policy.Service.{
  CheckPolicyRequest, capability_field, flag, lacking, provider_refused, null_or_is,
  load_applicable_policies, check_policy,
}
use securestore.Agent.Types.{AgentRecord}

-- A policy that serves the agent's organization: global or its own, and bound to no workspace.
pub record Serves (agent : AgentRecord) (p : Policy) : Type 0 where
  pub enabled : p.enabled ≡ true
  pub org : (p.org_id ≡ none) ⊎ (p.org_id ≡ some agent.org_id)
  pub workspace : p.workspace_id ≡ none

pub record IsPermitted (policies : List Policy) (agent : AgentRecord) (resource : PolicyResource)
    (req : CheckPolicyRequest) : Type 0 where
  pub capable :
      (field : CapabilityField) → capability_field req.action ≡ some field → flag field agent ≡ true
  pub provider : provider_refused agent.allowed_providers resource.provider ≡ false
  pub policy : (p : Policy) × Memᴰ p policies × Serves agent p × (p.effect ≡ allow)

serves_of_loaded :
    (agent : AgentRecord) (p : Policy)
    → (p.enabled && (null_or_is p.org_id (some agent.org_id) && null_or_is p.workspace_id none))
      ≡ true
    → Serves agent p
serves_of_loaded agent p h = record {
  enabled = ground arith;
  org = ground arith;
  workspace = ground arith;
}

has_flag :
    (o : Option CapabilityField) (agent : AgentRecord) (field : CapabilityField)
    → elim o [ none ↦ none | some f ↦ if flag f agent then none else some f ] ≡ none
    → o ≡ some field
    → flag field agent ≡ true
has_flag o agent field h e = elim (Bool-cases (flag field agent)) [
  | inl has ↦ has
  | inr has ↦ absurd (cc (rw (e, has) at h))
]

pub check_policy-IsPermitted :
    (now : ℕ) (policies : List Policy) (agent : AgentRecord) (resource : PolicyResource)
    (req : CheckPolicyRequest)
    → (check_policy now policies agent resource req).effect ≡ allow
    → IsPermitted policies agent resource req
unfolding check_policy load_applicable_policies
check_policy-IsPermitted now policies agent resource req h =
    elim (Option-cases (lacking req.action agent)) [
      | inr (field, e) ↦ absurd (cc (rw e at h))
      | inl capable ↦
          elim (Bool-cases (provider_refused agent.allowed_providers resource.provider)) [
            | inl e ↦ absurd (cc (rw (capable, e) at h))
            | inr provider ↦
                let allowed = (evaluate-allow_iff _ _ _ _ _).0 (rw (capable, provider) at h) in
                let (p, (there, applies), effect) = allowed.some_allow in
                let (stored, loaded) = mem_of_filter _ p policies there in
                record {
                  capable = λ field e. has_flag (capability_field req.action) agent field capable e;
                  provider = provider;
                  policy = (p, stored, serves_of_loaded agent p loaded, effect);
                }
          ]
    ]
