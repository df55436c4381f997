-- ===== src/Policy/Service.antt =====
-- The checks in front of the policy engine (src/services/policyService.ts: checkPolicy) and the
-- rows that it is given (src/policy/repository.ts: loadApplicablePolicies).
pub mod Gates
use securestore.Common.{
  ℕ, String, Option, none, some, List, [], ◌∷◌, Bool, true, false, ◌&&◌, ◌||◌, not, nat_eq,
  string_eq, nat_beq, includes, filter, if◌then◌else◌,
}
use securestore.Policy.Types.{
  PolicyAction, secret_get, secret_rotate, secret_revoke, secret_store, secret_store_detected,
  secret_enrich, CapabilityField, raw_secret_access, rotation_permission, revocation_permission,
  auto_ingestion_permission, metadata_enrichment_permission, AuthStrength, Policy, PolicyResource,
  PolicySubject, PolicyRequestContext, PolicyDecision, lacks_capability, provider_not_allowed,
}
use securestore.Policy.Engine.{evaluate_policy, deny_decision}
use securestore.Agent.Types.{AgentRecord}

pub record CheckPolicyRequest : Type 0 where
  pub action : PolicyAction
  pub transport : String
  pub source_network : Option (List ℕ)
  pub auth_strength : Option AuthStrength
  pub requested_count : Option ℕ

-- CAPABILITY_GATED_ACTIONS
abbrev pub capability_field : PolicyAction → Option CapabilityField
capability_field secret_get = some raw_secret_access
capability_field secret_rotate = some rotation_permission
capability_field secret_revoke = some revocation_permission
capability_field secret_store = some auto_ingestion_permission
capability_field secret_store_detected = some auto_ingestion_permission
capability_field secret_enrich = some metadata_enrichment_permission
capability_field _ = none

-- agent[field]
abbrev pub flag : CapabilityField → AgentRecord → Bool
flag raw_secret_access agent = agent.raw_secret_access
flag rotation_permission agent = agent.rotation_permission
flag revocation_permission agent = agent.revocation_permission
flag auto_ingestion_permission agent = agent.auto_ingestion_permission
flag metadata_enrichment_permission agent = agent.metadata_enrichment_permission

-- The flag that the action is gated by and that the agent has not.
abbrev pub lacking : PolicyAction → AgentRecord → Option CapabilityField
lacking action agent = elim (capability_field action) [
  | none ↦ none
  | some field ↦ if flag field agent then none else some field
]

-- The refusal for a flag that the agent has not, or else the rest.
abbrev pub unless_lacking : Option CapabilityField → PolicyDecision → PolicyDecision
unless_lacking (some field) rest = deny_decision [] (lacks_capability field)
unless_lacking none rest = rest

-- allowedProviders.length && !allowedProviders.includes(provider)
abbrev pub provider_refused : List String → String → Bool
provider_refused [] provider = false
provider_refused (p ∷ ps) provider = not (includes (p ∷ ps) provider)

-- org_id IS NULL OR org_id = $1. With $2 NULL, workspace_id = $2 holds for no row.
abbrev pub null_or_is : Option ℕ → Option ℕ → Bool
null_or_is none parameter = true
null_or_is (some id) none = false
null_or_is (some id) (some parameter) = nat_beq id parameter

unfoldable pub load_applicable_policies : ℕ → Option ℕ → List Policy → List Policy
load_applicable_policies org_id workspace_id policies =
    filter
      (λ p.
        p.enabled && (null_or_is p.org_id (some org_id) && null_or_is p.workspace_id workspace_id))
      policies

module _ (now : ℕ) (policies : List Policy) (agent : AgentRecord) (resource : PolicyResource)
    (req : CheckPolicyRequest) where
  -- The checks after that of the capability flags.
  abbrev pub check_provider : PolicyDecision
  check_provider =
      if provider_refused agent.allowed_providers resource.provider
      then deny_decision [] (provider_not_allowed resource.provider)
      else evaluate_policy req.action
          (record {
            agent_id = agent.id;
            agent_type = agent.agent_type;
            risk_classification = agent.risk_classification;
            owner_user_id = agent.owner_user_id;
          })
          resource
          (record {
            transport = req.transport;
            source_network = req.source_network;
            auth_strength = req.auth_strength;
            now_utc = now;
            requested_count = req.requested_count;
          })
          (load_applicable_policies agent.org_id none policies)

  unfoldable pub check_policy : PolicyDecision
  check_policy = unless_lacking (lacking req.action agent) check_provider
