-- ===== src/Policy/Types.antt =====
-- The data of policies and of a request for a decision (src/policy/types.ts).
-- An absent or null field is `none`; UUIDs are numbers, other texts are `String`s.
-- Hours and counts are natural numbers; a network address is the list of its characters.
use securestore.Common.{ℕ, String, Option, List, Bool, Eq, eq_of_discrete}

pub data PolicyAction : Type 0 where
  secret_get secret_find secret_list secret_metadata secret_store secret_store_detected :
      PolicyAction
  secret_update secret_enrich secret_rotate secret_revoke secret_delete : PolicyAction
  secret_claim secret_share credential_execute credential_validate : PolicyAction
  credential_proxy_session_create credential_temporary_issue oauth_authorize : PolicyAction
  oauth_refresh audit_query agent_to_agent_visibility : PolicyAction

unfoldable pub PolicyAction-discrete : Discrete PolicyAction
PolicyAction-discrete = hlevel

instance abbrev pub action_eq : Eq PolicyAction
action_eq = eq_of_discrete PolicyAction-discrete

pub data AccessMode : Type 0 where
  direct brokered temporary proxy process_injection : AccessMode

pub data Risk : Type 0 where
  low standard elevated high : Risk

pub data AuthStrength : Type 0 where
  weak strong mfa : AuthStrength

pub data Effect : Type 0 where
  allow deny : Effect

-- A priority is a signed integer column; `negsuc n` is -(n + 1).
pub data ℤ : Type 0 where
  pos : ℕ → ℤ
  negsuc : ℕ → ℤ

pub record PolicySubjectMatch : Type 0 where
  pub agent_ids : Option (List ℕ)
  pub agent_types : Option (List String)
  pub risk_max : Option Risk
  pub owner_user_ids : Option (List ℕ)

pub record PolicyResourceMatch : Type 0 where
  pub providers : Option (List String)
  pub credential_types : Option (List String)
  pub environments : Option (List String)
  pub tags : Option (List String)
  pub owner_scopes : Option (List String)
  pub sensitivities : Option (List String)

-- `allowedHttpMethods` and `allowedTargetResources` are read nowhere in the program.
pub record PolicyConditions : Type 0 where
  pub time_window_start_hour_utc : Option ℕ
  pub time_window_end_hour_utc : Option ℕ
  pub network_cidrs : Option (List (List ℕ))
  pub min_auth_strength : Option AuthStrength
  pub require_approval : Option Bool
  pub max_retrieval_count : Option ℕ
  pub max_session_seconds : Option ℕ
  pub cache_permitted : Option Bool
  pub downstream_use_permitted : Option Bool
  pub access_mode : Option AccessMode

pub record Policy : Type 0 where
  pub id : ℕ
  pub org_id : Option ℕ
  pub workspace_id : Option ℕ
  pub name : String
  pub effect : Effect
  pub priority : ℤ
  pub subjects : PolicySubjectMatch
  pub actions : List PolicyAction
  pub resources : PolicyResourceMatch
  pub conditions : PolicyConditions
  pub enabled : Bool

pub record PolicySubject : Type 0 where
  pub agent_id : ℕ
  pub agent_type : String
  pub risk_classification : Risk
  pub owner_user_id : Option ℕ

pub record PolicyResource : Type 0 where
  pub provider : String
  pub credential_type : String
  pub environment : String
  pub tags : List String
  pub owner_scope : String
  pub sensitivity : String

-- `now_utc` counts milliseconds since the epoch.
pub record PolicyRequestContext : Type 0 where
  pub transport : String
  pub source_network : Option (List ℕ)
  pub auth_strength : Option AuthStrength
  pub now_utc : ℕ
  pub requested_count : Option ℕ

-- The capability flags of an agent that gate an action.
pub data CapabilityField : Type 0 where
  raw_secret_access rotation_permission revocation_permission : CapabilityField
  auto_ingestion_permission metadata_enrichment_permission : CapabilityField

-- The texts of `reason`, by their holes.
pub data Reason : Type 0 where
  denied_by : String → Reason
  no_matching_allow : Reason
  count_exceeds : (requested maximum : ℕ) → Reason
  allowed_by : String → Reason
  lacks_capability : CapabilityField → Reason
  provider_not_allowed : String → Reason

pub record PolicyDecision : Type 0 where
  pub effect : Effect
  pub access_mode : AccessMode
  pub requires_approval : Bool
  pub max_retrieval_count : Option ℕ
  pub max_session_seconds : Option ℕ
  pub cache_permitted : Bool
  pub downstream_use_permitted : Bool
  pub matched_policy_ids : List ℕ
  pub reason : Reason

-- A row of `approval_requests`.
pub data ApprovalStatus : Type 0 where
  pending approved denied expired : ApprovalStatus

pub record ApprovalRequest : Type 0 where
  pub id : ℕ
  pub credential_id : ℕ
  pub agent_id : ℕ
  pub operation : String
  pub requested_at : ℕ
  pub status : ApprovalStatus
  pub decided_by : Option ℕ
  pub decided_at : Option ℕ
  pub reason : Option String
