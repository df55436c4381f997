-- ===== src/Database.antt =====
-- The tables that the services read and write, one list of rows for each, and the transaction
-- (db/migrations/0001_init.sql, src/db/pool.ts, src/services/auditService.ts: recordAudit,
-- src/services/eventBus.ts: publish). A transaction's statements act on one `Db`; an error
-- leaves the `Db` from before, as ROLLBACK does.
pub mod Steps
use securestore.Common.{
  nat_beq, any, ◌&&◌, ℕ, ◌+◌, String, Option, none, some, List, [], ◌∷◌, ◌++◌, Bool, true, false,
  ◌≡◌, refl, ◌⊎◌, inl, inr,
}
use securestore.Policy.Types.{AccessMode, Effect, ApprovalRequest, Reason}
use securestore.Agent.Types.{AgentRow, ApiKey, AgentSession}
use securestore.Credential.Types.{
  Credential, Version, Secret, Fingerprint, SharingPolicy, OwnerScope,
}

pub data AuditResult : Type 0 where
  success denied error : AuditResult

-- `details` and `payload`, by what is put into them.
pub record Ownership : Type 0 where
  pub owner_scope : OwnerScope
  pub owner_user_id : Option ℕ
  pub owner_agent_id : Option ℕ
  pub workspace_id : Option ℕ

pub data Details : Type 0 where
  nothing : Details
  deduped : Option String → Details
  stored : Option String → String → Details
  version_number : ℕ → Details
  fields : List String → Details
  validation : String → Details
  valid : Bool → Details
  reason : Option String → Details
  hard : Bool → Details
  shared : SharingPolicy → Details
  transfer : (from to : Ownership) → Details
  ownership_transfer : OwnerScope → Details
  used : AccessMode → Option String → Details
  executed : String → ℕ → Details
  denial_reason : Reason → Details
  denial : (operation : String) → Reason → Details
  source : String → Details
  provider : String → Details

-- src/services/auditService.ts: AuditEntry, less the fields that no caller sets
-- (userId, clientType, deviceId, projectId, approvalDecision).
pub record AuditEntry : Type 0 where
  pub org_id : ℕ
  pub agent_id : Option ℕ
  pub session_id : Option ℕ
  pub workspace_id : Option ℕ
  pub credential_id : Option ℕ
  pub credential_version : Option ℕ
  pub provider : Option String
  pub operation : String
  pub access_mode : Option AccessMode
  pub creation_source : Option String
  pub introducing_agent_id : Option ℕ
  pub metadata_source : Option String
  pub policy_decision : Option Effect
  pub source_network : Option (List ℕ)
  pub mcp_transport : Option String
  pub result : AuditResult
  pub details : Details

-- src/services/eventBus.ts: SecureStoreEventType
pub data EventType : Type 0 where
  credential_detected credential_created credential_enriched credential_validated : EventType
  credential_used credential_rotated credential_expiring credential_expired : EventType
  credential_revoked credential_deleted credential_shared credential_policy_changed : EventType
  agent_connected agent_revoked access_denied : EventType

pub record Event : Type 0 where
  pub event_type : EventType
  pub org_id : Option ℕ
  pub workspace_id : Option ℕ
  pub credential_id : Option ℕ
  pub agent_id : Option ℕ
  pub payload : Details

-- A row of `workspaces`, and one of `agent_workspace_memberships`.
pub record Workspace : Type 0 where
  pub id : ℕ
  pub org_id : ℕ

pub record Membership : Type 0 where
  pub agent_id : ℕ
  pub workspace_id : ℕ

-- Of the rows of `users` only the ids are read.
pub record Db : Type 0 where
  pub credentials : List Credential
  pub versions : List Version
  pub secrets : List Secret
  pub fingerprints : List Fingerprint
  pub audit_log : List AuditEntry
  pub events : List Event
  pub workspaces : List Workspace
  pub memberships : List Membership
  pub agents : List AgentRow
  pub api_keys : List ApiKey
  pub agent_sessions : List AgentSession
  pub approvals : List ApprovalRequest
  pub users : List ℕ

abbrev pub empty : Db
empty = record {
  credentials = [];
  versions = [];
  secrets = [];
  fingerprints = [];
  audit_log = [];
  events = [];
  workspaces = [];
  memberships = [];
  agents = [];
  api_keys = [];
  agent_sessions = [];
  approvals = [];
  users = [];
}

-- SELECT 1 FROM workspaces WHERE id = $1 AND org_id = $2
abbrev pub workspace_in_org : Db → ℕ → ℕ → Bool
workspace_in_org db id org_id = any (λ w. nat_beq w.id id && nat_beq w.org_id org_id) db.workspaces

-- What a statement or a function throws.
pub data Error : Type 0 where
  credential_not_found : Error
  no_active_version : Error
  secret_missing : Error
  decrypt_failed : Error
  duplicate_credential : Error
  unique_violation : Error
  invalid_date : Error
  null_record : Error
  workspace_of_other_org : Error
  workspace_access : Error
  foreign_key_violation : Error

pub data Result {ℓ} (A : Type ℓ) : Type ℓ where
  ok : A → Result A
  err : Error → Result A

-- A function that runs inside a transaction.
abbrev pub Tx {ℓ} : Type ℓ → Type ℓ
Tx A = Db → Result (A × Db)

infixl 5 ◌>>=◌ ◌>>◌
unfoldable pub ◌>>=◌ {ℓ} : {A B : Type ℓ} → Tx A → (A → Tx B) → Tx B
◌>>=◌ m f db = elim (m db) [ err e ↦ err e | ok (a, db') ↦ f a db' ]

abbrev pub ◌>>◌ {ℓ} : {A B : Type ℓ} → Tx A → Tx B → Tx B
m >> n = m >>= λ _. n

abbrev pub pure {ℓ} : {A : Type ℓ} → A → Tx A
pure a db = ok (a, db)

abbrev pub throw {ℓ} : {A : Type ℓ} → Error → Tx A
throw e db = err e

-- A statement that cannot fail.
abbrev pub modify : (Db → Db) → Tx (Unit {0})
modify f db = ok (tt, f db)

abbrev pub gets {ℓ} : {A : Type ℓ} → (Db → A) → Tx A
gets f db = ok (f db, db)

-- src/db/pool.ts: withTransaction
unfoldable pub with_transaction {ℓ} : {A : Type ℓ} → Tx A → Db → Result A × Db
with_transaction fn db = elim (fn db) [ ok (a, db') ↦ (ok a, db') | err e ↦ (err e, db) ]

-- src/services/auditService.ts: recordAudit
unfoldable pub record_audit : AuditEntry → Db → Db
record_audit entry db = record db { audit_log = db.audit_log ++ entry ∷ [] }

-- src/services/eventBus.ts: publish
unfoldable pub publish : EventType → Option ℕ → Option ℕ → Option ℕ → Option ℕ → Details → Db → Db
publish event_type org_id workspace_id credential_id agent_id payload db = record db {
  events =
      db.events
      ++ record {
        event_type = event_type;
        org_id = org_id;
        workspace_id = workspace_id;
        credential_id = credential_id;
        agent_id = agent_id;
        payload = payload;
      }
        ∷ [];
}
