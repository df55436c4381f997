-- ===== src/Sweep.antt =====
-- The scheduled sweep of expiring credentials (src/services/scheduledJobs.ts: runExpirySweep).
-- `window` is EXPIRING_WARNING_WINDOW in milliseconds.
pub mod Idempotence
mod Tests
use securestore.Common.{
  ℕ, ◌+◌, String, Option, none, some, List, [], ◌∷◌, Bool, true, false, ◌&&◌, leb, ltb, nat_beq,
  if◌then◌else◌, find?, filter, update_where,
}
use securestore.Policy.Types.{direct, allow}
use securestore.Credential.Types.{CredentialStatus, active, expiring, expired, Credential, Version}
use securestore.Database.{
  Db, record_audit, publish, AuditEntry, success, source, provider, EventType, credential_expiring,
  credential_expired,
}

-- v.expires_at of the joined version, where it is not null
abbrev pub expiry_of : List Version → Option ℕ → Option ℕ
expiry_of versions none = none
expiry_of versions (some id) = elim (find? (λ v. nat_beq v.id id) versions) [
  | none ↦ none
  | some v ↦ v.expires_at
]

abbrev pub soon : (now window : ℕ) → Option ℕ → Bool
soon now window none = false
soon now window (some t) = leb t (now + window) && ltb now t

abbrev pub past : (now : ℕ) → Option ℕ → Bool
past now none = false
past now (some t) = leb t now

abbrev pub is_active : CredentialStatus → Bool
is_active s = elim s [ active ↦ true | _ ↦ false ]

-- c.status IN ('active', 'expiring')
abbrev pub is_active_or_expiring : CredentialStatus → Bool
is_active_or_expiring s = elim s [ active ↦ true | expiring ↦ true | _ ↦ false ]

abbrev pub is_expiring : (now window : ℕ) → List Version → Credential → Bool
is_expiring now window versions c =
    is_active c.status && soon now window (expiry_of versions c.current_version_id)

abbrev pub is_overdue : (now : ℕ) → List Version → Credential → Bool
is_overdue now versions c =
    is_active_or_expiring c.status && past now (expiry_of versions c.current_version_id)

-- The audit entry and the event of one row.
unfoldable pub announce : String → EventType → Credential → Db → Db
announce operation event_type row db =
    publish event_type (some row.org_id) row.workspace_id (some row.id) none (provider row.provider)
      (record_audit
        (record {
          org_id = row.org_id;
          agent_id = none;
          session_id = none;
          workspace_id = row.workspace_id;
          credential_id = some row.id;
          credential_version = none;
          provider = some row.provider;
          operation = operation;
          access_mode = some direct;
          creation_source = none;
          introducing_agent_id = none;
          metadata_source = none;
          policy_decision = some allow;
          source_network = none;
          mcp_transport = none;
          result = success;
          details = source "scheduled_expiry_sweep";
        })
        db)

unfoldable pub announce_all : String → EventType → List Credential → Db → Db
announce_all operation event_type [] db = db
announce_all operation event_type (row ∷ rows) db =
    announce_all operation event_type rows (announce operation event_type row db)

-- One UPDATE … RETURNING with the loop over its rows.
unfoldable pub flag_rows :
    (Credential → Bool) → (now : ℕ) → CredentialStatus → String → EventType → Db → Db
flag_rows due now status operation event_type db =
    announce_all operation event_type (filter due db.credentials) (record db {
      credentials =
          update_where due (λ c. record c { status = status; updated_at = now }) db.credentials;
    })

unfoldable pub flag_expiring : (now window : ℕ) → Db → Db
flag_expiring now window db =
    flag_rows (is_expiring now window db.versions) now expiring "credential_expiring"
      credential_expiring db

unfoldable pub flag_expired : (now : ℕ) → Db → Db
flag_expired now db =
    flag_rows (is_overdue now db.versions) now expired "credential_expired" credential_expired db

-- withAdvisoryLock; `locked` is what pg_try_advisory_lock answers.
abbrev pub with_advisory_lock : (locked : Bool) → (Db → Db) → Db → Db
with_advisory_lock true fn db = fn db
with_advisory_lock false fn db = db

unfoldable pub run_expiry_sweep : (locked : Bool) (now window : ℕ) → Db → Db
run_expiry_sweep locked now window =
    with_advisory_lock locked (λ db. flag_expired now (flag_expiring now window db))
