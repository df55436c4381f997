-- ===== src/Credential/Deletion.antt =====
-- What the hard deletion of `deleteCredential` changes, with the cascades of
-- db/migrations/0001_init.sql, and what it leaves.
use securestore.Common.{
  ℕ, some, [], ◌∷◌, ◌++◌, Bool, true, not, ◌&&◌, ◌||◌, nat_beq, ◌≡◌, refl, ap, find?, any, filter,
}
use securestore.Credential.Types.{Credential, Version}
use securestore.Credential.Queries.{has_id, delete_rows}
use securestore.Credential.Lifecycle.{delete_credential}
use securestore.Credential.Revocation.{find_credential-state, find_credential-returns}
use securestore.Database.{
  Db, ok, ◌>>=◌, record_audit, publish, AuditEntry, Event, credential_deleted,
}
use securestore.Database.Steps.{on_ok, ok-state}

abbrev pub is_of : ℕ → Version → Bool
is_of id v = nat_beq v.credential_id id

-- The version `version_id` is one of the credential `id`.
abbrev pub is_gone : ℕ → Db → ℕ → Bool
is_gone id db version_id = any (λ v. nat_beq v.id version_id && is_of id v) db.versions

-- What the hard deletion of the credential `id` makes of the tables: its row and its versions go,
-- with their secrets, their fingerprints and its approval requests. All other rows stay, in
-- their order, and so do all other tables.
pub record IsDeleted (id : ℕ) (before after : Db) : Type 0 where
  pub credentials : after.credentials ≡ filter (λ c. not (nat_beq c.id id)) before.credentials
  pub versions : after.versions ≡ filter (λ v. not (is_of id v)) before.versions
  pub secrets : after.secrets ≡ filter (λ s. not (is_gone id before s.version_id)) before.secrets
  pub fingerprints :
      after.fingerprints
      ≡ filter
          (λ f. not (nat_beq f.credential_id id || is_gone id before f.version_id))
          before.fingerprints
  pub approvals : after.approvals ≡ filter (λ a. not (nat_beq a.credential_id id)) before.approvals
  pub audited :
      (entry : AuditEntry) × (after.audit_log ≡ before.audit_log ++ entry ∷ [])
      × (entry.operation ≡ "secret_delete")
      × (entry.credential_id ≡ some id)
  pub announced :
      (event : Event) × (after.events ≡ before.events ++ event ∷ [])
      × (event.event_type ≡ credential_deleted)
      × (event.credential_id ≡ some id)
  pub tables : after ≡ record before {
    credentials = after.credentials;
    versions = after.versions;
    secrets = after.secrets;
    fingerprints = after.fingerprints;
    approvals = after.approvals;
    audit_log = after.audit_log;
    events = after.events;
  }

delete_ok-IsDeleted :
    (now id agent_id : ℕ) (db : Db) {u : Unit {0}} {next : Db}
    → delete_credential now id agent_id true db ≡ ok (u, next)
    → IsDeleted id db next
unfolding delete_credential delete_rows record_audit publish
delete_ok-IsDeleted now id agent_id db h = on_ok _ _ db h λ cred db1 e1 h1.
    on_ok _ _ db1 h1 λ _ db2 e2 h2. on_ok _ _ db2 h2 λ _ db3 e3 h3.
      let (same, same_id) = find_credential-state id db e1 in
      rw (← (ok-state h3).1, ← (ok-state e3).1, ← (ok-state e2).1, same)
        (record {
          credentials = refl;
          versions = refl;
          secrets = refl;
          fingerprints = refl;
          approvals = refl;
          audited = (_, refl, refl, ap some same_id);
          announced = (_, refl, refl, ap some same_id);
          tables = refl;
        })

delete-returns :
    (now id agent_id : ℕ) (db : Db) (c : Credential)
    → find? (has_id id) db.credentials ≡ some c
    → (next : Db) × (delete_credential now id agent_id true db ≡ ok (tt, next))
unfolding delete_credential ◌>>=◌
delete-returns now id agent_id db c there =
    rw (find_credential-returns id db c there, delete_credential, ◌>>=◌) (_, refl)

-- The hard deletion of a credential that is there succeeds. It removes exactly the credential's
-- row, its versions, the secrets of these, the fingerprints of the credential or of these, and
-- its approval requests; it adds one audit entry and one event, both for that credential, and
-- leaves all else as it was.
pub delete-IsDeleted :
    (now id agent_id : ℕ) (db : Db) (c : Credential)
    → find? (has_id id) db.credentials ≡ some c
    → (next : Db) × (delete_credential now id agent_id true db ≡ ok (tt, next))
      × IsDeleted id db next
delete-IsDeleted now id agent_id db c there =
    let (next, done) = delete-returns now id agent_id db c there in
    (next, done, delete_ok-IsDeleted now id agent_id db done)
