-- ===== src/Credential/Queries.antt =====
-- The statements of src/services/credentialService.ts on the tables of credentials, with the
-- primary keys and unique indexes of db/migrations/0001_init.sql. Foreign keys are not checked; a deletion cascades.
use securestore.Common.{
  ℕ, String, Option, none, some, List, [], ◌∷◌, ◌++◌, Bool, ◌&&◌, ◌||◌, not, leb, nat_beq,
  if◌then◌else◌, nat_eq, string_eq, sql_eq, any, find?, filter, update_where,
}
use securestore.Credential.Types.{
  Credential, CredentialRecord, status_eq, Version, VersionStatus, Secret, Fingerprint,
}
use securestore.Database.{Db, Tx, Error, unique_violation, ok, err}

abbrev pub has_id : ℕ → Credential → Bool
has_id id c = nat_beq c.id id

-- SELECT version_number FROM credential_versions WHERE id = $1, for the LEFT JOIN
abbrev pub number_of : Option ℕ → List Version → Option ℕ
number_of none versions = none
number_of (some id) versions = elim (find? (λ v. nat_beq v.id id) versions) [
  | none ↦ none
  | some v ↦ some v.version_number
]

abbrev pub row_to_credential : Credential → List Version → CredentialRecord
row_to_credential c versions = record {
  row = c;
  current_version_number = number_of c.current_version_id versions;
}

unfoldable pub load_credential : ℕ → Db → Option CredentialRecord
load_credential id db = elim (find? (has_id id) db.credentials) [
  | none ↦ none
  | some c ↦ some (row_to_credential c db.versions)
]

-- UPDATE credentials SET … WHERE id = $1
unfoldable pub update_credential : ℕ → (Credential → Credential) → Db → Db
update_credential id set db = record db {
  credentials = update_where (has_id id) set db.credentials;
}

-- UPDATE credential_versions SET status = … WHERE …
unfoldable pub set_version_status : (Version → Bool) → VersionStatus → Db → Db
set_version_status test to db = record db {
  versions = update_where test (λ v. record v { status = to }) db.versions;
}

-- The unique index on (workspace_id, idempotency_key) WHERE idempotency_key IS NOT NULL.
abbrev pub same_idempotency : Option ℕ → Option String → Credential → Bool
same_idempotency workspace_id key c =
    sql_eq c.workspace_id workspace_id && sql_eq c.idempotency_key key

unfoldable pub insert_credential : Credential → Tx (Unit {0})
insert_credential c db =
    if any (has_id c.id) db.credentials
      || any (same_idempotency c.workspace_id c.idempotency_key) db.credentials
    then err unique_violation
    else ok (tt, record db { credentials = db.credentials ++ c ∷ [] })

unfoldable pub insert_version_row : Version → Tx (Unit {0})
insert_version_row v db =
    if any (λ w. nat_beq w.id v.id) db.versions
      || any
          (λ w.
            nat_beq w.credential_id v.credential_id && nat_beq w.version_number v.version_number)
          db.versions
    then err unique_violation
    else ok (tt, record db { versions = db.versions ++ v ∷ [] })

unfoldable pub insert_secret : Secret → Tx (Unit {0})
insert_secret s db =
    if any (λ t. nat_beq t.version_id s.version_id) db.secrets
    then err unique_violation
    else ok (tt, record db { secrets = db.secrets ++ s ∷ [] })

-- The error is the one that the caller throws for a violation of the primary key.
unfoldable pub insert_fingerprint : Error → Fingerprint → Tx (Unit {0})
insert_fingerprint e f db =
    if any (λ g. nat_beq g.fingerprint f.fingerprint) db.fingerprints
    then err e
    else ok (tt, record db { fingerprints = db.fingerprints ++ f ∷ [] })

-- SELECT MAX(version_number) … WHERE credential_id = $1, with 0 for NULL
unfoldable pub max_version : ℕ → List Version → ℕ
max_version id [] = 0
max_version id (v ∷ vs) =
    let rest = max_version id vs in
    if nat_beq v.credential_id id && leb rest v.version_number then v.version_number else rest

-- DELETE FROM credentials WHERE id = $1, which cascades to every table that refers to its rows
unfoldable pub delete_rows : ℕ → Db → Db
delete_rows id db =
    let gone = λ (version_id : ℕ).
      any (λ v. nat_beq v.id version_id && nat_beq v.credential_id id) db.versions in
    record db {
      credentials = filter (λ c. not (has_id id c)) db.credentials;
      versions = filter (λ v. not (nat_beq v.credential_id id)) db.versions;
      secrets = filter (λ s. not (gone s.version_id)) db.secrets;
      fingerprints =
          filter (λ f. not (nat_beq f.credential_id id || gone f.version_id)) db.fingerprints;
      approvals = filter (λ a. not (nat_beq a.credential_id id)) db.approvals;
    }
