-- ===== src/Credential/Stored.antt =====
-- Where a stored secret is, what leaves it there, and that `revealSecret` returns it.
use securestore.Common.{
  ℕ, Option, none, some, List, [], ◌∷◌, ◌++◌, false, nat_beq, ◌≡◌, refl, ap, sym, ◌∙◌, arith,
  or_else, find?, any, find?-append_none,
}
use securestore.Crypto.{CryptoLib, IsFaithful, encrypt_secret}
use securestore.Crypto.Roundtrip.{decrypt-encrypt}
use securestore.Credential.Types.{Credential, Secret, utf8, Value, text, texts, time}
use securestore.Credential.Queries.{
  has_id, load_credential, update_credential, set_version_status, insert_version_row, insert_secret,
}
use securestore.Credential.Versions.{Env, StoreCredentialInput, supersede, insert_version, date_of}
use securestore.Credential.Lifecycle.{SessionContext, plaintext_of, reveal_transaction}
use securestore.Credential.Lifecycle.{reveal_secret}
use securestore.Database.{
  with_transaction, AuditEntry, EventType, Details, Db, ok, ◌>>=◌, record_audit, publish,
}
use securestore.Database.Steps.{on_ok, ok-state, find?-any-false, find?-update_where, map_some}

-- The row of `id` points to version `v`, and `v` has `encrypted` as its secret.
pub record IsStored (id v : ℕ) (encrypted : Secret) (db : Db) : Type 0 where
  pub row : Credential
  pub found : find? (has_id id) db.credentials ≡ some row
  pub current : row.current_version_id ≡ some v
  pub secret : find? (λ s. nat_beq s.version_id v) db.secrets ≡ some encrypted

pub insert_secret-found :
    (s : Secret) (db : Db) {a : Unit {0}} {next : Db}
    → insert_secret s db ≡ ok (a, next)
    → (any (λ t. nat_beq t.version_id s.version_id) db.secrets ≡ false)
      × (next ≡ record db { secrets = db.secrets ++ s ∷ [] })
unfolding insert_secret
insert_secret-found s db h = ground arith

pub find?-last :
    (s : Secret) (ss : List Secret)
    → any (λ t. nat_beq t.version_id s.version_id) ss ≡ false
    → find? (λ t. nat_beq t.version_id s.version_id) (ss ++ s ∷ []) ≡ some s
find?-last s ss fresh =
    find?-append_none (λ t. nat_beq t.version_id s.version_id) ss (s ∷ [])
      (find?-any-false (λ t. nat_beq t.version_id s.version_id) ss fresh)
    ∙ ground arith

pub date_of-state :
    (o : Option Value) (db : Db) {a : Option ℕ} {next : Db}
    → date_of o db ≡ ok (a, next)
    → next ≡ db
unfolding date_of
date_of-state none db h = ground arith
date_of-state (some (time t)) db h = ground arith
date_of-state (some (text s)) db h = ground arith
date_of-state (some (texts ss)) db h = absurd (cc h)

pub insert_version_row-state :
    (v : _) (db : Db) {a : Unit {0}} {next : Db}
    → insert_version_row v db ≡ ok (a, next)
    → (next.credentials ≡ db.credentials) × (next.secrets ≡ db.secrets)
unfolding insert_version_row
insert_version_row-state v db h = ground arith

pub supersede-state :
    (o : Option ℕ) (db : Db)
    → ((supersede o db).credentials ≡ db.credentials) × ((supersede o db).secrets ≡ db.secrets)
unfolding set_version_status
supersede-state none db = (refl, refl)
supersede-state (some id) db = (refl, refl)

module _ (lib : CryptoLib) (env : Env) where
  abbrev pub new_secret : StoreCredentialInput → Secret
  new_secret input = record {
    version_id = env.version_uuid;
    encrypted =
        encrypt_secret lib env.dek env.nonce input.secret_value
          (or_else input.secret_encoding utf8);
  }

  pub insert_version-stored :
      (id n : ℕ) (of : Option ℕ) (input : StoreCredentialInput) (db : Db) {v : ℕ} {next : Db}
      → insert_version lib env id n of input db ≡ ok (v, next)
      → (v ≡ env.version_uuid)
        × (next.credentials ≡ db.credentials)
        × (find? (λ s. nat_beq s.version_id env.version_uuid) next.secrets
            ≡ some (new_secret input))
  unfolding insert_version
  insert_version-stored id n of input db {next} h = on_ok _ _ db h λ d db1 e1 h1.
      on_ok _ _ db1 h1 λ d' db2 e2 h2. on_ok _ _ db2 h2 λ _ db3 e3 h3.
        on_ok _ _ db3 h3 λ _ db4 e4 h4. on_ok _ _ db4 h4 λ _ db5 e5 h5.
          let same2 : db2 ≡ db = date_of-state _ db1 e2 ∙ date_of-state _ db e1 in
          let row = insert_version_row-state _ db2 e3 in
          let (fresh, there) = insert_secret-found (new_secret input) db3 e4 in
          let over = supersede-state of db4 in
          let last : next ≡ supersede of db4 = sym (ok-state h5).1 ∙ sym (ok-state e5).1 in
          let creds : next.credentials ≡ db.credentials =
            ap (λ (d : Db). d.credentials) last
            ∙ over.0
            ∙ ap (λ (d : Db). d.credentials) there
            ∙ row.0
            ∙ ap (λ (d : Db). d.credentials) same2 in
          let secs : next.secrets ≡ db3.secrets ++ new_secret input ∷ [] =
            ap (λ (d : Db). d.secrets) last ∙ over.1 ∙ ap (λ (d : Db). d.secrets) there in
          (sym (ok-state h5).0, creds, rw secs (find?-last (new_secret input) db3.secrets fresh))

  -- Statements that leave the row's version and the secrets alone keep the secret stored.
  pub IsStored-update :
      (id v : ℕ) (encrypted : Secret) (db : Db) (set : Credential → Credential)
      → ((c : Credential) → (set c).id ≡ c.id)
      → ((c : Credential) → (set c).current_version_id ≡ c.current_version_id)
      → IsStored id v encrypted db
      → IsStored id v encrypted (update_credential id set db)
  unfolding update_credential
  IsStored-update id v encrypted db set same_id same_version h = record {
    row = set h.row;
    found =
        find?-update_where (has_id id) set db.credentials
          (λ c. ap (λ (i : ℕ). nat_beq i id) (same_id c))
        ∙ ap (map_some set) h.found;
    current = same_version h.row ∙ h.current;
    secret = h.secret;
  }

  -- Pointing the row at a version whose secret is there.
  pub IsStored-point :
      (id v : ℕ) (encrypted : Secret) (db : Db) (set : Credential → Credential) (c : Credential)
      → ((c : Credential) → (set c).id ≡ c.id)
      → (set c).current_version_id ≡ some v
      → find? (has_id id) db.credentials ≡ some c
      → find? (λ s. nat_beq s.version_id v) db.secrets ≡ some encrypted
      → IsStored id v encrypted (update_credential id set db)
  unfolding update_credential
  IsStored-point id v encrypted db set c same_id points found secret = record {
    row = set c;
    found =
        find?-update_where (has_id id) set db.credentials
          (λ d. ap (λ (i : ℕ). nat_beq i id) (same_id d))
        ∙ ap (map_some set) found;
    current = points;
    secret = secret;
  }

  pub IsStored-audit :
      (id v : ℕ) (encrypted : Secret) (db : Db) (entry : AuditEntry)
      → IsStored id v encrypted db
      → IsStored id v encrypted (record_audit entry db)
  unfolding record_audit
  IsStored-audit id v encrypted db entry h = record {
    row = h.row;
    found = h.found;
    current = h.current;
    secret = h.secret;
  }

  pub IsStored-publish :
      (id v : ℕ) (encrypted : Secret) (db : Db) (t : EventType) (o w c a : Option ℕ) (d : Details)
      → IsStored id v encrypted db
      → IsStored id v encrypted (publish t o w c a d db)
  unfolding publish
  IsStored-publish id v encrypted db t o w c a d h = record {
    row = h.row;
    found = h.found;
    current = h.current;
    secret = h.secret;
  }

  -- What is stored is revealed.
  pub reveal_stored :
      (now id v agent_id : ℕ) (input : StoreCredentialInput) (session : SessionContext) (db : Db)
      → IsFaithful lib
      → IsStored id v (record { version_id = v; encrypted = (new_secret input).encrypted }) db
      → (reveal_secret lib now id agent_id session db).0 ≡ ok input.secret_value
  unfolding reveal_secret with_transaction reveal_transaction plaintext_of load_credential ◌>>=◌
  reveal_stored now id v agent_id input session db f h = ground (
    arith,
    h.found,
    h.current,
    h.secret,
    decrypt-encrypt lib env.dek env.nonce input.secret_value (or_else input.secret_encoding utf8) f,
  )
