-- ===== src/Credential/Recall.antt =====
-- The secret that a call of `storeCredential` stored is the one that `revealSecret` returns.
use securestore.Common.{
  ℕ, Option, none, some, List, [], ◌∷◌, ◌++◌, Bool, true, false, ◌≡◌, refl, ap, sym, ◌∙◌, arith,
  find?, any, find?-append_none,
}
use securestore.Crypto.{CryptoLib, IsFaithful}
use securestore.Credential.Types.{Fingerprint, Credential, CredentialRecord, Secret}
use securestore.Credential.Queries.{has_id, load_credential, insert_credential, insert_fingerprint}
use securestore.Credential.Versions.{Env, StoreCredentialInput}
use securestore.Credential.Store.{
  StoreResult, load_existing, merge_incoming_metadata, create_credential, rotate_internal,
  new_credential, store_new, store_transaction,
}
use securestore.Credential.Lifecycle.{SessionContext}
use securestore.Credential.Lifecycle.{reveal_secret}
use securestore.Database.{Db, ok, Error}
use securestore.Credential.Store.{store_keyed, store_unkeyed}
use securestore.Common.{◌||◌, nat_beq_iff, find?_sound}
use securestore.Database.Steps.{on_ok, ok-state, find?-any-false}
use securestore.Credential.Stored.{
  IsStored, new_secret, insert_version-stored, IsStored-update, IsStored-point, IsStored-audit,
  IsStored-publish, reveal_stored,
}

module _ (lib : CryptoLib) (env : Env) where
  pub load_existing-state :
      (id : ℕ) (db : Db) {c : CredentialRecord} {next : Db}
      → load_existing id db ≡ ok (c, next)
      → (next ≡ db) × (find? (has_id id) db.credentials ≡ some c.row)
  unfolding load_existing load_credential
  load_existing-state id db h = ground arith

  insert_credential-state :
      (c : Credential) (db : Db) {a : Unit {0}} {next : Db}
      → insert_credential c db ≡ ok (a, next)
      → (any (has_id c.id) db.credentials ≡ false)
        × (next ≡ record db { credentials = db.credentials ++ c ∷ [] })
  unfolding insert_credential
  insert_credential-state c db h = ground arith

  pub insert_fingerprint-state :
      (e : Error) (f : Fingerprint) (db : Db) {a : Unit {0}} {next : Db}
      → insert_fingerprint e f db ≡ ok (a, next)
      → next ≡ record db { fingerprints = db.fingerprints ++ f ∷ [] }
  unfolding insert_fingerprint
  insert_fingerprint-state e f db h = ground arith

  merge_incoming-IsStored :
      (now id v : ℕ) (encrypted : Secret) (input : StoreCredentialInput) (db : Db)
      {c : CredentialRecord} {next : Db}
      → merge_incoming_metadata now id input db ≡ ok (c, next)
      → IsStored id v encrypted db
      → IsStored id v encrypted next
  unfolding merge_incoming_metadata
  merge_incoming-IsStored now id v encrypted input db h stored = on_ok _ _ db h λ before db1 e1 h1.
      on_ok _ _ db1 h1 λ _ db2 e2 h2.
        let same1 = (load_existing-state id db e1).0 in
        let same3 = (load_existing-state id db2 h2).0 in
        rw same3 (
          rw (← (ok-state e2).1)
            (rw same1 (IsStored-update lib env id v encrypted db _ (λ c. refl) (λ c. refl) stored)))

  new_found :
      (input : StoreCredentialInput) (cs : List Credential)
      → any (has_id (new_credential env input).id) cs ≡ false
      → find? (has_id env.credential_uuid) (cs ++ new_credential env input ∷ [])
        ≡ some (new_credential env input)
  unfolding new_credential
  new_found input cs fresh =
      find?-append_none (has_id env.credential_uuid) cs (new_credential env input ∷ [])
        (find?-any-false (has_id env.credential_uuid) cs fresh)
      ∙ ground arith

  create_credential-IsStored :
      (input : StoreCredentialInput) (fingerprint : ℕ) (db : Db) {c : CredentialRecord} {next : Db}
      → create_credential lib env input fingerprint db ≡ ok (c, next)
      → IsStored env.credential_uuid env.version_uuid (new_secret lib env input) next
        × (c.id ≡ env.credential_uuid)
  unfolding create_credential
  create_credential-IsStored input fingerprint db {c} h = on_ok _ _ db h λ _ db1 e1 h1.
      on_ok _ _ db1 h1 λ v db2 e2 h2. on_ok _ _ db2 h2 λ _ db3 e3 h3.
        on_ok _ _ db3 h3 λ _ db4 e4 h4. on_ok _ _ db4 h4 λ _ db5 e5 h5.
          on_ok _ _ db5 h5 λ _ db6 e6 h6.
            let (fresh, there) = insert_credential-state _ db e1 in
            let (same_v, creds, secs) = insert_version-stored lib env _ 1 none input db1 e2 in
            let marked = insert_fingerprint-state _ _ db2 e3 in
            let same6 = (load_existing-state env.credential_uuid db6 h6).0 in
            let in_last = (load_existing-state env.credential_uuid db6 h6).1 in
            let creds3 : db3.credentials ≡ db.credentials ++ new_credential env input ∷ [] =
              ap (λ (d : Db). d.credentials) marked
              ∙ creds
              ∙ ap (λ (d : Db). d.credentials) there in
            let stored4 : IsStored env.credential_uuid env.version_uuid (new_secret lib env input)
                db4 =
              rw (← (ok-state e4).1) (
                IsStored-point lib env env.credential_uuid env.version_uuid
                  (new_secret lib env input) db3 _ (new_credential env input) (λ c. refl)
                  (ap some same_v) (rw creds3 (new_found input db.credentials fresh))
                  (rw (ap (λ (d : Db). d.secrets) marked) secs)) in
            let stored5 : IsStored env.credential_uuid env.version_uuid (new_secret lib env input)
                db5 =
              rw (← (ok-state e5).1) (
                IsStored-audit lib env env.credential_uuid env.version_uuid
                  (new_secret lib env input) db4 _ stored4) in
            let stored6 : IsStored env.credential_uuid env.version_uuid (new_secret lib env input)
                db6 =
              rw (← (ok-state e6).1) (
                IsStored-publish lib env env.credential_uuid env.version_uuid
                  (new_secret lib env input) db5 _ _ _ _ _ _ stored5) in
            (
              rw same6 stored6,
              (nat_beq_iff c.id env.credential_uuid).0
                  (find?_sound (has_id env.credential_uuid) db6.credentials in_last),
            )

  rotate_internal-IsStored :
      (id : ℕ) (input : StoreCredentialInput) (fingerprint : ℕ) (db : Db) {c : CredentialRecord}
      {next : Db}
      → rotate_internal lib env id input fingerprint db ≡ ok (c, next)
      → IsStored id env.version_uuid (new_secret lib env input) next × (c.id ≡ id)
  unfolding rotate_internal
  rotate_internal-IsStored id input fingerprint db {c} h = on_ok _ _ db h λ current db1 e1 h1.
      on_ok _ _ db1 h1 λ versions db2 e2 h2. on_ok _ _ db2 h2 λ v db3 e3 h3.
        on_ok _ _ db3 h3 λ _ db4 e4 h4. on_ok _ _ db4 h4 λ _ db5 e5 h5.
          on_ok _ _ db5 h5 λ _ db6 e6 h6. on_ok _ _ db6 h6 λ _ db7 e7 h7.
            on_ok _ _ db7 h7 λ _ db8 e8 h8.
              let (same1, found) = load_existing-state id db e1 in
              let same2 = (ok-state e2).1 in
              let (same_v, creds, secs) = insert_version-stored lib env _ _ _ input db2 e3 in
              let marked = insert_fingerprint-state _ _ db3 e4 in
              let creds4 : db4.credentials ≡ db.credentials =
                ap (λ (d : Db). d.credentials) marked
                ∙ creds
                ∙ ap (λ (d : Db). d.credentials) (sym same2 ∙ same1) in
              let stored5 : IsStored id env.version_uuid (new_secret lib env input) db5 =
                rw (← (ok-state e5).1) (
                  IsStored-point lib env id env.version_uuid (new_secret lib env input) db4 _
                    current.row (λ c. refl) (ap some same_v) (rw creds4 found)
                    (rw (ap (λ (d : Db). d.secrets) marked) secs)) in
              let stored6 =
                merge_incoming-IsStored env.now id env.version_uuid (new_secret lib env input) input
                  db5 e6 stored5 in
              let stored7 : IsStored id env.version_uuid (new_secret lib env input) db7 =
                rw (← (ok-state e7).1) (
                  IsStored-audit lib env id env.version_uuid (new_secret lib env input) db6 _
                    stored6) in
              let stored8 : IsStored id env.version_uuid (new_secret lib env input) db8 =
                rw (← (ok-state e8).1) (
                  IsStored-publish lib env id env.version_uuid (new_secret lib env input) db7 _ _ _
                    _ _ _ stored7) in
              let (same9, in_last) = load_existing-state id db8 h8 in
              (
                rw same9 stored8,
                (nat_beq_iff c.id id).0 (find?_sound (has_id id) db8.credentials in_last),
              )

  -- A call that made a credential or a version of one: the row that it returns points to its
  -- version and secret.
  store_new-IsStored :
      (input : StoreCredentialInput) (fingerprint : ℕ) (o : Option ℕ) (db : Db) {r : StoreResult}
      {next : Db}
      → store_new lib env input fingerprint o db ≡ ok (r, next)
      → IsStored r.credential.id env.version_uuid (new_secret lib env input) next
  unfolding store_new
  store_new-IsStored input fingerprint (some id) db {r} h = on_ok _ _ db h λ c db1 e1 h1.
      let (stored, same_id) = rotate_internal-IsStored id input fingerprint db e1 in
      let done = ok-state h1 in rw (← done.1, ← done.0, same_id) stored
  store_new-IsStored input fingerprint none db {r} h = on_ok _ _ db h λ c db1 e1 h1.
      let (stored, same_id) = create_credential-IsStored input fingerprint db e1 in
      let done = ok-state h1 in rw (← done.1, ← done.0, same_id) stored

  abbrev pub is_new : StoreResult → Bool
  is_new r = r.created || r.rotated

  store_unkeyed-IsStored :
      (input : StoreCredentialInput) (fingerprint : ℕ) (o : Option Fingerprint) (db : Db)
      {r : StoreResult} {next : Db}
      → store_unkeyed lib env input fingerprint o db ≡ ok (r, next)
      → is_new r ≡ true
      → IsStored r.credential.id env.version_uuid (new_secret lib env input) next
  unfolding store_unkeyed
  store_unkeyed-IsStored input fingerprint (some f) db {r} h new =
      on_ok _ _ db h λ c db1 e1 h1. absurd (cc (ap is_new (ok-state h1).0, new))
  store_unkeyed-IsStored input fingerprint none db {r} h new =
      on_ok _ _ db h λ candidate db1 e1 h1. store_new-IsStored input fingerprint candidate db1 h1

  store_keyed-IsStored :
      (input : StoreCredentialInput) (fingerprint : ℕ) (o : Option Credential) (db : Db)
      {r : StoreResult} {next : Db}
      → store_keyed lib env input fingerprint o db ≡ ok (r, next)
      → is_new r ≡ true
      → IsStored r.credential.id env.version_uuid (new_secret lib env input) next
  unfolding store_keyed
  store_keyed-IsStored input fingerprint (some f) db {r} h new =
      on_ok _ _ db h λ c db1 e1 h1. absurd (cc (ap is_new (ok-state h1).0, new))
  store_keyed-IsStored input fingerprint none db {r} h new =
      on_ok _ _ db h λ known db1 e1 h1. store_unkeyed-IsStored input fingerprint known db1 h1 new

-- After a call of `storeCredential` that created or rotated a credential, `revealSecret` for the
-- returned credential gives exactly the secret of the call, if the ciphers are faithful.
pub reveal-store :
    (lib : CryptoLib) (env : Env) (input : StoreCredentialInput) (db : Db) (r : StoreResult)
    (next : Db) (now agent_id : ℕ) (session : SessionContext)
    → IsFaithful lib
    → store_transaction lib env input db ≡ ok (r, next)
    → (r.created || r.rotated) ≡ true
    → (reveal_secret lib now r.credential.id agent_id session next).0 ≡ ok input.secret_value
unfolding store_transaction
reveal-store lib env input db r next now agent_id session f h new =
    reveal_stored lib env now r.credential.id env.version_uuid agent_id input session next f
      (store_keyed-IsStored lib env input _ _ db h new)
