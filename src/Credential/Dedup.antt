-- ===== src/Credential/Dedup.antt =====
-- Storing a secret that is stored already (src/services/credentialService.ts: storeCredential).
use securestore.Common.{
  ℕ, Option, none, some, List, [], ◌∷◌, true, false, ◌||◌, nat_beq, nat_beq_iff, ◌≡◌, refl, ap, sym,
  ◌∙◌, arith, inl, inr, any, find?, any-append, Bool-cases,
}
use securestore.Crypto.{CryptoLib}
use securestore.Credential.Types.{Fingerprint, Credential, CredentialRecord}
use securestore.Credential.Queries.{update_credential, insert_fingerprint}
use securestore.Credential.Versions.{Env, StoreCredentialInput}
use securestore.Credential.Store.{
  StoreResult, merge_incoming_metadata, create_credential, rotate_internal, store_new,
  store_unkeyed, store_keyed, store_transaction, fingerprint_of,
}
use securestore.Credential.Recall.{load_existing-state, insert_fingerprint-state, is_new}
use securestore.Database.{Db, ok, Error, record_audit, publish}
use securestore.Database.Steps.{on_ok, ok-state}

-- The fingerprint has a row.
abbrev HasFingerprint : ℕ → Db → Type 0
HasFingerprint fp db = any (λ f. nat_beq f.fingerprint fp) db.fingerprints ≡ true

insert_fingerprint-HasFingerprint :
    (lib : CryptoLib) (env : Env) (e : Error) (f : Fingerprint) (db : Db) {u : Unit {0}} {next : Db}
    → insert_fingerprint e f db ≡ ok (u, next)
    → HasFingerprint f.fingerprint next
insert_fingerprint-HasFingerprint lib env e f db h =
    rw (insert_fingerprint-state lib env e f db h) (
      any-append (λ g. nat_beq g.fingerprint f.fingerprint) db.fingerprints (f ∷ [])
      ∙ ground (arith, (nat_beq_iff f.fingerprint f.fingerprint).1 refl))

module _ (lib : CryptoLib) (env : Env) (input : StoreCredentialInput) (fp : ℕ) where
  merge_incoming-HasFingerprint :
      (now id : ℕ) (db : Db) {c : CredentialRecord} {next : Db}
      → merge_incoming_metadata now id input db ≡ ok (c, next)
      → HasFingerprint fp db
      → HasFingerprint fp next
  unfolding merge_incoming_metadata update_credential
  merge_incoming-HasFingerprint now id db h there = on_ok _ _ db h λ before db1 e1 h1.
      on_ok _ _ db1 h1 λ _ db2 e2 h2.
        rw
          (
            (load_existing-state lib env id db2 h2).0,
            ← (ok-state e2).1,
            (load_existing-state lib env id db e1).0,
          )
          there

  create_credential-HasFingerprint :
      (db : Db) {c : CredentialRecord} {next : Db}
      → create_credential lib env input fp db ≡ ok (c, next)
      → HasFingerprint fp next
  unfolding create_credential update_credential record_audit publish
  create_credential-HasFingerprint db h = on_ok _ _ db h λ _ db1 e1 h1.
      on_ok _ _ db1 h1 λ v db2 e2 h2. on_ok _ _ db2 h2 λ _ db3 e3 h3.
        on_ok _ _ db3 h3 λ _ db4 e4 h4. on_ok _ _ db4 h4 λ _ db5 e5 h5.
          on_ok _ _ db5 h5 λ _ db6 e6 h6.
            rw
              (
                (load_existing-state lib env env.credential_uuid db6 h6).0,
                ← (ok-state e6).1,
                ← (ok-state e5).1,
                ← (ok-state e4).1,
              )
              (insert_fingerprint-HasFingerprint lib env _ _ db2 e3)

  rotate_internal-HasFingerprint :
      (id : ℕ) (db : Db) {c : CredentialRecord} {next : Db}
      → rotate_internal lib env id input fp db ≡ ok (c, next)
      → HasFingerprint fp next
  unfolding rotate_internal update_credential record_audit publish
  rotate_internal-HasFingerprint id db h = on_ok _ _ db h λ current db1 e1 h1.
      on_ok _ _ db1 h1 λ versions db2 e2 h2. on_ok _ _ db2 h2 λ v db3 e3 h3.
        on_ok _ _ db3 h3 λ _ db4 e4 h4. on_ok _ _ db4 h4 λ _ db5 e5 h5.
          on_ok _ _ db5 h5 λ _ db6 e6 h6. on_ok _ _ db6 h6 λ _ db7 e7 h7.
            on_ok _ _ db7 h7 λ _ db8 e8 h8.
              let pointed : HasFingerprint fp db5 =
                rw (← (ok-state e5).1) (insert_fingerprint-HasFingerprint lib env _ _ db3 e4) in
              rw ((load_existing-state lib env id db8 h8).0, ← (ok-state e8).1, ← (ok-state e7).1)
                (merge_incoming-HasFingerprint env.now id db5 e6 pointed)

  store_new-HasFingerprint :
      (o : Option ℕ) (db : Db) {r : StoreResult} {next : Db}
      → store_new lib env input fp o db ≡ ok (r, next)
      → HasFingerprint fp next
  unfolding store_new
  store_new-HasFingerprint (some id) db h =
      on_ok _ _ db h λ c db1 e1 h1. rw (← (ok-state h1).1) (rotate_internal-HasFingerprint id db e1)
  store_new-HasFingerprint none db h =
      on_ok _ _ db h λ c db1 e1 h1. rw (← (ok-state h1).1) (create_credential-HasFingerprint db e1)

  store_unkeyed-HasFingerprint :
      (o : Option Fingerprint) (db : Db) {r : StoreResult} {next : Db}
      → store_unkeyed lib env input fp o db ≡ ok (r, next)
      → is_new lib env r ≡ true
      → HasFingerprint fp next
  unfolding store_unkeyed
  store_unkeyed-HasFingerprint (some f) db {r} h new =
      on_ok _ _ db h λ c db1 e1 h1. absurd (cc (ap (is_new lib env) (ok-state h1).0, new))
  store_unkeyed-HasFingerprint none db {r} h new =
      on_ok _ _ db h λ candidate db1 e1 h1. store_new-HasFingerprint candidate db1 h1

  store_keyed-HasFingerprint :
      (o : Option Credential) (db : Db) {r : StoreResult} {next : Db}
      → store_keyed lib env input fp o db ≡ ok (r, next)
      → is_new lib env r ≡ true
      → HasFingerprint fp next
  unfolding store_keyed
  store_keyed-HasFingerprint (some c) db {r} h new =
      on_ok _ _ db h λ c db1 e1 h1. absurd (cc (ap (is_new lib env) (ok-state h1).0, new))
  store_keyed-HasFingerprint none db {r} h new =
      on_ok _ _ db h λ known db1 e1 h1. store_unkeyed-HasFingerprint known db1 h1 new

any-find?-none :
    (fp : ℕ) (fs : List Fingerprint)
    → find? (λ f. nat_beq f.fingerprint fp) fs ≡ none
    → any (λ f. nat_beq f.fingerprint fp) fs ≡ false
any-find?-none fp [] h = refl
any-find?-none fp (f ∷ fs) h = elim (Bool-cases (nat_beq f.fingerprint fp)) [
  | inl e ↦ absurd (cc (rw e at h))
  | inr e ↦ rw e (any-find?-none fp fs (rw e at h))
]

module _ (lib : CryptoLib) (env : Env) (input : StoreCredentialInput) where
  reused :
      (fp : ℕ) (o : Option Fingerprint) (db : Db) {r : StoreResult} {next : Db}
      → (o ≡ none → false ≡ true)
      → store_unkeyed lib env input fp o db ≡ ok (r, next)
      → is_new lib env r ≡ false
  unfolding store_unkeyed
  reused fp none db known h = absurd (cc (known refl))
  reused fp (some f) db {r} known h =
      on_ok _ _ db h λ c db1 e1 h1. sym (ap (is_new lib env) (ok-state h1).0)

  known_again :
      (fp : ℕ) (o : Option Credential) (db : Db) {r : StoreResult} {next : Db}
      → HasFingerprint fp db
      → store_keyed lib env input fp o db ≡ ok (r, next)
      → is_new lib env r ≡ false
  unfolding store_keyed
  known_again fp (some c) db {r} there h =
      on_ok _ _ db h λ c db1 e1 h1. sym (ap (is_new lib env) (ok-state h1).0)
  known_again fp none db {r} there h = on_ok _ _ db h λ known db1 e1 h1.
      reused fp known db1
        (λ gone. cc (any-find?-none fp db.fingerprints ((ok-state e1).0 ∙ gone), there)) h1

-- After a call of `storeCredential` that created or rotated a credential, a later call for a secret
-- with the same fingerprint, if it returns, neither creates nor rotates a credential.
pub store_transaction_twice :
    (lib : CryptoLib) (env later : Env) (input again : StoreCredentialInput) (db : Db)
    (r r' : StoreResult) (next next' : Db)
    → store_transaction lib env input db ≡ ok (r, next)
    → (r.created || r.rotated) ≡ true
    → fingerprint_of lib env again ≡ fingerprint_of lib env input
    → store_transaction lib later again next ≡ ok (r', next')
    → (r'.created || r'.rotated) ≡ false
unfolding store_transaction fingerprint_of
store_transaction_twice lib env later input again db r r' next next' h new same h' =
    known_again lib later again _ _ next
      (rw same (store_keyed-HasFingerprint lib env input _ _ db h new)) h'
