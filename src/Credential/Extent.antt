-- ===== src/Credential/Extent.antt =====
-- Which row of `credentials` an operation of Credential.Lifecycle may change.
pub mod Operations
use securestore.Common.{
  ℕ, String, Option, none, some, List, [], ◌∷◌, Bool, true, false, not, nat_beq, if◌then◌else◌,
  find?, filter, update_where, ◌≡◌, ◌≢◌, refl, sym, ap, ◌∙◌, arith, inl, inr, Bool-cases,
}
use securestore.Crypto.{CryptoLib, decrypt_secret}
use securestore.Credential.Types.{
  Credential, CredentialRecord, CredentialMetadata, EnrichmentStatus, SharingPolicy, Version,
  VersionStatus,
}
use securestore.Credential.Queries.{
  has_id, load_credential, update_credential, set_version_status, delete_rows,
}
use securestore.Credential.Store.{expect, load_existing, touch_last_used}
use securestore.Credential.Lifecycle.{
  SessionContext, require, find_credential, plaintext_of, reveal_transaction, update_metadata,
  mark_found, mark_validation, revoke_credential, remove_rows, delete_credential, claim_credential,
  share_credential, check_workspace, transfer_ownership,
}
use securestore.Database.{
  Db, Tx, Result, ok, err, ◌>>=◌, pure, throw, modify, gets, Error, Ownership, AuditEntry,
  record_audit, workspace_in_org, EventType, Details, publish,
}
use securestore.Database.Steps.{on_ok, ok-state, modify-state}

-- Every row is kept, except the one of the id, if there is an id.
unfoldable pub Keeps : Option ℕ → Db → Db → Type 0
Keeps o db db' =
    (id : ℕ) → o ≢ some id → find? (has_id id) db'.credentials ≡ find? (has_id id) db.credentials

-- A transaction that commits keeps the rows.
unfoldable pub TxKeeps {ℓ} : {A : Type ℓ} → Option ℕ → Tx A → Type ℓ
TxKeeps {A = A} o t = (db : Db) (a : A) (db' : Db) → t db ≡ ok (a, db') → Keeps o db db'

find?-update_other :
    (p q : Credential → Bool) (f : Credential → Credential) (xs : List Credential)
    → ((x : Credential) → p x ≡ true → (q x ≡ false) × (q (f x) ≡ false))
    → find? q (update_where p f xs) ≡ find? q xs
find?-update_other p q f [] apart = refl
find?-update_other p q f (x ∷ xs) apart = elim (Bool-cases (p x)) [
  | inl e ↦
      let (before, after) = apart x e in rw (e, before, after) (find?-update_other p q f xs apart)
  | inr e ↦ ground (arith, find?-update_other p q f xs apart)
]

find?-filter_other :
    (p q : Credential → Bool) (xs : List Credential)
    → ((x : Credential) → p x ≡ true → q x ≡ false)
    → find? q (filter (λ x. not (p x)) xs) ≡ find? q xs
find?-filter_other p q [] apart = refl
find?-filter_other p q (x ∷ xs) apart = elim (Bool-cases (p x)) [
  | inl e ↦ rw (e, apart x e) (find?-filter_other p q xs apart)
  | inr e ↦ ground (arith, find?-filter_other p q xs apart)
]

other_id :
    (id other : ℕ) (c : Credential)
    → some id ≢ some other
    → has_id id c ≡ true
    → has_id other c ≡ false
other_id id other c apart h = elim (Bool-cases (has_id other c)) [
  | inl e ↦ absurd (apart (ap some (ground arith)))
  | inr e ↦ e
]

pub update-Keeps :
    (id : ℕ) (f : Credential → Credential) (db : Db)
    → ((c : Credential) → (f c).id ≡ c.id)
    → Keeps (some id) db (update_credential id f db)
unfolding Keeps update_credential
update-Keeps id f db keep other apart =
    find?-update_other (has_id id) (has_id other) f db.credentials
      λ c e. (other_id id other c apart e, rw (keep c) (other_id id other c apart e))

module _ {ℓ} {A B : Type ℓ} (o : Option ℕ) where
  pub bind-TxKeeps :
      (m : Tx A) (f : A → Tx B) → TxKeeps o m → ((a : A) → TxKeeps o (f a)) → TxKeeps o (m >>= f)
  unfolding TxKeeps Keeps
  bind-TxKeeps m f first rest db b end h =
      on_ok m f db h
        λ a mid e k. λ id apart. rest a mid b end k id apart ∙ first db a mid e id apart

module _ (o : Option ℕ) where
  pub modify-TxKeeps : (f : Db → Db) → ((db : Db) → Keeps o db (f db)) → TxKeeps o (modify f)
  unfolding TxKeeps
  modify-TxKeeps f keep db a end h = rw (modify-state f db h) (keep db)

  pub record_audit-TxKeeps : (entry : AuditEntry) → TxKeeps o (modify (record_audit entry))
  unfolding Keeps record_audit
  record_audit-TxKeeps entry = modify-TxKeeps (record_audit entry) λ db id apart. refl

  pub publish-TxKeeps :
      (t : EventType) (org workspace credential agent : Option ℕ) (payload : Details)
      → TxKeeps o (modify (publish t org workspace credential agent payload))
  unfolding Keeps publish
  publish-TxKeeps t org workspace credential agent payload =
      modify-TxKeeps (publish t org workspace credential agent payload) λ db id apart. refl

  pub gets-TxKeeps {ℓ} : {A : Type ℓ} (f : Db → A) → TxKeeps o (gets f)
  unfolding TxKeeps Keeps
  gets-TxKeeps f db a end h id apart = rw (← (ok-state h).1) refl

  pub pure-TxKeeps {ℓ} : {A : Type ℓ} (a : A) → TxKeeps o (pure a)
  pure-TxKeeps a = gets-TxKeeps (λ db. a)

  pub require-TxKeeps {ℓ} :
      {A : Type ℓ} (e : Error) (found : Option A) → TxKeeps o (require e found)
  unfolding TxKeeps
  require-TxKeeps e none = λ db b end h. absurd (cc h)
  require-TxKeeps e (some a) = pure-TxKeeps a

  pub expect-TxKeeps {ℓ} : {A : Type ℓ} (found : Option A) → TxKeeps o (expect found)
  unfolding TxKeeps
  expect-TxKeeps none = λ db b end h. absurd (cc h)
  expect-TxKeeps (some a) = pure-TxKeeps a

  pub find_credential-TxKeeps : (id : ℕ) → TxKeeps o (find_credential id)
  unfolding find_credential TxKeeps
  find_credential-TxKeeps id db = require-TxKeeps _ (load_credential id db) db

  pub load_existing-TxKeeps : (id : ℕ) → TxKeeps o (load_existing id)
  unfolding load_existing TxKeeps
  load_existing-TxKeeps id db = expect-TxKeeps (load_credential id db) db

  pub check_workspace-TxKeeps : (to : Option ℕ) (org : ℕ) → TxKeeps o (check_workspace to org)
  unfolding TxKeeps
  check_workspace-TxKeeps none org = pure-TxKeeps tt
  check_workspace-TxKeeps (some id) org = λ db a end h.
      elim (Bool-cases (workspace_in_org db id org)) [
        | inl e ↦ pure-TxKeeps tt db a end (rw e at h)
        | inr e ↦ absurd (cc (rw e at h))
      ]

  pub plaintext_of-TxKeeps :
      (lib : CryptoLib) (found : Option CredentialRecord) → TxKeeps o (plaintext_of lib found)
  unfolding plaintext_of
  plaintext_of-TxKeeps lib found = bind-TxKeeps o _ _ (require-TxKeeps _ found) λ cred.
      bind-TxKeeps o _ _ (require-TxKeeps _ cred.current_version_id) λ version.
        bind-TxKeeps o _ _ (gets-TxKeeps _) λ secrets.
          bind-TxKeeps o _ _ (require-TxKeeps _ _)
            λ row. bind-TxKeeps o _ _ (require-TxKeeps _ _) λ plain. pure-TxKeeps _

  pub version_status-TxKeeps :
      (test : Version → Bool) (to : VersionStatus) → TxKeeps o (modify (set_version_status test to))
  unfolding Keeps set_version_status
  version_status-TxKeeps test to = modify-TxKeeps (set_version_status test to) λ db id apart. refl

pub update-TxKeeps :
    (id : ℕ) (f : Credential → Credential)
    → ((c : Credential) → (f c).id ≡ c.id)
    → TxKeeps (some id) (modify (update_credential id f))
update-TxKeeps id f keep =
    modify-TxKeeps (some id) (update_credential id f) λ db. update-Keeps id f db keep

pub delete_rows-Keeps : (id : ℕ) (db : Db) → Keeps (some id) db (delete_rows id db)
unfolding Keeps delete_rows
delete_rows-Keeps id db other apart =
    find?-filter_other (has_id id) (has_id other) db.credentials λ c e. other_id id other c apart e

pub remove_rows-TxKeeps :
    (now id : ℕ) (is_hard : Bool) → TxKeeps (some id) (modify (remove_rows now id is_hard))
remove_rows-TxKeeps now id true =
    modify-TxKeeps (some id) (remove_rows now id true) (delete_rows-Keeps id)
remove_rows-TxKeeps now id false = update-TxKeeps id _ λ c. refl
