-- ===== src/Credential/Revocation.antt =====
-- What `revokeCredential` changes, and what it leaves.
use securestore.Common.{
  ℕ, String, Option, some, List, [], ◌∷◌, ◌++◌, Bool, true, false, not, nat_beq_iff, find?_sound,
  ◌≡◌, ◌≢◌, ◌⊎◌, refl, ap, arith, find?, filter, All, update_where, Bool-cases, inl, inr,
}
use securestore.Crypto.{CryptoLib, IsFaithful}
use securestore.Credential.Types.{
  Credential, CredentialRecord, revoked, Version, VersionStatus, Secret,
}
use securestore.Credential.Queries.{has_id, row_to_credential, load_credential, set_version_status}
use securestore.Credential.Versions.{Env, StoreCredentialInput}
use securestore.Credential.Lifecycle.{
  find_credential, revoke_credential, SessionContext, reveal_secret,
}
use securestore.Credential.Stored.{
  IsStored, IsStored-update, IsStored-audit, IsStored-publish, new_secret, reveal_stored,
}
use securestore.Database.{Db, ok, AuditEntry, Event, credential_revoked}
use securestore.Database.Steps.{on_ok, ok-state}

-- What a revocation of the credential `id` makes of a version: the active versions of that
-- credential are revoked, all other versions stay as they were.
pub RevokesVersion : ℕ → (before after : Version) → Type 0
RevokesVersion id before after =
    ((before.credential_id ≡ id)
      × (before.status ≡ VersionStatus.active)
      × (after ≡ record before { status = VersionStatus.revoked }))
    ⊎ (((before.credential_id ≢ id) ⊎ (before.status ≢ VersionStatus.active)) × (after ≡ before))

-- Version by version.
pub RevokesVersions : ℕ → List Version → List Version → Type 0
RevokesVersions id [] [] = Unit
RevokesVersions id [] (u ∷ us) = ⊥
RevokesVersions id (v ∷ vs) [] = ⊥
RevokesVersions id (v ∷ vs) (u ∷ us) = RevokesVersion id v u × RevokesVersions id vs us

-- The state after a revocation of `id`.
pub record IsRevoked (id : ℕ) (before after : Db) : Type 0 where
  pub status : All (λ c. has_id id c ≡ true → c.status ≡ revoked) after.credentials
  pub others :
      filter (λ c. not (has_id id c)) after.credentials
      ≡ filter (λ c. not (has_id id c)) before.credentials
  pub versions : RevokesVersions id before.versions after.versions
  pub audited :
      (entry : AuditEntry) × (after.audit_log ≡ before.audit_log ++ entry ∷ [])
      × (entry.operation ≡ "secret_revoke")
      × (entry.credential_id ≡ some id)
  pub announced :
      (event : Event) × (after.events ≡ before.events ++ event ∷ [])
      × (event.event_type ≡ credential_revoked)
      × (event.credential_id ≡ some id)
  pub tables : after ≡ record before {
    credentials = after.credentials;
    versions = after.versions;
    audit_log = after.audit_log;
    events = after.events;
  }

find_credential-found :
    (id : ℕ) (db : Db) {c : CredentialRecord} {next : Db}
    → find_credential id db ≡ ok (c, next)
    → (next ≡ db) × (find? (has_id id) db.credentials ≡ some c.row)
unfolding find_credential load_credential
find_credential-found id db h = ground arith

pub find_credential-state :
    (id : ℕ) (db : Db) {c : CredentialRecord} {next : Db}
    → find_credential id db ≡ ok (c, next)
    → (next ≡ db) × (c.id ≡ id)
find_credential-state id db {c} h =
    let (same, found) = find_credential-found id db h in
    (same, (nat_beq_iff c.id id).0 (find?_sound (has_id id) db.credentials found))

is_active : VersionStatus → Bool
is_active s = elim s [ VersionStatus.active ↦ true | _ ↦ false ]

pub others_after :
    (id : ℕ) (set : Credential → Credential) (cs : List Credential)
    → ((c : Credential) → (set c).id ≡ c.id)
    → filter (λ c. not (has_id id c)) (update_where (has_id id) set cs)
      ≡ filter (λ c. not (has_id id c)) cs
others_after id set [] h = refl
others_after id set (c ∷ cs) h = elim (Bool-cases (has_id id c)) [
  | inl e ↦ rw (e, h c, e) (others_after id set cs h)
  | inr e ↦ rw (e, e) (ap (λ (l : List Credential). c ∷ l) (others_after id set cs h))
]

pub find_credential-returns :
    (id : ℕ) (db : Db) (c : Credential)
    → find? (has_id id) db.credentials ≡ some c
    → find_credential id db ≡ ok (row_to_credential c db.versions, db)
unfolding find_credential load_credential
find_credential-returns id db c there = ground (arith, there)

module _ (lib : CryptoLib) (env : Env) (input : StoreCredentialInput) where
  revoke-IsStored :
      (now id v agent_id : ℕ) (why : Option String) (db : Db) {u : Unit {0}} {next : Db}
      → IsStored id v
          (record { version_id = v; encrypted = (new_secret lib env input).encrypted })
          db
      → revoke_credential now id agent_id why db ≡ ok (u, next)
      → IsStored id v
          (record { version_id = v; encrypted = (new_secret lib env input).encrypted })
          next
  unfolding revoke_credential
  revoke-IsStored now id v agent_id why db stored h =
      let secret : Secret = record {
        version_id = v;
        encrypted = (new_secret lib env input).encrypted;
      } in
      on_ok _ _ db h λ cred db1 e1 h1. on_ok _ _ db1 h1 λ _ db2 e2 h2.
        on_ok _ _ db2 h2 λ _ db3 e3 h3. on_ok _ _ db3 h3 λ _ db4 e4 h4.
          let same = (find_credential-state id db e1).0 in
          let stored2 : IsStored id v secret db2 =
            rw (← (ok-state e2).1, same)
              (IsStored-update lib env id v secret db _ (λ c. refl) (λ c. refl) stored) in
          let stored3 : IsStored id v secret db3 = rw (← (ok-state e3).1) (
            unfold set_version_status in
            record {
              row = stored2.row;
              found = stored2.found;
              current = stored2.current;
              secret = stored2.secret;
            }) in
          let stored4 : IsStored id v secret db4 =
            rw (← (ok-state e4).1) (IsStored-audit lib env id v secret db3 _ stored3) in
          rw (← (ok-state h4).1) (IsStored-publish lib env id v secret db4 _ _ _ _ _ _ stored4)

  -- A revocation does not stop `revealSecret`: for a credential whose current secret is the one
  -- of a store, it returns that secret after a revocation that succeeded, as it did before.
  pub reveal_after_revoke :
      (now id v agent_id : ℕ) (why : Option String) (session : SessionContext) (db : Db)
      {u : Unit {0}} {next : Db}
      → IsFaithful lib
      → IsStored id v
          (record { version_id = v; encrypted = (new_secret lib env input).encrypted })
          db
      → revoke_credential now id agent_id why db ≡ ok (u, next)
      → (reveal_secret lib now id agent_id session next).0 ≡ ok input.secret_value
  reveal_after_revoke now id v agent_id why session db {next = next} f stored h =
      reveal_stored lib env now id v agent_id input session next f
        (revoke-IsStored now id v agent_id why db stored h)
