-- ===== src/Credential/Extent/Operations.antt =====
-- The operations of Credential.Lifecycle change no row but the one that they name.
use mathlib.Core.Option.{some-injective}
use securestore.Common.{
  ℕ, String, Option, none, some, Bool, find?, find?_sound, ◌≡◌, refl, ap, ◌∙◌, inl, inr,
  Option-cases, nat_beq_iff,
}
use securestore.Crypto.{CryptoLib}
use securestore.Credential.Types.{
  CredentialRecord, CredentialMetadata, EnrichmentStatus, SharingPolicy,
}
use securestore.Credential.Queries.{has_id, load_credential}
use securestore.Credential.Store.{touch_last_used}
use securestore.Credential.Lifecycle.{
  SessionContext, reveal_transaction, update_metadata, mark_found, mark_validation,
  revoke_credential, delete_credential, claim_credential, share_credential, transfer_ownership,
}
use securestore.Database.{Db, Ownership}
use securestore.Database.Steps.{on_ok, ok-state}
use securestore.Credential.Extent.{
  TxKeeps, bind-TxKeeps, gets-TxKeeps, pure-TxKeeps, plaintext_of-TxKeeps, update-TxKeeps,
  record_audit-TxKeeps, publish-TxKeeps, load_existing-TxKeeps, find_credential-TxKeeps,
  version_status-TxKeeps, remove_rows-TxKeeps, check_workspace-TxKeeps,
}

-- The row that was loaded.
pub load_credential-row :
    (id : ℕ) (db : Db) {c : CredentialRecord}
    → load_credential id db ≡ some c
    → find? (has_id id) db.credentials ≡ some c.row
unfolding load_credential
load_credential-row id db h = elim (Option-cases (find? (has_id id) db.credentials)) [
  | inl e ↦ absurd (cc (rw (e, load_credential) at h))
  | inr (r, e) ↦ e ∙ ap (λ c. some c.row) (some-injective _ _ (rw (e, load_credential) at h))
]

pub load_credential-id :
    (id : ℕ) (db : Db) {c : CredentialRecord} → load_credential id db ≡ some c → c.id ≡ id
load_credential-id id db {c} h =
    let found = find?_sound (has_id id) db.credentials (load_credential-row id db h) in
    (nat_beq_iff c.id id).0 found

module _ (now id agent_id : ℕ) where
  pub reveal-TxKeeps :
      (lib : CryptoLib) (session : SessionContext)
      → TxKeeps (some id) (reveal_transaction lib now id agent_id session)
  unfolding reveal_transaction touch_last_used
  reveal-TxKeeps lib session = bind-TxKeeps (some id) _ _ (gets-TxKeeps (some id) _) λ found.
      bind-TxKeeps (some id) _ _ (plaintext_of-TxKeeps (some id) lib found) λ revealed.
        bind-TxKeeps (some id) _ _ (update-TxKeeps id _ λ c. refl) λ u1.
          bind-TxKeeps (some id) _ _ (record_audit-TxKeeps (some id) _) λ u2.
            bind-TxKeeps (some id) _ _ (publish-TxKeeps (some id) _ _ _ _ _ _)
              λ u3. pure-TxKeeps (some id) _

  pub update_metadata-TxKeeps :
      (fields : CredentialMetadata) (to : Option EnrichmentStatus)
      → TxKeeps (some id) (update_metadata now id agent_id fields to)
  unfolding update_metadata
  update_metadata-TxKeeps fields to =
      bind-TxKeeps (some id) _ _ (load_existing-TxKeeps (some id) id) λ existing.
        bind-TxKeeps (some id) _ _ (update-TxKeeps id _ λ c. refl) λ u1.
          bind-TxKeeps (some id) _ _ (record_audit-TxKeeps (some id) _) λ u2.
            bind-TxKeeps (some id) _ _ (publish-TxKeeps (some id) _ _ _ _ _ _)
              λ u3. load_existing-TxKeeps (some id) id

  pub revoke-TxKeeps :
      (why : Option String) → TxKeeps (some id) (revoke_credential now id agent_id why)
  unfolding revoke_credential
  revoke-TxKeeps why = bind-TxKeeps (some id) _ _ (find_credential-TxKeeps (some id) id) λ cred.
      bind-TxKeeps (some id) _ _ (update-TxKeeps id _ λ c. refl) λ u1.
        bind-TxKeeps (some id) _ _ (version_status-TxKeeps (some id) _ _) λ u2.
          bind-TxKeeps (some id) _ _ (record_audit-TxKeeps (some id) _)
            λ u3. publish-TxKeeps (some id) _ _ _ _ _ _

  pub delete-TxKeeps :
      (is_hard : Bool) → TxKeeps (some id) (delete_credential now id agent_id is_hard)
  unfolding delete_credential
  delete-TxKeeps is_hard = bind-TxKeeps (some id) _ _ (find_credential-TxKeeps (some id) id) λ cred.
      bind-TxKeeps (some id) _ _ (remove_rows-TxKeeps now id is_hard) λ u1.
        bind-TxKeeps (some id) _ _ (record_audit-TxKeeps (some id) _)
          λ u2. publish-TxKeeps (some id) _ _ _ _ _ _

  pub claim-TxKeeps : TxKeeps (some id) (claim_credential now id agent_id)
  unfolding claim_credential
  claim-TxKeeps = bind-TxKeeps (some id) _ _ (update-TxKeeps id _ λ c. refl) λ u1.
      bind-TxKeeps (some id) _ _ (load_existing-TxKeeps (some id) id) λ cred.
        bind-TxKeeps (some id) _ _ (record_audit-TxKeeps (some id) _) λ u2. pure-TxKeeps (some id) _

  pub share-TxKeeps :
      (policy : SharingPolicy) → TxKeeps (some id) (share_credential now id agent_id policy)
  unfolding share_credential
  share-TxKeeps policy = bind-TxKeeps (some id) _ _ (update-TxKeeps id _ λ c. refl) λ u1.
      bind-TxKeeps (some id) _ _ (load_existing-TxKeeps (some id) id) λ cred.
        bind-TxKeeps (some id) _ _ (record_audit-TxKeeps (some id) _) λ u2.
          bind-TxKeeps (some id) _ _ (publish-TxKeeps (some id) _ _ _ _ _ _)
            λ u3. pure-TxKeeps (some id) _

  pub transfer-TxKeeps :
      (to : Ownership) → TxKeeps (some id) (transfer_ownership now id agent_id to)
  unfolding transfer_ownership
  transfer-TxKeeps to = bind-TxKeeps (some id) _ _ (find_credential-TxKeeps (some id) id) λ before.
      bind-TxKeeps (some id) _ _ (check_workspace-TxKeeps (some id) _ _) λ u0.
        bind-TxKeeps (some id) _ _ (update-TxKeeps id _ λ c. refl) λ u1.
          bind-TxKeeps (some id) _ _ (load_existing-TxKeeps (some id) id) λ after.
            bind-TxKeeps (some id) _ _ (record_audit-TxKeeps (some id) _) λ u2.
              bind-TxKeeps (some id) _ _ (publish-TxKeeps (some id) _ _ _ _ _ _)
                λ u3. pure-TxKeeps (some id) _

  mark_found-TxKeeps :
      (is_valid : Bool) (text : String) (found : Option CredentialRecord)
      → ((c : CredentialRecord) → found ≡ some c → c.id ≡ id)
      → TxKeeps (some id) (mark_found now (some agent_id) is_valid text found)
  unfolding mark_found
  mark_found-TxKeeps is_valid text none same = pure-TxKeeps (some id) _
  mark_found-TxKeeps is_valid text (some cred) same =
      let own = same cred refl in
      bind-TxKeeps (some id) _ _ (rw (← own) (update-TxKeeps cred.id _ λ c. refl)) λ u1.
        bind-TxKeeps (some id) _ _ (record_audit-TxKeeps (some id) _)
          λ u2. publish-TxKeeps (some id) _ _ _ _ _ _

  pub mark_validation-TxKeeps :
      (is_valid : Bool) (text : String)
      → TxKeeps (some id) (mark_validation now id (some agent_id) is_valid text)
  unfolding mark_validation TxKeeps
  mark_validation-TxKeeps is_valid text db a end h = on_ok _ _ db h λ found mid e k.
      let (same, still) = ok-state e in
      mark_found-TxKeeps is_valid text found (λ c own. load_credential-id id db (same ∙ own)) db a
        end (rw still k)
