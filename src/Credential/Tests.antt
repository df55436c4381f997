-- ===== src/Credential/Tests.antt =====
-- Runs of the operations, and the theorems at concrete inputs.
use securestore.Common.{
  ℕ, Option, none, some, List, [], ◌∷◌, Bool, true, false, ◌≡◌, refl, codes, lookup, insert,
}
use securestore.Crypto.{
  encrypt_secret, decrypt_secret, fingerprint_secret, normalize_secret_for_fingerprint,
}
use securestore.Credential.Types.{CredentialStatus-discrete}
use securestore.Credential.Metadata.{field_value, build_metadata, merge_metadata}
use securestore.Credential.Queries.{
  load_credential, update_credential, set_version_status, insert_credential, insert_version_row,
  insert_secret, insert_fingerprint, max_version,
}
use securestore.Credential.Versions.{StoreCredentialInput, date_of, insert_version}
use securestore.Credential.Store.{
  StoreResult, store_credential, store_transaction, find_rotation_candidate, store_keyed,
  store_unkeyed, store_new, fingerprint_of, reuse_credential, rotate_internal, create_credential,
  new_credential, merge_incoming_metadata, touch_last_used, load_existing,
}
use securestore.Credential.Lifecycle.{
  reveal_secret, reveal_transaction, plaintext_of, SessionContext,
}
use securestore.Credential.Recall.{reveal-store}
use securestore.Credential.Dedup.{store_transaction_twice}
use securestore.Common.{◌||◌}
use securestore.Credential.Stored.{IsStored, new_secret}
use securestore.Credential.Revocation.{reveal_after_revoke}
use securestore.Credential.Text.{same_text}
use securestore.Credential.Deletion.{delete-IsDeleted, IsDeleted}
use securestore.Credential.Lifecycle.{find_credential, revoke_credential, delete_credential}
use securestore.Credential.Metadata.Merge.{MergesTo, lookup-merge, merge-IsNoWeaker, IsNoWeaker}
use securestore.Common.{UniqueKeys, string_eq}
use securestore.Crypto.Roundtrip.{decrypt-encrypt}
use securestore.Credential.Types.{utf8, MetadataField}
use securestore.Credential.Types.{CredentialMetadata}
use securestore.Credential.Samples.{toy_lib, toy_lib-IsFaithful, env_at, input_with, declared}
use securestore.Database.{
  Db, empty, Result, ok, err, ◌>>=◌, with_transaction, record_audit, publish,
}

vault : Unit {0}
unfolding encrypt_secret decrypt_secret fingerprint_secret normalize_secret_for_fingerprint
    CredentialStatus-discrete same_text field_value build_metadata merge_metadata load_credential
    update_credential set_version_status insert_credential insert_version_row insert_secret
    insert_fingerprint max_version date_of insert_version store_credential store_transaction
    find_rotation_candidate store_keyed store_unkeyed store_new fingerprint_of reuse_credential
    rotate_internal create_credential new_credential merge_incoming_metadata touch_last_used
    load_existing reveal_secret reveal_transaction plaintext_of find_credential revoke_credential
    delete_credential ◌>>=◌ with_transaction record_audit publish lookup insert
vault = tt

abbrev outcome : Result StoreResult × Db → Option (ℕ × Bool × Bool)
outcome r = elim r.0 [ ok s ↦ some (s.credential.id, s.created, s.rotated) | err e ↦ none ]

abbrev revealed : Result (List ℕ) × Db → Option (List ℕ)
revealed r = elim r.0 [ ok s ↦ some s | err e ↦ none ]

abbrev no_session : SessionContext
no_session = record { session_id = none; mcp_transport = none; source_network = none }

first : Result StoreResult × Db
first =
    store_credential toy_lib (env_at 1)
      (input_with " ghp_a " (("accountIdentifier", declared "bot") ∷ [])) empty

again : Result StoreResult × Db
again = store_credential toy_lib (env_at 2) (input_with "ghp_a" []) first.1

rotated : Result StoreResult × Db
rotated =
    store_credential toy_lib (env_at 3) (input_with "ghp_b" (("username", declared "bot") ∷ []))
      again.1

store_runs :
    (outcome first ≡ some (101, true, false))
    × (outcome again ≡ some (101, false, false))
    × (outcome rotated ≡ some (101, false, true))
    × (revealed (reveal_secret toy_lib 5 101 5 no_session again.1) ≡ some (codes " ghp_a "))
    × (revealed (reveal_secret toy_lib 5 101 5 no_session rotated.1) ≡ some (codes "ghp_b"))
unfolding vault first again rotated
store_runs = (refl, refl, refl, refl, refl)

two_fields : CredentialMetadata
two_fields = ("scope", declared "repo") ∷ ("username", declared "bot") ∷ []

two_fields-UniqueKeys : UniqueKeys two_fields
unfolding vault two_fields
two_fields-UniqueKeys = (refl, (refl, tt))

-- The update has a field at "scope" that is no weaker than the one there.
lookup-merge_example :
    MergesTo "scope" (some (record (declared "all") { confidence = 20 })) (some (declared "repo")) (
      lookup "scope"
        (merge_metadata (("scope", record (declared "all") { confidence = 20 }) ∷ []) two_fields))
unfolding vault two_fields
lookup-merge_example =
    lookup-merge (("scope", record (declared "all") { confidence = 20 }) ∷ []) two_fields "scope"
      two_fields-UniqueKeys

reveal-store_example : (reveal_secret toy_lib 5 101 5 no_session first.1).0 ≡ ok (codes " ghp_a ")
unfolding vault first
reveal-store_example =
    reveal-store toy_lib (env_at 1)
      (input_with " ghp_a " (("accountIdentifier", declared "bot") ∷ [])) empty _ _ 5 5 no_session
      toy_lib-IsFaithful refl refl

known : CredentialMetadata
known = ("scope", record (declared "all") { confidence = 95; verified = true }) ∷ []

merge-IsNoWeaker_example :
    (after : MetadataField) × (lookup "scope" (merge_metadata known two_fields) ≡ some after)
    × IsNoWeaker (record (declared "all") { confidence = 95; verified = true }) after
unfolding vault two_fields known
merge-IsNoWeaker_example =
    merge-IsNoWeaker known two_fields "scope"
      (record (declared "all") { confidence = 95; verified = true }) two_fields-UniqueKeys refl

decrypt-encrypt_example :
    decrypt_secret toy_lib (encrypt_secret toy_lib (7 ∷ []) (9 ∷ []) (codes "ghp_a") utf8)
    ≡ some (codes "ghp_a")
decrypt-encrypt_example =
    decrypt-encrypt toy_lib (7 ∷ []) (9 ∷ []) (codes "ghp_a") utf8 toy_lib-IsFaithful

-- The secret of the first call.
abbrev first_input : StoreCredentialInput
first_input = input_with " ghp_a " (("accountIdentifier", declared "bot") ∷ [])

delete-IsDeleted_example :
    (next : Db) × (delete_credential 9 101 5 true first.1 ≡ ok (tt, next))
    × IsDeleted 101 first.1 next
unfolding vault first
delete-IsDeleted_example = delete-IsDeleted 9 101 5 first.1 _ refl

first-IsStored :
    IsStored 101 201
      (record {
        version_id = 201;
        encrypted = (new_secret toy_lib (env_at 1) first_input).encrypted;
      })
      first.1
unfolding vault first
first-IsStored = record { row = _; found = refl; current = refl; secret = refl }

after_revocation : Result (Unit {0}) × Db
after_revocation = with_transaction (revoke_credential 9 101 5 none) first.1

reveal_after_revoke_example :
    (reveal_secret toy_lib 9 101 5 no_session after_revocation.1).0 ≡ ok (codes " ghp_a ")
unfolding vault first after_revocation
reveal_after_revoke_example =
    reveal_after_revoke toy_lib (env_at 1) first_input 9 101 201 5 none no_session first.1
      toy_lib-IsFaithful first-IsStored refl

store_transaction_twice_example : (false || false) ≡ false
unfolding vault first again
store_transaction_twice_example =
    store_transaction_twice toy_lib (env_at 1) (env_at 2) first_input (input_with "ghp_a" []) empty
      _ _ first.1 again.1 refl refl refl refl
