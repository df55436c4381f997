-- ===== src/Sweep/Idempotence.antt =====
-- What a sweep leaves, and that a second one at the same time changes nothing.
use securestore.Common.{
  ℕ, String, List, [], ◌∷◌, Bool, true, false, filter, update_where, All, All-update_where, ◌≡◌,
  refl, ap, ◌∙◌, inl, inr, Bool-cases,
}
use securestore.Credential.Types.{CredentialStatus, expiring, expired, Credential}
use securestore.Sweep.{
  is_expiring, is_overdue, announce, announce_all, flag_rows, flag_expiring, flag_expired,
  run_expiry_sweep,
}
use securestore.Database.{Db, EventType, record_audit, publish}

announce_all-tables :
    (operation : String) (event_type : EventType) (rows : List Credential) (db : Db)
    → ((announce_all operation event_type rows db).credentials ≡ db.credentials)
      × ((announce_all operation event_type rows db).versions ≡ db.versions)
unfolding announce_all announce record_audit publish
announce_all-tables operation event_type [] db = (refl, refl)
announce_all-tables operation event_type (row ∷ rows) db =
    announce_all-tables operation event_type rows (announce operation event_type row db)

flag_rows-tables :
    (due : Credential → Bool) (now : ℕ) (status : CredentialStatus) (operation : String)
    (event_type : EventType) (db : Db)
    → ((flag_rows due now status operation event_type db).credentials
        ≡ update_where due (λ c. record c { status = status; updated_at = now }) db.credentials)
      × ((flag_rows due now status operation event_type db).versions ≡ db.versions)
unfolding flag_rows
flag_rows-tables due now status operation event_type db =
    announce_all-tables operation event_type (filter due db.credentials) _

-- An UPDATE for which no row is due.
none_due :
    (due : Credential → Bool) (set : Credential → Credential) (cs : List Credential)
    → All (λ c. due c ≡ false) cs
    → (update_where due set cs ≡ cs) × (filter due cs ≡ [])
none_due due set [] h = (refl, refl)
none_due due set (c ∷ cs) h =
    let rest = none_due due set cs h.1 in
    rw (h.0) (ap (λ (l : List Credential). c ∷ l) rest.0, rest.1)

flag_rows-none :
    (due : Credential → Bool) (now : ℕ) (status : CredentialStatus) (operation : String)
    (event_type : EventType) (db : Db)
    → All (λ c. due c ≡ false) db.credentials
    → flag_rows due now status operation event_type db ≡ db
unfolding flag_rows announce_all
flag_rows-none due now status operation event_type db h =
    let (same, empty) =
      none_due due (λ c. record c { status = status; updated_at = now }) db.credentials h in
    rw (empty, same) refl

-- After an UPDATE that takes each due row out of `test`, and leaves the rest of it.
All-update :
    (due test : Credential → Bool) (set : Credential → Credential) (cs : List Credential)
    → ((c : Credential) → due c ≡ true → test (set c) ≡ false)
    → ((c : Credential) → due c ≡ false → test c ≡ false)
    → All (λ c. test c ≡ false) (update_where due set cs)
All-update due test set [] f g = tt
All-update due test set (c ∷ cs) f g = elim (Bool-cases (due c)) [
  | inl e ↦ rw e (f c e, All-update due test set cs f g)
  | inr e ↦ rw e (g c e, All-update due test set cs f g)
]

-- No credential is left to be flagged.
pub record IsSwept (now window : ℕ) (db : Db) : Type 0 where
  pub expiring : All (λ c. is_expiring now window db.versions c ≡ false) db.credentials
  pub overdue : All (λ c. is_overdue now db.versions c ≡ false) db.credentials

pub run_expiry_sweep-IsSwept :
    (now window : ℕ) (db : Db) → IsSwept now window (run_expiry_sweep true now window db)
unfolding run_expiry_sweep flag_expiring flag_expired
run_expiry_sweep-IsSwept now window db =
    let due = is_expiring now window db.versions in
    let first =
      flag_rows-tables due now expiring "credential_expiring" EventType.credential_expiring db in
    let middle = flag_expiring now window db in
    let late = is_overdue now middle.versions in
    let second =
      flag_rows-tables late now expired "credential_expired" EventType.credential_expired middle in
    let once : All (λ c. due c ≡ false) middle.credentials =
      rw (first.0) (All-update due due _ db.credentials (λ c e. refl) (λ c e. e)) in
    record {
      expiring =
          rw (second.1, second.0, first.1)
            (All-update_where (λ c. due c ≡ false) (is_overdue now db.versions) _ middle.credentials
              (λ c e k. refl) once);
      overdue =
          rw (second.1, second.0)
            (All-update late late _ middle.credentials (λ c e. refl) (λ c e. e));
    }

-- A second sweep at the same time changes no table: it flags nothing and adds no audit entry and
-- no event.
pub run_expiry_sweep_twice :
    (now window : ℕ) (db : Db)
    → run_expiry_sweep true now window (run_expiry_sweep true now window db)
      ≡ run_expiry_sweep true now window db
unfolding run_expiry_sweep flag_expiring flag_expired
run_expiry_sweep_twice now window db =
    let after = run_expiry_sweep true now window db in
    let swept = run_expiry_sweep-IsSwept now window db in
    let still : flag_expiring now window after ≡ after =
      flag_rows-none _ now expiring "credential_expiring" EventType.credential_expiring after
        swept.expiring in
    let done : flag_expired now after ≡ after =
      flag_rows-none _ now expired "credential_expired" EventType.credential_expired after
        swept.overdue in
    ap (flag_expired now) still ∙ done
