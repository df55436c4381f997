-- ===== src/Policy/Approval/Isolation.antt =====
-- What a decision on an approval request changes, and for whom.
use mathlib.Core.List.{Memᴰ}
use mathlib.Core.Path.{subst}
use securestore.Credential.Types.{Credential}
use securestore.Credential.Queries.{has_id}
use securestore.Common.{
  if◌then◌else◌, ◌⊎◌, sym, and_both, find?_sound, ℕ, String, Option, some, find?, any, includes,
  any_of_mem, mem_of_any, nat_beq_iff, nat_eq, ◌∙◌, List, [], ◌∷◌, Bool, true, false, ◌&&◌, nat_beq,
  filter, not, update_where, ◌≡◌, refl, ap, arith, inl, inr, Bool-cases,
}
use securestore.Policy.Types.{ApprovalRequest, approved, denied}
use securestore.Policy.Approval.{
  credential_in_org, is_approval_of, get_approval_status, decided, decide_approval,
}
use securestore.Database.{Db, ok, err, foreign_key_violation}
use securestore.Database.Steps.{find?-update_where, map_some, ok-state}

-- A request with a decision written into it.
pub record IsDecided (now decided_by : ℕ) (approve : Bool) (why : Option String)
    (before after : ApprovalRequest) : Type 0 where
  pub answer : after.status ≡ (if approve then approved else denied)
  pub by_whom : after.decided_by ≡ some decided_by
  pub when : after.decided_at ≡ some now
  pub given_reason : after.reason ≡ why
  pub same_request :
      (after.id ≡ before.id)
      × (after.credential_id ≡ before.credential_id)
      × (after.agent_id ≡ before.agent_id)
      × (after.operation ≡ before.operation)
      × (after.requested_at ≡ before.requested_at)

decided-IsDecided :
    (now decided_by : ℕ) (approve : Bool) (why : Option String) (r : ApprovalRequest)
    → IsDecided now decided_by approve why r (decided now decided_by approve why r)
decided-IsDecided now decided_by approve why r = record {
  answer = refl;
  by_whom = refl;
  when = refl;
  given_reason = refl;
  same_request = (refl, refl, refl, refl, refl);
}

any_of_find? :
    (p : ApprovalRequest → Bool) (xs : List ApprovalRequest) {x : ApprovalRequest}
    → find? p xs ≡ some x
    → any p xs ≡ true
any_of_find? p [] h = absurd (cc h)
any_of_find? p (x ∷ xs) h = elim (Bool-cases (p x)) [
  | inl e ↦ rw e refl
  | inr e ↦ ground (arith, any_of_find? p xs (rw e at h))
]

a_user : (by : ℕ) (users : List ℕ) → includes users by ≡ true → Memᴰ by users
a_user by users h =
    let (x, m, same) = mem_of_any (λ x. nat_beq x by) users h in
    subst (λ y. Memᴰ y users) ((nat_beq_iff x by).0 same) m

no_user : (by : ℕ) (users : List ℕ) → includes users by ≡ false → ¬ Memᴰ by users
no_user by users h m =
    cc (sym (any_of_mem (λ x. nat_beq x by) by users m ((nat_beq_iff by by).1 refl)) ∙ h)

-- The request is for a credential of the organization.
pub record IsRequestOf (org_id approval_id : ℕ) (db : Db) (r : ApprovalRequest) : Type 0 where
  pub same_id : r.id ≡ approval_id
  pub credential : Credential
  pub is_there : Memᴰ credential db.credentials
  pub of_credential : credential.id ≡ r.credential_id
  pub of_org : credential.org_id ≡ org_id

approval-IsRequestOf :
    (org_id approval_id : ℕ) (db : Db) (r : ApprovalRequest)
    → is_approval_of db org_id approval_id r ≡ true
    → IsRequestOf org_id approval_id db r
approval-IsRequestOf org_id approval_id db r h =
    let (its_id, its_org) = and_both (nat_beq r.id approval_id) _ h in
    let (c, m, e) =
      mem_of_any (λ c. has_id r.credential_id c && nat_beq c.org_id org_id) db.credentials
        its_org in
    let (own, home) = and_both (has_id r.credential_id c) _ e in
    record {
      same_id = (nat_beq_iff r.id approval_id).0 its_id;
      credential = c;
      is_there = m;
      of_credential = (nat_beq_iff c.id r.credential_id).0 own;
      of_org = (nat_beq_iff c.org_id org_id).0 home;
    }

-- A request that `getApprovalStatus` finds has the id asked for and is for a credential of the
-- organization. A decision on it by a user writes the answer, the decider, the time and the reason
-- into it and returns it, and `getApprovalStatus` then finds it so. A decision by anyone who is not
-- a user, such as an agent, violates the foreign key.
pub decide_approval-get_approval_status :
    (now org_id approval_id decided_by : ℕ) (approve : Bool) (why : Option String) (db : Db)
    (r : ApprovalRequest)
    → get_approval_status org_id approval_id db ≡ some r
    → IsRequestOf org_id approval_id db r
      × ((Memᴰ decided_by db.users
            × (after : ApprovalRequest) × (next : Db) × (decide_approval now org_id approval_id
                  decided_by approve why db
                ≡ ok (some after, next))
            × IsDecided now decided_by approve why r after
            × (get_approval_status org_id approval_id next ≡ some after))
          ⊎ ((¬ Memᴰ decided_by db.users)
              × (decide_approval now org_id approval_id decided_by approve why db
                  ≡ err foreign_key_violation)))
unfolding decide_approval get_approval_status
decide_approval-get_approval_status now org_id approval_id decided_by approve why db r there =
    let mine = is_approval_of db org_id approval_id in
    let set = decided now decided_by approve why in
    let one = any_of_find? mine db.approvals there in
    let row = find?-update_where mine set db.approvals (λ ar. refl) ∙ ap (map_some set) there in
    (
      approval-IsRequestOf org_id approval_id db r (find?_sound mine db.approvals there),
      elim (Bool-cases (includes db.users decided_by)) [
        | inl known ↦ inl (
          a_user decided_by db.users known,
          set r,
          record db { approvals = update_where mine set db.approvals },
          rw (one, known, row) refl,
          decided-IsDecided now decided_by approve why r,
          row,
        )
        | inr stranger ↦ inr (no_user decided_by db.users stranger, rw (one, stranger) refl)
      ],
    )

not_in : (a b : Bool) → (a && b) ≡ true → not b ≡ false
not_in a b h = ground arith

untouched :
    (p q : ApprovalRequest → Bool) (set : ApprovalRequest → ApprovalRequest)
    (rows : List ApprovalRequest)
    → ((ar : ApprovalRequest) → p ar ≡ true → q ar ≡ false)
    → ((ar : ApprovalRequest) → p ar ≡ true → q (set ar) ≡ false)
    → filter q (update_where p set rows) ≡ filter q rows
untouched p q set [] f g = refl
untouched p q set (ar ∷ rows) f g = elim (Bool-cases (p ar)) [
  | inl e ↦ rw (e, f ar e, g ar e) (untouched p q set rows f g)
  | inr e ↦ elim (Bool-cases (q ar)) [
    | inl k ↦ rw (e, k) (ap (λ (l : List ApprovalRequest). ar ∷ l) (untouched p q set rows f g))
    | inr k ↦ rw (e, k) (untouched p q set rows f g)
  ]
]

-- A decision for one organization leaves every approval request whose credential is not of that
-- organization as it was.
pub decide_approval_other_org :
    (now org_id approval_id decided_by : ℕ) (approve : Bool) (why : Option String) (db : Db)
    {found : Option ApprovalRequest} {next : Db}
    → decide_approval now org_id approval_id decided_by approve why db ≡ ok (found, next)
    → filter (λ ar. not (credential_in_org db org_id ar.credential_id)) next.approvals
      ≡ filter (λ ar. not (credential_in_org db org_id ar.credential_id)) db.approvals
unfolding decide_approval
decide_approval_other_org now org_id approval_id decided_by approve why db h =
    elim (Bool-cases (
      any (is_approval_of db org_id approval_id) db.approvals
      && not (includes db.users decided_by))) [
        | inl e ↦ absurd (cc (rw e at h))
        | inr e ↦ rw (← (ok-state (rw e at h)).1) (
            untouched (is_approval_of db org_id approval_id) _ (decided now decided_by approve why)
              db.approvals
              (λ ar k.
                not_in (nat_beq ar.id approval_id) (credential_in_org db org_id ar.credential_id) k)
              (λ ar k.
                not_in (nat_beq ar.id approval_id) (credential_in_org db org_id ar.credential_id)
                  k))
      ]
