-- ===== src/Credential/Search/Isolation.antt =====
-- Whose credentials a search finds, and how many.
use securestore.Common.{
  ℕ, zero, suc, ◌≤◌, String, List, [], ◌∷◌, Bool, true, false, not, ◌&&◌, leb, min, or_else, filter,
  take, map, length, ◌≡◌, arith, All, All-filter, Bool-cases, inl, inr,
}
use securestore.Credential.Types.{Credential, CredentialRecord, Version}
use securestore.Credential.Queries.{row_to_credential}
use securestore.Credential.Search.{
  VisibleTo, FindCredentialsQuery, is_deleted, insert_by_update, order_by_update, is_found,
  find_credentials,
}
use securestore.Visibility.{visibility_where_clause}
use securestore.Database.{Db}

All-insert_by_update :
    (P : Credential → Type 0) (c : Credential) (cs : List Credential)
    → P c
    → All P cs
    → All P (insert_by_update c cs)
unfolding insert_by_update
All-insert_by_update P c [] h k = (h, tt)
All-insert_by_update P c (d ∷ ds) h k = elim (Bool-cases (leb d.updated_at c.updated_at)) [
  | inl e ↦ rw e (h, k)
  | inr e ↦ rw e (k.0, All-insert_by_update P c ds h k.1)
]

All-order_by_update :
    (P : Credential → Type 0) (cs : List Credential) → All P cs → All P (order_by_update cs)
unfolding order_by_update
All-order_by_update P [] h = tt
All-order_by_update P (c ∷ cs) h =
    All-insert_by_update P c (order_by_update cs) h.0 (All-order_by_update P cs h.1)

All-take : (P : Credential → Type 0) (n : ℕ) (cs : List Credential) → All P cs → All P (take n cs)
All-take P zero cs h = tt
All-take P (suc n) [] h = tt
All-take P (suc n) (c ∷ cs) h = (h.0, All-take P n cs h.1)

All-map :
    (P : Credential → Type 0) (versions : List Version) (cs : List Credential)
    → All P cs
    → All (λ (r : CredentialRecord). P r.row) (map (λ c. row_to_credential c versions) cs)
All-map P versions [] h = tt
All-map P versions (c ∷ cs) h = (h.0, All-map P versions cs h.1)

length-map-take :
    (versions : List Version) (n : ℕ) (cs : List Credential)
    → length (map (λ c. row_to_credential c versions) (take n cs)) ≤ n
length-map-take versions zero cs = omega arith
length-map-take versions (suc n) [] = omega arith
length-map-take versions (suc n) (c ∷ cs) = omega (arith, length-map-take versions n cs)

-- What an agent may be shown: not deleted, and let through by the clause on visibility.
abbrev pub MayShow : VisibleTo → Credential → Type 0
MayShow v c =
    (is_deleted c.status ≡ false)
    × (visibility_where_clause v.org_id v.agent_id v.member_workspace_ids c ≡ true)

found_parts :
    (gone shown rest : Bool)
    → (not gone && (shown && rest)) ≡ true
    → (gone ≡ false) × (shown ≡ true)
found_parts gone shown rest h = (ground arith, ground arith)

-- Whatever else a search asks for, it finds only credentials that are not deleted and that the
-- clause on visibility lets through for the agent, and at most 500 of them.
pub find_credentials-MayShow :
    (ilike : String → String → Bool) (q : FindCredentialsQuery) (db : Db)
    → All (λ (r : CredentialRecord). MayShow q.visible_to r.row) (find_credentials ilike q db)
      × (length (find_credentials ilike q db) ≤ 500)
unfolding find_credentials is_found
find_credentials-MayShow ilike q db =
    let most = min (or_else q.limit 50) 500 in
    let sorted = order_by_update (filter (is_found ilike q) db.credentials) in
    let shown : All (MayShow q.visible_to) sorted = All-order_by_update (MayShow q.visible_to) _ (
      All-filter (MayShow q.visible_to) (is_found ilike q) db.credentials
        (λ c h. found_parts _ _ _ h)) in
    (
      All-map (MayShow q.visible_to) db.versions (take most sorted) (All-take _ most sorted shown),
      omega (arith, length-map-take db.versions most sorted),
    )
