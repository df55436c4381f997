-- ===== src/Agent/Registration/Access.antt =====
-- Who authenticates, and which workspaces agents and sessions are in.
use securestore.Common.{
  ℕ, String, Option, none, some, List, [], ◌∷◌, ◌++◌, Bool, true, false, not, ◌&&◌, nat_beq,
  nat_beq_iff, string_eq, nat_eq, any, find?, update_where, ◌≡◌, ◌≢◌, refl, ap, sym, ◌∙◌, arith,
  inl, inr, ◌⊎◌, All, All-find?, any-false_of, find?-append_none, find?_sound, Bool-cases,
  Option-cases, codes,
}
use mathlib.Core.Option.{some-injective}
use securestore.Crypto.{CryptoLib, hash_api_key, generate_api_key}
use securestore.Agent.{is_agent_workspace_member}
use securestore.Agent.Types.{AgentRecord, AgentRow, ApiKey}
use securestore.Agent.Registration.{
  RegisterAgentInput, new_agent, has_agent_id, same_identifier, insert_agent, insert_api_key,
  insert_membership, join_workspace, join_workspaces, issue_key, register_agent, is_live_key,
  is_live_agent, agent_of_key, connected, authenticate_api_key, authenticate_by_identifier,
  revoked_row, revoke_agent,
}
use securestore.Database.{Db, ok, workspace_in_org}
use securestore.Database.Steps.{on_ok, ok-state, find?-any-false}

pub insert_agent-state :
    (a : AgentRow) (db : Db) {u : Unit {0}} {next : Db}
    → insert_agent a db ≡ ok (u, next)
    → (any (has_agent_id a.agent.id) db.agents ≡ false)
      × (next ≡ record db { agents = db.agents ++ a ∷ [] })
unfolding insert_agent
insert_agent-state a db h = ground arith

pub join_workspace-state :
    (org_id agent_id id : ℕ) (db : Db) {u : Unit {0}} {next : Db}
    → join_workspace org_id agent_id id db ≡ ok (u, next)
    → (workspace_in_org db id org_id ≡ true) × (next ≡ insert_membership agent_id id db)
unfolding join_workspace
join_workspace-state org_id agent_id id db h = ground arith

pub insert_membership-tables :
    (agent_id id : ℕ) (db : Db)
    → ((insert_membership agent_id id db).agents ≡ db.agents)
      × ((insert_membership agent_id id db).api_keys ≡ db.api_keys)
      × ((insert_membership agent_id id db).workspaces ≡ db.workspaces)
unfolding insert_membership
insert_membership-tables agent_id id db =
    elim (Bool-cases (is_agent_workspace_member agent_id id db)) [
      | inl e ↦ rw e (refl, refl, refl)
      | inr e ↦ rw e (refl, refl, refl)
    ]

join_workspaces-tables :
    (org_id agent_id : ℕ) (ids : List ℕ) (db : Db) {u : Unit {0}} {next : Db}
    → join_workspaces org_id agent_id ids db ≡ ok (u, next)
    → (next.agents ≡ db.agents) × (next.api_keys ≡ db.api_keys)
unfolding join_workspaces
join_workspaces-tables org_id agent_id [] db h =
    let same = (ok-state h).1 in
    (ap (λ (d : Db). d.agents) (sym same), ap (λ (d : Db). d.api_keys) (sym same))
join_workspaces-tables org_id agent_id (id ∷ ids) db h = on_ok _ _ db h λ _ db1 e1 h1.
    let step = (join_workspace-state org_id agent_id id db e1).1 in
    let kept = insert_membership-tables agent_id id db in
    let rest = join_workspaces-tables org_id agent_id ids db1 h1 in
    (
      rest.0 ∙ ap (λ (d : Db). d.agents) step ∙ kept.0,
      rest.1 ∙ ap (λ (d : Db). d.api_keys) step ∙ kept.1,
    )

agent_of_key-last :
    (now hash : ℕ) (agents : List AgentRow) (ks : List ApiKey) (k : ApiKey)
    → any (λ j. nat_beq j.key_hash hash) ks ≡ false
    → agent_of_key now hash agents (ks ++ k ∷ []) ≡ agent_of_key now hash agents (k ∷ [])
unfolding agent_of_key
agent_of_key-last now hash agents [] k h = refl
agent_of_key-last now hash agents (j ∷ ks) k h =
    let other : nat_beq j.key_hash hash ≡ false = ground arith in
    rw other (agent_of_key-last now hash agents ks k (ground arith))

agent_of_key-one :
    (now hash : ℕ) (agents : List AgentRow) (k : ApiKey) (a : AgentRow)
    → is_live_key now hash k ≡ true
    → find? (is_live_agent k.agent_id) agents ≡ some a
    → agent_of_key now hash agents (k ∷ []) ≡ some a
unfolding agent_of_key
agent_of_key-one now hash agents k a live found = rw live (rw found refl)

find?-last_agent :
    (id : ℕ) (rows : List AgentRow) (a : AgentRow)
    → any (has_agent_id id) rows ≡ false
    → is_live_agent id a ≡ true
    → find? (is_live_agent id) (rows ++ a ∷ []) ≡ some a
find?-last_agent id rows a fresh live =
    find?-append_none (is_live_agent id) rows (a ∷ []) (
      find?-any-false (is_live_agent id) rows
        (any-false_of (is_live_agent id) (has_agent_id id) rows (λ x h. ground arith) fresh))
    ∙ rw live refl

pub insert_api_key-state :
    (k : ApiKey) (db : Db) {u : Unit {0}} {next : Db}
    → insert_api_key k db ≡ ok (u, next)
    → (any (λ j. nat_beq j.key_hash k.key_hash) db.api_keys ≡ false)
      × (next ≡ record db { api_keys = db.api_keys ++ k ∷ [] })
unfolding insert_api_key
insert_api_key-state k db h = ground arith

abbrev new_key : CryptoLib → ℕ → List ℕ → ApiKey
new_key lib agent_id random = record {
  agent_id = agent_id;
  prefix = (generate_api_key random).1;
  key_hash = hash_api_key lib (generate_api_key random).0;
  expires_at = none;
  revoked_at = none;
}

-- The key of a new agent, and where it is kept.
issue_key-state :
    (lib : CryptoLib) (agent_id : ℕ) (random : List ℕ) (wanted : Bool) (db : Db) {raw : List ℕ}
    {next : Db}
    → issue_key lib agent_id random wanted db ≡ ok (some raw, next)
    → (k : ApiKey) × (next ≡ record db { api_keys = db.api_keys ++ k ∷ [] })
      × (any (λ j. nat_beq j.key_hash (hash_api_key lib raw)) db.api_keys ≡ false)
      × (k.agent_id ≡ agent_id)
      × ((now : ℕ) → is_live_key now (hash_api_key lib raw) k ≡ true)
unfolding issue_key
issue_key-state lib agent_id random false db h = absurd (cc (ok-state h).0)
issue_key-state lib agent_id random true db {raw} h = on_ok _ _ db h λ _ db1 e1 h1.
    let (fresh, there) = insert_api_key-state _ db e1 in
    let done = ok-state h1 in
    let same : codes "sss_" ++ random ≡ raw = some-injective _ _ done.0 in
    (
      new_key lib agent_id random,
      sym done.1 ∙ there,
      rw (← same) fresh,
      refl,
      λ now. rw (← same) (
          ground (
            arith,
            (nat_beq_iff (hash_api_key lib (codes "sss_" ++ random))
                  (hash_api_key lib (codes "sss_" ++ random))).1
                refl,
          )),
    )

-- An agent that `registerAgent` gave a key authenticates with that key, at any time later, as the
-- agent that was registered.
pub authenticate-register :
    (lib : CryptoLib) (id : ℕ) (random : List ℕ) (input : RegisterAgentInput) (db : Db)
    (agent : AgentRecord) (key : List ℕ) (next : Db) (now : ℕ)
    → register_agent lib id random input db ≡ ok ((agent, some key), next)
    → (authenticate_api_key lib now key next).0 ≡ some agent
unfolding register_agent authenticate_api_key
authenticate-register lib id random input db agent key next now h = on_ok _ _ db h λ _ db1 e1 h1.
    on_ok _ _ db1 h1 λ _ db2 e2 h2. on_ok _ _ db2 h2 λ made db3 e3 h3.
      let (fresh, there) = insert_agent-state (new_agent id input) db e1 in
      let kept = join_workspaces-tables input.org_id id _ db1 e2 in
      let done = ok-state h3 in
      let (k, added, fresh_key, of_agent, live) =
        issue_key-state lib id random _ db2
          (rw (ap (λ (r : AgentRecord × Option (List ℕ)). r.1) done.0) at e3) in
      let last : next ≡ record db2 { api_keys = db2.api_keys ++ k ∷ [] } = sym done.1 ∙ added in
      let agents : next.agents ≡ db.agents ++ new_agent id input ∷ [] =
        ap (λ (d : Db). d.agents) last ∙ kept.0 ∙ ap (λ (d : Db). d.agents) there in
      let keys : next.api_keys ≡ db2.api_keys ++ k ∷ [] = ap (λ (d : Db). d.api_keys) last in
      let found : agent_of_key now (hash_api_key lib key) next.agents next.api_keys
          ≡ some (new_agent id input) =
        rw (agents, keys)
          (agent_of_key-last now (hash_api_key lib key) _ db2.api_keys k fresh_key
            ∙ agent_of_key-one now (hash_api_key lib key) _ k (new_agent id input) (live now) (
                rw of_agent (
                  find?-last_agent id db.agents (new_agent id input) fresh
                    (ground (arith, (nat_beq_iff id id).1 refl))))) in
      ap (λ (o : Option AgentRow). (connected now o next).0) found
      ∙ ap (λ (r : AgentRecord × Option (List ℕ)). some r.0) done.0

-- A row of an agent with the given id is revoked.
abbrev IsLockedOut : ℕ → AgentRow → Type 0
IsLockedOut id a = has_agent_id id a ≡ true → a.agent.revoked ≡ true

All-IsLockedOut :
    (now id : ℕ) (rows : List AgentRow)
    → All (IsLockedOut id) (update_where (has_agent_id id) (revoked_row now) rows)
All-IsLockedOut now id [] = tt
All-IsLockedOut now id (a ∷ rows) = elim (Bool-cases (has_agent_id id a)) [
  | inl e ↦ rw e ((λ _. refl), All-IsLockedOut now id rows)
  | inr e ↦ rw e ((λ h. absurd (cc (e, h))), All-IsLockedOut now id rows)
]

live_not_revoked : (same gone : Bool) → (same && not gone) ≡ true → gone ≡ false
live_not_revoked same gone h = ground arith

agent_of_key-live :
    (now hash : ℕ) (rows : List AgentRow) (ks : List ApiKey) (a : AgentRow) (P : AgentRow → Type 0)
    → All P rows
    → agent_of_key now hash rows ks ≡ some a
    → P a × (a.agent.revoked ≡ false)
unfolding agent_of_key
agent_of_key-live now hash rows [] a P h e = absurd (cc e)
agent_of_key-live now hash rows (k ∷ ks) a P h e = elim (Bool-cases (is_live_key now hash k)) [
  | inr dead ↦ agent_of_key-live now hash rows ks a P h (rw dead at e)
  | inl live ↦ elim (Option-cases (find? (is_live_agent k.agent_id) rows)) [
    | inl gone ↦ agent_of_key-live now hash rows ks a P h (rw (live, gone) at e)
    | inr (b, there) ↦
        let same : b ≡ a = some-injective _ _ (rw (live, there) at e) in
        rw (← same) (
          All-find? P (is_live_agent k.agent_id) rows h there,
          live_not_revoked (nat_beq b.agent.id k.agent_id) b.agent.revoked
              (find?_sound (is_live_agent k.agent_id) rows there),
        )
  ]
]

connected-some :
    (now : ℕ) (o : Option AgentRow) (db : Db) {agent : AgentRecord}
    → (connected now o db).0 ≡ some agent
    → (a : AgentRow) × (o ≡ some a) × (a.agent ≡ agent)
connected-some now none db e = absurd (cc e)
connected-some now (some a) db e = (a, refl, some-injective _ _ e)

not_locked : (id : ℕ) (a : AgentRow) → IsLockedOut id a → a.agent.revoked ≡ false → a.agent.id ≢ id
not_locked id a locked live e = absurd (cc (locked ((nat_beq_iff a.agent.id id).1 e), live))

-- After `revokeAgent`, neither an API key nor an identifier authenticates as that agent.
pub authenticate-revoke :
    (lib : CryptoLib) (earlier id now : ℕ) (raw : List ℕ) (auth_method identifier : String)
    (db : Db) (agent : AgentRecord)
    → ((authenticate_api_key lib now raw (revoke_agent earlier id db)).0 ≡ some agent)
      ⊎ ((authenticate_by_identifier now auth_method identifier (revoke_agent earlier id db)).0
          ≡ some agent)
    → agent.id ≢ id
unfolding authenticate_api_key authenticate_by_identifier revoke_agent
authenticate-revoke lib earlier id now raw auth_method identifier db agent (inl h) =
    let (a, found, same) = connected-some now _ _ h in
    let (locked, live) =
      agent_of_key-live now (hash_api_key lib raw) _ db.api_keys a (IsLockedOut id)
        (All-IsLockedOut earlier id db.agents) found in
    rw (← same) (not_locked id a locked live)
authenticate-revoke lib earlier id now raw auth_method identifier db agent (inr h) =
    let (a, found, same) = connected-some now _ _ h in
    let matches =
      λ (b : AgentRow). same_identifier auth_method (some identifier) b && not b.agent.revoked in
    let rows = update_where (has_agent_id id) (revoked_row earlier) db.agents in
    rw (← same) (
      not_locked id a
        (All-find? (IsLockedOut id) matches rows (All-IsLockedOut earlier id db.agents) found)
        (live_not_revoked (same_identifier auth_method (some identifier) a) a.agent.revoked
          (find?_sound matches rows found)))
