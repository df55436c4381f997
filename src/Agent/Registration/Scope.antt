-- ===== src/Agent/Registration/Scope.antt =====
-- Memberships stay inside an organization, and sessions inside memberships.
use mathlib.Core.List.{Memᴰ}
use securestore.Common.{
  ℕ, Option, List, [], ◌∷◌, ◌++◌, Bool, true, false, ◌&&◌, nat_beq_iff, or_else, any, ◌≡◌, refl, ap,
  ◌∙◌, inl, inr, All, All-append, All-weaken, any-append, any_of_mem, Bool-cases, string_eq,
}
use securestore.Crypto.{CryptoLib}
use securestore.Agent.{is_agent_workspace_member}
use securestore.Agent.Types.{AgentRecord, AgentRow}
use securestore.Agent.Registration.{
  RegisterAgentInput, new_agent, has_agent_id, insert_membership, join_workspaces, issue_key,
  register_agent, not_member,
}
use securestore.Agent.Registration.Access.{
  insert_agent-state, join_workspace-state, insert_membership-tables, insert_api_key-state,
}
use securestore.Database.{Db, Membership, ok, workspace_in_org}
use securestore.Database.Steps.{on_ok, ok-state}

-- The membership's workspace belongs to the organization of the membership's agent.
abbrev in_org : Db → Membership → Bool
in_org db m =
    any (λ a. has_agent_id m.agent_id a && workspace_in_org db m.workspace_id a.agent.org_id)
      db.agents

-- Every membership joins an agent to a workspace of its own organization.
abbrev pub AreInOrg : Db → Type 0
AreInOrg db = All (λ m. in_org db m ≡ true) db.memberships

AreInOrg-agent :
    (a : AgentRow) (db : Db) → AreInOrg db → AreInOrg (record db { agents = db.agents ++ a ∷ [] })
AreInOrg-agent a db h =
    All-weaken (λ m. in_org db m ≡ true) _ db.memberships
      (λ m e. any-append _ db.agents (a ∷ []) ∙ rw e refl) h

mem-last : (a : AgentRow) (rows : List AgentRow) → Memᴰ a (rows ++ a ∷ [])
mem-last a [] = Memᴰ.head refl
mem-last a (b ∷ rows) = Memᴰ.tail (mem-last a rows)

AreInOrg-join :
    (a : AgentRow) (id : ℕ) (db : Db)
    → Memᴰ a db.agents
    → workspace_in_org db id a.agent.org_id ≡ true
    → AreInOrg db
    → AreInOrg (insert_membership a.agent.id id db)
unfolding insert_membership
AreInOrg-join a id db there own h = elim (Bool-cases (is_agent_workspace_member a.agent.id id db)) [
  | inl e ↦ rw e h
  | inr e ↦ rw e (
      All-append (λ m. in_org db m ≡ true) db.memberships _ h
        (
          any_of_mem _ a db.agents there
              (rw ((nat_beq_iff a.agent.id a.agent.id).1 refl, own) refl),
          tt,
        ))
]

AreInOrg-join_all :
    (a : AgentRow) (ids : List ℕ) (db : Db) {u : Unit {0}} {next : Db}
    → Memᴰ a db.agents
    → AreInOrg db
    → join_workspaces a.agent.org_id a.agent.id ids db ≡ ok (u, next)
    → AreInOrg next
unfolding join_workspaces
AreInOrg-join_all a [] db there h e = rw (← (ok-state e).1) h
AreInOrg-join_all a (id ∷ ids) db there h e = on_ok _ _ db e λ _ db1 e1 h1.
    let (own, step) = join_workspace-state a.agent.org_id a.agent.id id db e1 in
    let rows : db1.agents ≡ db.agents =
      ap (λ (d : Db). d.agents) step ∙ (insert_membership-tables a.agent.id id db).0 in
    AreInOrg-join_all a ids db1 (rw rows there) (rw step (AreInOrg-join a id db there own h)) h1

AreInOrg-issue_key :
    (lib : CryptoLib) (id : ℕ) (random : List ℕ) (wanted : Bool) (db : Db) {k : Option (List ℕ)}
    {next : Db}
    → issue_key lib id random wanted db ≡ ok (k, next)
    → AreInOrg db
    → AreInOrg next
unfolding issue_key
AreInOrg-issue_key lib id random false db e h = rw (← (ok-state e).1) h
AreInOrg-issue_key lib id random true db e h =
    on_ok _ _ db e λ _ db1 e1 h1. rw (← (ok-state h1).1, (insert_api_key-state _ db e1).1) h

-- If every membership joins an agent to a workspace of the agent's organization, that is so
-- after `registerAgent` too.
pub register_agent-AreInOrg :
    (lib : CryptoLib) (id : ℕ) (random : List ℕ) (input : RegisterAgentInput) (db : Db)
    (r : AgentRecord × Option (List ℕ)) (next : Db)
    → AreInOrg db
    → register_agent lib id random input db ≡ ok (r, next)
    → AreInOrg next
unfolding register_agent
register_agent-AreInOrg lib id random input db r next h e = on_ok _ _ db e λ _ db1 e1 h1.
    on_ok _ _ db1 h1 λ _ db2 e2 h2. on_ok _ _ db2 h2 λ made db3 e3 h3.
      let there = (insert_agent-state (new_agent id input) db e1).1 in
      let start : AreInOrg db1 = rw there (AreInOrg-agent (new_agent id input) db h) in
      let joined : AreInOrg db2 =
        AreInOrg-join_all (new_agent id input) (or_else input.workspace_ids []) db1
          (rw there (mem-last (new_agent id input) db.agents)) start e2 in
      rw (← (ok-state h3).1) (AreInOrg-issue_key lib id random _ db2 e3 joined)

-- Every session is without a workspace or in one that its agent is a member of.
abbrev pub AreScoped : Db → Type 0
AreScoped db = All (λ s. not_member s.agent_id s.workspace_id db ≡ false) db.agent_sessions
