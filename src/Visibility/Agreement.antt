-- ===== src/Visibility/Agreement.antt =====
-- Where the listing and the gate agree, and where they do not.
use securestore.Common.{
  ℕ, Option, none, some, List, [], ◌∷◌, Bool, true, false, ◌&&◌, nat_beq, nat_eq, string_eq,
  includes, any, filter, map, ◌≡◌, ◌≢◌, refl, arith, inl, inr, ◌⊎◌,
}
use securestore.Credential.Types.{Credential}
use securestore.Agent.Types.{AgentRecord}
use securestore.Agent.{is_agent_workspace_member, get_agent_workspace_ids}
use securestore.Visibility.{
  visibility_of, both_same, owned_by, member_of, is_credential_visible, in_workspaces,
  visibility_where_clause,
}
use securestore.Database.{Db, Membership}

pub includes_members :
    (agent_id id : ℕ) (ms : List Membership)
    → includes (map (λ m. m.workspace_id) (filter (λ m. nat_beq m.agent_id agent_id) ms)) id
      ≡ any (λ m. nat_beq m.agent_id agent_id && nat_beq m.workspace_id id) ms
includes_members agent_id id [] = refl
includes_members agent_id id (m ∷ ms) = ground (arith, includes_members agent_id id ms)

in_workspaces-member_of :
    (agent_id : ℕ) (w : Option ℕ) (db : Db)
    → in_workspaces w (get_agent_workspace_ids agent_id db) ≡ member_of agent_id w db
unfolding get_agent_workspace_ids is_agent_workspace_member
in_workspaces-member_of agent_id none db = refl
in_workspaces-member_of agent_id (some id) db = includes_members agent_id id db.memberships

-- What the listing shows to an agent, with the workspaces that the tools pass.
abbrev pub is_listed : AgentRecord → Credential → Db → Bool
is_listed agent c db =
    visibility_where_clause agent.org_id agent.id (get_agent_workspace_ids agent.id db) c

-- A credential of another organization is neither visible nor listed.
pub other_org_hidden :
    (agent : AgentRecord) (c : Credential) (db : Db)
    → c.org_id ≢ agent.org_id
    → (is_credential_visible agent c db ≡ false) × (is_listed agent c db ≡ false)
unfolding is_credential_visible visibility_where_clause
other_org_hidden agent c db h = (ground arith, ground arith)

-- For a credential shared with its workspace or with the organization that the agent does not
-- itself own, the listing shows it exactly when the gate lets it through.
pub listed-visible :
    (agent : AgentRecord) (c : Credential) (db : Db)
    → (visibility_of c ≡ "workspace") ⊎ (visibility_of c ≡ "organization")
    → owned_by c.owner_agent_id agent.id ≡ false
    → is_listed agent c db ≡ is_credential_visible agent c db
unfolding is_credential_visible visibility_where_clause
listed-visible agent c db (inl w) h =
    rw (w, in_workspaces-member_of agent.id c.workspace_id db, h) (ground arith)
listed-visible agent c db (inr o) h = rw o (ground arith)

-- The listing shows a private credential to every member of its workspace in the organization,
-- though the gate refuses it to an agent that is not its owner and has not the owning user.
pub private_listed :
    (agent : AgentRecord) (c : Credential) (db : Db)
    → c.org_id ≡ agent.org_id
    → visibility_of c ≡ "private"
    → owned_by c.owner_agent_id agent.id ≡ false
    → both_same c.owner_user_id agent.owner_user_id ≡ false
    → member_of agent.id c.workspace_id db ≡ true
    → (is_listed agent c db ≡ true) × (is_credential_visible agent c db ≡ false)
unfolding is_credential_visible visibility_where_clause
private_listed agent c db org p a u m = (
  rw (p, in_workspaces-member_of agent.id c.workspace_id db, m) (ground arith),
  rw (p, a, u) (ground arith),
)
