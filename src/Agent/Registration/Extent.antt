-- ===== src/Agent/Registration/Extent.antt =====
-- Registering an agent changes no row of `credentials`.
use securestore.Common.{
  ℕ, Option, none, List, [], ◌∷◌, Bool, true, false, refl, arith, inl, inr, Bool-cases,
  if◌then◌else◌,
}
use securestore.Crypto.{CryptoLib}
use securestore.Agent.Registration.{
  RegisterAgentInput, insert_agent, insert_api_key, insert_membership, join_workspace,
  join_workspaces, issue_key, register_agent,
}
use securestore.Credential.Extent.{Keeps, TxKeeps, bind-TxKeeps, pure-TxKeeps}
use securestore.Database.{Db, ok, err, Error, workspace_in_org}
use securestore.Database.Steps.{ok-state}

module _ (o : Option ℕ) where
  guarded-TxKeeps :
      {A : Type 0} (b : Db → Bool) (e : Error) (a : A) (f : Db → Db)
      → ((db : Db) → Keeps o db (f db))
      → TxKeeps o (λ db. if b db then err e else ok (a, f db))
  unfolding TxKeeps
  guarded-TxKeeps b e a f keep db r end h = elim (Bool-cases (b db)) [
    | inl c ↦ absurd (cc (rw c at h))
    | inr c ↦ rw (← (ok-state (rw c at h)).1) (keep db)
  ]

  membership-Keeps : (agent_id id : ℕ) (db : Db) → Keeps o db (insert_membership agent_id id db)
  unfolding insert_membership Keeps
  membership-Keeps agent_id id db row apart = ground arith

  join-TxKeeps : (org_id agent_id id : ℕ) → TxKeeps o (join_workspace org_id agent_id id)
  unfolding join_workspace TxKeeps
  join-TxKeeps org_id agent_id id db r end h = elim (Bool-cases (workspace_in_org db id org_id)) [
    | inr c ↦ absurd (cc (rw c at h))
    | inl c ↦ rw (← (ok-state (rw c at h)).1) (membership-Keeps agent_id id db)
  ]

  joins-TxKeeps :
      (org_id agent_id : ℕ) (ids : List ℕ) → TxKeeps o (join_workspaces org_id agent_id ids)
  unfolding join_workspaces
  joins-TxKeeps org_id agent_id [] = pure-TxKeeps o tt
  joins-TxKeeps org_id agent_id (id ∷ ids) =
      bind-TxKeeps o _ _ (join-TxKeeps org_id agent_id id) λ u. joins-TxKeeps org_id agent_id ids

  issue_key-TxKeeps :
      (lib : CryptoLib) (agent_id : ℕ) (random : List ℕ) (b : Bool)
      → TxKeeps o (issue_key lib agent_id random b)
  unfolding issue_key insert_api_key Keeps
  issue_key-TxKeeps lib agent_id random false = pure-TxKeeps o none
  issue_key-TxKeeps lib agent_id random true =
      bind-TxKeeps o _ _ (guarded-TxKeeps _ _ tt _ λ db row apart. refl) λ u. pure-TxKeeps o _

  pub register-TxKeeps :
      (lib : CryptoLib) (id : ℕ) (random : List ℕ) (input : RegisterAgentInput)
      → TxKeeps o (register_agent lib id random input)
  unfolding register_agent insert_agent Keeps
  register-TxKeeps lib id random input =
      bind-TxKeeps o _ _ (guarded-TxKeeps _ _ tt _ λ db row apart. refl) λ u.
        bind-TxKeeps o _ _ (joins-TxKeeps _ _ _)
          λ u1. bind-TxKeeps o _ _ (issue_key-TxKeeps lib id random _) λ key. pure-TxKeeps o _
