-- ===== src/Tools/Secrets/Approval.antt =====
-- What secret_get does for a policy that wants an approval.
use securestore.Common.{
  ℕ, some, none, ◌++◌, List, [], ◌∷◌, Bool, true, false, nat_beq, nat_beq_iff, find?, ◌≡◌, refl,
  sym, ap, ◌∙◌, arith, inl, inr, Bool-cases, Option-cases, Option, if◌then◌else◌, find?-append_none,
  any-false_of, any, ◌&&◌,
}
use securestore.Policy.Types.{secret_get, Policy, allow, pending, ApprovalRequest}
use securestore.Policy.Approval.{create_approval_request, get_approval_status, is_approval_of}
use securestore.Crypto.{CryptoLib}
use securestore.Credential.Types.{Credential, CredentialRecord}
use securestore.Credential.Versions.{Env}
use securestore.Credential.Queries.{has_id, load_credential}
use securestore.Agent.Types.{AgentRecord}
use securestore.Agent.{is_agent_workspace_member}
use securestore.Visibility.{member_of, is_credential_visible}
use securestore.Visibility.Agreement.{other_org_hidden}
use securestore.Credential.Extent.Operations.{load_credential-row}
use mathlib.Core.Option.{some-injective}
use securestore.Database.{Db}
use securestore.Database.Steps.{find?-any-false}
use securestore.Tools.{AgentContext, World, done, resource_of, visible_credential, decision_for}
use securestore.Tools.Steps.{bind-done, clear-allowed, visible-gate}
use securestore.Tools.Secrets.{approval_required, is_direct, get_cleared, tool_secret_get}

and_left : (a b : Bool) → (a && b) ≡ true → a ≡ true
and_left true b h = refl
and_left false b h = h

any-find? :
    (p q : Credential → Bool) (xs : List Credential) {x : Credential}
    → find? p xs ≡ some x
    → q x ≡ true
    → any q xs ≡ true
any-find? p q [] h k = absurd (cc h)
any-find? p q (y ∷ ys) h k = elim (Bool-cases (p y)) [
  | inl e ↦ ground (arith, ap q (some-injective _ _ (rw e at h)))
  | inr e ↦ ground (arith, any-find? p q ys (rw e at h) k)
]

own_org :
    (a : AgentRecord) (c : Credential) (db : Db)
    → is_credential_visible a c db ≡ true
    → nat_beq c.org_id a.org_id ≡ true
own_org a c db seen = elim (Bool-cases (nat_beq c.org_id a.org_id)) [
  | inl e ↦ e
  | inr e ↦ absurd (
      cc (sym seen ∙ (other_org_hidden a c db (λ same. cc (sym ((nat_beq_iff _ _).1 same) ∙ e))).0))
]

-- The world with other approval requests.
abbrev pub with_approvals : List ApprovalRequest → World → World
with_approvals approvals w = record w { db = record w.db { approvals = approvals } }

-- A request for the secret of a credential that nobody has decided.
pub record IsPendingRequest (uuid credential_id agent_id : ℕ) (r : ApprovalRequest) : Type 0 where
  pub same_id : r.id ≡ uuid
  pub same_credential : r.credential_id ≡ credential_id
  pub same_agent : r.agent_id ≡ agent_id
  pub for_secret : r.operation ≡ "secret_get"
  pub is_pending : r.status ≡ pending
  pub undecided : r.decided_by ≡ none

member-with_approvals :
    (agent_id : ℕ) (workspace_id : Option ℕ) (w : World) (approvals : List ApprovalRequest)
    → member_of agent_id workspace_id (with_approvals approvals w).db
      ≡ member_of agent_id workspace_id w.db
unfolding is_agent_workspace_member
member-with_approvals agent_id none w approvals = refl
member-with_approvals agent_id (some id) w approvals = refl

sight-with_approvals :
    (a : AgentRecord) (c : Credential) (w : World) (approvals : List ApprovalRequest)
    → is_credential_visible a c (with_approvals approvals w).db ≡ is_credential_visible a c w.db
unfolding is_credential_visible
sight-with_approvals a c w approvals =
    rw (member-with_approvals a.id c.workspace_id w approvals) refl

visible-with_approvals :
    (a : AgentRecord) (id : ℕ) (w : World) (approvals : List ApprovalRequest)
    → visible_credential a id (with_approvals approvals w).db ≡ visible_credential a id w.db
unfolding load_credential visible_credential
visible-with_approvals a id w approvals = elim (Option-cases (load_credential id w.db)) [
  | inl e ↦ rw (e, visible_credential) refl
  | inr (c, e) ↦
      rw (e, visible_credential)
        (ap (λ b. if b then some c else none) (sight-with_approvals a c.row w approvals))
]

module _ (lib : CryptoLib) (env : Env) (policies : List Policy) (ctx : AgentContext) where
  requested-status :
      (w : World) (id : ℕ) (c : CredentialRecord) (r : ApprovalRequest)
      → visible_credential ctx.agent id w.db ≡ some c
      → r.credential_id ≡ c.id
      → any (λ ar. nat_beq ar.id r.id) w.db.approvals ≡ false
      → get_approval_status ctx.agent.org_id r.id (with_approvals (w.db.approvals ++ r ∷ []) w).db
        ≡ some r
  unfolding get_approval_status
  requested-status w id c r h of_it fresh =
      let (loaded, seen) = visible-gate ctx.agent id w.db h in
      let there =
        any-find? (has_id id) (λ x. has_id r.credential_id x && nat_beq x.org_id ctx.agent.org_id)
          w.db.credentials (load_credential-row id w.db loaded)
          (rw (of_it, (nat_beq_iff c.id c.id).1 refl, own_org ctx.agent c.row w.db seen) refl) in
      let p =
        is_approval_of (with_approvals (w.db.approvals ++ r ∷ []) w).db ctx.agent.org_id r.id in
      let before =
        any-false_of p (λ ar. nat_beq ar.id r.id) w.db.approvals
          (λ ar e. and_left (nat_beq ar.id r.id) _ e) fresh in
      find?-append_none p w.db.approvals _ (find?-any-false p w.db.approvals before)
      ∙ rw ((nat_beq_iff r.id r.id).1 refl, there) refl

  get_requests :
      (uuid id : ℕ) (w : World) (c : CredentialRecord)
      → visible_credential ctx.agent id w.db ≡ some c
      → (decision_for env.now policies ctx secret_get (resource_of c)).effect ≡ allow
      → (decision_for env.now policies ctx secret_get (resource_of c)).requires_approval ≡ true
      → (r : ApprovalRequest) × (tool_secret_get lib env policies ctx uuid id w
          ≡ (done (approval_required uuid), with_approvals (w.db.approvals ++ r ∷ []) w))
        × IsPendingRequest uuid c.id ctx.agent.id r
  unfolding tool_secret_get get_cleared create_approval_request
  get_requests uuid id w c h allowed wanted =
      let d = decision_for env.now policies ctx secret_get (resource_of c) in
      (
        _,
        bind-done _ _ w (clear-allowed _ _ ctx secret_get id w h allowed)
            ∙ ap
                (λ b.
                  get_cleared lib env policies ctx uuid c b (is_direct d.access_mode) d.access_mode
                    w)
                wanted
            ∙ bind-done _ _ w refl,
        record {
          same_id = refl;
          same_credential = refl;
          same_agent = refl;
          for_secret = refl;
          is_pending = refl;
          undecided = refl;
        },
      )

  -- For a policy that wants an approval, secret_get hands out no value. It adds one approval
  -- request, undecided, for this agent, credential and operation, changes nothing else, and
  -- answers with the request's id, under which the agent's organization then finds it, if the
  -- generated UUID is new. It does so again whatever requests and decisions the table holds: an
  -- approval of a request changes nothing for the next call.
  pub secret_get-pending :
      (uuid id : ℕ) (w : World) (c : CredentialRecord)
      → visible_credential ctx.agent id w.db ≡ some c
      → (decision_for env.now policies ctx secret_get (resource_of c)).effect ≡ allow
      → (decision_for env.now policies ctx secret_get (resource_of c)).requires_approval ≡ true
      → any (λ ar. nat_beq ar.id uuid) w.db.approvals ≡ false
      → (r : ApprovalRequest) × (tool_secret_get lib env policies ctx uuid id w
          ≡ (done (approval_required uuid), with_approvals (w.db.approvals ++ r ∷ []) w))
        × IsPendingRequest uuid c.id ctx.agent.id r
        × (get_approval_status ctx.agent.org_id uuid
              (with_approvals (w.db.approvals ++ r ∷ []) w).db
            ≡ some r)
        × ((approvals : List ApprovalRequest) (next : ℕ)
            → (tool_secret_get lib env policies ctx next id (with_approvals approvals w)).0
              ≡ done (approval_required next))
  secret_get-pending uuid id w c h allowed wanted fresh =
      let (r, answered, is_new) = get_requests uuid id w c h allowed wanted in
      (
        r,
        answered,
        is_new,
        ap
              (λ i.
                get_approval_status ctx.agent.org_id i
                  (with_approvals (w.db.approvals ++ r ∷ []) w).db)
              (sym is_new.same_id)
            ∙ requested-status w id c r h is_new.same_credential (rw is_new.same_id fresh),
        λ approvals next.
            let (again, result, new) =
              get_requests next id (with_approvals approvals w) c
                (visible-with_approvals ctx.agent id w approvals ∙ h) allowed wanted in
            ap (λ o. o.0) result,
      )
