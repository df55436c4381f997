-- ===== src/Auth/Admission.antt =====
-- What a request has shown when it gets a context.
use securestore.Common.{
  ℕ, String, Option, none, some, List, Bool, true, false, ◌≡◌, refl, sym, ap, ◌∙◌, inl, inr,
  Bool-cases, any, nat_beq, ◌&&◌,
}
use securestore.Crypto.{CryptoLib}
use securestore.Agent.{is_agent_workspace_member}
use securestore.Agent.Types.{AgentRecord}
use securestore.Agent.Registration.{open_session}
use securestore.RateLimit.{Buckets, try_consume}
use securestore.Database.{Db, Result, ok, err}
use securestore.Tools.{AgentContext}
use securestore.Auth.{
  ResolvedIdentity, Request, AuthState, accepted, with_session, within_limit, admit,
  resolve_agent_identity, require_agent,
}
use securestore.Auth.Live.{IsLive, resolve-IsResolved}

-- A context that was opened by a session of the header, or by a new one.
with_session-accepted :
    (agent : AgentRecord) (request : Request) (given : Option ℕ) (opened : Result (ℕ × Db))
    (state : AuthState) {ctx : AgentContext}
    → (with_session agent request given opened state).0 ≡ accepted ctx
    → (ctx.agent ≡ agent)
      × (ctx.workspace_id ≡ request.workspace_id)
      × (given ≡ none → (p : ℕ × Db) × (opened ≡ ok p))
with_session-accepted agent request (some id) opened state h = (cc h, cc h, λ e. absurd (cc e))
with_session-accepted agent request none (err e) state h = absurd (cc h)
with_session-accepted agent request none (ok (id, db)) state h = (cc h, cc h, λ e. ((id, db), refl))

within_limit-accepted :
    (now uuid : ℕ) (agent : AgentRecord) (request : Request) (answer : Bool × Buckets) (db : Db)
    {ctx : AgentContext}
    → (within_limit now uuid agent request answer db).0 ≡ accepted ctx
    → (answer.0 ≡ true)
      × (ctx.agent ≡ agent)
      × (ctx.workspace_id ≡ request.workspace_id)
      × (request.session_id ≡ none
          → (p : ℕ × Db) × (open_session now uuid agent.id request.workspace_id "http"
                (some request.ip)
                db
              ≡ ok p))
within_limit-accepted now uuid agent request (false, buckets) db h = absurd (cc h)
within_limit-accepted now uuid agent request (true, buckets) db h =
    let (same, asked, opened) = with_session-accepted agent request request.session_id _ _ h in
    (refl, same, asked, opened)

admit-accepted :
    (per_minute now uuid : ℕ) (request : Request) (out : Option ResolvedIdentity × Db)
    (buckets : Buckets) {ctx : AgentContext}
    → (admit per_minute now uuid request out buckets).0 ≡ accepted ctx
    → (i : ResolvedIdentity) × (out.0 ≡ some i)
      × ((within_limit now uuid i.agent request
            (try_consume per_minute now i.agent.id buckets)
            out.1).0
          ≡ accepted ctx)
admit-accepted per_minute now uuid request (none, db) buckets h = absurd (cc h)
admit-accepted per_minute now uuid request (some i, db) buckets h = (i, refl, h)

open_session-member :
    (now uuid agent_id id : ℕ) (transport : String) (network : Option (List ℕ)) (db : Db)
    {p : ℕ × Db}
    → open_session now uuid agent_id (some id) transport network db ≡ ok p
    → is_agent_workspace_member agent_id id db ≡ true
unfolding open_session
open_session-member now uuid agent_id id transport network db h =
    elim (Bool-cases (is_agent_workspace_member agent_id id db)) [
      | inl e ↦ e
      | inr e ↦ absurd (cc (rw e at h))
    ]

same_members :
    (agent_id id : ℕ) (db next : Db)
    → db.memberships ≡ next.memberships
    → is_agent_workspace_member agent_id id db ≡ is_agent_workspace_member agent_id id next
unfolding is_agent_workspace_member
same_members agent_id id db next same =
    ap (any (λ m. nat_beq m.agent_id agent_id && nat_beq m.workspace_id id)) same

module _ (lib : CryptoLib) (verify : Option (List ℕ → Option String)) (per_minute now uuid : ℕ)
    (request : Request) (state : AuthState) where
  pub record IsAdmitted (ctx : AgentContext) : Type 0 where
    pub is_live : IsLive ctx.agent state.db.agents
    pub has_token : (try_consume per_minute now ctx.agent.id state.buckets).0 ≡ true
    pub is_asked_for : ctx.workspace_id ≡ request.workspace_id
    pub is_member :
        request.session_id ≡ none
        → (id : ℕ) → ctx.workspace_id ≡ some id
        → is_agent_workspace_member ctx.agent.id id state.db ≡ true

  -- A request gets a context only for an agent that is registered and not revoked and that is
  -- within its rate limit; and the agent is a member of the workspace of the context, if the
  -- request came without a session id.
  pub require_agent-IsAdmitted :
      {ctx : AgentContext}
      → (require_agent lib verify per_minute now uuid request state).0 ≡ accepted ctx
      → IsAdmitted ctx
  unfolding require_agent
  require_agent-IsAdmitted {ctx} h =
      let out =
        resolve_agent_identity lib verify now request.socket request.authorization state.db in
      let (i, found, next) = admit-accepted per_minute now uuid request out state.buckets h in
      let (token, same, asked, opened) = within_limit-accepted now uuid i.agent request _ _ next in
      let resolved =
        resolve-IsResolved lib verify now request.socket request.authorization state.db in
      record {
        is_live = rw same (resolved.is_live i found);
        has_token = rw same token;
        is_asked_for = asked;
        is_member = λ fresh id here.
            let (p, e) = opened fresh in
            let given =
              ap (λ o. open_session now uuid i.agent.id o "http" (some request.ip) out.1)
                (sym here ∙ asked) in
            ap (λ (a : AgentRecord). is_agent_workspace_member a.id id state.db) same
            ∙ same_members i.agent.id id state.db out.1 (sym resolved.keeps_memberships)
            ∙ open_session-member now uuid i.agent.id id "http" (some request.ip) out.1 (given ∙ e);
      }
