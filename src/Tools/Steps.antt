-- ===== src/Tools/Steps.antt =====
-- Taking a handler apart into its steps, and what the two gates do.
use securestore.Common.{
  ℕ, Option, none, some, List, [], ◌∷◌, ◌++◌, true, ◌≡◌, refl, sym, ap, ◌∙◌, ◌⊎◌, inl, inr,
  Bool-cases, Option-cases,
}
use securestore.Policy.Types.{
  PolicyAction, PolicyDecision, PolicyResource, Policy, Effect, allow, deny,
}
use securestore.Policy.Approval.{record_access_denied}
use securestore.Credential.Types.{CredentialRecord}
use mathlib.Core.Option.{some-injective}
use securestore.Agent.Types.{AgentRecord}
use securestore.Visibility.{is_credential_visible}
use securestore.Credential.Queries.{load_credential}
use securestore.Credential.Extent.Operations.{load_credential-id}
use securestore.Database
use securestore.Database.{
  Db, Tx, Result, ok, err, with_transaction, record_audit, publish, AuditEntry, AuditResult, Event,
  EventType, denial_reason, denial,
}
use securestore.Tools.{
  AgentContext, ToolError, not_found, access_denied, World, Outcome, done, raised, Action, continue,
  ◌>>=◌, outcome, transact, resource_of, visible_credential, action_text, load_visible_credential,
  decision_for, enforce, require_policy, clear,
}

continue_cases {ℓ} :
    {A B : Type ℓ} (o : Outcome A × World) (f : A → Action B) {b : B} {end : World}
    → continue f o ≡ (done b, end)
    → (a : A) × (mid : World) × (o ≡ (done a, mid)) × (f a mid ≡ (done b, end))
continue_cases (done a, mid) f h = (a, mid, refl, h)
continue_cases (raised e, mid) f h = absurd (cc h)

-- A block that answers: its first step did, and so did the rest.
pub on_done {ℓ κ} :
    {A B : Type ℓ} {C : Type κ} (m : Action A) (f : A → Action B) (w : World) {b : B} {end : World}
    → (m >>= f) w ≡ (done b, end)
    → ((a : A) (mid : World) → m w ≡ (done a, mid) → f a mid ≡ (done b, end) → C)
    → C
unfolding ◌>>=◌
on_done m f w h k = let (a, mid, e, h') = continue_cases (m w) f h in k a mid e h'

pub bind-done {ℓ} :
    {A B : Type ℓ} (m : Action A) (f : A → Action B) (w : World) {a : A} {mid : World}
    → m w ≡ (done a, mid)
    → (m >>= f) w ≡ f a mid
unfolding ◌>>=◌
bind-done m f w h = ap (continue f) h

pub bind-raised {ℓ} :
    {A B : Type ℓ} (m : Action A) (f : A → Action B) (w : World) {e : ToolError} {mid : World}
    → m w ≡ (raised e, mid)
    → (m >>= f) w ≡ (raised e, mid)
unfolding ◌>>=◌
bind-raised m f w h = ap (continue f) h

pub done-same {ℓ} :
    {A : Type ℓ} {a b : A} {w v : World}
    → ◌≡◌ {A = Outcome A × World} (done a, w) (done b, v)
    → (a ≡ b) × (w ≡ v)
done-same h = (cc h, cc h)

pub Effect-cases : (e : Effect) → (e ≡ allow) ⊎ (e ≡ deny)
Effect-cases allow = inl refl
Effect-cases deny = inr refl

-- A visible credential is the one of that id, and `is_credential_visible` is true of it.
pub visible-gate :
    (a : AgentRecord) (id : ℕ) (db : Db) {c : CredentialRecord}
    → visible_credential a id db ≡ some c
    → (load_credential id db ≡ some c) × (is_credential_visible a c.row db ≡ true)
unfolding visible_credential
visible-gate a id db h = elim (Option-cases (load_credential id db)) [
  | inl e ↦ absurd (cc (rw (e, visible_credential) at h))
  | inr (r, e) ↦ elim (Bool-cases (is_credential_visible a r.row db)) [
    | inr no_sight ↦ absurd (cc (rw (e, no_sight, visible_credential) at h))
    | inl sight ↦
        let same = some-injective _ _ (rw (e, sight, visible_credential) at h) in
        (e ∙ ap some same, ap (λ x. is_credential_visible a x.row db) (sym same) ∙ sight)
  ]
]

pub visible-id :
    (a : AgentRecord) (id : ℕ) (db : Db) {c : CredentialRecord}
    → visible_credential a id db ≡ some c
    → c.id ≡ id
visible-id a id db h = load_credential-id id db (visible-gate a id db h).0

-- What a denial writes: one audit entry and one event.
abbrev pub denial_entry : AgentContext → PolicyAction → Option ℕ → PolicyDecision → AuditEntry
denial_entry ctx action credential_id d = record {
  org_id = ctx.agent.org_id;
  agent_id = some ctx.agent.id;
  session_id = none;
  workspace_id = ctx.workspace_id;
  credential_id = credential_id;
  credential_version = none;
  provider = none;
  operation = action_text action;
  access_mode = none;
  creation_source = none;
  introducing_agent_id = none;
  metadata_source = none;
  policy_decision = some deny;
  source_network = none;
  mcp_transport = none;
  result = AuditResult.denied;
  details = denial_reason d.reason;
}

abbrev pub denial_event : AgentContext → PolicyAction → Option ℕ → PolicyDecision → Event
denial_event ctx action credential_id d = record {
  event_type = EventType.access_denied;
  org_id = some ctx.agent.org_id;
  workspace_id = ctx.workspace_id;
  credential_id = credential_id;
  agent_id = some ctx.agent.id;
  payload = denial (action_text action) d.reason;
}

abbrev pub denied_db : AgentContext → PolicyAction → Option ℕ → PolicyDecision → Db → Db
denied_db ctx action credential_id d db = record db {
  audit_log = db.audit_log ++ denial_entry ctx action credential_id d ∷ [];
  events = db.events ++ denial_event ctx action credential_id d ∷ [];
}

module _ (now : ℕ) (policies : List Policy) (ctx : AgentContext) where
  pub enforce-deny :
      (action : PolicyAction) (id : Option ℕ) (d : PolicyDecision) (w : World)
      → enforce now policies ctx action id d deny w
        ≡ (raised (access_denied d.reason), record w { db = denied_db ctx action id d w.db })
  unfolding enforce transact record_access_denied ◌>>=◌ with_transaction Database.◌>>=◌ record_audit
      publish
  enforce-deny action id d w = refl

  -- The refusal of the policy gate: the error, and the denial in the tables.
  abbrev pub refused {ℓ} :
      {A : Type ℓ} → PolicyAction → Option ℕ → PolicyResource → World → Outcome A × World
  refused action id r w =
      let d = decision_for now policies ctx action r in
      (raised (access_denied d.reason), record w { db = denied_db ctx action id d w.db })

  pub require-allow :
      (action : PolicyAction) (id : Option ℕ) (r : PolicyResource) (w : World)
      → (decision_for now policies ctx action r).effect ≡ allow
      → require_policy now policies ctx action id r w
        ≡ (done (decision_for now policies ctx action r), w)
  unfolding require_policy enforce
  require-allow action id r w h = rw h refl

  pub require-deny :
      (action : PolicyAction) (id : Option ℕ) (r : PolicyResource) (w : World)
      → (decision_for now policies ctx action r).effect ≡ deny
      → require_policy now policies ctx action id r w ≡ refused action id r w
  unfolding require_policy
  require-deny action id r w h =
      let d = decision_for now policies ctx action r in
      ap (λ e. enforce now policies ctx action id d e w) h ∙ enforce-deny action id d w

  pub require-done :
      (action : PolicyAction) (id : Option ℕ) (r : PolicyResource) (w : World) {d : PolicyDecision}
      {end : World}
      → require_policy now policies ctx action id r w ≡ (done d, end)
      → (end ≡ w) × (d ≡ decision_for now policies ctx action r) × (d.effect ≡ allow)
  require-done action id r w {d} h =
      elim (Effect-cases (decision_for now policies ctx action r).effect) [
        | inl e ↦
            let same = done-same (sym (require-allow action id r w e) ∙ h) in
            (sym same.1, sym same.0, ap (λ x. x.effect) (sym same.0) ∙ e)
        | inr e ↦ absurd (cc (sym (require-deny action id r w e) ∙ h))
      ]

  pub load_visible-some :
      (id : ℕ) (w : World) {c : CredentialRecord}
      → visible_credential ctx.agent id w.db ≡ some c
      → load_visible_credential now policies ctx id w ≡ (done c, w)
  unfolding load_visible_credential
  load_visible-some id w h = rw h refl

  pub load_visible-none :
      (id : ℕ) (w : World)
      → visible_credential ctx.agent id w.db ≡ none
      → load_visible_credential now policies ctx id w ≡ (raised not_found, w)
  unfolding load_visible_credential
  load_visible-none id w h = rw h refl

  pub load_visible-done :
      (id : ℕ) (w : World) {c : CredentialRecord} {end : World}
      → load_visible_credential now policies ctx id w ≡ (done c, end)
      → (end ≡ w) × (visible_credential ctx.agent id w.db ≡ some c)
  load_visible-done id w {c} h = elim (Option-cases (visible_credential ctx.agent id w.db)) [
    | inl e ↦ absurd (cc (sym (load_visible-none id w e) ∙ h))
    | inr (a, e) ↦
        let same = done-same (sym (load_visible-some id w e) ∙ h) in
        (sym same.1, e ∙ ap some same.0)
  ]

  -- The credential and the decision that the gates let through.
  pub record IsCleared (action : PolicyAction) (id : ℕ) (w : World)
      (p : CredentialRecord × PolicyDecision) : Type 0 where
    pub is_visible : visible_credential ctx.agent id w.db ≡ some p.0
    pub is_decision : p.1 ≡ decision_for now policies ctx action (resource_of p.0)
    pub is_allowed : p.1.effect ≡ allow

  pub clear-done :
      (action : PolicyAction) (id : ℕ) (w : World) {p : CredentialRecord × PolicyDecision}
      {end : World}
      → clear now policies ctx action id w ≡ (done p, end)
      → (end ≡ w) × IsCleared action id w p
  unfolding clear
  clear-done action id w {p} {end} h = on_done _ _ w h λ c w1 e1 h1. on_done _ _ w1 h1 λ d w2 e2 h2.
      let (same1, seen) = load_visible-done id w e1 in
      let (same2, what, allowed) = require-done action (some c.id) (resource_of c) w1 e2 in
      let (pair, same3) = done-same h2 in
      (
        sym same3 ∙ (same2 ∙ same1),
        rw (← pair) (record { is_visible = seen; is_decision = what; is_allowed = allowed }),
      )

  pub clear-allowed :
      (action : PolicyAction) (id : ℕ) (w : World) {c : CredentialRecord}
      → visible_credential ctx.agent id w.db ≡ some c
      → (decision_for now policies ctx action (resource_of c)).effect ≡ allow
      → clear now policies ctx action id w
        ≡ (done (c, decision_for now policies ctx action (resource_of c)), w)
  unfolding clear
  clear-allowed action id w {c} h k =
      bind-done _ _ w (load_visible-some id w h)
      ∙ bind-done _ _ w (require-allow action (some c.id) (resource_of c) w k)

  pub clear-hidden :
      (action : PolicyAction) (id : ℕ) (w : World)
      → visible_credential ctx.agent id w.db ≡ none
      → clear now policies ctx action id w ≡ (raised not_found, w)
  unfolding clear
  clear-hidden action id w h = bind-raised _ _ w (load_visible-none id w h)

  pub clear-denied :
      (action : PolicyAction) (id : ℕ) (w : World) {c : CredentialRecord}
      → visible_credential ctx.agent id w.db ≡ some c
      → (decision_for now policies ctx action (resource_of c)).effect ≡ deny
      → clear now policies ctx action id w ≡ refused action (some c.id) (resource_of c) w
  unfolding clear
  clear-denied action id w {c} h k =
      bind-done _ _ w (load_visible-some id w h)
      ∙ bind-raised _ _ w (require-deny action (some c.id) (resource_of c) w k)

commit-done {ℓ} :
    {A : Type ℓ} (db : Db) (r : Result (A × Db)) {a : A} {end : Db}
    → elim r as (λ x. Result A × Db) [ ok (b, next) ↦ (ok b, next) | err e ↦ (err e, db) ]
      ≡ (ok a, end)
    → r ≡ ok (a, end)
commit-done db (ok (b, next)) h = cc h
commit-done db (err e) h = absurd (cc h)

outcome-done {ℓ} : {A : Type ℓ} (r : Result A) {a : A} → outcome r ≡ done a → r ≡ ok a
outcome-done (ok b) h = cc h
outcome-done (err e) h = absurd (cc h)

-- A transaction that a handler runs and that answers: its body committed, and the store of
-- sessions is as it was.
pub transact-done {ℓ} :
    {A : Type ℓ} (t : Tx A) (w : World) {a : A} {end : World}
    → transact t w ≡ (done a, end)
    → (t w.db ≡ ok (a, end.db)) × (end.sessions ≡ w.sessions)
unfolding transact with_transaction
transact-done t w {a} {end} h =
    let answered = outcome-done (with_transaction t w.db).0 (ap (λ p. p.0) h) in
    let tables = ap (λ p. p.1.db) h in
    (commit-done w.db (t w.db) (λ i. (answered i, tables i)), ap (λ p. p.1.sessions) (sym h))
