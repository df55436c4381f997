-- ===== src/Tools/Calls/Denial.antt =====
-- What a call does that the policy gate stops, and what a call has passed that answers.
use securestore.Common.{
  ℕ, String, Option, none, some, Bool, true, false, not, ◌⊎◌, if◌then◌else◌, ◌≡◌, refl, sym, ap,
  ◌∙◌, inl, inr, Bool-cases, Option-cases, List,
}
use securestore.Policy.Types.{PolicyAction, allow, deny, PolicyDecision}
use securestore.Credential.Types.{CredentialRecord, Value}
use securestore.Tools.{
  AgentContext, World, Action, clear, Outcome, done, ◌>>=◌, resource_of, visible_credential,
  decision_for, raise_if, capability_denied,
}
use securestore.Tools.Steps.{
  bind-done, bind-raised, refused, load_visible-some, load_visible-none, require-deny, clear-denied,
  Effect-cases,
}
use securestore.Tools.Secrets.{tool_secret_get, tool_secret_metadata}
use securestore.Tools.Changes.{
  tool_secret_update, tool_secret_enrich, tool_secret_rotate, tool_secret_revoke,
  tool_secret_delete, tool_secret_claim, tool_secret_share, tool_secret_transfer_ownership,
}
use securestore.Tools.Brokered.{
  credential_for, tool_credential_execute, tool_credential_validate,
  tool_credential_proxy_session_create, tool_credential_temporary_issue,
}
use securestore.Tools.Calls.{
  ToolCall, secret_get, secret_metadata, secret_claim, credential_validate, secret_update,
  secret_enrich, secret_rotate, secret_revoke, secret_delete, secret_share,
  secret_transfer_ownership, credential_execute, credential_proxy_session_create,
  credential_temporary_issue, approval_request, Response, executed, summary, Server, Fresh, answer,
  handle,
}
use securestore.Tools.Calls.Gates.{credential_of, executed_id, handle-hidden}

-- The action that the policy gate is asked for.
abbrev pub action_of : AgentContext → ToolCall → Option PolicyAction
action_of ctx (secret_get id) = some PolicyAction.secret_get
action_of ctx (secret_metadata id) = some PolicyAction.secret_metadata
action_of ctx (secret_claim id) = some PolicyAction.secret_enrich
action_of ctx (credential_validate id) = some PolicyAction.credential_validate
action_of ctx (secret_update id args) = some PolicyAction.secret_update
action_of ctx (secret_enrich id fields verified) =
    if ctx.agent.metadata_enrichment_permission then some PolicyAction.secret_enrich else none
action_of ctx (secret_rotate id value fields) = some PolicyAction.secret_rotate
action_of ctx (secret_revoke id why) = some PolicyAction.secret_revoke
action_of ctx (secret_delete id hard) = some PolicyAction.secret_delete
action_of ctx (secret_share id policy) = some PolicyAction.secret_share
action_of ctx (secret_transfer_ownership id to) = some PolicyAction.secret_share
action_of ctx (credential_execute args) = some PolicyAction.credential_execute
action_of ctx (credential_proxy_session_create id ttl uses) =
    some PolicyAction.credential_proxy_session_create
action_of ctx (credential_temporary_issue id ttl uses) =
    some PolicyAction.credential_temporary_issue
action_of ctx _ = none

abbrev pub is_request : ToolCall → Bool
is_request (approval_request args) = true
is_request _ = false

module _ (server : Server) (fresh : Fresh) (ctx : AgentContext) (w : World) where
  -- A call whose action and credential are known is refused if the policy gate denies it.
  Refuses : Option PolicyAction → Option ℕ → Outcome Response × World → Type 0
  Refuses (some action) (some id) o =
      (c : CredentialRecord)
      → visible_credential ctx.agent id w.db ≡ some c
      → (decision_for fresh.env.now server.policies ctx action (resource_of c)).effect ≡ deny
      → o ≡ refused fresh.env.now server.policies ctx action (some c.id) (resource_of c) w
  Refuses _ _ o = Unit {0}

  refuse :
      {A : Type 0} (f : A → Response) (action : PolicyAction) (id : ℕ)
      (k : CredentialRecord × PolicyDecision → Action A)
      → Refuses
          (some action)
          (some id)
          (answer f ((clear fresh.env.now server.policies ctx action id >>= k) w))
  unfolding Refuses
  refuse f action id k c h d =
      ap (answer f) (bind-raised _ k w (clear-denied _ _ ctx action id w h d))

  credential_for-refused :
      (token named : Option ℕ) (k : CredentialRecord → Action (ℕ × String))
      → Refuses
          (some PolicyAction.credential_execute)
          (executed_id token named)
          (answer executed ((credential_for fresh.env.now server.policies ctx token named >>= k) w))
  unfolding credential_for Refuses
  credential_for-refused (some t) named k = tt
  credential_for-refused none none k = tt
  credential_for-refused none (some named) k = λ c h d. ap (answer executed) (
      bind-raised _ k w
        (bind-raised _ _ w (clear-denied _ _ ctx PolicyAction.credential_execute named w h d)))

  enrich-refused :
      (id : ℕ) (fields : List (String × Value)) (verified : Option Bool)
      → Refuses
          (action_of ctx (secret_enrich id fields verified))
          (some id)
          (handle server fresh ctx (secret_enrich id fields verified) w)
  unfolding handle tool_secret_enrich Refuses
  enrich-refused id fields verified = elim (Bool-cases ctx.agent.metadata_enrichment_permission) [
    | inr e ↦ simp e tt
    | inl e ↦ simp e (λ c h d. ap (answer summary) (
        bind-done _ _ w (load_visible-some _ _ ctx id w h)
        ∙ bind-done _ _ w refl
        ∙ bind-raised _ _ w
            (require-deny _ _ ctx PolicyAction.secret_enrich (some c.id) (resource_of c) w d)))
  ]

  refused_call :
      (call : ToolCall)
      → Refuses (action_of ctx call) (credential_of call) (handle server fresh ctx call w)
  unfolding handle Refuses tool_secret_get tool_secret_metadata tool_secret_update
      tool_secret_rotate tool_secret_revoke tool_secret_delete tool_secret_claim tool_secret_share
      tool_secret_transfer_ownership tool_credential_execute tool_credential_validate
      tool_credential_proxy_session_create tool_credential_temporary_issue
  refused_call (secret_get i) = refuse _ _ i _
  refused_call (secret_metadata i) = refuse _ _ i _
  refused_call (secret_claim i) = refuse _ _ i _
  refused_call (credential_validate i) = refuse _ _ i _
  refused_call (secret_update i args) = refuse _ _ i _
  refused_call (secret_enrich i fields verified) = enrich-refused i fields verified
  refused_call (secret_rotate i value fields) = refuse _ _ i _
  refused_call (secret_revoke i why) = refuse _ _ i _
  refused_call (secret_delete i hard) = refuse _ _ i _
  refused_call (secret_share i policy) = refuse _ _ i _
  refused_call (secret_transfer_ownership i to) = refuse _ _ i _
  refused_call (credential_execute args) =
      credential_for-refused args.proxy_token args.credential_id _
  refused_call (credential_proxy_session_create i ttl uses) = refuse _ _ i _
  refused_call (credential_temporary_issue i ttl uses) = refuse _ _ i _
  refused_call _ = tt

  -- A call whose credential the agent may see, and whose action the policy engine denies, raises
  -- `access_denied` with the engine's reason, and all that it changes is that one audit entry and
  -- one event are added, which name the agent, its workspace, the credential, the action and the
  -- reason.
  pub handle-denied :
      (call : ToolCall) (action : PolicyAction) (id : ℕ) (c : CredentialRecord)
      → credential_of call ≡ some id
      → action_of ctx call ≡ some action
      → visible_credential ctx.agent id w.db ≡ some c
      → (decision_for fresh.env.now server.policies ctx action (resource_of c)).effect ≡ deny
      → handle server fresh ctx call w
        ≡ refused fresh.env.now server.policies ctx action (some c.id) (resource_of c) w
  unfolding Refuses
  handle-denied call action id c e k h d = let all = refused_call call in (rw (e, k) at all) c h d

  -- The policy engine was asked about the credential, and allowed the action of the call.
  pub Allows : ToolCall → CredentialRecord → Type 0
  Allows call c =
      (action : PolicyAction) × (action_of ctx call ≡ some action)
      × ((decision_for fresh.env.now server.policies ctx action (resource_of c)).effect ≡ allow)

  enrich_done :
      (i : ℕ) (fields : List (String × Value)) (verified : Option Bool) {r : Response} {end : World}
      → handle server fresh ctx (secret_enrich i fields verified) w ≡ (done r, end)
      → ((action : PolicyAction) × (action_of ctx (secret_enrich i fields verified) ≡ some action))
        ⊎ (is_request (secret_enrich i fields verified) ≡ true)
  unfolding handle tool_secret_enrich
  enrich_done i fields verified h = elim (Bool-cases ctx.agent.metadata_enrichment_permission) [
    | inl e ↦ inl (PolicyAction.secret_enrich, rw e refl)
    | inr e ↦ elim (Option-cases (visible_credential ctx.agent i w.db)) [
      | inl gone ↦ absurd (
          cc (
            sym (ap (answer summary) (bind-raised _ _ w (load_visible-none _ _ ctx i w gone))) ∙ h))
      | inr (c, seen) ↦ absurd (
          cc (
            sym (
              ap (answer summary) (
                bind-done _ _ w (load_visible-some _ _ ctx i w seen)
                ∙ bind-raised _ _ w (ap (λ b. raise_if (not b) capability_denied w) e)))
            ∙ h))
    ]
  ]

  action_or_request :
      (call : ToolCall) (id : ℕ) {r : Response} {end : World}
      → credential_of call ≡ some id
      → handle server fresh ctx call w ≡ (done r, end)
      → ((action : PolicyAction) × (action_of ctx call ≡ some action)) ⊎ (is_request call ≡ true)
  action_or_request (secret_get i) id e h = inl (_, refl)
  action_or_request (secret_metadata i) id e h = inl (_, refl)
  action_or_request (secret_claim i) id e h = inl (_, refl)
  action_or_request (credential_validate i) id e h = inl (_, refl)
  action_or_request (secret_update i args) id e h = inl (_, refl)
  action_or_request (secret_rotate i value fields) id e h = inl (_, refl)
  action_or_request (secret_revoke i why) id e h = inl (_, refl)
  action_or_request (secret_delete i hard) id e h = inl (_, refl)
  action_or_request (secret_share i policy) id e h = inl (_, refl)
  action_or_request (secret_transfer_ownership i to) id e h = inl (_, refl)
  action_or_request (credential_execute args) id e h = inl (_, refl)
  action_or_request (credential_proxy_session_create i ttl uses) id e h = inl (_, refl)
  action_or_request (credential_temporary_issue i ttl uses) id e h = inl (_, refl)
  action_or_request (secret_enrich i fields verified) id e h = enrich_done i fields verified h
  action_or_request (approval_request args) id e h = inr refl
  action_or_request _ id e h = absurd (cc e)

  allowed_call :
      (call : ToolCall) (action : PolicyAction) (id : ℕ) (c : CredentialRecord) {r : Response}
      {end : World}
      → credential_of call ≡ some id
      → action_of ctx call ≡ some action
      → visible_credential ctx.agent id w.db ≡ some c
      → handle server fresh ctx call w ≡ (done r, end)
      → (decision_for fresh.env.now server.policies ctx action (resource_of c)).effect ≡ allow
  allowed_call call action id c e k seen h =
      elim (Effect-cases
        (decision_for fresh.env.now server.policies ctx action (resource_of c)).effect) [
          | inl allowed ↦ allowed
          | inr denied ↦ absurd (cc (sym (handle-denied call action id c e k seen denied) ∙ h))
        ]

  -- Complete mediation: if a call that names a credential by its id has an answer, the agent may
  -- see that credential; and the policy engine allows the call's action on it, unless the call is
  -- an approval request, which has no action of its own.
  pub handle-IsCleared :
      (call : ToolCall) (id : ℕ) {r : Response} {end : World}
      → credential_of call ≡ some id
      → handle server fresh ctx call w ≡ (done r, end)
      → (c : CredentialRecord) × (visible_credential ctx.agent id w.db ≡ some c)
        × (Allows call c ⊎ (is_request call ≡ true))
  unfolding Allows
  handle-IsCleared call id e h = elim (Option-cases (visible_credential ctx.agent id w.db)) [
    | inl gone ↦ absurd (cc (sym (handle-hidden server fresh ctx w call id e gone) ∙ h))
    | inr (c, seen) ↦ (
      c,
      seen,
      elim (action_or_request call id e h) [
        | inl (action, k) ↦ inl (action, k, allowed_call call action id c e k seen h)
        | inr request ↦ inr request
      ],
    )
  ]
