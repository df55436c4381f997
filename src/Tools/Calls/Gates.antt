-- ===== src/Tools/Calls/Gates.antt =====
-- What a call does that the visibility gate stops.
use securestore.Common.{
  ℕ, String, Option, none, some, not, truthy, if◌then◌else◌, ◌≡◌, ap, ◌∙◌, inl, inr, Bool-cases,
}
use securestore.Policy.Types.{PolicyAction, PolicyDecision}
use securestore.Credential.Types.{CredentialRecord}
use securestore.Tools.{
  AgentContext, not_found, bad_request, World, Action, clear, Outcome, raised, ◌>>=◌,
  visible_credential, raise_if,
}
use securestore.Tools.Steps.{bind-done, bind-raised, load_visible-none, clear-hidden}
use securestore.Tools.Secrets.{tool_secret_get, tool_secret_metadata}
use securestore.Tools.Changes.{
  tool_secret_update, tool_secret_enrich, tool_secret_rotate, tool_secret_revoke,
  tool_secret_delete, tool_secret_claim, tool_secret_share, tool_secret_transfer_ownership,
}
use securestore.Tools.Brokered.{
  credential_for, tool_credential_execute, tool_credential_validate,
  tool_credential_proxy_session_create, tool_credential_temporary_issue,
}
use securestore.Tools.Oversight.{create, decide, status, tool_approval_request, request_approval}
use securestore.Tools.Calls.{
  ToolCall, secret_get, secret_metadata, secret_claim, credential_validate, secret_update,
  secret_enrich, secret_rotate, secret_revoke, secret_delete, secret_share,
  secret_transfer_ownership, credential_execute, credential_proxy_session_create,
  credential_temporary_issue, approval_request, Response, Server, Fresh, answer, handle,
}

abbrev pub executed_id : (proxy_token credential_id : Option ℕ) → Option ℕ
executed_id none credential_id = credential_id
executed_id (some token) credential_id = none

-- The credential that a call names by its id.
abbrev pub credential_of : ToolCall → Option ℕ
credential_of (secret_get id) = some id
credential_of (secret_metadata id) = some id
credential_of (secret_claim id) = some id
credential_of (credential_validate id) = some id
credential_of (secret_update id args) = some id
credential_of (secret_enrich id fields verified) = some id
credential_of (secret_rotate id value fields) = some id
credential_of (secret_revoke id why) = some id
credential_of (secret_delete id hard) = some id
credential_of (secret_share id policy) = some id
credential_of (secret_transfer_ownership id to) = some id
credential_of (credential_execute args) = executed_id args.proxy_token args.credential_id
credential_of (credential_proxy_session_create id ttl uses) = some id
credential_of (credential_temporary_issue id ttl uses) = some id
credential_of (approval_request (create (some id) (some operation))) =
    if truthy (some operation) then some id else none
credential_of _ = none

module _ (server : Server) (fresh : Fresh) (ctx : AgentContext) (w : World) where
  abbrev stopped {ℓ} : {A : Type ℓ} → Outcome A × World
  stopped = (raised not_found, w)

  IsHidden : Option ℕ → Type 0
  IsHidden none = ⊥
  IsHidden (some id) = visible_credential ctx.agent id w.db ≡ none

  -- A handler that begins with both gates.
  stop :
      {A : Type 0} (f : A → Response) (action : PolicyAction) (id : ℕ)
      (k : CredentialRecord × PolicyDecision → Action A)
      → visible_credential ctx.agent id w.db ≡ none
      → answer f ((clear fresh.env.now server.policies ctx action id >>= k) w) ≡ stopped
  stop f action id k h = ap (answer f) (bind-raised _ k w (clear-hidden _ _ ctx action id w h))

  credential_for-hidden :
      (token named : Option ℕ)
      → IsHidden (executed_id token named)
      → credential_for fresh.env.now server.policies ctx token named w ≡ stopped
  unfolding credential_for IsHidden
  credential_for-hidden (some t) named h = absurd h
  credential_for-hidden none none h = absurd h
  credential_for-hidden none (some named) h = bind-raised _ _ w (clear-hidden _ _ ctx _ named w h)

  request-hidden :
      (id : ℕ) (operation : String)
      → IsHidden (if truthy (some operation) then some id else none)
      → request_approval fresh.env.now server.policies ctx fresh.uuid (some id) (some operation) w
        ≡ stopped
  unfolding request_approval IsHidden
  request-hidden id operation h = elim (Bool-cases (truthy (some operation))) [
    | inl e ↦
        bind-done _ _ w (ap (λ b. raise_if (not b) bad_request w) e)
        ∙ bind-raised _ _ w (load_visible-none _ _ ctx id w (rw e at h))
    | inr e ↦ absurd (rw e at h)
  ]

  stopped_call :
      (call : ToolCall) → IsHidden (credential_of call) → handle server fresh ctx call w ≡ stopped
  unfolding handle IsHidden tool_secret_get tool_secret_metadata tool_secret_update
      tool_secret_enrich tool_secret_rotate tool_secret_revoke tool_secret_delete tool_secret_claim
      tool_secret_share tool_secret_transfer_ownership tool_credential_execute
      tool_credential_validate tool_credential_proxy_session_create tool_credential_temporary_issue
      tool_approval_request
  stopped_call (secret_get i) h = stop _ _ i _ h
  stopped_call (secret_metadata i) h = stop _ _ i _ h
  stopped_call (secret_claim i) h = stop _ _ i _ h
  stopped_call (credential_validate i) h = stop _ _ i _ h
  stopped_call (secret_update i args) h = stop _ _ i _ h
  stopped_call (secret_enrich i fields verified) h =
      ap (answer _) (bind-raised _ _ w (load_visible-none _ _ ctx i w h))
  stopped_call (secret_rotate i value fields) h = stop _ _ i _ h
  stopped_call (secret_revoke i why) h = stop _ _ i _ h
  stopped_call (secret_delete i hard) h = stop _ _ i _ h
  stopped_call (secret_share i policy) h = stop _ _ i _ h
  stopped_call (secret_transfer_ownership i to) h = stop _ _ i _ h
  stopped_call (credential_execute args) h =
      ap (answer _)
        (bind-raised _ _ w (credential_for-hidden args.proxy_token args.credential_id h))
  stopped_call (credential_proxy_session_create i ttl uses) h = stop _ _ i _ h
  stopped_call (credential_temporary_issue i ttl uses) h = stop _ _ i _ h
  stopped_call (approval_request (create (some i) (some operation))) h =
      ap (answer _) (request-hidden i operation h)
  stopped_call (approval_request (create none operation)) h = absurd h
  stopped_call (approval_request (create (some i) none)) h = absurd h
  stopped_call (approval_request (decide i approve why)) h = absurd h
  stopped_call (approval_request (status i)) h = absurd h
  stopped_call _ h = absurd h

  -- Every call that names a credential by its id raises `not_found`, whether there is no such
  -- credential or the agent may not see it, and changes nothing: neither the tables, nor the
  -- sessions, nor the audit log.
  pub handle-hidden :
      (call : ToolCall) (id : ℕ)
      → credential_of call ≡ some id
      → visible_credential ctx.agent id w.db ≡ none
      → handle server fresh ctx call w ≡ (raised not_found, w)
  unfolding IsHidden
  handle-hidden call id e h = stopped_call call (rw e h)
