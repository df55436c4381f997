-- ===== src/Tools/Extent/Handlers.antt =====
-- Which row of `credentials` the handlers may change.
use securestore.Common.{
  Bool-cases, inl, inr, any, includes, not, ◌&&◌, ◌≡◌, refl, nat_eq, ℕ, String, Option, none, some,
  List, Bool, true, false, ◌≡◌, refl,
}
use securestore.Policy.Types.{AccessMode, Policy, PolicyAction, ℤ}
use securestore.Policy.Approval.{create_approval_request, decide_approval, is_approval_of}
use securestore.Session.{ProxySession}
use securestore.Credential.Versions.{Env}
use securestore.Crypto.{CryptoLib}
use securestore.Credential.Types.{CredentialRecord, Value}
use securestore.Credential.Lifecycle.{reveal_secret_for_brokered_use}
use securestore.Credential.Extent.{
  Keeps, TxKeeps, bind-TxKeeps, gets-TxKeeps, plaintext_of-TxKeeps, update-TxKeeps,
  load_existing-TxKeeps,
}
use securestore.Credential.Extent.Operations.{
  reveal-TxKeeps, update_metadata-TxKeeps, transfer-TxKeeps,
}
use securestore.Database.{Tx, Ownership, record_audit, publish}
use securestore.Database.Steps.{ok-state}
use securestore.Tools.{clear, transact, return, AgentContext, ◌>>=◌}
use securestore.Credential.Extent.{TxKeeps, Keeps}
use securestore.Database.Steps.{ok-state}
use securestore.Tools.Extent.{
  ActionKeeps, bind-ActionKeeps, return-ActionKeeps, raise-ActionKeeps, reads-ActionKeeps,
  raise_if-ActionKeeps, or_raise-ActionKeeps, transact-ActionKeeps, load_visible-ActionKeeps,
  require_policy-ActionKeeps, clear-ActionKeeps, clear_bind-ActionKeeps, same-Keeps,
}
use securestore.Tools.Secrets.{create_approval, get_cleared, tool_secret_get}
use securestore.Tools.Changes.{
  UpdateArgs, apply_update, check_target, tool_secret_enrich, tool_secret_transfer_ownership,
}
use securestore.Tools.Brokered.{
  Answer, responded, failed, Adapter, ExecuteArgs, redeem_token, create_session, own_session,
  credential_for, conclude_execution, record_use, tool_credential_execute,
  tool_credential_proxy_session_create, tool_credential_temporary_issue,
}
use securestore.Tools.Oversight.{
  ApprovalArgs, create, decide, status, request_approval, decide_row, tool_approval_request,
}

module _ (o : Option ℕ) where
  pub create_approval-ActionKeeps :
      (now uuid credential_id agent_id : ℕ) (operation : String)
      → ActionKeeps o (create_approval now uuid credential_id agent_id operation)
  unfolding ActionKeeps create_approval_request Keeps
  create_approval-ActionKeeps now uuid credential_id agent_id operation w id apart = refl

  pub redeem_token-ActionKeeps : (now token : ℕ) → ActionKeeps o (redeem_token now token)
  unfolding ActionKeeps redeem_token
  redeem_token-ActionKeeps now token w = same-Keeps o w.db

  pub create_session-ActionKeeps :
      (now token ttl : ℕ) (s : ProxySession) → ActionKeeps o (create_session now token ttl s)
  unfolding ActionKeeps create_session
  create_session-ActionKeeps now token ttl s w = same-Keeps o w.db

  pub brokered-TxKeeps :
      (lib : CryptoLib) (id : ℕ) → TxKeeps o (reveal_secret_for_brokered_use lib id)
  unfolding reveal_secret_for_brokered_use
  brokered-TxKeeps lib id =
      bind-TxKeeps o _ _ (gets-TxKeeps o _) λ found. plaintext_of-TxKeeps o lib found

module _ (lib : CryptoLib) (env : Env) (policies : List Policy) (ctx : AgentContext) where
  pub get_cleared-ActionKeeps :
      (uuid id : ℕ) (cred : CredentialRecord) (requires_approval direct : Bool) (mode : AccessMode)
      → cred.id ≡ id
      → ActionKeeps
          (some id)
          (get_cleared lib env policies ctx uuid cred requires_approval direct mode)
  unfolding get_cleared
  get_cleared-ActionKeeps uuid id cred true direct mode own =
      bind-ActionKeeps (some id) _ _ (create_approval-ActionKeeps (some id) _ _ _ _ _)
        λ u. return-ActionKeeps (some id) _
  get_cleared-ActionKeeps uuid id cred false true mode own =
      bind-ActionKeeps (some id) _ _
        (transact-ActionKeeps (some id) _
          (rw (← own) (reveal-TxKeeps env.now cred.id ctx.agent.id lib _)))
        λ value. return-ActionKeeps (some id) _
  get_cleared-ActionKeeps uuid id cred false false mode own = raise-ActionKeeps (some id) _ _

  pub secret_get-ActionKeeps :
      (uuid id : ℕ) → ActionKeeps (some id) (tool_secret_get lib env policies ctx uuid id)
  unfolding tool_secret_get
  secret_get-ActionKeeps uuid id =
      clear_bind-ActionKeeps (some id) _ _ ctx _ id _
        λ p own. get_cleared-ActionKeeps uuid id p.0 _ _ _ own

module _ (now : ℕ) (policies : List Policy) (ctx : AgentContext) (id : ℕ) where
  pub apply_update-ActionKeeps :
      (args : UpdateArgs) (cred : CredentialRecord) (nothing : Bool)
      → ActionKeeps (some id) (apply_update now policies ctx id args cred nothing)
  apply_update-ActionKeeps args cred true = return-ActionKeeps (some id) _
  apply_update-ActionKeeps args cred false =
      bind-ActionKeeps (some id) _ _
        (transact-ActionKeeps (some id) _ (update-TxKeeps id _ λ c. refl))
        λ u.
          bind-ActionKeeps (some id) _ _
            (transact-ActionKeeps (some id) _ (load_existing-TxKeeps (some id) id))
            λ found. return-ActionKeeps (some id) _

  -- A handler that passes the gates and then runs one operation.
  pub gated-ActionKeeps :
      {A B : Type 0} (action : PolicyAction) (t : Tx A) (k : A → B)
      → TxKeeps (some id) t
      → ActionKeeps
          (some id)
          (clear now policies ctx action id >>= λ cleared. (transact t >>= λ a. return (k a)))
  gated-ActionKeeps action t k keep =
      bind-ActionKeeps (some id) _ _ (clear-ActionKeeps (some id) now policies ctx action id) λ p.
        bind-ActionKeeps (some id) _ _ (transact-ActionKeeps (some id) t keep)
          λ a. return-ActionKeeps (some id) _

  pub enrich-ActionKeeps :
      (fields : List (String × Value)) (verified : Option Bool)
      → ActionKeeps (some id) (tool_secret_enrich now policies ctx id fields verified)
  unfolding tool_secret_enrich
  enrich-ActionKeeps fields verified =
      bind-ActionKeeps (some id) _ _ (load_visible-ActionKeeps (some id) now policies ctx id)
        λ cred. bind-ActionKeeps (some id) _ _ (raise_if-ActionKeeps (some id) _ _) λ u.
          bind-ActionKeeps (some id) _ _
            (require_policy-ActionKeeps (some id) now policies ctx _ _ _)
            λ d.
              bind-ActionKeeps (some id) _ _
                (transact-ActionKeeps (some id) _ (update_metadata-TxKeeps now id ctx.agent.id _ _))
                λ found. return-ActionKeeps (some id) _

  pub check_target-ActionKeeps :
      (to : Option ℕ) → ActionKeeps (some id) (check_target now policies ctx to)
  unfolding check_target
  check_target-ActionKeeps none = return-ActionKeeps (some id) _
  check_target-ActionKeeps (some to) =
      bind-ActionKeeps (some id) _ _ (reads-ActionKeeps (some id) _)
        λ target. raise_if-ActionKeeps (some id) _ _

  pub transfer-ActionKeeps :
      (to : Ownership)
      → ActionKeeps (some id) (tool_secret_transfer_ownership now policies ctx id to)
  unfolding tool_secret_transfer_ownership
  transfer-ActionKeeps to =
      bind-ActionKeeps (some id) _ _ (clear-ActionKeeps (some id) now policies ctx _ id) λ p.
        bind-ActionKeeps (some id) _ _ (raise_if-ActionKeeps (some id) _ _) λ u.
          bind-ActionKeeps (some id) _ _ (check_target-ActionKeeps to.owner_agent_id) λ u1.
            bind-ActionKeeps (some id) _ _
              (transact-ActionKeeps (some id) _ (transfer-TxKeeps now id ctx.agent.id to))
              λ found. return-ActionKeeps (some id) _

module _ (now : ℕ) (policies : List Policy) (ctx : AgentContext) (o : Option ℕ) where
  own_session-ActionKeeps : (token : ℕ) → ActionKeeps o (own_session now policies ctx token)
  unfolding own_session
  own_session-ActionKeeps token =
      bind-ActionKeeps o _ _ (redeem_token-ActionKeeps o now token) λ found.
        bind-ActionKeeps o _ _ (or_raise-ActionKeeps o _ found) λ session.
          bind-ActionKeeps o _ _ (raise_if-ActionKeeps o _ _) λ u. return-ActionKeeps o session

  credential_for-ActionKeeps :
      (token named : Option ℕ) → ActionKeeps o (credential_for now policies ctx token named)
  unfolding credential_for
  credential_for-ActionKeeps (some token) named =
      bind-ActionKeeps o _ _ (own_session-ActionKeeps token) λ session.
        bind-ActionKeeps o _ _ (reads-ActionKeeps o _) λ found. or_raise-ActionKeeps o _ found
  credential_for-ActionKeeps none none = raise-ActionKeeps o _ _
  credential_for-ActionKeeps none (some id) =
      bind-ActionKeeps o _ _ (clear-ActionKeeps o now policies ctx _ id) λ p. return-ActionKeeps o _

  record_use-TxKeeps :
      (cred : CredentialRecord) (operation : String) (code : ℕ)
      → TxKeeps o (record_use now policies ctx cred operation code)
  unfolding TxKeeps Keeps record_audit publish
  record_use-TxKeeps cred operation code db a end h id apart = rw (← (ok-state h).1) refl

  conclude-ActionKeeps :
      (adapter : Adapter) (cred : CredentialRecord) (operation : String) (a : Answer)
      → ActionKeeps o (conclude_execution now policies ctx adapter cred operation a)
  unfolding conclude_execution
  conclude-ActionKeeps adapter cred operation (failed message) = raise-ActionKeeps o _ _
  conclude-ActionKeeps adapter cred operation (responded code body) =
      bind-ActionKeeps o _ _ (transact-ActionKeeps o _ (record_use-TxKeeps cred operation code))
        λ u. return-ActionKeeps o _

  pub execute-ActionKeeps :
      (resolve : (provider credential_type : String) → Adapter) (lib : CryptoLib)
      (args : ExecuteArgs)
      → ActionKeeps o (tool_credential_execute now policies ctx resolve lib args)
  unfolding tool_credential_execute
  execute-ActionKeeps resolve lib args =
      bind-ActionKeeps o _ _ (credential_for-ActionKeeps args.proxy_token args.credential_id)
        λ cred.
          bind-ActionKeeps o _ _ (transact-ActionKeeps o _ (brokered-TxKeeps o lib cred.id))
            λ used. conclude-ActionKeeps _ cred _ _

  pub session-ActionKeeps :
      (token id : ℕ) (ttl : Option ℕ) (uses : Option ℤ)
      → ActionKeeps o (tool_credential_proxy_session_create now policies ctx token id ttl uses)
  unfolding tool_credential_proxy_session_create
  session-ActionKeeps token id ttl uses =
      bind-ActionKeeps o _ _ (clear-ActionKeeps o now policies ctx _ id)
        λ p. create_session-ActionKeeps o now token _ _

  pub temporary-ActionKeeps :
      (token id : ℕ) (ttl : Option ℕ) (uses : Option ℤ)
      → ActionKeeps o (tool_credential_temporary_issue now policies ctx token id ttl uses)
  unfolding tool_credential_temporary_issue
  temporary-ActionKeeps token id ttl uses =
      bind-ActionKeeps o _ _ (clear-ActionKeeps o now policies ctx _ id)
        λ p. create_session-ActionKeeps o now token _ _

  pub request-ActionKeeps :
      (uuid : ℕ) (named : Option ℕ) (operation : Option String)
      → ActionKeeps o (request_approval now policies ctx uuid named operation)
  unfolding request_approval
  request-ActionKeeps uuid (some id) (some operation) =
      bind-ActionKeeps o _ _ (raise_if-ActionKeeps o _ _) λ u.
        bind-ActionKeeps o _ _ (load_visible-ActionKeeps o now policies ctx id) λ cred.
          bind-ActionKeeps o _ _ (create_approval-ActionKeeps o _ _ _ _ _)
            λ made. return-ActionKeeps o _
  request-ActionKeeps uuid (some id) none = raise-ActionKeeps o _ _
  request-ActionKeeps uuid none (some operation) = raise-ActionKeeps o _ _
  request-ActionKeeps uuid none none = raise-ActionKeeps o _ _

  decide-TxKeeps :
      (org_id id by : ℕ) (approve : Bool) (why : Option String)
      → TxKeeps o (decide_approval now org_id id by approve why)
  unfolding TxKeeps decide_approval Keeps
  decide-TxKeeps org_id id by approve why db found end h row apart =
      elim (Bool-cases
        (any (is_approval_of db org_id id) db.approvals && not (includes db.users by))) [
          | inl e ↦ absurd (cc (rw e at h))
          | inr e ↦ rw (← (ok-state (rw e at h)).1) refl
        ]

  decide_row-ActionKeeps :
      (id : ℕ) (approve : Option Bool) (why : Option String)
      → ActionKeeps o (decide_row now policies ctx id approve why)
  decide_row-ActionKeeps id approve why =
      transact-ActionKeeps o _ (decide-TxKeeps ctx.agent.org_id id ctx.agent.id _ why)

  pub approval-ActionKeeps :
      (uuid : ℕ) (args : ApprovalArgs)
      → ActionKeeps o (tool_approval_request now policies ctx uuid args)
  unfolding tool_approval_request
  approval-ActionKeeps uuid (create named operation) = request-ActionKeeps uuid named operation
  approval-ActionKeeps uuid (decide id approve why) =
      bind-ActionKeeps o _ _ (raise_if-ActionKeeps o _ _) λ u.
        bind-ActionKeeps o _ _ (or_raise-ActionKeeps o _ id) λ given.
          bind-ActionKeeps o _ _ (decide_row-ActionKeeps given approve why) λ decided.
            bind-ActionKeeps o _ _ (or_raise-ActionKeeps o _ decided)
              λ found. return-ActionKeeps o _
  approval-ActionKeeps uuid (status id) =
      bind-ActionKeeps o _ _ (or_raise-ActionKeeps o _ id) λ given.
        bind-ActionKeeps o _ _ (reads-ActionKeeps o _) λ current.
          bind-ActionKeeps o _ _ (or_raise-ActionKeeps o _ current) λ found. return-ActionKeeps o _
