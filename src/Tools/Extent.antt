-- ===== src/Tools/Extent.antt =====
-- Which row of `credentials` an action may change, and that the two gates change none.
pub mod Handlers
use mathlib.Core.Option.{some-injective}
use securestore.Common.{
  ℕ, String, Option, none, some, List, Bool, true, false, not, nat_beq, nat_beq_iff, find?, truthy,
  ◌≡◌, ◌≢◌, refl, sym, ap, ◌∙◌, arith, ◌⊎◌, inl, inr, Bool-cases, Option-cases,
}
use securestore.Policy.Types.{
  PolicyAction, PolicyDecision, Policy, PolicyResource, Reason, Effect, allow, deny,
}
use securestore.Policy.Approval.{record_access_denied, create_approval_request, decide_approval}
use securestore.Credential.Types.{Credential, CredentialRecord, Value}
use securestore.Credential.Queries.{has_id, load_credential}
use securestore.Credential.Extent.{
  Keeps, TxKeeps, bind-TxKeeps, record_audit-TxKeeps, publish-TxKeeps,
}
use securestore.Credential.Extent.Operations.{
  load_credential-row, reveal-TxKeeps, update_metadata-TxKeeps, revoke-TxKeeps, delete-TxKeeps,
  claim-TxKeeps, share-TxKeeps, transfer-TxKeeps, mark_validation-TxKeeps,
}
use securestore.Tools.Steps.{clear-done, visible-id}
use securestore.Database.{Db, Tx, Result, ok, err, with_transaction}
use securestore.Tools.{
  AgentContext, ToolError, not_found, World, Outcome, done, raised, Action, continue, ◌>>=◌, return,
  raise, raise_if, reads, or_raise, outcome, transact, visible_credential, load_visible_credential,
  decision_for, enforce, require_policy, clear,
}

-- What an action does to the rows of credentials, whether it answers or raises.
unfoldable pub ActionKeeps {ℓ} : {A : Type ℓ} → Option ℕ → Action A → Type 0
ActionKeeps o m = (w : World) → Keeps o w.db (m w).1.db

continue-Keeps {ℓ} :
    {A B : Type ℓ} (o : Option ℕ) (start : Db) (f : A → Action B) (r : Outcome A × World)
    → Keeps o start r.1.db
    → ((a : A) (mid : World) → r ≡ (done a, mid) → Keeps o mid.db (f a mid).1.db)
    → Keeps o start (continue f r).1.db
unfolding Keeps
continue-Keeps o start f (done a, mid) first rest =
    λ id apart. rest a mid refl id apart ∙ first id apart
continue-Keeps o start f (raised e, mid) first rest = first

module _ {ℓ} {A B : Type ℓ} (o : Option ℕ) where
  pub bind-ActionKeeps :
      (m : Action A) (f : A → Action B)
      → ActionKeeps o m
      → ((a : A) → ActionKeeps o (f a))
      → ActionKeeps o (m >>= f)
  unfolding ActionKeeps ◌>>=◌
  bind-ActionKeeps m f first rest w = continue-Keeps o w.db f (m w) (first w) λ a mid e. rest a mid

  -- The same, when the rest needs to know what the first step answered.
  pub bind_knowing-ActionKeeps :
      (m : Action A) (f : A → Action B)
      → ActionKeeps o m
      → ((w : World) (a : A) (mid : World) → m w ≡ (done a, mid) → ActionKeeps o (f a))
      → ActionKeeps o (m >>= f)
  unfolding ActionKeeps ◌>>=◌
  bind_knowing-ActionKeeps m f first rest w =
      continue-Keeps o w.db f (m w) (first w) λ a mid e. rest w a mid e mid

module _ (o : Option ℕ) where
  pub same-Keeps : (db : Db) → Keeps o db db
  unfolding Keeps
  same-Keeps db id apart = refl

  pub return-ActionKeeps {ℓ} : {A : Type ℓ} (a : A) → ActionKeeps o (return a)
  unfolding ActionKeeps
  return-ActionKeeps a w = same-Keeps w.db

  pub raise-ActionKeeps {ℓ} : (A : Type ℓ) (e : ToolError) → ActionKeeps o (raise {A = A} e)
  unfolding ActionKeeps
  raise-ActionKeeps A e w = same-Keeps w.db

  pub reads-ActionKeeps {ℓ} : {A : Type ℓ} (f : Db → A) → ActionKeeps o (reads f)
  unfolding ActionKeeps
  reads-ActionKeeps f w = same-Keeps w.db

  pub raise_if-ActionKeeps : (b : Bool) (e : ToolError) → ActionKeeps o (raise_if b e)
  raise_if-ActionKeeps true e = raise-ActionKeeps _ e
  raise_if-ActionKeeps false e = return-ActionKeeps tt

  pub or_raise-ActionKeeps {ℓ} :
      {A : Type ℓ} (e : ToolError) (found : Option A) → ActionKeeps o (or_raise e found)
  or_raise-ActionKeeps e none = raise-ActionKeeps _ e
  or_raise-ActionKeeps e (some a) = return-ActionKeeps a

  commit-Keeps {ℓ} :
      {A : Type ℓ} (db : Db) (r : Result (A × Db))
      → ((a : A) (end : Db) → r ≡ ok (a, end) → Keeps o db end)
      → Keeps o db
          (elim r as (λ x. Result A × Db) [ ok (a, db') ↦ (ok a, db') | err e ↦ (err e, db) ]).1
  commit-Keeps db (ok (a, end)) keep = keep a end refl
  commit-Keeps db (err e) keep = same-Keeps db

  pub transact-ActionKeeps {ℓ} : {A : Type ℓ} (t : Tx A) → TxKeeps o t → ActionKeeps o (transact t)
  unfolding ActionKeeps TxKeeps transact with_transaction
  transact-ActionKeeps t keep w = commit-Keeps w.db (t w.db) (keep w.db)

  pub load_visible-ActionKeeps :
      (now : ℕ) (policies : List Policy) (ctx : AgentContext) (id : ℕ)
      → ActionKeeps o (load_visible_credential now policies ctx id)
  unfolding load_visible_credential ActionKeeps
  load_visible-ActionKeeps now policies ctx id w =
      or_raise-ActionKeeps not_found (visible_credential ctx.agent id w.db) w

  denied-TxKeeps :
      (org agent : ℕ) (workspace credential : Option ℕ) (operation : String) (why : Reason)
      → TxKeeps o (record_access_denied org agent workspace credential operation why)
  unfolding record_access_denied
  denied-TxKeeps org agent workspace credential operation why =
      bind-TxKeeps o _ _ (record_audit-TxKeeps o _) λ u. publish-TxKeeps o _ _ _ _ _ _

  enforce-ActionKeeps :
      (now : ℕ) (policies : List Policy) (ctx : AgentContext) (action : PolicyAction)
      (id : Option ℕ) (d : PolicyDecision) (e : Effect)
      → ActionKeeps o (enforce now policies ctx action id d e)
  unfolding enforce
  enforce-ActionKeeps now policies ctx action id d allow = return-ActionKeeps d
  enforce-ActionKeeps now policies ctx action id d deny =
      bind-ActionKeeps o _ _ (transact-ActionKeeps _ (denied-TxKeeps _ _ _ _ _ _))
        λ u. raise-ActionKeeps _ _

  pub require_policy-ActionKeeps :
      (now : ℕ) (policies : List Policy) (ctx : AgentContext) (action : PolicyAction)
      (id : Option ℕ) (r : PolicyResource)
      → ActionKeeps o (require_policy now policies ctx action id r)
  unfolding require_policy
  require_policy-ActionKeeps now policies ctx action id r =
      enforce-ActionKeeps now policies ctx action id _ _

  pub clear-ActionKeeps :
      (now : ℕ) (policies : List Policy) (ctx : AgentContext) (action : PolicyAction) (id : ℕ)
      → ActionKeeps o (clear now policies ctx action id)
  unfolding clear
  clear-ActionKeeps now policies ctx action id =
      bind-ActionKeeps o _ _ (load_visible-ActionKeeps now policies ctx id) λ cred.
        bind-ActionKeeps o _ _ (require_policy-ActionKeeps now policies ctx action _ _)
          λ d. return-ActionKeeps _

  -- A handler that begins with both gates: the credential that it gets has the id that it named.
  pub clear_bind-ActionKeeps :
      {A : Type 0} (now : ℕ) (policies : List Policy) (ctx : AgentContext) (action : PolicyAction)
      (id : ℕ) (k : CredentialRecord × PolicyDecision → Action A)
      → ((p : CredentialRecord × PolicyDecision) → p.0.id ≡ id → ActionKeeps o (k p))
      → ActionKeeps o (clear now policies ctx action id >>= k)
  clear_bind-ActionKeeps now policies ctx action id k rest =
      bind_knowing-ActionKeeps o _ k (clear-ActionKeeps now policies ctx action id) λ w p mid e.
        let cleared = (clear-done now policies ctx action id w e).1 in
        rest p (visible-id ctx.agent id w.db cleared.is_visible)
