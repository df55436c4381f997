-- ===== src/Tools/Secrets/Reveal.antt =====
-- When secret_get hands out a secret.
use securestore.Common.{ℕ, some, List, [], Bool, true, false, ◌≡◌, refl, sym, ap, ◌∙◌}
use securestore.Policy.Types.{secret_get, raw_secret_access, AccessMode, direct, Policy, allow}
use securestore.Policy.Service.Gates.{check_policy-IsPermitted}
use securestore.Crypto.{CryptoLib}
use securestore.Credential.Types.{CredentialRecord}
use securestore.Credential.Versions.{Env}
use securestore.Credential.Queries.{load_credential}
use securestore.Credential.Lifecycle.{plaintext_of, reveal_transaction}
use securestore.Database.{Db, ok}
use securestore.Database.Steps.{on_ok, ok-state}
use securestore.Tools.{
  AgentContext, World, Outcome, done, raised, resource_of, visible_credential, decision_for,
}
use securestore.Tools.Steps.{on_done, transact-done, clear-done, visible-gate, visible-id}
use securestore.Tools.Secrets.{
  GetResult, Revealed, revealed, approval_required, is_direct, reveal, get_cleared, tool_secret_get,
}

is_direct-cases : (mode : AccessMode) → is_direct mode ≡ true → mode ≡ direct
is_direct-cases direct h = refl
is_direct-cases AccessMode.brokered h = absurd (cc h)
is_direct-cases AccessMode.temporary h = absurd (cc h)
is_direct-cases AccessMode.proxy h = absurd (cc h)
is_direct-cases AccessMode.process_injection h = absurd (cc h)

abbrev value_of : Outcome GetResult → List ℕ
value_of (done (revealed r)) = r.value
value_of (done (approval_required id)) = []
value_of (raised e) = []

module _ (lib : CryptoLib) (env : Env) (policies : List Policy) (ctx : AgentContext) where
  -- Everything that stands between an agent and the secret of a credential.
  pub record IsRevealable (id : ℕ) (w : World) (value : List ℕ) : Type 0 where
    pub credential : CredentialRecord
    pub is_visible : visible_credential ctx.agent id w.db ≡ some credential
    pub is_allowed :
        (decision_for env.now policies ctx secret_get (resource_of credential)).effect ≡ allow
    pub needs_no_approval :
        (decision_for env.now policies ctx secret_get (resource_of credential)).requires_approval
        ≡ false
    pub is_direct_access :
        (decision_for env.now policies ctx secret_get (resource_of credential)).access_mode ≡ direct
    pub has_raw_access : ctx.agent.raw_secret_access ≡ true
    pub is_its_secret :
        (found : CredentialRecord) × (end : Db) × (plaintext_of lib (some credential) w.db
          ≡ ok ((found, value), end))

  reveal-value :
      (cred : CredentialRecord) (w : World) {r : Revealed} {end : World}
      → reveal lib env policies ctx cred w ≡ (done (revealed r), end)
      → (found : CredentialRecord) × (mid : Db) × (plaintext_of lib
            (load_credential cred.id w.db)
            w.db
          ≡ ok ((found, r.value), mid))
  unfolding reveal_transaction
  reveal-value cred w {r} {end} h = on_done _ _ w h λ value mid e k.
      on_ok _ _ w.db (transact-done _ w e).0 λ found db1 e1 k1. on_ok _ _ db1 k1 λ out db2 e2 k2.
        on_ok _ _ db2 k2 λ u3 db3 e3 k3. on_ok _ _ db3 k3 λ u4 db4 e4 k4.
          on_ok _ _ db4 k4 λ u5 db5 e5 k5.
            let same = (ok-state k5).0 ∙ ap (λ p. value_of p.0) k in
            let (loaded, still) = ok-state e1 in
            (
              out.0,
              db2,
              ap (λ f. plaintext_of lib f w.db) loaded
                  ∙ ap (plaintext_of lib found) still
                  ∙ e2
                  ∙ ap (λ v. ok ((out.0, v), db2)) same,
            )

  get_cleared-revealed :
      (uuid : ℕ) (cred : CredentialRecord) (approval direct_mode : Bool) (mode : AccessMode)
      (w : World) {r : Revealed} {end : World}
      → get_cleared lib env policies ctx uuid cred approval direct_mode mode w
        ≡ (done (revealed r), end)
      → (approval ≡ false)
        × (direct_mode ≡ true)
        × (reveal lib env policies ctx cred w ≡ (done (revealed r), end))
  unfolding get_cleared
  get_cleared-revealed uuid cred true direct_mode mode w h =
      on_done _ _ w h λ id mid e k. absurd (cc k)
  get_cleared-revealed uuid cred false true mode w h = (refl, refl, h)
  get_cleared-revealed uuid cred false false mode w h = absurd (cc h)

  -- secret_get hands out a value only if the agent may see the credential, has raw access, and the
  -- policy engine allows direct access without an approval; the value is then the decrypted
  -- secret of the credential's current version.
  pub secret_get-IsRevealable :
      (uuid id : ℕ) (w : World) {r : Revealed} {end : World}
      → tool_secret_get lib env policies ctx uuid id w ≡ (done (revealed r), end)
      → IsRevealable id w r.value
  unfolding tool_secret_get decision_for
  secret_get-IsRevealable uuid id w {r} h = on_done _ _ w h λ p mid e k.
      let (still, cleared) = clear-done _ _ ctx secret_get id w e in
      let (free, direct_mode, given) = get_cleared-revealed uuid p.0 _ _ _ mid k in
      let (found, last, secret) = reveal-value p.0 mid given in
      let same = cleared.is_decision in
      let allowed = ap (λ d. d.effect) (sym same) ∙ cleared.is_allowed in
      let (loaded, seen) = visible-gate ctx.agent id w.db cleared.is_visible in
      record {
        credential = p.0;
        is_visible = cleared.is_visible;
        is_allowed = allowed;
        needs_no_approval = ap (λ d. d.requires_approval) (sym same) ∙ free;
        is_direct_access = ap (λ d. d.access_mode) (sym same) ∙ is_direct-cases _ direct_mode;
        has_raw_access =
            (check_policy-IsPermitted _ _ _ _ _ allowed).capable raw_secret_access refl;
        is_its_secret = (
          found,
          last,
          ap (λ f. plaintext_of lib f w.db)
                (sym (
                  ap (λ i. load_credential i w.db) (visible-id ctx.agent id w.db cleared.is_visible)
                  ∙ loaded))
              ∙ ap (λ x. plaintext_of lib (load_credential p.0.id x.db) x.db) (sym still)
              ∙ secret,
        );
      }
