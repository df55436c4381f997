-- ===== src/Tools/Brokered/Tests.antt =====
-- The theorems on proxy tokens at a concrete server.
use securestore.Common.{lookup, ℕ, ◌≤◌, ◌<◌, ◌+◌, ◌*◌, some, none, [], ◌∷◌, ◌≡◌, refl, or_else}
use securestore.Policy.Types.{credential_proxy_session_create, PolicyDecision, pos}
use securestore.Session.{create, redeem, proxy}
use securestore.Credential.Types.{CredentialRecord}
use securestore.Credential.Queries.{row_to_credential}
use securestore.Credential.Samples.{toy_lib}
use securestore.Tools.Steps.{IsCleared}
use securestore.Tools.Samples.{machine, credential, ctx, policy, world, adapter}
use securestore.Tools.Brokered.{
  redeem_token, create_session, own_session, credential_for, conclude_execution,
  tool_credential_execute, tool_credential_proxy_session_create, session_of,
}
use securestore.Credential.Lifecycle.{reveal_secret_for_brokered_use}
use securestore.Tools.Brokered.Tokens.{IsIssued, execute-IsIssued, proxy_session-expires}

execute-IsIssued_example : (cred : CredentialRecord) × IsIssued 1000 (policy ∷ []) ctx 77 world cred
unfolding machine redeem_token own_session credential_for conclude_execution redeem
    tool_credential_execute reveal_secret_for_brokered_use lookup
execute-IsIssued_example =
    execute-IsIssued 1000 (policy ∷ []) ctx (λ p t. adapter) toy_lib
      (record { credential_id = none; proxy_token = some 77; operation = "list"; params = none }) 77
      world refl refl

proxy_session-expires_example :
    (p : CredentialRecord × PolicyDecision) × IsCleared 1000
      (policy ∷ [])
      ctx
      credential_proxy_session_create
      101
      world
      p
    × (60 ≤ 500)
    × ((later : ℕ)
        → 1000 + or_else p.1.max_session_seconds 3600 * 1000 < later
        → (redeem later 78 (
            create 1000 78 60
              (session_of ctx (row_to_credential credential world.db.versions) proxy (pos 10) 1000)
              world.sessions)).0
          ≡ none)
unfolding machine create_session tool_credential_proxy_session_create create
proxy_session-expires_example =
    proxy_session-expires 1000 (policy ∷ []) ctx 78 101 (some 500) none world refl
