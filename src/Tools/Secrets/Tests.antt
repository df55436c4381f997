-- ===== src/Tools/Secrets/Tests.antt =====
-- The theorems on secret_get at a concrete server.
use securestore.Common.{ℕ, List, ◌++◌, some, [], ◌∷◌, ◌≡◌, refl}
use securestore.Policy.Approval.{get_approval_status}
use securestore.Policy.Types.{ApprovalRequest}
use securestore.Credential.Samples.{toy_lib, env_at}
use securestore.Credential.Queries.{row_to_credential}
use securestore.Tools.{done}
use securestore.Tools.Samples.{machine, ctx, policy, with_approval, credential, world}
use securestore.Tools.Secrets.{tool_secret_get, approval_required}
use securestore.Tools.Secrets.Reveal.{IsRevealable, secret_get-IsRevealable}
use securestore.Tools.Secrets.Approval.{with_approvals, IsPendingRequest, secret_get-pending}

secret_get-IsRevealable_example :
    IsRevealable toy_lib (env_at 0) (policy ∷ []) ctx 101 world (7 ∷ 8 ∷ [])
unfolding machine
secret_get-IsRevealable_example =
    secret_get-IsRevealable toy_lib (env_at 0) (policy ∷ []) ctx 300 101 world refl

-- A policy that wants an approval, and no request so far.
secret_get-pending_example :
    (r : ApprovalRequest) × (tool_secret_get toy_lib
        (env_at 0)
        (with_approval ∷ [])
        ctx
        300
        101
        world
      ≡ (done (approval_required 300), with_approvals (world.db.approvals ++ r ∷ []) world))
    × IsPendingRequest 300 101 5 r
    × (get_approval_status 1 300 (with_approvals (world.db.approvals ++ r ∷ []) world).db ≡ some r)
    × ((approvals : List ApprovalRequest) (next : ℕ)
        → (tool_secret_get toy_lib
            (env_at 0)
            (with_approval ∷ [])
            ctx
            next
            101
            (with_approvals approvals world)).0
          ≡ done (approval_required next))
unfolding machine
secret_get-pending_example =
    secret_get-pending toy_lib (env_at 0) (with_approval ∷ []) ctx 300 101 world
      (row_to_credential credential world.db.versions) refl refl refl refl
