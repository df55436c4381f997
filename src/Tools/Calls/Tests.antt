-- ===== src/Tools/Calls/Tests.antt =====
-- The theorems on calls at a concrete server.
use securestore.Common.{true, ◌⊎◌, some, none, ◌≡◌, refl}
use securestore.Policy.Types.{PolicyAction}
use securestore.Credential.Types.{CredentialRecord}
use securestore.Credential.Queries.{row_to_credential}
use securestore.Tools.{not_found, raised, resource_of, visible_credential}
use securestore.Tools.Steps.{refused}
use securestore.Tools.Samples.{machine, ctx, stranger, credential, world, server, fresh}
use securestore.Tools.Calls.{handle, secret_get, secret_delete}
use securestore.Tools.Calls.Gates.{handle-hidden}
use securestore.Tools.Calls.Denial.{is_request, Allows, handle-denied, handle-IsCleared}

handle-hidden_example :
    handle server fresh stranger (secret_get 101) world ≡ (raised not_found, world)
unfolding machine
handle-hidden_example = handle-hidden server fresh stranger world (secret_get 101) 101 refl refl

handle-denied_example :
    handle server fresh ctx (secret_delete 101 none) world
    ≡ refused 1000 server.policies ctx PolicyAction.secret_delete
        (some 101)
        (resource_of (row_to_credential credential world.db.versions))
        world
unfolding machine
handle-denied_example =
    handle-denied server fresh ctx world (secret_delete 101 none) PolicyAction.secret_delete 101
      (row_to_credential credential world.db.versions) refl refl refl refl

handle-IsCleared_example :
    (c : CredentialRecord) × (visible_credential ctx.agent 101 world.db ≡ some c)
    × (Allows server fresh ctx world (secret_get 101) c ⊎ (is_request (secret_get 101) ≡ true))
unfolding machine
handle-IsCleared_example = handle-IsCleared server fresh ctx world (secret_get 101) 101 refl refl
