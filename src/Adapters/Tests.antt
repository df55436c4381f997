-- ===== src/Adapters/Tests.antt =====
-- The registry with a custom adapter.
use securestore.Common.{some, [], ◌∷◌, ◌≡◌}
use securestore.Tools.Brokered.{Adapter}
use securestore.Tools.Samples.{adapter}
use securestore.Adapters.{get, register_all, bundled, resolve}
use securestore.Adapters.Total.{resolve-some}

resolve-some_example :
    (a : Adapter) × (resolve "vault" "pat"
        (register_all (("vault", adapter) ∷ []) (register_all (bundled (λ id. adapter)) []))
      ≡ some a)
    × ((exact : Adapter)
        → get "vault"
            (register_all (("vault", adapter) ∷ []) (register_all (bundled (λ id. adapter)) []))
          ≡ some exact
        → a ≡ exact)
resolve-some_example = resolve-some (λ id. adapter) (("vault", adapter) ∷ []) "vault" "pat"
