-- ===== src/Session/Tests.antt =====
-- Runs of the session store, and its theorems at concrete sessions.
use securestore.Common.{min, none, [], ◌∷◌, ◌≡◌, refl, arith, nat_eq, lookup, insert, without}
use securestore.Policy.Types.{pos}
use securestore.Session.{proxy, ProxySession, Sessions, create, redeem}
use securestore.Session.Uses.{successes, successes-live}

abbrev two_uses : ProxySession
two_uses = record {
  credential_id = 101;
  agent_id = 5;
  workspace_id = none;
  uses_remaining = pos 2;
  mode = proxy;
  expires_at = 0;
}

store : Unit {0}
unfolding create redeem successes lookup insert without
store = tt

-- Created at 1000 for a minute.
abbrev sessions : Sessions
sessions =
    create 1000 77 60 two_uses (create 1000 78 60 (record two_uses { uses_remaining = pos 0 }) [])

runs :
    (successes 77 (2000 ∷ 3000 ∷ 4000 ∷ []) sessions ≡ 2)
    × (successes 78 (2000 ∷ 3000 ∷ []) sessions ≡ 1)
unfolding store
runs = (refl, refl)

successes-live_example : successes 77 (2000 ∷ 3000 ∷ 4000 ∷ []) sessions ≡ min 3 2
unfolding store
successes-live_example =
    successes-live 77 (2000 ∷ 3000 ∷ 4000 ∷ []) sessions (record two_uses { expires_at = 61000 })
      refl (omega arith, (omega arith, (omega arith, tt)))
