-- ===== src/Session/Redis/Runs.antt =====
-- Any run of creations and redemptions gives the same answers from both stores.
use securestore.Common.{ℕ, ◌<◌, ◌≤◌, Option, List, [], ◌∷◌, ◌≡◌, refl, ap, arith}
use securestore.Session.{ProxySession, Sessions, create, redeem}
use securestore.Session.Redis.{Hash, Redis, IsRedis, redis_create, redis_redeem}
use securestore.Session.Redis.Refinement.{hashed, Refines, create-Refines, redeem-Refines}

pub data Op : Type 0 where
  creates : (token ttl_seconds : ℕ) → ProxySession → Op
  redeems : (token : ℕ) → Op

-- The times do not go back, and every session is created with some time to live.
unfoldable pub IsTimed : ℕ → List (ℕ × Op) → Type 0
IsTimed now [] = Unit
IsTimed now ((at, creates token ttl session) ∷ ops) = (now ≤ at) × (0 < ttl) × IsTimed at ops
IsTimed now ((at, redeems token) ∷ ops) = (now ≤ at) × IsTimed at ops

-- The answers of the redemptions of a run.
unfoldable pub run_memory : List (ℕ × Op) → Sessions → List (Option Hash)
run_memory [] sessions = []
run_memory ((at, creates token ttl session) ∷ ops) sessions =
    run_memory ops (create at token ttl session sessions)
run_memory ((at, redeems token) ∷ ops) sessions =
    hashed (redeem at token sessions).0 ∷ run_memory ops (redeem at token sessions).1

module _ (redis : Redis) where
  unfoldable pub run_redis : List (ℕ × Op) → redis.State → List (Option Hash)
  run_redis [] s = []
  run_redis ((at, creates token ttl session) ∷ ops) s =
      run_redis ops (redis_create redis at token ttl session s)
  run_redis ((at, redeems token) ∷ ops) s =
      (redis_redeem redis at token s).0 ∷ run_redis ops (redis_redeem redis at token s).1

  later-Refines :
      (now later : ℕ) (s : redis.State) (sessions : Sessions)
      → now ≤ later
      → Refines redis now s sessions
      → Refines redis later s sessions
  unfolding Refines
  later-Refines now later s sessions after same t token h = same t token (omega (arith, after, h))

  -- With a Redis that does what its documentation says, the Redis store refines the store in
  -- memory: from stores that hold the same live sessions, every run of creations (with a positive
  -- lifetime) and redemptions, at times that do not go back, gives the same answers from both.
  pub run_redis-run_memory :
      (laws : IsRedis redis) (ops : List (ℕ × Op)) (now : ℕ) (s : redis.State) (sessions : Sessions)
      → IsTimed now ops
      → Refines redis now s sessions
      → run_redis ops s ≡ run_memory ops sessions
  unfolding run_memory run_redis IsTimed
  run_redis-run_memory laws [] now s sessions timed same = refl
  run_redis-run_memory laws ((at, creates token ttl session) ∷ ops) now s sessions timed same =
      let (after, positive, rest) = timed in
      let then = later-Refines now at s sessions after same in
      run_redis-run_memory laws ops at _ _ rest
        (create-Refines redis laws at token ttl session s sessions positive then)
  run_redis-run_memory laws ((at, redeems token) ∷ ops) now s sessions timed same =
      let (after, rest) = timed in
      let (answer, next) =
        redeem-Refines redis laws at token s sessions
          (later-Refines now at s sessions after same) in
      rw answer (
        ap (λ xs. hashed (redeem at token sessions).0 ∷ xs)
          (run_redis-run_memory laws ops at _ _ rest next))
