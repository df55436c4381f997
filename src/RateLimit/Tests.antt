-- ===== src/RateLimit/Tests.antt =====
-- Runs of the rate limiter, and its theorems at concrete buckets.
use securestore.Common.{◌+◌, ◌-◌, ◌*◌, ◌≤◌, [], ◌∷◌, ◌≡◌, refl, arith, nat_eq, lookup, insert}
use securestore.RateLimit.{Buckets, refill, consume, fresh_bucket, try_consume}
use securestore.RateLimit.Bounds.{allowed, allowed-le-refill, try_consume-capacity}

limiter : Unit {0}
unfolding refill consume try_consume allowed lookup insert
limiter = tt

-- Two requests a minute; the agent's bucket is full at 0.
abbrev buckets : Buckets
buckets = (5, fresh_bucket 2 0) ∷ []

runs :
    (allowed 2 5 (0 ∷ 1 ∷ 2 ∷ []) buckets ≡ 2) × (allowed 2 5 (0 ∷ 1 ∷ 2 ∷ 30_001 ∷ []) buckets ≡ 3)
unfolding limiter
runs = (refl, refl)

allowed-le-refill_example :
    allowed 2 5 (0 ∷ 1 ∷ 2 ∷ []) buckets * 60_000 ≤ 120_000 + (30_000 - 0) * 2
unfolding limiter
allowed-le-refill_example =
    allowed-le-refill 2 5 (0 ∷ 1 ∷ 2 ∷ []) 30_000 (fresh_bucket 2 0) buckets refl
      (omega arith, (omega arith, (omega arith, omega arith)))

try_consume-capacity_example : 60_000 ≤ 120_000
unfolding limiter
try_consume-capacity_example =
    try_consume-capacity 2 5 7 buckets (record { tokens = 60_000; last_refill = 7 }) refl
