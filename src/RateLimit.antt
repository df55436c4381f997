-- ===== src/RateLimit.antt =====
-- The in-memory rate limiter (src/services/agentService.ts: InMemoryRateLimiter). Tokens are
-- counted in 60000ths, so that the refill of a millisecond is a whole number; the source has
-- floating point numbers. Where the clock runs backwards the source takes tokens away, and this
-- model leaves them: the theorems are about clocks that do not.
pub mod Bounds
mod Tests
use securestore.Common.{
  ℕ, ◌+◌, ◌-◌, ◌*◌, min, Option, none, some, List, Bool, true, false, ltb, if◌then◌else◌, nat_eq,
  lookup, insert, or_else,
}

pub record Bucket : Type 0 where
  pub tokens : ℕ
  pub last_refill : ℕ

abbrev pub Buckets : Type 0
Buckets = List (ℕ × Bucket)

-- One token.
abbrev pub unit : ℕ
unit = 60000

unfoldable pub refill : (per_minute now : ℕ) → Bucket → Bucket
refill per_minute now b = record {
  tokens = min (per_minute * unit) (b.tokens + (now - b.last_refill) * per_minute);
  last_refill = now;
}

unfoldable pub consume : Bucket → Bool × Bucket
consume b = if ltb b.tokens unit then (false, b) else (true, record b { tokens = b.tokens - unit })

abbrev pub fresh_bucket : (per_minute now : ℕ) → Bucket
fresh_bucket per_minute now = record { tokens = per_minute * unit; last_refill = now }

unfoldable pub try_consume : (per_minute now agent_id : ℕ) → Buckets → Bool × Buckets
unfolding refill consume
try_consume per_minute now agent_id buckets =
    let bucket = or_else (lookup agent_id buckets) (fresh_bucket per_minute now) in
    let (allowed, left) = consume (refill per_minute now bucket) in
    (allowed, insert agent_id left buckets)
