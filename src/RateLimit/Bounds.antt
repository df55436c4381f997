-- ===== src/RateLimit/Bounds.antt =====
-- How many requests of one agent the limiter lets through.
use securestore.Common.{
  ℕ, ◌+◌, ◌-◌, ◌*◌, ◌≤◌, some, List, [], ◌∷◌, Bool, true, false, nat_eq, lookup, lookup-insert,
  or_else, ◌≡◌, nat_beq_iff, ◌∙◌, ap, arith,
}
use securestore.RateLimit.{Bucket, Buckets, unit, refill, consume, fresh_bucket, try_consume}

abbrev pub count_if : Bool → ℕ
count_if true = 1
count_if false = 0

-- Requests of one agent at the given times, and how many are let through.
unfoldable pub allowed : (per_minute agent_id : ℕ) → List ℕ → Buckets → ℕ
allowed per_minute agent_id [] buckets = 0
allowed per_minute agent_id (now ∷ times) buckets =
    count_if (try_consume per_minute now agent_id buckets).0
    + allowed per_minute agent_id times (try_consume per_minute now agent_id buckets).1

-- The times do not decrease, and stop at `last`.
abbrev pub InOrder : ℕ → List ℕ → ℕ → Type 0
InOrder from [] last = from ≤ last
InOrder from (t ∷ ts) last = (from ≤ t) × InOrder t ts last

consume_cost :
    (per_minute now : ℕ) (b : Bucket)
    → (count_if (consume (refill per_minute now b)).0 * unit
          + (consume (refill per_minute now b)).1.tokens
        ≤ b.tokens + (now - b.last_refill) * per_minute)
      × ((consume (refill per_minute now b)).1.last_refill ≡ now)
unfolding consume refill
consume_cost per_minute now b = (ground arith, ground arith)

InOrder-le : (from last : ℕ) (times : List ℕ) → InOrder from times last → from ≤ last
InOrder-le from last [] h = h
InOrder-le from last (t ∷ ts) h = omega (arith, InOrder-le t last ts h.1)

add_spans : (a b c p : ℕ) → a ≤ b → b ≤ c → (b - a) * p + (c - b) * p ≡ (c - a) * p
add_spans a b c p h k =
    let e : b - a + (c - b) ≡ c - a = omega arith in omega (arith, ap (λ (t : ℕ). t * p) e)

module _ (per_minute agent_id : ℕ) where
  try_consume-step :
      (now : ℕ) (b : Bucket) (buckets : Buckets)
      → lookup agent_id buckets ≡ some b
      → ((try_consume per_minute now agent_id buckets).0 ≡ (consume (refill per_minute now b)).0)
        × (lookup agent_id (try_consume per_minute now agent_id buckets).1
            ≡ some (consume (refill per_minute now b)).1)
  unfolding try_consume
  try_consume-step now b buckets there = (
    rw there,
    rw there
        (lookup-insert agent_id agent_id _ buckets ∙ ground (arith, nat_beq_iff agent_id agent_id)),
  )

  -- Requests at times in order: those let through, in 60000ths of a token, are at most what the
  -- bucket holds at first and what is refilled until the last time.
  pub allowed-le-refill :
      (times : List ℕ) (last : ℕ) (b : Bucket) (buckets : Buckets)
      → lookup agent_id buckets ≡ some b
      → InOrder b.last_refill times last
      → allowed per_minute agent_id times buckets * unit
        ≤ b.tokens + (last - b.last_refill) * per_minute
  unfolding allowed
  allowed-le-refill [] last b buckets there h = omega arith
  allowed-le-refill (now ∷ times) last b buckets there h =
      let (same, next) = try_consume-step now b buckets there in
      let left = (consume (refill per_minute now b)).1 in
      let (cost, refilled) = consume_cost per_minute now b in
      let rest =
        allowed-le-refill times last left (try_consume per_minute now agent_id buckets).1 next
          (rw refilled h.1) in
      let spans = add_spans b.last_refill now last per_minute h.0 (InOrder-le now last times h.1) in
      rw same (omega (arith, cost, rw refilled at rest, spans))

  -- After a request, the agent's bucket holds at most a minute's tokens.
  pub try_consume-capacity :
      (now : ℕ) (buckets : Buckets) (left : Bucket)
      → lookup agent_id (try_consume per_minute now agent_id buckets).1 ≡ some left
      → left.tokens ≤ per_minute * unit
  unfolding try_consume consume refill
  try_consume-capacity now buckets left h = ground (
    arith,
    lookup-insert agent_id agent_id
        (consume (
          refill per_minute now
            (or_else (lookup agent_id buckets) (fresh_bucket per_minute now)))).1
        buckets,
  )
