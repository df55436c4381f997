-- ===== src/Session/Redis/Refinement.antt =====
-- The store in Redis and the store in memory give the same answers.
use securestore.Common.{
  ℕ, ◌*◌, ◌+◌, ◌<◌, ◌≤◌, Option, none, some, Bool, true, false, nat_beq, nat_beq_iff, nat_eq, ltb,
  if◌then◌else◌, ◌≡◌, refl, sym, ap, ◌∙◌, arith, inl, inr, Bool-cases, Option-cases, lookup, insert,
  without, lookup-insert, lookup-without,
}
use securestore.Session.{ProxySession, Sessions, create, redeem, count_down, minus_one, is_used_up}
use securestore.Session.Redis.{
  Hash, Redis, IsRedis, decremented, hash_of, redis_create, conclude_script, redeem_script,
  redis_redeem,
}
use securestore.Database.Steps.{map_some}

-- The session in memory, if its time is not over.
abbrev pub live_at : ℕ → Option ProxySession → Option Hash
live_at now none = none
live_at now (some s) = if ltb s.expires_at now then none else some (hash_of s)

-- The answer of the store in memory, without its time.
abbrev pub hashed : Option ProxySession → Option Hash
hashed none = none
hashed (some s) = some (hash_of s)

live_at-count_down :
    (later : ℕ) (s : ProxySession)
    → map_some decremented (live_at later (some s)) ≡ live_at later (some (count_down s))
live_at-count_down later s = elim (Bool-cases (ltb s.expires_at later)) [
  | inl e ↦ rw e refl
  | inr e ↦ rw e refl
]

live_at-live :
    (now : ℕ) (s : ProxySession)
    → ltb s.expires_at now ≡ false
    → live_at now (some s) ≡ some (hash_of s)
live_at-live now s e = rw e refl

live_at-late :
    (now later : ℕ) (s : ProxySession)
    → ltb s.expires_at now ≡ true
    → now ≤ later
    → live_at later (some s) ≡ none
live_at-late now later s e after =
    let gone : ltb s.expires_at later ≡ true = ground (arith, e, after) in rw gone refl

module _ (redis : Redis) where
  -- From now on, the two stores hold the same live sessions.
  unfoldable pub Refines : ℕ → redis.State → Sessions → Type 0
  Refines now s sessions =
      (later token : ℕ)
      → now ≤ later
      → redis.hgetall later token s ≡ live_at later (lookup token sessions)

  module _ (laws : IsRedis redis) where
    at_token :
        (now later token : ℕ) (s : redis.State) (sessions : Sessions)
        → Refines now s sessions
        → now ≤ later
        → redis.hgetall later token s ≡ live_at later (lookup token sessions)
    unfolding Refines
    at_token now later token s sessions same after = same later token after

    pub create-Refines :
        (now token ttl : ℕ) (session : ProxySession) (s : redis.State) (sessions : Sessions)
        → 0 < ttl
        → Refines now s sessions
        → Refines now
            (redis_create redis now token ttl session s)
            (create now token ttl session sessions)
    unfolding Refines redis_create create
    create-Refines now token ttl session s sessions positive same later other after =
        let fresh = record session { expires_at = now + ttl * 1000 } in
        laws.hgetall-hset now later token other (hash_of session) (ttl * 1000) s
          (omega (arith, positive)) after
        ∙ elim (Bool-cases (nat_beq token other)) [
          | inl e ↦ rw (lookup-insert token other fresh sessions, e) refl
          | inr e ↦ rw (lookup-insert token other fresh sessions, e) (same later other after)
        ]

    -- What a live session leaves behind, in the two stores.
    left-Refines :
        (now token : ℕ) (before : ProxySession) (s : redis.State) (sessions : Sessions)
        → redis.hgetall now token s ≡ some (hash_of before)
        → lookup token sessions ≡ some before
        → Refines now s sessions
        → (used_up : Bool)
        → Refines now
            (if used_up
              then redis.del now token (redis.hincrby now token s)
              else redis.hincrby now token s)
            (if used_up then without token sessions else insert token (count_down before) sessions)
    unfolding Refines
    left-Refines now token before s sessions there kept same true later other after =
        laws.hgetall-del now later token other (redis.hincrby now token s) after
        ∙ elim (Bool-cases (nat_beq token other)) [
          | inl e ↦ rw (lookup-without token other sessions, e) refl
          | inr e ↦
              rw (lookup-without token other sessions, e)
                (laws.hgetall-hincrby now later token other s there after
                  ∙ rw e (same later other after))
        ]
    left-Refines now token before s sessions there kept same false later other after =
        laws.hgetall-hincrby now later token other s there after
        ∙ elim (Bool-cases (nat_beq token other)) [
          | inl e ↦
              rw (lookup-insert token other (count_down before) sessions, e)
                (ap (map_some decremented) (same later token after ∙ ap (live_at later) kept)
                  ∙ live_at-count_down later before)
          | inr e ↦
              rw (lookup-insert token other (count_down before) sessions, e)
                (same later other after)
        ]

    late-Refines :
        (now token : ℕ) (before : ProxySession) (s : redis.State) (sessions : Sessions)
        → lookup token sessions ≡ some before
        → ltb before.expires_at now ≡ true
        → Refines now s sessions
        → Refines now s (without token sessions)
    unfolding Refines
    late-Refines now token before s sessions kept late same later other after =
        same later other after ∙ elim (Bool-cases (nat_beq token other)) [
          | inl e ↦
              rw (lookup-without token other sessions, e)
                (ap (λ t. live_at later (lookup t sessions)) (sym ((nat_beq_iff token other).0 e))
                  ∙ ap (live_at later) kept
                  ∙ live_at-late now later before late after)
          | inr e ↦ rw (lookup-without token other sessions, e) refl
        ]

    script_on_none :
        (now token : ℕ) (s : redis.State)
        → redis.hgetall now token s ≡ none
        → redis_redeem redis now token s ≡ (none, s)
    unfolding redis_redeem
    script_on_none now token s gone = ap (λ o. redeem_script redis now token o s) gone

    -- The script on the hash of a live session.
    script_on_live :
        (now token : ℕ) (before : ProxySession) (s : redis.State) (sessions : Sessions)
        → redis.hgetall now token s ≡ some (hash_of before)
        → redis_redeem redis now token s ≡ (
          some (hash_of (count_down before)),
          (if is_used_up (minus_one before.uses_remaining)
              then redis.del now token (redis.hincrby now token s)
              else redis.hincrby now token s),
        )
    unfolding redis_redeem
    script_on_live now token before s sessions there =
        let s' = redis.hincrby now token s in
        let same : redis.hgetall now token s' ≡ some (hash_of (count_down before)) =
          laws.hgetall-hincrby now now token token s there (omega arith)
          ∙ rw ((nat_beq_iff token token).1 refl) (ap (map_some decremented) there) in
        ap (λ o. redeem_script redis now token o s) there
        ∙ ap (λ o. conclude_script redis now token o s') same

    -- Redeeming a token gives the same answer from both stores, and leaves them holding the same
    -- live sessions.
    pub redeem-Refines :
        (now token : ℕ) (s : redis.State) (sessions : Sessions)
        → Refines now s sessions
        → ((redis_redeem redis now token s).0 ≡ hashed (redeem now token sessions).0)
          × Refines now (redis_redeem redis now token s).1 (redeem now token sessions).1
    unfolding redeem
    redeem-Refines now token s sessions same =
        let current = at_token now now token s sessions same (omega arith) in
        elim (Option-cases (lookup token sessions)) [
          | inl gone ↦
              let idle = script_on_none now token s (current ∙ ap (live_at now) gone) in
              rw (gone, idle) (refl, same)
          | inr (before, kept) ↦ elim (Bool-cases (ltb before.expires_at now)) [
            | inl late ↦
                let idle = script_on_none now token s (
                  current
                  ∙ ap (live_at now) kept
                  ∙ live_at-late now now before late (omega arith)) in
                rw (kept, late, idle)
                  (refl, late-Refines now token before s sessions kept late same)
            | inr live ↦
                let there = current ∙ ap (live_at now) kept ∙ live_at-live now before live in
                rw (kept, live, script_on_live now token before s sessions there)
                  (refl, left-Refines now token before s sessions there kept same _)
          ]
        ]
