-- ===== src/Session/Redis/Tests.antt =====
-- A Redis as its documentation describes it, and the refinement with it.
use securestore.Common.{
  ℕ, ◌+◌, Option, none, some, List, [], ◌∷◌, nat_beq, nat_eq, ltb, if◌then◌else◌, ◌≡◌, refl, arith,
  inl, inr, Bool-cases, Option-cases, lookup, insert, without, lookup-insert, lookup-without,
}
use securestore.Policy.Types.{pos}
use securestore.Database.Steps.{map_some}
use securestore.Session.{ProxySession, proxy}
use securestore.Session.Redis.{Hash, Redis, IsRedis, decremented}
use securestore.Session.Redis.Refinement.{Refines}
use securestore.Session.Redis.Runs.{
  Op, creates, redeems, IsTimed, run_memory, run_redis, run_redis-run_memory,
}

-- A key with its hash and the time at which it expires.
abbrev Keys : Type 0
Keys = List (ℕ × (Hash × ℕ))

abbrev read_key : ℕ → Option (Hash × ℕ) → Option Hash
read_key now none = none
read_key now (some (h, expiry)) = if ltb expiry now then none else some h

abbrev decrement : Hash × ℕ → Hash × ℕ
decrement (h, expiry) = (decremented h, expiry)

abbrev decrement_key : ℕ → Option (Hash × ℕ) → Keys → Keys
decrement_key key none s = s
decrement_key key (some p) s = insert key (decrement p) s

abbrev keys : Redis
keys = record {
  State = Keys;
  hgetall = λ now key s. read_key now (lookup key s);
  hset_pexpire = λ now key h ttl s. insert key (h, now + ttl) s;
  hincrby = λ now key s. decrement_key key (lookup key s) s;
  del = λ now key s. without key s;
}

read_key-decrement :
    (later : ℕ) (p : Hash × ℕ)
    → read_key later (some (decrement p)) ≡ map_some decremented (read_key later (some p))
read_key-decrement later (h, expiry) = elim (Bool-cases (ltb expiry later)) [
  | inl e ↦ rw e refl
  | inr e ↦ rw e refl
]

keys-hincrby :
    (now later key other : ℕ) (s : Keys) {h : Hash}
    → read_key now (lookup key s) ≡ some h
    → read_key later (lookup other (decrement_key key (lookup key s) s)) ≡ (
        if nat_beq key other
        then map_some decremented (read_key later (lookup key s))
        else read_key later (lookup other s))
keys-hincrby now later key other s there = elim (Option-cases (lookup key s)) [
  | inl gone ↦ absurd (cc (rw gone at there))
  | inr (p, kept) ↦ elim (Bool-cases (nat_beq key other)) [
    | inl e ↦ rw (kept, lookup-insert key other (decrement p) s, e) (read_key-decrement later p)
    | inr e ↦ rw (kept, lookup-insert key other (decrement p) s, e) refl
  ]
]

keys-IsRedis : IsRedis keys
keys-IsRedis = record {
  hgetall-hset = λ now later key other h ttl s positive after.
      elim (Bool-cases (nat_beq key other)) [
        | inl e ↦ rw (lookup-insert key other (h, now + ttl) s, e) refl
        | inr e ↦ rw (lookup-insert key other (h, now + ttl) s, e) refl
      ];
  hgetall-hincrby = λ now later key other s there after. keys-hincrby now later key other s there;
  hgetall-del = λ now later key other s after. elim (Bool-cases (nat_beq key other)) [
    | inl e ↦ rw (lookup-without key other s, e) refl
    | inr e ↦ rw (lookup-without key other s, e) refl
  ];
}

abbrev session : ProxySession
session = record {
  credential_id = 101;
  agent_id = 5;
  workspace_id = none;
  uses_remaining = pos 2;
  mode = proxy;
  expires_at = 0;
}

-- Two of the three redemptions succeed.
abbrev ops : List (ℕ × Op)
ops = (10, creates 77 60 session) ∷ (20, redeems 77) ∷ (30, redeems 77) ∷ (40, redeems 77) ∷ []

run_redis-run_memory_example : run_redis keys ops [] ≡ run_memory ops []
unfolding Refines IsTimed lookup
run_redis-run_memory_example =
    run_redis-run_memory keys keys-IsRedis ops 0 [] []
      (omega arith, omega arith, (omega arith, (omega arith, (omega arith, tt))))
      (λ later token after. refl)
