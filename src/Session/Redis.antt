-- ===== src/Session/Redis.antt =====
-- The store of proxy sessions in Redis (src/services/redisProxySessionStore.ts). Redis is not the
-- program's: `Redis` has the commands that the program calls, and `IsRedis` is what their
-- documentation says of them. A key is the token in it; the hash of a session has its fields.
pub mod Refinement
pub mod Runs
mod Tests
use securestore.Common.{
  ℕ, ◌*◌, ◌+◌, ◌<◌, ◌≤◌, Option, none, some, Bool, true, false, nat_beq, ltb, if◌then◌else◌, ◌≡◌,
}
use securestore.Policy.Types.{ℤ}
use securestore.Session.{ProxySession, SessionMode, minus_one, is_used_up}
use securestore.Database.Steps.{map_some}

pub record Hash : Type 0 where
  pub credential_id : ℕ
  pub agent_id : ℕ
  pub workspace_id : Option ℕ
  pub mode : SessionMode
  pub uses_remaining : ℤ

-- The commands, each at a time: EXISTS and HGETALL; HSET and PEXPIRE in a MULTI; HINCRBY of
-- `usesRemaining` by -1; DEL.
pub record Redis : Type 1 where
  pub State : Type 0
  pub hgetall : (now key : ℕ) → State → Option Hash
  pub hset_pexpire : (now key : ℕ) → Hash → (ttl_ms : ℕ) → State → State
  pub hincrby : (now key : ℕ) → State → State
  pub del : (now key : ℕ) → State → State

-- HINCRBY, on the hash.
abbrev pub decremented : Hash → Hash
decremented h = record h { uses_remaining = minus_one h.uses_remaining }

-- A key is there until its time to live is over, HINCRBY keeps that time, DEL removes the key, and
-- no command touches another key.
pub record IsRedis (redis : Redis) : Type 0 where
  pub hgetall-hset :
      (now later key other : ℕ) (h : Hash) (ttl_ms : ℕ) (s : redis.State)
      → 0 < ttl_ms
      → now ≤ later
      → redis.hgetall later other (redis.hset_pexpire now key h ttl_ms s) ≡ (
          if nat_beq key other
          then (if ltb (now + ttl_ms) later then none else some h)
          else redis.hgetall later other s)
  pub hgetall-hincrby :
      (now later key other : ℕ) (s : redis.State) {h : Hash}
      → redis.hgetall now key s ≡ some h
      → now ≤ later
      → redis.hgetall later other (redis.hincrby now key s) ≡ (
          if nat_beq key other
          then map_some decremented (redis.hgetall later key s)
          else redis.hgetall later other s)
  pub hgetall-del :
      (now later key other : ℕ) (s : redis.State)
      → now ≤ later
      → redis.hgetall later other (redis.del now key s)
        ≡ (if nat_beq key other then none else redis.hgetall later other s)

abbrev pub hash_of : ProxySession → Hash
hash_of s = record {
  credential_id = s.credential_id;
  agent_id = s.agent_id;
  workspace_id = s.workspace_id;
  mode = s.mode;
  uses_remaining = s.uses_remaining;
}

module _ (redis : Redis) where
  unfoldable pub redis_create :
      (now token ttl_seconds : ℕ) → ProxySession → redis.State → redis.State
  redis_create now token ttl_seconds session =
      redis.hset_pexpire now token (hash_of session) (ttl_seconds * 1000)

  abbrev pub conclude_script :
      (now token : ℕ) → Option Hash → redis.State → Option Hash × redis.State
  conclude_script now token none s = (none, s)
  conclude_script now token (some h) s =
      (some h, (if is_used_up h.uses_remaining then redis.del now token s else s))

  -- REDEEM_SCRIPT, which runs as a whole.
  abbrev pub redeem_script : (now token : ℕ) → Option Hash → redis.State → Option Hash × redis.State
  redeem_script now token none s = (none, s)
  redeem_script now token (some h) s =
      let s' = redis.hincrby now token s in
      conclude_script now token (redis.hgetall now token s') s'

  unfoldable pub redis_redeem : (now token : ℕ) → redis.State → Option Hash × redis.State
  redis_redeem now token s = redeem_script now token (redis.hgetall now token s) s
