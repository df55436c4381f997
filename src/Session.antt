-- ===== src/Session.antt =====
-- The in-memory store of proxy and temporary sessions (src/services/proxySessionStore.ts:
-- InMemoryProxySessionStore). A token is 24 random bytes, a number here; times are milliseconds.
pub mod Uses
pub mod Redis
mod Tests
use securestore.Common.{
  ℕ, zero, suc, ◌+◌, ◌*◌, Option, none, some, List, Bool, true, false, ltb, if◌then◌else◌, nat_eq,
  lookup, insert, without,
}
use securestore.Policy.Types.{ℤ, pos, negsuc}

pub data SessionMode : Type 0 where
  proxy temporary : SessionMode

pub record ProxySession : Type 0 where
  pub credential_id : ℕ
  pub agent_id : ℕ
  pub workspace_id : Option ℕ
  pub uses_remaining : ℤ
  pub mode : SessionMode
  pub expires_at : ℕ

abbrev pub Sessions : Type 0
Sessions = List (ℕ × ProxySession)

-- n - 1
abbrev pub minus_one : ℤ → ℤ
minus_one (pos zero) = negsuc 0
minus_one (pos (suc n)) = pos n
minus_one (negsuc n) = negsuc (suc n)

-- n <= 0
abbrev pub is_used_up : ℤ → Bool
is_used_up (pos zero) = true
is_used_up (pos (suc n)) = false
is_used_up (negsuc n) = true

-- `session.expires_at` is overwritten from `ttl_seconds`.
unfoldable pub create : (now token ttl_seconds : ℕ) → ProxySession → Sessions → Sessions
create now token ttl_seconds session sessions =
    insert token (record session { expires_at = now + ttl_seconds * 1000 }) sessions

abbrev pub count_down : ProxySession → ProxySession
count_down s = record s { uses_remaining = minus_one s.uses_remaining }

abbrev pub redeem_found :
    (now token : ℕ) → Option ProxySession → Sessions → Option ProxySession × Sessions
redeem_found now token none sessions = (none, sessions)
redeem_found now token (some session) sessions =
    if ltb session.expires_at now then (none, without token sessions) else (
      some (count_down session),
      (if is_used_up (minus_one session.uses_remaining)
          then without token sessions
          else insert token (count_down session) sessions),
    )

-- The session object is the one in the map, so its count is written there.
unfoldable pub redeem : (now token : ℕ) → Sessions → Option ProxySession × Sessions
redeem now token sessions = redeem_found now token (lookup token sessions) sessions
