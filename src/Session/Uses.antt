-- ===== src/Session/Uses.antt =====
-- How often a token can be redeemed, and when.
use securestore.Common.{
  ℕ, zero, suc, ◌+◌, ◌≤◌, ◌<◌, min, Option, none, some, List, [], ◌∷◌, nat_eq, lookup, without,
  lookup-insert, lookup-without, ◌≡◌, ◌≢◌, refl, arith, length, All, Option-cases, inl, inr, ◌⊎◌,
}
use securestore.Policy.Types.{pos, negsuc}
use securestore.Session.{ProxySession, Sessions, count_down, redeem}

-- Redeeming `token` at each of the times, and the number of times that a session came back.
abbrev pub one_if {ℓ} : {A : Type ℓ} → Option A → ℕ
one_if none = 0
one_if (some a) = 1

unfoldable pub successes : ℕ → List ℕ → Sessions → ℕ
successes token [] sessions = 0
successes token (now ∷ times) sessions =
    one_if (redeem now token sessions).0 + successes token times (redeem now token sessions).1

-- The uses that a session has: at least one while it is in the map.
abbrev pub uses_left : Option ProxySession → ℕ
uses_left none = 0
uses_left (some s) = elim s.uses_remaining [
  | pos n ↦ elim n [ zero ↦ 1 | suc m ↦ suc m ]
  | negsuc n ↦ 1
]

-- One redemption takes one use, and a refused one gives none back.
redeem_uses :
    (now token : ℕ) (sessions : Sessions)
    → one_if (redeem now token sessions).0 + uses_left (lookup token (redeem now token sessions).1)
      ≤ uses_left (lookup token sessions)
unfolding redeem
redeem_uses now token sessions = elim (Option-cases (lookup token sessions)) [
  | inl gone ↦ rw gone (rw gone (omega arith))
  | inr (s, there) ↦ ground (
    arith,
    there,
    lookup-insert token token (count_down s) sessions,
    lookup-without token token sessions,
  )
]

-- However the redemptions of a token are timed, at most as many succeed as its session has uses
-- (one for a session created with none).
pub successes-le-uses :
    (token : ℕ) (times : List ℕ) (sessions : Sessions)
    → successes token times sessions ≤ uses_left (lookup token sessions)
unfolding successes
successes-le-uses token [] sessions = omega arith
successes-le-uses token (now ∷ times) sessions = omega (
  arith,
  redeem_uses now token sessions,
  successes-le-uses token times (redeem now token sessions).1,
)

redeem_live :
    (now token : ℕ) (sessions : Sessions) (s : ProxySession)
    → lookup token sessions ≡ some s
    → now ≤ s.expires_at
    → (one_if (redeem now token sessions).0 ≡ 1)
      × ((uses_left (some s) ≡ 1) × (lookup token (redeem now token sessions).1 ≡ none)
          ⊎ (uses_left (some s) ≡ suc (uses_left (some (count_down s))))
            × (lookup token (redeem now token sessions).1 ≡ some (count_down s)))
unfolding redeem
redeem_live now token sessions s there live = ground (
  arith,
  there,
  lookup-insert token token (count_down s) sessions,
  lookup-without token token sessions,
)

successes-gone :
    (token : ℕ) (times : List ℕ) (sessions : Sessions)
    → lookup token sessions ≡ none
    → successes token times sessions ≡ 0
unfolding successes redeem
successes-gone token [] sessions gone = refl
successes-gone token (now ∷ times) sessions gone =
    rw gone (omega (arith, successes-gone token times sessions gone))

-- Of the redemptions of a session before it expires, exactly the first ones succeed: as many as
-- the session has uses (one for a session created with none), or all of them if there are fewer.
pub successes-live :
    (token : ℕ) (times : List ℕ) (sessions : Sessions) (s : ProxySession)
    → lookup token sessions ≡ some s
    → All (λ now. now ≤ s.expires_at) times
    → successes token times sessions ≡ min (length times) (uses_left (some s))
unfolding successes
successes-live token [] sessions s there live = omega arith
successes-live token (now ∷ times) sessions s there live =
    let (done, next) = redeem_live now token sessions s there live.0 in
    elim next [
      | inl last ↦
          omega
            (arith, done, last.0, successes-gone token times (redeem now token sessions).1 last.1)
      | inr more ↦ omega (
        arith,
        done,
        more.0,
        successes-live token times (redeem now token sessions).1 (count_down s) more.1 live.1,
      )
    ]

-- A redemption after the expiry gives nothing, and neither does any later one.
pub redeem_expired :
    (now token : ℕ) (times : List ℕ) (sessions : Sessions) (s : ProxySession)
    → lookup token sessions ≡ some s
    → s.expires_at < now
    → successes token (now ∷ times) sessions ≡ 0
unfolding successes redeem
redeem_expired now token times sessions s there late = ground (
  arith,
  there,
  lookup-without token token sessions,
  successes-gone token times (without token sessions),
)

-- Redeeming one token leaves every other session as it was.
pub redeem_other :
    (now token other : ℕ) (sessions : Sessions)
    → token ≢ other
    → lookup other (redeem now token sessions).1 ≡ lookup other sessions
unfolding redeem
redeem_other now token other sessions h = elim (Option-cases (lookup token sessions)) [
  | inl gone ↦ rw gone
  | inr (s, there) ↦ ground (
    arith,
    there,
    lookup-insert token other (count_down s) sessions,
    lookup-without token other sessions,
  )
]
