-- ===== src/Tools/Brokered/Tokens.antt =====
-- What a proxy token allows: to whom it was issued, and for how long.
use mathlib.Core.Option.{some-injective}
use securestore.Common.{
  ℕ, ◌+◌, ◌*◌, ◌≤◌, ◌<◌, String, Option, none, some, List, Bool, true, false, not, nat_beq_iff, ltb,
  or_else, ◌≡◌, refl, sym, ap, ◌∙◌, arith, inl, inr, Bool-cases, Option-cases, lookup, nat_eq,
  lookup-insert,
}
use securestore.Policy.Types.{credential_proxy_session_create, Policy, PolicyDecision, ℤ}
use securestore.Crypto.{CryptoLib}
use securestore.Credential.Types.{CredentialRecord}
use securestore.Credential.Queries.{load_credential}
use securestore.Session.{ProxySession, Sessions, create, redeem}
use securestore.Tools.{AgentContext, ToolError, World, done, or_raise, raise_if}
use securestore.Tools.Steps.{on_done, done-same, IsCleared, clear-done}
use securestore.Tools.Brokered.{
  Adapter, ExecuteArgs, SessionAnswer, redeem_token, create_session, own_session, credential_for,
  tool_credential_execute, tool_credential_proxy_session_create,
}

or_raise-done :
    {A : Type 0} (e : ToolError) (found : Option A) (w : World) {a : A} {end : World}
    → or_raise e found w ≡ (done a, end)
    → (found ≡ some a) × (end ≡ w)
or_raise-done e none w h = absurd (cc h)
or_raise-done e (some a) w h = (cc h, cc h)

raise_if-done :
    (b : Bool) (e : ToolError) (w : World) {u : Unit {0}} {end : World}
    → raise_if b e w ≡ (done u, end)
    → (b ≡ false) × (end ≡ w)
raise_if-done true e w h = absurd (cc h)
raise_if-done false e w h = (refl, cc h)

-- A session that is redeemed was in the store and had not expired.
redeem-live :
    (now token : ℕ) (sessions : Sessions) {s : ProxySession}
    → (redeem now token sessions).0 ≡ some s
    → (before : ProxySession) × (lookup token sessions ≡ some before)
      × (ltb before.expires_at now ≡ false)
      × (s.agent_id ≡ before.agent_id)
      × (s.credential_id ≡ before.credential_id)
unfolding redeem
redeem-live now token sessions h = elim (Option-cases (lookup token sessions)) [
  | inl gone ↦ absurd (cc (rw gone at h))
  | inr (before, there) ↦ elim (Bool-cases (ltb before.expires_at now)) [
    | inl late ↦ absurd (cc (rw (there, late) at h))
    | inr live ↦
        let same = some-injective _ _ (rw (there, live) at h) in
        (before, there, live, sym (ap (λ x. x.agent_id) same), sym (ap (λ x. x.credential_id) same))
  ]
]

-- A created session is gone once its time is over.
create-expired :
    (now later token ttl : ℕ) (s : ProxySession) (sessions : Sessions)
    → now + ttl * 1000 < later
    → (redeem later token (create now token ttl s sessions)).0 ≡ none
unfolding create redeem
create-expired now later token ttl s sessions late =
    ground
      (arith, late, lookup-insert token token (record s { expires_at = now + ttl * 1000 }) sessions)

true_of_not : (b : Bool) → not b ≡ false → b ≡ true
true_of_not true h = refl
true_of_not false h = sym h

module _ (now : ℕ) (policies : List Policy) (ctx : AgentContext) where
  own_session-done :
      (token : ℕ) (w : World) {s : ProxySession} {end : World}
      → own_session now policies ctx token w ≡ (done s, end)
      → ((redeem now token w.sessions).0 ≡ some s)
        × (s.agent_id ≡ ctx.agent.id)
        × (end ≡ record w { sessions = (redeem now token w.sessions).1 })
  unfolding own_session redeem_token
  own_session-done token w {s} h = on_done _ _ w h λ found w1 e1 h1.
      on_done _ _ w1 h1 λ session w2 e2 h2. on_done _ _ w2 h2 λ u w3 e3 h3.
        let (given, same1) = done-same e1 in
        let (some_session, same2) = or_raise-done _ found w1 e2 in
        let (own, same3) = raise_if-done _ _ w2 e3 in
        let (answer, same4) = done-same h3 in
        (
          given ∙ some_session ∙ ap some answer,
          ap (λ x. x.agent_id) (sym answer)
              ∙ (nat_beq_iff session.agent_id ctx.agent.id).0 (true_of_not _ own),
          sym same4 ∙ same3 ∙ same2 ∙ sym same1,
        )

  -- The session of a token in the store, issued to the calling agent and not expired.
  pub record IsIssued (token : ℕ) (w : World) (cred : CredentialRecord) : Type 0 where
    pub session : ProxySession
    pub is_stored : lookup token w.sessions ≡ some session
    pub is_live : now ≤ session.expires_at
    pub is_own : session.agent_id ≡ ctx.agent.id
    pub is_loaded : load_credential session.credential_id w.db ≡ some cred

  by_token-IsIssued :
      (token : ℕ) (named : Option ℕ) (w : World) {cred : CredentialRecord} {end : World}
      → credential_for now policies ctx (some token) named w ≡ (done cred, end)
      → IsIssued token w cred
  unfolding credential_for
  by_token-IsIssued token named w h = on_done _ _ w h λ session mid e k.
      on_done _ _ mid k λ found mid2 e2 k2.
        let (redeemed, own, next) = own_session-done token w e in
        let (before, there, live, agent, credential) = redeem-live now token w.sessions redeemed in
        let (loaded, still) = done-same e2 in
        let (found_one, end) = or_raise-done _ found mid2 k2 in
        record {
          session = before;
          is_stored = there;
          is_live = ground (arith, live);
          is_own = sym agent ∙ own;
          is_loaded =
              ap (λ i. load_credential i w.db) (sym credential)
              ∙ ap (λ x. load_credential session.credential_id x.db) (sym next)
              ∙ loaded
              ∙ found_one;
        }

  -- credential_execute with a proxy token answers only if the token is that of a session in the
  -- store that was issued to the calling agent and has not expired, and whose credential is there.
  pub execute-IsIssued :
      (resolve : (provider credential_type : String) → Adapter) (lib : CryptoLib)
      (args : ExecuteArgs) (token : ℕ) (w : World) {r : ℕ × String} {end : World}
      → args.proxy_token ≡ some token
      → tool_credential_execute now policies ctx resolve lib args w ≡ (done r, end)
      → (cred : CredentialRecord) × IsIssued token w cred
  unfolding tool_credential_execute
  execute-IsIssued resolve lib args token w given h = on_done _ _ w h λ cred mid e k. (
    cred,
    by_token-IsIssued token args.credential_id w
        (ap (λ t. credential_for now policies ctx t args.credential_id w) (sym given) ∙ e),
  )

  -- A proxy session lives no longer than the policies' maximum of seconds (an hour if they set
  -- none): after that time its token is refused, and until then its lifetime is what was asked for
  -- or less.
  pub proxy_session-expires :
      (token id : ℕ) (ttl_seconds : Option ℕ) (max_uses : Option ℤ) (w : World)
      {answer : SessionAnswer} {end : World}
      → tool_credential_proxy_session_create now policies ctx token id ttl_seconds max_uses w
        ≡ (done answer, end)
      → (p : CredentialRecord × PolicyDecision) × IsCleared now policies ctx
          credential_proxy_session_create id w p
        × (answer.ttl_seconds ≤ or_else ttl_seconds 300)
        × ((later : ℕ)
            → now + or_else p.1.max_session_seconds 3600 * 1000 < later
            → (redeem later token end.sessions).0 ≡ none)
  unfolding tool_credential_proxy_session_create create_session
  proxy_session-expires token id ttl_seconds max_uses w {answer} {end} h =
      on_done _ _ w h λ p mid e k.
        let (still, cleared) = clear-done _ _ ctx credential_proxy_session_create id w e in
        let (given, last) = done-same k in
        (
          p,
          cleared,
          omega (arith, ap (λ a. a.ttl_seconds) given),
          λ later late.
              ap (λ x. (redeem later token x.sessions).0) (sym last)
              ∙ create-expired now later token _ _ mid.sessions (omega (arith, late)),
        )
