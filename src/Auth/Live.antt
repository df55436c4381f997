-- ===== src/Auth/Live.antt =====
-- Only agents that are registered and not revoked get a context.
use mathlib.Core.List.{Memᴰ}
use mathlib.Core.Option.{some-injective}
use mathlib.Core.Path.{subst}
use securestore.Common.{
  ℕ, String, Option, none, some, List, [], ◌∷◌, Bool, true, false, not, ◌&&◌, nat_beq, find?,
  find?_sound, ◌≡◌, refl, sym, ap, ◌∙◌, inl, inr, Bool-cases, Option-cases,
}
use securestore.Crypto.{CryptoLib, hash_api_key}
use securestore.Agent.Types.{AgentRecord, AgentRow, ApiKey}
use securestore.Agent.Registration.{
  same_identifier, is_live_key, is_live_agent, agent_of_key, connected, authenticate_api_key,
  authenticate_by_identifier,
}
use securestore.Database.{Db}
use securestore.Auth.{
  ResolvedIdentity, AuthMethod, or_next, by_identifier, by_bearer, bearer_of, subject_of, cert_of,
  resolve_agent_identity, TlsSocket,
}

-- The agent has a row that is not revoked.
pub record IsLive (agent : AgentRecord) (rows : List AgentRow) : Type 0 where
  pub row : AgentRow
  pub is_stored : Memᴰ row rows
  pub is_agent : row.agent ≡ agent
  pub is_not_revoked : agent.revoked ≡ false

mem-find? :
    (p : AgentRow → Bool) (rows : List AgentRow) {a : AgentRow}
    → find? p rows ≡ some a
    → Memᴰ a rows
mem-find? p [] h = absurd (cc h)
mem-find? p (r ∷ rows) h = elim (Bool-cases (p r)) [
  | inl e ↦ Memᴰ.head (sym (some-injective _ _ (rw e at h)))
  | inr e ↦ Memᴰ.tail (mem-find? p rows (rw e at h))
]

false_of_not : (b : Bool) → not b ≡ true → b ≡ false
false_of_not true h = sym h
false_of_not false h = refl

and_right : (a b : Bool) → (a && b) ≡ true → b ≡ true
and_right true b h = h
and_right false b h = absurd (cc h)

find?-IsLive :
    (test : AgentRow → Bool) (rows : List AgentRow) {a : AgentRow}
    → find? (λ r. test r && not r.agent.revoked) rows ≡ some a
    → IsLive a.agent rows
find?-IsLive test rows {a} h = record {
  row = a;
  is_stored = mem-find? _ rows h;
  is_agent = refl;
  is_not_revoked =
      false_of_not _
        (and_right (test a) _ (find?_sound (λ r. test r && not r.agent.revoked) rows h));
}

agent_of_key-IsLive :
    (now hash : ℕ) (rows : List AgentRow) (ks : List ApiKey) {a : AgentRow}
    → agent_of_key now hash rows ks ≡ some a
    → IsLive a.agent rows
unfolding agent_of_key
agent_of_key-IsLive now hash rows [] h = absurd (cc h)
agent_of_key-IsLive now hash rows (k ∷ ks) h = elim (Bool-cases (is_live_key now hash k)) [
  | inr e ↦ agent_of_key-IsLive now hash rows ks (rw e at h)
  | inl e ↦ elim (Option-cases (find? (is_live_agent k.agent_id) rows)) [
    | inl gone ↦ agent_of_key-IsLive now hash rows ks (rw (e, gone) at h)
    | inr (b, there) ↦
        let same = some-injective _ _ (rw (e, there) at h) in
        find?-IsLive (λ r. nat_beq r.agent.id k.agent_id) rows (there ∙ ap some same)
  ]
]

connected-row :
    (now : ℕ) (o : Option AgentRow) (db : Db) {a : AgentRecord}
    → (connected now o db).0 ≡ some a
    → (r : AgentRow) × (o ≡ some r) × (r.agent ≡ a)
connected-row now none db h = absurd (cc h)
connected-row now (some r) db h = (r, refl, some-injective _ _ h)

connected-none :
    (now : ℕ) (o : Option AgentRow) (db : Db)
    → (connected now o db).0 ≡ none
    → (connected now o db).1 ≡ db
connected-none now none db h = refl
connected-none now (some r) db h = absurd (cc h)

-- What a strategy promises: its agent is live, and without one it leaves the tables alone; the
-- memberships are as they were.
record IsSound (db : Db) (out : Option AgentRecord × Db) : Type 0 where
  is_live : (a : AgentRecord) → out.0 ≡ some a → IsLive a db.agents
  is_idle : out.0 ≡ none → out.1 ≡ db
  pub keeps_memberships : out.1.memberships ≡ db.memberships

connected-memberships :
    (now : ℕ) (o : Option AgentRow) (db : Db) → (connected now o db).1.memberships ≡ db.memberships
connected-memberships now none db = refl
connected-memberships now (some r) db = refl

by_identifier-IsSound :
    (lib : CryptoLib) (verify : Option (List ℕ → Option String)) (now : ℕ) (auth_method : String)
    (identifier : Option String) (db : Db)
    → IsSound db (by_identifier lib verify now auth_method identifier db)
unfolding authenticate_by_identifier
by_identifier-IsSound lib verify now auth_method none db = record {
  is_live = λ a h. absurd (cc h);
  is_idle = λ h. refl;
  keeps_memberships = refl;
}
by_identifier-IsSound lib verify now auth_method (some identifier) db =
    let test = same_identifier auth_method (some identifier) in
    let found = find? (λ a. test a && not a.agent.revoked) db.agents in
    record {
      is_live = λ a h.
          let (r, there, same) = connected-row now found db h in
          rw (← same) (find?-IsLive test db.agents there);
      is_idle = λ h. connected-none now found db h;
      keeps_memberships = connected-memberships now found db;
    }

api_key-IsSound :
    (lib : CryptoLib) (now : ℕ) (raw : List ℕ) (db : Db)
    → IsSound db (authenticate_api_key lib now raw db)
unfolding authenticate_api_key
api_key-IsSound lib now raw db =
    let found = agent_of_key now (hash_api_key lib raw) db.agents db.api_keys in
    record {
      is_live = λ a h.
          let (r, there, same) = connected-row now found db h in
          rw (← same) (agent_of_key-IsLive now _ db.agents db.api_keys there);
      is_idle = λ h. connected-none now found db h;
      keeps_memberships = connected-memberships now found db;
    }

-- What a resolution promises.
pub record IsResolved (db : Db) (out : Option ResolvedIdentity × Db) : Type 0 where
  pub is_live : (i : ResolvedIdentity) → out.0 ≡ some i → IsLive i.agent db.agents
  pub keeps_memberships : out.1.memberships ≡ db.memberships

or_next-IsResolved :
    (auth_method : AuthMethod) (db : Db) (first : Option AgentRecord × Db)
    (next : Db → Option ResolvedIdentity × Db)
    → IsSound db first
    → IsResolved db (next db)
    → IsResolved db (or_next auth_method first next)
or_next-IsResolved auth_method db (some a, after) next sound rest = record {
  is_live = λ i h.
      rw (← ap (λ (x : ResolvedIdentity). x.agent) (some-injective _ _ h)) (sound.is_live a refl);
  keeps_memberships = sound.keeps_memberships;
}
or_next-IsResolved auth_method db (none, after) next sound rest =
    subst (λ d. IsResolved db (next d)) (sym (sound.is_idle refl)) rest

module _ (lib : CryptoLib) (verify : Option (List ℕ → Option String)) (now : ℕ) where
  by_bearer-IsResolved :
      (bearer : Option (List ℕ)) (db : Db) → IsResolved db (by_bearer lib verify now bearer db)
  by_bearer-IsResolved none db = record { is_live = λ i h. absurd (cc h); keeps_memberships = refl }
  by_bearer-IsResolved (some bearer) db =
      or_next-IsResolved _ db _ _ (api_key-IsSound lib now bearer db) (
        or_next-IsResolved _ db _ _
          (by_identifier-IsSound lib verify now "oidc" (subject_of lib verify now bearer) db)
          (record { is_live = λ i h. absurd (cc h); keeps_memberships = refl }))

  pub resolve-IsResolved :
      (socket : Option TlsSocket) (header : Option (List ℕ)) (db : Db)
      → IsResolved db (resolve_agent_identity lib verify now socket header db)
  unfolding resolve_agent_identity
  resolve-IsResolved socket header db =
      or_next-IsResolved _ db _ _
        (by_identifier-IsSound lib verify now "mtls" (cert_of lib verify now socket) db)
        (by_bearer-IsResolved (bearer_of header) db)

  -- Whichever strategy resolves a request, the agent is registered and not revoked.
  pub resolve_agent_identity-IsLive :
      (socket : Option TlsSocket) (header : Option (List ℕ)) (db : Db) {i : ResolvedIdentity}
      → (resolve_agent_identity lib verify now socket header db).0 ≡ some i
      → IsLive i.agent db.agents
  resolve_agent_identity-IsLive socket header db {i} h =
      (resolve-IsResolved socket header db).is_live i h
