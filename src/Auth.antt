-- ===== src/Auth.antt =====
-- Who a request comes from (src/auth/resolveAgent.ts, src/auth/mtls.ts) and what the REST
-- middleware makes of it (src/api/auth.ts). The TLS handshake and the verification of a JWT are
-- not the program's: a socket carries the handshake's result, and `verify` is `verifyOidcToken`,
-- with the subject that a valid token has. Texts of headers are code points.
pub mod Live
pub mod Admission
mod Tests
use securestore.Common.{
  ℕ, String, Option, none, some, List, [], ◌∷◌, Bool, true, false, nat_beq, if◌then◌else◌, codes,
}
use securestore.Crypto.{CryptoLib}
use securestore.Agent.Types.{AgentRecord}
use securestore.Agent.Registration.{authenticate_api_key, authenticate_by_identifier, open_session}
use securestore.RateLimit.{Buckets, try_consume}
use securestore.Database.{Db, Result, ok, err}
use securestore.Tools.{AgentContext}

-- A TLS socket: whether the chain of the client's certificate was verified, and the
-- certificate's fingerprint, if there is one.
pub record TlsSocket : Type 0 where
  pub authorized : Bool
  pub fingerprint256 : Option String

pub data AuthMethod : Type 0 where
  mtls api_key oidc : AuthMethod

pub record ResolvedIdentity : Type 0 where
  pub agent : AgentRecord
  pub auth_method : AuthMethod

unfoldable pub extract_client_cert_identity : TlsSocket → Option String
extract_client_cert_identity socket = if socket.authorized then socket.fingerprint256 else none

-- The text after the prefix, if the text starts with it.
abbrev pub strip_prefix : (prefix text : List ℕ) → Option (List ℕ)
strip_prefix [] text = some text
strip_prefix (c ∷ cs) [] = none
strip_prefix (c ∷ cs) (d ∷ ds) = let rest = strip_prefix cs ds in if nat_beq c d then rest else none

-- An empty token is none.
abbrev pub bearer_of : Option (List ℕ) → Option (List ℕ)
bearer_of none = none
bearer_of (some header) = elim (strip_prefix (codes "Bearer ") header) [
  | none ↦ none
  | some rest ↦ elim rest [ [] ↦ none | c ∷ cs ↦ some (c ∷ cs) ]
]

-- One strategy: its agent, or else the next one on the tables that it leaves.
abbrev pub or_next :
    AuthMethod
    → Option AgentRecord × Db
    → (Db → Option ResolvedIdentity × Db)
    → Option ResolvedIdentity × Db
or_next auth_method (some agent, db) next =
    (some (record { agent = agent; auth_method = auth_method }), db)
or_next auth_method (none, db) next = next db

module _ (lib : CryptoLib) (verify : Option (List ℕ → Option String)) (now : ℕ) where
  -- The subject of a token, if OIDC is configured and the token is valid.
  abbrev pub subject_of : List ℕ → Option String
  subject_of bearer = elim verify [ none ↦ none | some check ↦ check bearer ]

  abbrev pub by_identifier : String → Option String → Db → Option AgentRecord × Db
  by_identifier auth_method none db = (none, db)
  by_identifier auth_method (some identifier) db =
      authenticate_by_identifier now auth_method identifier db

  abbrev pub by_bearer : Option (List ℕ) → Db → Option ResolvedIdentity × Db
  by_bearer none db = (none, db)
  by_bearer (some bearer) db =
      or_next api_key (authenticate_api_key lib now bearer db)
        λ after. or_next oidc (by_identifier "oidc" (subject_of bearer) after) λ last. (none, last)

  abbrev pub cert_of : Option TlsSocket → Option String
  cert_of none = none
  cert_of (some socket) = extract_client_cert_identity socket

  unfoldable pub resolve_agent_identity :
      Option TlsSocket → Option (List ℕ) → Db → Option ResolvedIdentity × Db
  resolve_agent_identity socket authorization_header db =
      or_next mtls (by_identifier "mtls" (cert_of socket) db)
        (by_bearer (bearer_of authorization_header))

pub record Request : Type 0 where
  pub socket : Option TlsSocket
  pub authorization : Option (List ℕ)
  pub workspace_id : Option ℕ
  pub session_id : Option ℕ
  pub ip : List ℕ

pub record AuthState : Type 0 where
  pub db : Db
  pub buckets : Buckets

-- A refusal with its status code, or the context of the request.
pub data Reply : Type 0 where
  unauthorized rate_limited forbidden : Reply
  accepted : AgentContext → Reply

abbrev pub http_context : AgentRecord → Request → (session_id : ℕ) → AgentContext
http_context agent request session_id = record {
  agent = agent;
  session_id = session_id;
  workspace_id = request.workspace_id;
  transport = "http";
  source_network = some request.ip;
}

-- The session of the header, or else a new one.
abbrev pub with_session :
    AgentRecord → Request → Option ℕ → Result (ℕ × Db) → AuthState → Reply × AuthState
with_session agent request (some session_id) opened state =
    (accepted (http_context agent request session_id), state)
with_session agent request none (err e) state = (forbidden, state)
with_session agent request none (ok (session_id, db)) state =
    (accepted (http_context agent request session_id), record state { db = db })

-- The rate limiter's answer.
abbrev pub within_limit :
    (now session_uuid : ℕ) → AgentRecord → Request → Bool × Buckets → Db → Reply × AuthState
within_limit now session_uuid agent request (false, buckets) db =
    (rate_limited, record { db = db; buckets = buckets })
within_limit now session_uuid agent request (true, buckets) db =
    with_session agent request request.session_id
      (open_session now session_uuid agent.id request.workspace_id "http" (some request.ip) db)
      (record { db = db; buckets = buckets })

-- A request whose agent is known.
abbrev pub admit :
    (per_minute now session_uuid : ℕ)
    → Request
    → Option ResolvedIdentity × Db
    → Buckets
    → Reply × AuthState
admit per_minute now session_uuid request (none, db) buckets =
    (unauthorized, record { db = db; buckets = buckets })
admit per_minute now session_uuid request (some identity, db) buckets =
    within_limit now session_uuid identity.agent request
      (try_consume per_minute now identity.agent.id buckets) db

unfoldable pub require_agent :
    CryptoLib
    → Option (List ℕ → Option String)
    → (per_minute now session_uuid : ℕ) → Request
    → AuthState
    → Reply × AuthState
require_agent lib verify per_minute now session_uuid request state =
    admit per_minute now session_uuid request
      (resolve_agent_identity lib verify now request.socket request.authorization state.db)
      state.buckets
