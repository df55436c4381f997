-- ===== src/Auth/Tests.antt =====
-- The theorems on requests at a concrete client, and a request that brings its own session id.
use securestore.Common.{none, some, [], ◌∷◌, true, ◌≡◌, refl, insert, lookup}
use securestore.Agent.{is_agent_workspace_member}
use securestore.Agent.Registration.{
  agent_of_key, authenticate_api_key, authenticate_by_identifier, open_session,
}
use securestore.Crypto.{hash_api_key}
use securestore.Credential.Samples.{toy_lib}
use securestore.RateLimit.{refill, consume, try_consume}
use securestore.Tools.Samples.{agent, world}
use securestore.Auth.{
  Request, AuthState, accepted, extract_client_cert_identity, resolve_agent_identity, require_agent,
  http_context,
}
use securestore.Auth.Admission.{IsAdmitted, require_agent-IsAdmitted}

abbrev request : Request
request = record {
  socket = some (record { authorized = true; fingerprint256 = some "AB:CD" });
  authorization = none;
  workspace_id = some 10;
  session_id = none;
  ip = [];
}

-- The agent is a member of workspace 10 only.
abbrev state : AuthState
state = record {
  db = record world.db {
    agents =
        record {
          agent = agent;
          version = none;
          public_key = none;
          auth_identifier = some "AB:CD";
          revoked_at = none;
          last_connected_at = none;
        }
        ∷ [];
  };
  buckets = [];
}

-- With a session id of its own the request gets a context in any workspace.
foreign_workspace :
    (require_agent toy_lib none 60 1000 9
      (record request { workspace_id = some 99; session_id = some 5 })
      state).0
    ≡ accepted (http_context agent (record request { workspace_id = some 99 }) 5)
unfolding require_agent resolve_agent_identity extract_client_cert_identity
    authenticate_by_identifier authenticate_api_key agent_of_key hash_api_key try_consume refill
    consume open_session insert lookup
foreign_workspace = refl

require_agent-IsAdmitted_example :
    IsAdmitted toy_lib none 60 1000 9 request state (http_context agent request 9)
unfolding require_agent resolve_agent_identity extract_client_cert_identity
    authenticate_by_identifier authenticate_api_key agent_of_key hash_api_key try_consume refill
    consume open_session insert lookup is_agent_workspace_member
require_agent-IsAdmitted_example =
    require_agent-IsAdmitted toy_lib none 60 1000 9 request state refl
