-- ===== src/Policy/Approval/Tests.antt =====
-- The theorems on approval requests at concrete requests.
use securestore.Common.{◌⊎◌, some, none, [], ◌∷◌, true, ◌≡◌, refl}
use securestore.Policy.Approval.{get_approval_status, create_approval_request, decide_approval}
use securestore.Policy.Approval.Isolation.{
  IsRequestOf, IsDecided, decide_approval-get_approval_status,
}
use securestore.Credential.Samples.{sample_credential}
use securestore.Database.{Db, empty, ok, err, foreign_key_violation}
use securestore.Policy.Types.{ApprovalRequest, pending}
use mathlib.Core.List.{Memᴰ}

-- Credentials of the organizations 1 and 2, each with a request.
abbrev two_credentials : Db
two_credentials = record empty {
  users = 40 ∷ [];
  credentials = sample_credential ∷ record sample_credential { id = 102; org_id = 2 } ∷ [];
}

requested : Db
requested =
    (create_approval_request 8 72 102 6 "secret_get"
      (create_approval_request 7 71 101 5 "secret_get" two_credentials).1).1

-- Agent 5 is no user; user 40 is.
approval_runs :
    (decide_approval 9 1 72 40 true none requested ≡ ok (none, requested))
    × (get_approval_status 2 71 requested ≡ none)
    × (decide_approval 9 1 71 5 true none requested ≡ err foreign_key_violation)
unfolding requested decide_approval get_approval_status create_approval_request
approval_runs = (refl, refl, refl)

request : ApprovalRequest
request = record {
  id = 71;
  credential_id = 101;
  agent_id = 5;
  operation = "secret_get";
  requested_at = 7;
  status = pending;
  decided_by = none;
  decided_at = none;
  reason = none;
}

decide_approval-get_approval_status_example :
    IsRequestOf 1 71 requested request
    × ((Memᴰ 40 requested.users
          × (after : ApprovalRequest) × (next : Db) × (decide_approval 9 1 71 40 true none requested
              ≡ ok (some after, next))
          × IsDecided 9 40 true none request after
          × (get_approval_status 1 71 next ≡ some after))
        ⊎ ((¬ Memᴰ 40 requested.users)
            × (decide_approval 9 1 71 40 true none requested ≡ err foreign_key_violation)))
unfolding requested request get_approval_status create_approval_request
decide_approval-get_approval_status_example =
    decide_approval-get_approval_status 9 1 71 40 true none requested request refl
