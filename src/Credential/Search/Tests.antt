-- ===== src/Credential/Search/Tests.antt =====
-- A search on concrete tables, and its theorem there.
use securestore.Common.{◌≤◌, String, none, some, [], ◌∷◌, Bool, true, length, All, ◌≡◌, refl}
use securestore.Credential.Samples.{sample_credential}
use securestore.Credential.Types.{CredentialStatus, CredentialRecord}
use securestore.Credential.Search.{
  FindCredentialsQuery, insert_by_update, order_by_update, is_found, find_credentials,
}
use securestore.Credential.Search.Isolation.{MayShow, find_credentials-MayShow}
use securestore.Visibility.{visibility_where_clause}
use securestore.Database.{Db, empty}

abbrev any_name : String → String → Bool
any_name name query = true

abbrev query : FindCredentialsQuery
query = record {
  visible_to = record { org_id = 1; agent_id = 5; member_workspace_ids = 10 ∷ [] };
  workspace_id = none;
  provider = some "github";
  credential_type = none;
  environment = some "";
  tags = none;
  name_query = some "ci";
  status = none;
  limit = none;
}

-- One credential to find, one of another organization, and one that is deleted.
abbrev db : Db
db = record empty {
  credentials =
      sample_credential
      ∷ record sample_credential { id = 102; org_id = 2 }
      ∷ record sample_credential { id = 103; status = CredentialStatus.deleted }
      ∷ record sample_credential { id = 104; updated_at = 9 }
      ∷ [];
}

search_run : length (find_credentials any_name query db) ≡ 2
unfolding find_credentials is_found visibility_where_clause insert_by_update order_by_update
search_run = refl

find_credentials-MayShow_example :
    All
      (λ (r : CredentialRecord). MayShow query.visible_to r.row)
      (find_credentials any_name query db)
    × (length (find_credentials any_name query db) ≤ 500)
find_credentials-MayShow_example = find_credentials-MayShow any_name query db
