-- ===== src/Credential/Search.antt =====
-- Searching for credentials (src/services/credentialService.ts: findCredentials). `ilike` is the
-- database's ILIKE of a name with a pattern.
pub mod Isolation
mod Tests
use securestore.Common.{
  ℕ, String, Option, none, some, List, [], ◌∷◌, Bool, true, false, not, ◌&&◌, leb, min, or_else,
  nat_beq, string_eq, ◌==◌, truthy, any, includes, filter, take, map, if◌then◌else◌,
}
use securestore.Credential.Types.{
  CredentialStatus, active, expiring, expired, revoked, deleted, archived, unresolved, Credential,
  CredentialRecord,
}
use securestore.Credential.Queries.{row_to_credential}
use securestore.Visibility.{visibility_where_clause}
use securestore.Database.{Db}

pub record VisibleTo : Type 0 where
  pub org_id : ℕ
  pub agent_id : ℕ
  pub member_workspace_ids : List ℕ

pub record FindCredentialsQuery : Type 0 where
  pub visible_to : VisibleTo
  pub workspace_id : Option ℕ
  pub provider : Option String
  pub credential_type : Option String
  pub environment : Option String
  pub tags : Option (List String)
  pub name_query : Option String
  pub status : Option String
  pub limit : Option ℕ

-- The text in the column.
abbrev pub status_text : CredentialStatus → String
status_text active = "active"
status_text expiring = "expiring"
status_text expired = "expired"
status_text revoked = "revoked"
status_text deleted = "deleted"
status_text archived = "archived"
status_text unresolved = "unresolved"

-- A clause that is there only if the field is; an empty text is none.
abbrev pub equals_if : Option String → String → Bool
equals_if field value = if truthy field then value == or_else field "" else true

abbrev pub workspace_if : Option ℕ → Option ℕ → Bool
workspace_if none workspace_id = true
workspace_if (some id) none = false
workspace_if (some id) (some workspace_id) = nat_beq workspace_id id

-- c.tags && $n, if there are tags
abbrev pub tags_if : Option (List String) → List String → Bool
tags_if none tags = true
tags_if (some []) tags = true
tags_if (some (t ∷ ts)) tags = any (λ x. includes tags x) (t ∷ ts)

abbrev pub is_deleted : CredentialStatus → Bool
is_deleted s = elim s [ deleted ↦ true | _ ↦ false ]

-- ORDER BY c.updated_at DESC
unfoldable pub insert_by_update : Credential → List Credential → List Credential
insert_by_update c [] = c ∷ []
insert_by_update c (d ∷ ds) =
    let rest = insert_by_update c ds in
    if leb d.updated_at c.updated_at then c ∷ d ∷ ds else d ∷ rest

unfoldable pub order_by_update : List Credential → List Credential
unfolding insert_by_update
order_by_update [] = []
order_by_update (c ∷ cs) = insert_by_update c (order_by_update cs)

module _ (ilike : String → String → Bool) where
  abbrev pub name_if : Option String → String → Bool
  name_if query name = if truthy query then ilike name (or_else query "") else true

  unfoldable pub is_found : FindCredentialsQuery → Credential → Bool
  is_found q c =
      not (is_deleted c.status)
      && (visibility_where_clause q.visible_to.org_id q.visible_to.agent_id
            q.visible_to.member_workspace_ids c
          && (workspace_if q.workspace_id c.workspace_id
              && (equals_if q.provider c.provider
                  && (equals_if q.credential_type c.credential_type
                      && (equals_if q.environment c.environment
                          && (equals_if q.status (status_text c.status)
                              && (name_if q.name_query c.name && tags_if q.tags c.tags)))))))

  unfoldable pub find_credentials : FindCredentialsQuery → Db → List CredentialRecord
  find_credentials q db =
      map (λ c. row_to_credential c db.versions)
        (take (min (or_else q.limit 50) 500) (order_by_update (filter (is_found q) db.credentials)))
