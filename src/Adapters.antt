-- ===== src/Adapters.antt =====
-- The registry of provider adapters (src/adapters/registry.ts). An adapter is what the tools use
-- of it; its `providerId` is the key under which it is registered.
pub mod Total
mod Tests
use securestore.Common.{
  String, Option, none, some, List, [], ◌∷◌, Bool, true, false, ◌||◌, string_eq, ◌==◌,
  if◌then◌else◌, lookup, insert, map,
}
use securestore.Tools.Brokered.{Adapter}

abbrev pub Registry : Type 0
Registry = List (String × Adapter)

unfoldable pub register : String × Adapter → Registry → Registry
register (provider_id, adapter) registry = insert provider_id adapter registry

unfoldable pub get : String → Registry → Option Adapter
get provider_id registry = lookup provider_id registry

-- The generic adapter for a type of credential.
abbrev pub generic_id : String → String
generic_id credential_type =
    if credential_type == "db_connection_string"
    then "generic-database"
    else if credential_type == "oauth_access_token" || credential_type == "oauth_refresh_token"
    then "generic-oauth2"
    else if credential_type == "api_key"
    then "generic-api-key-header"
    else "generic-bearer"

abbrev pub or_generic : Option Adapter → String → Registry → Option Adapter
or_generic (some exact) credential_type registry = some exact
or_generic none credential_type registry = get (generic_id credential_type) registry

-- `none` is where the source's `!` is wrong.
unfoldable pub resolve : (provider_id credential_type : String) → Registry → Option Adapter
resolve provider_id credential_type registry =
    or_generic (get provider_id registry) credential_type registry

abbrev pub register_all : List (String × Adapter) → Registry → Registry
register_all [] registry = registry
register_all (a ∷ adapters) registry = register_all adapters (register a registry)

-- The registrations when the module is loaded, in their order.
abbrev pub bundled : (adapter_of : String → Adapter) → List (String × Adapter)
bundled adapter_of =
    map (λ id. (id, adapter_of id))
      ("github" ∷ "gitlab" ∷ "openai" ∷ "anthropic" ∷ "npm" ∷ "generic-bearer"
        ∷ "generic-api-key-header" ∷ "generic-oauth2" ∷ "generic-database" ∷ [])
