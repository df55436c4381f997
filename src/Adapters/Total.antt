-- ===== src/Adapters/Total.antt =====
-- Every credential has an adapter.
use mathlib.Core.Option.{some-injective}
use securestore.Common.{
  String, some, List, [], ◌∷◌, Bool, true, false, ◌||◌, string_eq, ◌==◌, if◌then◌else◌, ◌≡◌, refl,
  sym, ap, ◌∙◌, inl, inr, Bool-cases, Option-cases, lookup, insert, lookup-insert,
}
use securestore.Tools.Brokered.{Adapter}
use securestore.Adapters.{Registry, register, get, or_generic, resolve, register_all, bundled}

Has : String → Registry → Type 0
Has id registry = (a : Adapter) × (get id registry ≡ some a)

register-Has :
    (id : String) (new : String × Adapter) (registry : Registry)
    → Has id registry
    → Has id (register new registry)
unfolding Has register get
register-Has id (j, adapter) registry (a, there) = elim (Bool-cases (j == id)) [
  | inl e ↦ (adapter, lookup-insert j id adapter registry ∙ rw e refl)
  | inr e ↦ (a, lookup-insert j id adapter registry ∙ rw e there)
]

register_all-Has :
    (id : String) (adapters : List (String × Adapter)) (registry : Registry)
    → Has id registry
    → Has id (register_all adapters registry)
register_all-Has id [] registry h = h
register_all-Has id (a ∷ adapters) registry h =
    register_all-Has id adapters (register a registry) (register-Has id a registry h)

-- The four generic adapters.
record HasGenerics (registry : Registry) : Type 0 where
  database : Has "generic-database" registry
  oauth2 : Has "generic-oauth2" registry
  api_key_header : Has "generic-api-key-header" registry
  bearer : Has "generic-bearer" registry

chosen-Has :
    (registry : Registry) (database oauth2 api_key : Bool)
    → HasGenerics registry
    → Has
        (if database
          then "generic-database"
          else if oauth2
          then "generic-oauth2"
          else if api_key
          then "generic-api-key-header"
          else "generic-bearer")
        registry
chosen-Has registry true oauth2 api_key h = h.database
chosen-Has registry false true api_key h = h.oauth2
chosen-Has registry false false true h = h.api_key_header
chosen-Has registry false false false h = h.bearer

bundled-HasGenerics :
    (adapter_of : String → Adapter) (custom : List (String × Adapter))
    → HasGenerics (register_all custom (register_all (bundled adapter_of) []))
unfolding Has register get insert lookup
bundled-HasGenerics adapter_of custom =
    let kept = λ (id : String) (h : Has id (register_all (bundled adapter_of) [])).
      register_all-Has id custom (register_all (bundled adapter_of) []) h in
    record {
      database = kept "generic-database" (adapter_of "generic-database", refl);
      oauth2 = kept "generic-oauth2" (adapter_of "generic-oauth2", refl);
      api_key_header = kept "generic-api-key-header" (adapter_of "generic-api-key-header", refl);
      bearer = kept "generic-bearer" (adapter_of "generic-bearer", refl);
    }

-- With the bundled adapters and whatever custom ones are registered after them, every provider and
-- type of credential resolves to an adapter: a registered one for the provider, if there is one.
pub resolve-some :
    (adapter_of : String → Adapter) (custom : List (String × Adapter))
    (provider_id credential_type : String)
    → (a : Adapter) × (resolve provider_id credential_type
          (register_all custom (register_all (bundled adapter_of) []))
        ≡ some a)
      × ((exact : Adapter)
          → get provider_id (register_all custom (register_all (bundled adapter_of) []))
            ≡ some exact
          → a ≡ exact)
unfolding resolve Has
resolve-some adapter_of custom provider_id credential_type =
    let registry = register_all custom (register_all (bundled adapter_of) []) in
    elim (Option-cases (get provider_id registry)) [
      | inr (exact, there) ↦ (
        exact,
        ap (λ o. or_generic o credential_type registry) there,
        λ other e. some-injective _ _ (sym there ∙ e),
      )
      | inl gone ↦
          let (a, found) =
            chosen-Has registry (credential_type == "db_connection_string")
              (credential_type == "oauth_access_token" || credential_type == "oauth_refresh_token")
              (credential_type == "api_key") (bundled-HasGenerics adapter_of custom) in
          (
            a,
            ap (λ o. or_generic o credential_type registry) gone ∙ found,
            λ other e. absurd (cc (sym gone ∙ e)),
          )
    ]
