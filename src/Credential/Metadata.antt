-- ===== src/Credential/Metadata.antt =====
-- Metadata fields with their provenance (src/services/credentialService.ts: fieldValue,
-- buildMetadata, mergeMetadata). The key `__proto__`, whose assignment sets the prototype of the
-- object, is not among the keys.
pub mod Merge
use securestore.Common.{
  ℕ, String, Option, none, some, List, [], ◌∷◌, Bool, true, false, not, ◌&&◌, ◌||◌, leb, or_else,
  if◌then◌else◌, string_eq, lookup, insert, includes,
}
use securestore.Credential.Types.{Value, MetadataField, CredentialMetadata}

-- metadata?.[key]?.value
unfoldable pub field_value : Option CredentialMetadata → String → Option Value
field_value none key = none
field_value (some metadata) key = elim (lookup key metadata) [ none ↦ none | some f ↦ some f.value ]

unfoldable pub stamp : ℕ → ℕ → MetadataField → MetadataField
stamp now agent_id f = record f {
  updated_at = some (or_else f.updated_at now);
  introduced_by_agent_id = some (or_else f.introduced_by_agent_id agent_id);
}

-- The loop of `buildMetadata`, over the object built so far.
unfoldable pub build_loop : ℕ → ℕ → CredentialMetadata → CredentialMetadata → CredentialMetadata
unfolding stamp
build_loop now agent_id out [] = out
build_loop now agent_id out ((k, f) ∷ input) =
    build_loop now agent_id (insert k (stamp now agent_id f) out) input

unfoldable pub build_metadata : ℕ → CredentialMetadata → ℕ → CredentialMetadata
unfolding build_loop
build_metadata now input agent_id = build_loop now agent_id [] input

-- The members that every object inherits from Object.prototype.
abbrev pub object_members : List String
object_members =
    "constructor" ∷ "toString" ∷ "toLocaleString" ∷ "valueOf" ∷ "hasOwnProperty" ∷ "isPrototypeOf"
    ∷ "propertyIsEnumerable" ∷ "__defineGetter__" ∷ "__defineSetter__" ∷ "__lookupGetter__"
    ∷ "__lookupSetter__" ∷ []

-- What `existing[key]` is: a field of the object, an inherited member, or nothing.
pub data Slot : Type 0 where
  own : MetadataField → Slot
  inherited : Slot
  absent : Slot

unfoldable pub slot_at : String → CredentialMetadata → Slot
slot_at key existing = elim (lookup key existing) [
  | some f ↦ own f
  | none ↦ if includes object_members key then inherited else absent
]

-- One turn of the loop of `mergeMetadata`: the field that `key` has afterwards, if it is written.
-- An inherited member is a function: it is not verified, and no confidence is at least its own.
unfoldable pub chosen : Slot → MetadataField → Option MetadataField
chosen absent incoming = some incoming
chosen inherited incoming = if incoming.verified then some incoming else none
chosen (own existing) incoming =
    if existing.verified && not incoming.verified
    then none
    else if leb existing.confidence incoming.confidence || incoming.verified
    then some incoming
    else none

abbrev pub write_if : String → Option MetadataField → CredentialMetadata → CredentialMetadata
write_if key none merged = merged
write_if key (some f) merged = insert key f merged

unfoldable pub merge_loop :
    CredentialMetadata → CredentialMetadata → CredentialMetadata → CredentialMetadata
unfolding chosen
merge_loop existing merged [] = merged
merge_loop existing merged ((key, f) ∷ incoming) =
    merge_loop existing (write_if key (chosen (slot_at key existing) f) merged) incoming

unfoldable pub merge_metadata : CredentialMetadata → CredentialMetadata → CredentialMetadata
unfolding merge_loop slot_at
merge_metadata existing incoming = merge_loop existing existing incoming
