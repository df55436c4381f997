-- ===== src/Credential/Metadata/Merge.antt =====
-- What `mergeMetadata` keeps and what it takes, key by key.
use securestore.Common.{
  ◌≤◌, String, Option, none, some, [], ◌∷◌, true, if◌then◌else◌, string_eq, lookup, includes, false,
  UniqueKeys, lookup-insert, lookup-eq-none, lookup-head, ◌≡◌, refl, sym, ap, ◌⊎◌, inl, inr, arith,
  eq_iff, Option-cases, Bool-cases, ◌∙◌,
}
use mathlib.Core.Path.{subst}
use securestore.Credential.Types.{MetadataField, CredentialMetadata}
use securestore.Credential.Metadata.{
  object_members, Slot, own, inherited, absent, slot_at, chosen, write_if, merge_loop,
  merge_metadata,
}

-- What is at a key after the loop, from the field before and the existing and incoming ones.
abbrev pub merged_field : Option MetadataField → Slot → Option MetadataField → Option MetadataField
merged_field before existing none = before
merged_field before existing (some f) = elim (chosen existing f) [ none ↦ before | some g ↦ some g ]

lookup-write_if :
    (k j : String) (o : Option MetadataField) (m : CredentialMetadata)
    → lookup k (write_if j o m)
      ≡ (if string_eq.beq j k then elim o [ none ↦ lookup k m | some g ↦ some g ] else lookup k m)
lookup-write_if k j none m = ground arith
lookup-write_if k j (some g) m = lookup-insert j k g m

lookup-merge_loop :
    (existing merged incoming : CredentialMetadata) (k : String)
    → UniqueKeys incoming
    → lookup k (merge_loop existing merged incoming)
      ≡ merged_field (lookup k merged) (slot_at k existing) (lookup k incoming)
unfolding merge_loop
lookup-merge_loop existing merged [] k u = unfold lookup in refl
lookup-merge_loop existing merged ((j, f) ∷ incoming) k u =
    let next = write_if j (chosen (slot_at j existing) f) merged in
    lookup-merge_loop existing next incoming k u.1 ∙ (elim (Bool-cases (string_eq.beq j k)) [
      | inl same ↦
          let e : j ≡ k = (eq_iff j k).0 same in
          rw
            (
              lookup-write_if,
              lookup-eq-none k incoming (rw e at u.0),
              lookup-head k j f incoming,
              same,
            )
            (rw e refl)
      | inr other ↦ rw (lookup-write_if, lookup-head k j f incoming, other)
    ])

lookup-merge_metadata :
    (existing incoming : CredentialMetadata) (k : String)
    → UniqueKeys incoming
    → lookup k (merge_metadata existing incoming)
      ≡ merged_field (lookup k existing) (slot_at k existing) (lookup k incoming)
unfolding merge_metadata
lookup-merge_metadata existing incoming k u = lookup-merge_loop existing existing incoming k u

-- A verified field gives way to a verified field only, and to one of less confidence only if that
-- one is verified.
pub record IsNoWeaker (before after : MetadataField) : Type 0 where
  pub verified : before.verified ≡ true → after.verified ≡ true
  pub confidence : (after.verified ≡ true) ⊎ (before.confidence ≤ after.confidence)

chosen-IsNoWeaker :
    (before f g : MetadataField) → chosen (own before) f ≡ some g → IsNoWeaker before g
unfolding chosen
chosen-IsNoWeaker before f g h = record { verified = ground arith; confidence = ground arith }

chosen-same : (e f : MetadataField) {g : MetadataField} → chosen (own e) f ≡ some g → f ≡ g
unfolding chosen
chosen-same e f h = ground (arith)

-- What the merge makes of one key, by the fields there before and in the update.
pub MergesTo : (key : String) (existing incoming after : Option MetadataField) → Type 0
MergesTo key existing none after = after ≡ existing
MergesTo key (some e) (some f) after =
    (IsNoWeaker e f × (after ≡ some f)) ⊎ ((¬ IsNoWeaker e f) × (after ≡ some e))
MergesTo key none (some f) after =
    (((f.verified ≡ true) ⊎ (includes object_members key ≡ false)) × (after ≡ some f))
    ⊎ ((f.verified ≡ false) × (includes object_members key ≡ true) × (after ≡ none))

refused-weaker : (e f : MetadataField) → chosen (own e) f ≡ none → ¬ IsNoWeaker e f
unfolding chosen
refused-weaker e f h strong = ground (arith, strong.verified, strong.confidence)

merged_own :
    (key : String) (e f : MetadataField)
    → MergesTo key (some e) (some f) (merged_field (some e) (own e) (some f))
unfolding MergesTo
merged_own key e f = elim (Option-cases (chosen (own e) f)) [
  | inl kept ↦ inr (refused-weaker e f kept, rw (kept, merged_field) refl)
  | inr (g, taken) ↦
      let same = chosen-same e f taken in
      inl (rw same (chosen-IsNoWeaker e f g taken), rw (taken, merged_field) (ap some (sym same)))
]

-- The slot of a key, from the field there.
abbrev slot_of : String → Option MetadataField → Slot
slot_of key o = elim o [
  | some f ↦ own f
  | none ↦ if includes object_members key then inherited else absent
]

merged_new :
    (key : String) (f : MetadataField)
    → MergesTo key none (some f) (merged_field none (slot_of key none) (some f))
unfolding chosen MergesTo
merged_new key f = elim (Bool-cases (includes object_members key)) [
  | inr fresh ↦ rw fresh (inl (inr refl, refl))
  | inl member ↦ elim (Bool-cases f.verified) [
    | inl v ↦ rw member (inl (inl v, rw v refl))
    | inr v ↦ rw member (inr (v, refl, rw v refl))
  ]
]

merged_at :
    (key : String) (o i : Option MetadataField)
    → MergesTo key o i (merged_field o (slot_of key o) i)
unfolding MergesTo
merged_at key o none = refl
merged_at key (some e) (some f) = merged_own key e f
merged_at key none (some f) = merged_new key f

-- At each key, the merge with fields that have each its own key leaves the field there if the
-- update has none. Where both have one, it takes the new field exactly if that is no weaker:
-- verified if the old one is, and verified or of no less confidence. Where only the update has
-- one, it takes it, unless it is not verified and the key is a member of every object.
pub lookup-merge :
    (existing incoming : CredentialMetadata) (k : String)
    → UniqueKeys incoming
    → MergesTo k
        (lookup k existing)
        (lookup k incoming)
        (lookup k (merge_metadata existing incoming))
lookup-merge existing incoming k u =
    let e : MergesTo k (lookup k existing) (lookup k incoming)
        (merged_field (lookup k existing) (slot_at k existing) (lookup k incoming)) =
      unfold slot_at in merged_at k (lookup k existing) (lookup k incoming) in
    subst (MergesTo k (lookup k existing) (lookup k incoming))
      (sym (lookup-merge_metadata existing incoming k u)) e

kept_or_stronger :
    (before : MetadataField) (incoming : Option MetadataField)
    → (after : MetadataField) × (merged_field (some before) (own before) incoming ≡ some after)
      × IsNoWeaker before after
kept_or_stronger before none =
    (before, refl, record { verified = λ h. h; confidence = inr (omega arith) })
kept_or_stronger before (some f) = elim (Option-cases (chosen (own before) f)) [
  | inl kept ↦ (
    before,
    rw (kept, merged_field),
    record { verified = λ h. h; confidence = inr (omega arith) },
  )
  | inr (g, taken) ↦ (g, rw (taken, merged_field), chosen-IsNoWeaker before f g taken)
]

slot_at-own :
    (k : String) (m : CredentialMetadata) {f : MetadataField}
    → lookup k m ≡ some f
    → slot_at k m ≡ own f
unfolding slot_at
slot_at-own k m h = rw (h, slot_at) refl

-- After the merge with fields that have each its own key, a field that was there is still there,
-- itself or one that is no weaker: verified if it was, and verified or of no less confidence.
pub merge-IsNoWeaker :
    (existing incoming : CredentialMetadata) (k : String) (before : MetadataField)
    → UniqueKeys incoming
    → lookup k existing ≡ some before
    → (after : MetadataField) × (lookup k (merge_metadata existing incoming) ≡ some after)
      × IsNoWeaker before after
merge-IsNoWeaker existing incoming k before u e =
    let (after, found, good) = kept_or_stronger before (lookup k incoming) in
    (
      after,
      lookup-merge_metadata existing incoming k u ∙ rw (slot_at-own k existing e, e) found,
      good,
    )
