-- ===== src/Events/CatchUp.antt =====
-- Live delivery and catching up show a client the same events, and no event is skipped.
use securestore.Common.{
  ℕ, zero, suc, ◌<◌, ◌≤◌, Option, none, some, List, [], ◌∷◌, ◌++◌, Bool, true, false, ◌&&◌, ltb,
  nat_eq, filter, take, ◌≡◌, refl, ap, sym, ◌∙◌, arith, inl, inr, Bool-cases,
}
use securestore.Events.{
  SecureStoreEvent, Scope, workspaceless, is_org, in_workspace_scope, is_delivered,
  row_in_workspace_scope, is_listed_since, list_events_since,
}

-- The ids grow along the list and are above `least`.
abbrev pub AreAscending : ℕ → List SecureStoreEvent → Type 0
AreAscending least [] = Unit
AreAscending least (e ∷ es) = (least < e.id) × AreAscending e.id es

same_scope :
    (w : Option ℕ) (scope : Scope)
    → row_in_workspace_scope w scope.workspace_ids (workspaceless scope.include_workspaceless)
      ≡ in_workspace_scope w scope
same_scope none scope = refl
same_scope (some id) scope = refl

-- Without a filter of event types, `subscribe` hands on a new event exactly when `listEventsSince`
-- with an earlier id has it in its scope.
pub delivered-listed :
    (scope : Scope) (since_id : ℕ) (event : SecureStoreEvent)
    → since_id < event.id
    → is_delivered scope none event ≡ is_listed_since since_id scope event
unfolding is_delivered
delivered-listed scope since_id event h = rw (same_scope event.workspace_id scope) (ground arith)

-- The id of the last event of a page, or `since_id` for an empty page.
abbrev pub last_id : ℕ → List SecureStoreEvent → ℕ
last_id since_id [] = since_id
last_id since_id (e ∷ es) = last_id e.id es

-- Everything that matches, without a limit.
abbrev pub all_since : ℕ → Scope → List SecureStoreEvent → List SecureStoreEvent
all_since since_id scope events = filter (is_listed_since since_id scope) events

abbrev in_scope : Scope → SecureStoreEvent → Bool
in_scope scope e =
    is_org e.org_id scope.org_id
    && row_in_workspace_scope e.workspace_id scope.workspace_ids
        (workspaceless scope.include_workspaceless)

-- Above the ids that are asked for, the clause on the id says nothing.
all_since-later :
    (since_id least : ℕ) (scope : Scope) (es : List SecureStoreEvent)
    → since_id ≤ least
    → AreAscending least es
    → all_since since_id scope es ≡ filter (in_scope scope) es
all_since-later since_id least scope [] h a = refl
all_since-later since_id least scope (e ∷ es) h a =
    let later : ltb since_id e.id ≡ true = ground (arith, h, a.0) in
    let rest = all_since-later since_id e.id scope es (omega (arith, h, a.0)) a.1 in
    elim (Bool-cases (in_scope scope e)) [
      | inl k ↦ rw (later, k) (ap (λ (l : List SecureStoreEvent). e ∷ l) rest)
      | inr k ↦ rw (later, k) rest
    ]

AreAscending-weaken :
    (low high : ℕ) (es : List SecureStoreEvent)
    → low ≤ high
    → AreAscending high es
    → AreAscending low es
AreAscending-weaken low high [] h a = tt
AreAscending-weaken low high (e ∷ es) h a = (omega (arith, h, a.0), a.1)

filter-AreAscending :
    (p : SecureStoreEvent → Bool) (least : ℕ) (es : List SecureStoreEvent)
    → AreAscending least es
    → AreAscending least (filter p es)
filter-AreAscending p least [] a = tt
filter-AreAscending p least (e ∷ es) a = elim (Bool-cases (p e)) [
  | inl k ↦ rw k (a.0, filter-AreAscending p e.id es a.1)
  | inr k ↦ rw k (
      AreAscending-weaken least e.id (filter p es) (omega (arith, a.0))
        (filter-AreAscending p e.id es a.1))
]

take-AreAscending :
    (n least : ℕ) (es : List SecureStoreEvent)
    → AreAscending least es
    → AreAscending least (take n es)
take-AreAscending zero least es a = tt
take-AreAscending (suc n) least [] a = tt
take-AreAscending (suc n) least (e ∷ es) a = (a.0, take-AreAscending n e.id es a.1)

le-last_id :
    (least : ℕ) (es : List SecureStoreEvent) → AreAscending least es → least ≤ last_id least es
le-last_id least [] a = omega arith
le-last_id least (e ∷ es) a = omega (arith, a.0, le-last_id e.id es a.1)

all_since-AreAscending :
    (since_id least : ℕ) (scope : Scope) (es : List SecureStoreEvent)
    → AreAscending least es
    → AreAscending since_id (all_since since_id scope es)
all_since-AreAscending since_id least scope [] a = tt
all_since-AreAscending since_id least scope (e ∷ es) a =
    elim (Bool-cases (is_listed_since since_id scope e)) [
      | inl k ↦
          rw k (ground arith, filter-AreAscending (is_listed_since since_id scope) e.id es a.1)
      | inr k ↦ rw k (all_since-AreAscending since_id e.id scope es a.1)
    ]

unlisted_later :
    (low high : ℕ) (scope : Scope) (e : SecureStoreEvent)
    → is_listed_since low scope e ≡ false
    → low ≤ high
    → is_listed_since high scope e ≡ false
unlisted_later low high scope e h k = ground arith

unlisted_own :
    (high : ℕ) (scope : Scope) (e : SecureStoreEvent)
    → e.id ≤ high
    → is_listed_since high scope e ≡ false
unlisted_own high scope e h = ground arith

-- Asking again with the last id of a page gives what the page left out: the page, and then
-- everything since its last event, is everything since the first id.
pub list_events_since-rest :
    (since_id : ℕ) (scope : Scope) (limit least : ℕ) (events : List SecureStoreEvent)
    → AreAscending least events
    → list_events_since since_id scope limit events
        ++ all_since (last_id since_id (list_events_since since_id scope limit events)) scope events
      ≡ all_since since_id scope events
unfolding list_events_since
list_events_since-rest since_id scope zero least events a = refl
list_events_since-rest since_id scope (suc n) least [] a = refl
list_events_since-rest since_id scope (suc n) least (e ∷ es) a =
    elim (Bool-cases (is_listed_since since_id scope e)) [
      | inr k ↦
          let page = take (suc n) (all_since since_id scope es) in
          let after : since_id ≤ last_id since_id page = le-last_id since_id page (
            take-AreAscending (suc n) since_id _
              (all_since-AreAscending since_id e.id scope es a.1)) in
          let whole : list_events_since since_id scope (suc n) (e ∷ es) ≡ page = rw k refl in
          let kept : page ++ all_since (last_id since_id page) scope (e ∷ es)
              ≡ all_since since_id scope (e ∷ es) =
            rw (unlisted_later since_id (last_id since_id page) scope e k after, k)
              (list_events_since-rest since_id scope (suc n) e.id es a.1) in
          ap (λ (l : List SecureStoreEvent). l ++ all_since (last_id since_id l) scope (e ∷ es))
            whole
          ∙ kept
      | inl k ↦
          let page = take n (all_since e.id scope es) in
          let same : all_since since_id scope es ≡ all_since e.id scope es =
            all_since-later since_id e.id scope es (ground arith) a.1
            ∙ sym (all_since-later e.id e.id scope es (omega arith) a.1) in
          let after : e.id ≤ last_id e.id page =
            le-last_id e.id page
              (take-AreAscending n e.id _ (all_since-AreAscending e.id e.id scope es a.1)) in
          let whole : list_events_since since_id scope (suc n) (e ∷ es) ≡ e ∷ page =
            rw (k, same) refl in
          let kept : (e ∷ page) ++ all_since (last_id e.id page) scope (e ∷ es)
              ≡ all_since since_id scope (e ∷ es) =
            rw (unlisted_own (last_id e.id page) scope e after, k, same)
              (ap (λ (l : List SecureStoreEvent). e ∷ l)
                (list_events_since-rest e.id scope n e.id es a.1)) in
          ap (λ (l : List SecureStoreEvent). l ++ all_since (last_id since_id l) scope (e ∷ es))
            whole
          ∙ kept
    ]
