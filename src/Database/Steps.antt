-- ===== src/Database/Steps.antt =====
-- Taking a transaction apart into its statements, and rows that survive an UPDATE or an INSERT.
use securestore.Common.{
  Option, none, some, List, [], ◌∷◌, Bool, false, ◌≡◌, refl, sym, arith, inl, inr, find?, any,
  update_where, Bool-cases,
}
use securestore.Database.{Db, Tx, Result, ok, err, ◌>>=◌, modify}

bind_cases {ℓ} :
    {A B : Type ℓ} (o : Result (A × Db)) (k : A × Db → Result (B × Db)) {r : B × Db}
    → elim o as (λ x. Result (B × Db)) [ err e ↦ err e | ok p ↦ k p ] ≡ ok r
    → (a : A) × (next : Db) × (o ≡ ok (a, next)) × (k (a, next) ≡ ok r)
bind_cases (ok (a, next)) k h = (a, next, refl, h)
bind_cases (err e) k h = absurd (cc h)

-- A block that succeeds: its first statement did, and so did the rest.
pub bind-eq-ok {ℓ} :
    {A B : Type ℓ} (m : Tx A) (f : A → Tx B) (db : Db) {r : B × Db}
    → (m >>= f) db ≡ ok r
    → (a : A) × (next : Db) × (m db ≡ ok (a, next)) × (f a next ≡ ok r)
unfolding ◌>>=◌
bind-eq-ok m f db h = bind_cases (m db) (λ p. f p.0 p.1) h

-- The same, with the state in between as a variable of the proof.
pub on_ok {ℓ κ} :
    {A B : Type ℓ} {C : Type κ} (m : Tx A) (f : A → Tx B) (db : Db) {r : B × Db}
    → (m >>= f) db ≡ ok r
    → ((a : A) (next : Db) → m db ≡ ok (a, next) → f a next ≡ ok r → C)
    → C
on_ok m f db h k = let (a, next, e, h') = bind-eq-ok m f db h in k a next e h'

-- A block whose first statement succeeds goes on from the state that it leaves.
pub bind-ok {ℓ} :
    {A B : Type ℓ} (m : Tx A) (f : A → Tx B) (db : Db) (a : A) (next : Db)
    → m db ≡ ok (a, next)
    → (m >>= f) db ≡ f a next
unfolding ◌>>=◌
bind-ok m f db a next h = rw (h, ◌>>=◌) refl

pub ok-state {ℓ} :
    {A : Type ℓ} {a b : A} {db next : Db}
    → ◌≡◌ {A = Result (A × Db)} (ok (a, db)) (ok (b, next))
    → (a ≡ b) × (db ≡ next)
ok-state h = (cc, cc)

pub modify-state :
    (f : Db → Db) (db : Db) {a : Unit {0}} {next : Db} → modify f db ≡ ok (a, next) → next ≡ f db
modify-state f db h = sym (ok-state h).1

module _ {ℓ} {A : Type ℓ} where
  pub find?-any-false : (p : A → Bool) (xs : List A) → any p xs ≡ false → find? p xs ≡ none
  find?-any-false p [] h = refl
  find?-any-false p (x ∷ xs) h = ground (arith, find?-any-false p xs)

  -- What an UPDATE makes of the row that a key finds, when it keeps the key.
  abbrev pub map_some : (A → A) → Option A → Option A
  map_some f none = none
  map_some f (some a) = some (f a)

  pub find?-update_where :
      (p : A → Bool) (f : A → A) (xs : List A)
      → ((x : A) → p (f x) ≡ p x)
      → find? p (update_where p f xs) ≡ map_some f (find? p xs)
  find?-update_where p f [] keep = refl
  find?-update_where p f (x ∷ xs) keep = elim (Bool-cases (p x)) [
    | inl e ↦ rw (e, keep x, e)
    | inr e ↦ rw (e, e) (find?-update_where p f xs keep)
  ]
