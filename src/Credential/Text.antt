-- ===== src/Credential/Text.antt =====
-- The text of a metadata value: `String(value)` in src/services/credentialService.ts:
-- findRotationCandidate, and `->> 'value'` on its stored form, by code points. PostgreSQL gives a
-- list there as JSON, with a space after each comma.
use securestore.Common.{
  ℕ, ◌+◌, ◌/◌, ◌%◌, String, Option, none, some, List, [], ◌∷◌, ◌++◌, Bool, true, false, ◌&&◌, leb,
  nat_beq, if◌then◌else◌, codes, string_eq, ◌≡◌, refl,
}
use securestore.Credential.Types.{Value, text, texts, time}

hex_digit : ℕ → ℕ
hex_digit n = if leb n 9 then b'0' + n else 87 + n

-- A character inside a JSON string. 34 is the quote, 92 the backslash.
json_char : ℕ → List ℕ
unfolding hex_digit
json_char c =
    if nat_beq c 34
    then 92 ∷ 34 ∷ []
    else if nat_beq c 92
    then 92 ∷ 92 ∷ []
    else if leb 32 c
    then c ∷ []
    else if nat_beq c 8
    then 92 ∷ b'b' ∷ []
    else if nat_beq c 9
    then 92 ∷ b't' ∷ []
    else if nat_beq c 10
    then 92 ∷ b'n' ∷ []
    else if nat_beq c 12
    then 92 ∷ b'f' ∷ []
    else if nat_beq c 13
    then 92 ∷ b'r' ∷ []
    else 92 ∷ b'u' ∷ b'0' ∷ b'0' ∷ hex_digit (c / 16) ∷ hex_digit (c % 16) ∷ []

json_chars : List ℕ → List ℕ
unfolding json_char
json_chars [] = []
json_chars (c ∷ cs) = json_char c ++ json_chars cs

json_string : String → List ℕ
unfolding json_chars
json_string s = 34 ∷ (json_chars (codes s) ++ 34 ∷ [])

json_rest : List String → List ℕ
unfolding json_string
json_rest [] = b']' ∷ []
json_rest (s ∷ ss) = b',' ∷ 32 ∷ (json_string s ++ json_rest ss)

json_list : List String → List ℕ
unfolding json_string json_rest
json_list [] = b'[' ∷ b']' ∷ []
json_list (s ∷ ss) = b'[' ∷ (json_string s ++ json_rest ss)

joined_rest : List String → List ℕ
joined_rest [] = []
joined_rest (s ∷ ss) = b',' ∷ (codes s ++ joined_rest ss)

-- String(list)
joined : List String → List ℕ
unfolding joined_rest
joined [] = []
joined (s ∷ ss) = codes s ++ joined_rest ss

same_codes : List ℕ → List ℕ → Bool
same_codes [] [] = true
same_codes (a ∷ cs) (b ∷ ds) = nat_beq a b && same_codes cs ds
same_codes _ _ = false

-- metadata -> 'accountIdentifier' ->> 'value' = String(accountId). A timestamp's text is the text
-- of no other value.
unfoldable pub same_text : Option Value → Value → Bool
unfolding json_list joined same_codes
same_text none account = false
same_text (some (time a)) (time b) = nat_beq a b
same_text (some (time a)) account = false
same_text (some value) (time b) = false
same_text (some (text s)) (text t) = string_eq.beq s t
same_text (some (text s)) (texts ts) = same_codes (codes s) (joined ts)
same_text (some (texts ss)) (text t) = same_codes (json_list ss) (codes t)
same_text (some (texts ss)) (texts ts) = same_codes (json_list ss) (joined ts)

texts_run :
    (same_text (some (text "bob")) (texts ("bob" ∷ [])) ≡ true)
    × (same_text (some (text "a,b")) (texts ("a" ∷ "b" ∷ [])) ≡ true)
    × (same_text (some (texts ("a" ∷ "b" ∷ []))) (texts ("a" ∷ "b" ∷ [])) ≡ false)
    × (same_text (some (texts ("a" ∷ "b" ∷ []))) (text "[\"a\", \"b\"]") ≡ true)
unfolding same_text
texts_run = (refl, refl, refl, refl)
