-- ===== src/Crypto.antt =====
-- Fingerprints and envelope encryption (src/crypto/fingerprint.ts, src/crypto/envelope.ts).
-- The ciphers, the key provider and the random bytes are not the program's: `CryptoLib` has what
-- it relies on. Texts are lists of code points, buffers lists of bytes.
pub mod Roundtrip
pub mod Kms
use securestore.Common.{
  ℕ, suc, zero, ◌+◌, ◌-◌, String, Option, none, some, List, [], ◌∷◌, ◌++◌, Bool, true, false, ◌&&◌,
  ◌||◌, leb, nat_beq, if◌then◌else◌, length, take, drop, includes, nat_eq, ◌≡◌, reverse, codes,
}
use securestore.Credential.Types.{EncryptedSecret, Encoding}

-- The white space that `trim` takes off.
unfoldable pub is_space : ℕ → Bool
is_space c =
    (leb 9 c && leb c 13)
    || nat_beq c 32
    || nat_beq c 0xA0
    || nat_beq c 0x1680
    || (leb 0x2000 c && leb c 0x200A)
    || includes (0x2028 ∷ 0x2029 ∷ 0x202F ∷ 0x205F ∷ 0x3000 ∷ 0xFEFF ∷ []) c

unfoldable pub trim_start : List ℕ → List ℕ
unfolding is_space
trim_start [] = []
trim_start (c ∷ cs) = let rest = trim_start cs in if is_space c then rest else c ∷ cs

-- raw.trim()
unfoldable pub normalize_secret_for_fingerprint : List ℕ → List ℕ
unfolding trim_start
normalize_secret_for_fingerprint raw = reverse (trim_start (reverse (trim_start raw)))

-- node:crypto and the key provider. An HMAC of 256 bits is a number; `hmac` has the pepper of the
-- fingerprints for its key, `api_key_hmac` that of the API keys.
pub record CryptoLib : Type 0 where
  pub hmac : List ℕ → ℕ
  pub api_key_hmac : List ℕ → ℕ
  pub to_utf8 : List ℕ → List ℕ
  pub from_utf8 : List ℕ → List ℕ
  pub gcm_encrypt : (key nonce plain : List ℕ) → List ℕ
  pub gcm_tag : (key nonce plain : List ℕ) → List ℕ
  pub gcm_decrypt : (key nonce cipher tag : List ℕ) → Option (List ℕ)
  pub kek_id : String
  pub kek_version : ℕ
  pub wrap_key : List ℕ → List ℕ
  pub unwrap_key : List ℕ → String → ℕ → Option (List ℕ)

-- The raw key and its prefix; `random` is the text of the 24 random bytes in base64url.
abbrev pub generate_api_key : (random : List ℕ) → List ℕ × List ℕ
generate_api_key random = (codes "sss_" ++ random, take 12 (codes "sss_" ++ random))

-- What the documentation of node:crypto and of the key provider promises.
pub record IsFaithful (lib : CryptoLib) : Type 0 where
  pub utf8_roundtrip : (s : List ℕ) → lib.from_utf8 (lib.to_utf8 s) ≡ s
  pub tag_length : (k n p : List ℕ) → length (lib.gcm_tag k n p) ≡ 16
  pub gcm_roundtrip :
      (k n p : List ℕ) → lib.gcm_decrypt k n (lib.gcm_encrypt k n p) (lib.gcm_tag k n p) ≡ some p
  pub unwrap-wrap :
      (k : List ℕ) → lib.unwrap_key (lib.wrap_key k) lib.kek_id lib.kek_version ≡ some k

module _ (lib : CryptoLib) where
  -- HMAC of `${provider}:${credentialType}:${normalizedSecret}`
  unfoldable pub fingerprint_secret : String → String → List ℕ → ℕ
  fingerprint_secret provider credential_type normalized =
      lib.hmac (codes provider ++ (b':' ∷ (codes credential_type ++ (b':' ∷ normalized))))

  unfoldable pub hash_api_key : List ℕ → ℕ
  hash_api_key raw = lib.api_key_hmac raw

  -- `dek` and `nonce` are the 32 and the 12 random bytes.
  unfoldable pub encrypt_secret : (dek nonce : List ℕ) → List ℕ → Encoding → EncryptedSecret
  encrypt_secret dek nonce plaintext encoding =
      let plain = lib.to_utf8 plaintext in
      record {
        ciphertext = lib.gcm_encrypt dek nonce plain ++ lib.gcm_tag dek nonce plain;
        nonce = nonce;
        wrapped_dek = lib.wrap_key dek;
        kek_id = lib.kek_id;
        kek_version = lib.kek_version;
        encoding = encoding;
      }

  -- Where `subarray` cuts for the index `size - 16`: a negative index counts from the end.
  abbrev pub tag_start : ℕ → ℕ
  tag_start size = if leb 16 size then size - 16 else size - (16 - size)

  -- The last 16 bytes are the tag. `none` is a refusal of the key provider or of the cipher.
  unfoldable pub open_sealed : (dek nonce sealed : List ℕ) → Option (List ℕ)
  open_sealed dek nonce sealed =
      let at = tag_start (length sealed) in
      elim (lib.gcm_decrypt dek nonce (take at sealed) (drop at sealed)) [
        | none ↦ none
        | some plain ↦ some (lib.from_utf8 plain)
      ]

  unfoldable pub decrypt_secret : EncryptedSecret → Option (List ℕ)
  unfolding open_sealed
  decrypt_secret s = elim (lib.unwrap_key s.wrapped_dek s.kek_id s.kek_version) [
    | none ↦ none
    | some dek ↦ open_sealed dek s.nonce s.ciphertext
  ]
