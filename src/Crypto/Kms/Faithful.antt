-- ===== src/Crypto/Kms/Faithful.antt =====
-- A key provider keeps the promise that the envelope encryption relies on.
use securestore.Common.{
  ℕ, String, some, List, [], ◌++◌, length, length-append, take, drop, ◌≡◌, sym, ap, ◌∙◌, arith,
  string_eq, or_else,
}
use mathlib.Core.Option.{some-injective}
use mathlib.Core.List.{append_assoc}
use securestore.Crypto.{CryptoLib, IsFaithful}
use securestore.Crypto.Roundtrip.{take-append, drop-append}
use securestore.Crypto.Kms.{
  KmsClient, KeyProvider, local_key, aws_kms, kek_id_of, kek_version, wrap_key, unwrap_key,
}

module _ (lib : CryptoLib) (client : KmsClient) where
  -- What the documentation of AWS KMS promises.
  unfoldable pub IsFaithfulClient : Type 0
  IsFaithfulClient =
      (id : String) (key blob : List ℕ)
      → client.encrypt id key ≡ some blob
      → client.decrypt id blob ≡ some key

  unwrap_local :
      (kek iv dek : List ℕ)
      → IsFaithful lib
      → length iv ≡ 12
      → unwrap_key lib client
          (local_key kek)
          (iv ++ (lib.gcm_tag kek iv dek ++ lib.gcm_encrypt kek iv dek))
          "local"
          kek_version
        ≡ some dek
  unfolding unwrap_key
  unwrap_local kek iv dek f size =
      let tag = lib.gcm_tag kek iv dek in
      let cipher = lib.gcm_encrypt kek iv dek in
      let after = drop-append iv (tag ++ cipher) 12 (sym size) in
      let tag_is : take 16 (drop 12 (iv ++ (tag ++ cipher))) ≡ tag =
        ap (take 16) after ∙ take-append tag cipher 16 (sym (f.tag_length kek iv dek)) in
      let cipher_is : drop 28 (iv ++ (tag ++ cipher)) ≡ cipher =
        ap (drop 28) (sym (append_assoc iv tag cipher))
        ∙ drop-append (iv ++ tag) cipher 28
            (omega (arith, length-append iv tag, size, f.tag_length kek iv dek)) in
      let iv_is = take-append iv (tag ++ cipher) 12 (sym size) in
      rw (iv_is, tag_is, cipher_is) (f.gcm_roundtrip kek iv dek)

  -- Either provider unwraps what it wrapped, under the id and version that are stored with the
  -- secret, with 12 random bytes and a faithful cipher and client.
  pub unwrap_key-wrap_key :
      (provider : KeyProvider) (iv dek wrapped : List ℕ)
      → IsFaithful lib
      → IsFaithfulClient
      → length iv ≡ 12
      → wrap_key lib client provider iv dek ≡ some wrapped
      → unwrap_key lib client provider wrapped (kek_id_of provider) kek_version ≡ some dek
  unfolding wrap_key IsFaithfulClient unwrap_key
  unwrap_key-wrap_key (local_key kek) iv dek wrapped f c size h =
      ap (λ x. unwrap_key lib client (local_key kek) x "local" kek_version)
        (sym (some-injective _ _ h))
      ∙ unwrap_local kek iv dek f size
  unwrap_key-wrap_key (aws_kms id) iv dek wrapped f c size h = c id dek wrapped h

-- The libraries that the envelope encryption is given, with the local key provider.
abbrev pub with_local_key : CryptoLib → KmsClient → (kek iv : List ℕ) → CryptoLib
with_local_key lib client kek iv = record lib {
  kek_id = kek_id_of (local_key kek);
  kek_version = kek_version;
  wrap_key = λ dek. or_else (wrap_key lib client (local_key kek) iv dek) [];
  unwrap_key = unwrap_key lib client (local_key kek);
}

-- The local key provider fulfils the contract of the envelope encryption: with it, and a faithful
-- cipher, all the laws hold that decryption relies on.
pub with_local_key-IsFaithful :
    (lib : CryptoLib) (client : KmsClient) (kek iv : List ℕ)
    → IsFaithful lib
    → length iv ≡ 12
    → IsFaithful (with_local_key lib client kek iv)
unfolding wrap_key
with_local_key-IsFaithful lib client kek iv f size = record {
  utf8_roundtrip = f.utf8_roundtrip;
  tag_length = f.tag_length;
  gcm_roundtrip = f.gcm_roundtrip;
  unwrap-wrap = λ dek. unwrap_local lib client kek iv dek f size;
}
