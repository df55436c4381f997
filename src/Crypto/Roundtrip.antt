-- ===== src/Crypto/Roundtrip.antt =====
-- Decryption undoes encryption.
use securestore.Common.{
  ℕ, zero, suc, some, List, [], ◌∷◌, ◌++◌, length, take, drop, length-append, ◌≡◌, refl, ap, arith,
}
use securestore.Credential.Types.{Encoding}
use securestore.Crypto.{
  CryptoLib, IsFaithful, tag_start, encrypt_secret, open_sealed, decrypt_secret,
}

pub take-append : (xs ys : List ℕ) (n : ℕ) → n ≡ length xs → take n (xs ++ ys) ≡ xs
take-append [] [] zero e = refl
take-append [] (y ∷ ys) zero e = refl
take-append [] ys (suc n) e = absurd (omega arith)
take-append (x ∷ xs) ys zero e = absurd (omega arith)
take-append (x ∷ xs) ys (suc n) e = ap (λ (l : List ℕ). x ∷ l) (take-append xs ys n (omega arith))

pub drop-append : (xs ys : List ℕ) (n : ℕ) → n ≡ length xs → drop n (xs ++ ys) ≡ ys
drop-append [] ys zero e = refl
drop-append [] ys (suc n) e = absurd (omega arith)
drop-append (x ∷ xs) ys zero e = absurd (omega arith)
drop-append (x ∷ xs) ys (suc n) e = drop-append xs ys n (omega arith)

-- With faithful ciphers and key provider, decrypting what `encryptSecret` made gives the
-- plaintext back, whatever the random bytes and the encoding.
pub decrypt-encrypt :
    (lib : CryptoLib) (dek nonce plaintext : List ℕ) (encoding : Encoding)
    → IsFaithful lib
    → decrypt_secret lib (encrypt_secret lib dek nonce plaintext encoding) ≡ some plaintext
unfolding decrypt_secret encrypt_secret
decrypt-encrypt lib dek nonce plaintext encoding f =
    let plain = lib.to_utf8 plaintext in
    let cipher = lib.gcm_encrypt dek nonce plain in
    let tag = lib.gcm_tag dek nonce plain in
    let cut : tag_start lib (length (cipher ++ tag)) ≡ length cipher =
      ground (arith, length-append cipher tag, f.tag_length dek nonce plain) in
    rw (f.unwrap-wrap dek, decrypt_secret)
      (rw
        (
          take-append cipher tag _ cut,
          drop-append cipher tag _ cut,
          f.gcm_roundtrip dek nonce plain,
          open_sealed,
        )
        (rw (f.utf8_roundtrip plaintext)))
