-- ===== src/Crypto/Kms.antt =====
-- The key providers (src/crypto/kms.ts). Base64, the cipher and the client of AWS KMS are
-- parameters; `iv` is the 12 random bytes.
pub mod Faithful
mod Tests
use securestore.Common.{
  ℕ, String, Option, none, some, List, ◌++◌, Bool, true, false, not, ◌&&◌, ◌||◌, nat_beq, nat_eq,
  string_eq, ◌==◌, if◌then◌else◌, length, take, drop, truthy, or_else,
}
use securestore.Crypto.{CryptoLib}

-- The client of AWS KMS: `Encrypt` and `Decrypt` with their answers, if they have one.
pub record KmsClient : Type 0 where
  pub encrypt : (key_id : String) → List ℕ → Option (List ℕ)
  pub decrypt : (key_id : String) → List ℕ → Option (List ℕ)

pub data KeyProvider : Type 0 where
  local_key : (kek : List ℕ) → KeyProvider
  aws_kms : (kek_id : String) → KeyProvider

-- new LocalKeyProvider(): `none` is an error of the constructor.
unfoldable pub new_local_key_provider :
    (from_base64 : String → List ℕ) → Option String → Option KeyProvider
new_local_key_provider from_base64 master_key =
    if not (truthy master_key)
    then none
    else (let key = from_base64 (or_else master_key "") in
        if nat_beq (length key) 32 then some (local_key key) else none)

unfoldable pub new_aws_kms_key_provider : Option String → Option KeyProvider
new_aws_kms_key_provider key_id = if truthy key_id then some (aws_kms (or_else key_id "")) else none

pub record KmsConfig : Type 0 where
  pub kms_provider : String
  pub local_master_key_b64 : Option String
  pub aws_kms_key_id : Option String

-- The provider of the configuration, made once and kept. `none` is an error, and keeps nothing.
abbrev pub configured : (String → List ℕ) → KmsConfig → Option KeyProvider
configured from_base64 config =
    if config.kms_provider == "local"
    then new_local_key_provider from_base64 config.local_master_key_b64
    else if config.kms_provider == "aws-kms"
    then new_aws_kms_key_provider config.aws_kms_key_id
    else none

unfoldable pub get_key_provider :
    (String → List ℕ) → KmsConfig → Option KeyProvider → Option KeyProvider × Option KeyProvider
get_key_provider from_base64 config (some active) = (some active, some active)
get_key_provider from_base64 config none = let made = configured from_base64 config in (made, made)

abbrev pub kek_id_of : KeyProvider → String
kek_id_of (local_key kek) = "local"
kek_id_of (aws_kms kek_id) = kek_id

-- The same version for both.
abbrev pub kek_version : ℕ
kek_version = 1

module _ (lib : CryptoLib) (client : KmsClient) where
  abbrev pub aws_wrap_key : (kek_id : String) (dek : List ℕ) → Option (List ℕ)
  aws_wrap_key kek_id dek = client.encrypt kek_id dek

  -- The key id is pinned to the one that is stored with the secret.
  abbrev pub aws_unwrap_key : (wrapped : List ℕ) → String → ℕ → Option (List ℕ)
  aws_unwrap_key wrapped kek_id version =
      if not (nat_beq version kek_version) then none else client.decrypt kek_id wrapped

  -- iv(12) || tag(16) || ciphertext
  unfoldable pub wrap_key : KeyProvider → (iv dek : List ℕ) → Option (List ℕ)
  wrap_key (local_key kek) iv dek =
      some (iv ++ (lib.gcm_tag kek iv dek ++ lib.gcm_encrypt kek iv dek))
  wrap_key (aws_kms kek_id) iv dek = aws_wrap_key kek_id dek

  unfoldable pub unwrap_key : KeyProvider → (wrapped : List ℕ) → String → ℕ → Option (List ℕ)
  unwrap_key (local_key kek) wrapped kek_id version =
      if not (kek_id == "local") || not (nat_beq version kek_version)
      then none
      else lib.gcm_decrypt kek (take 12 wrapped) (drop 28 wrapped) (take 16 (drop 12 wrapped))
  unwrap_key (aws_kms own_id) wrapped kek_id version = aws_unwrap_key wrapped kek_id version
