-- ===== src/Crypto/Kms/Tests.antt =====
-- The theorems on key providers at a concrete key.
use securestore.Common.{none, some, [], replicate, ◌≡◌, refl, sym}
use securestore.Credential.Samples.{toy_lib, toy_lib-IsFaithful}
use securestore.Crypto.{IsFaithful}
use securestore.Crypto.Kms.{KmsClient, local_key, new_local_key_provider, get_key_provider}
use securestore.Crypto.Kms.Faithful.{IsFaithfulClient, with_local_key, with_local_key-IsFaithful}

abbrev client : KmsClient
client = record { encrypt = λ id key. some key; decrypt = λ id blob. some blob }

client-IsFaithful : IsFaithfulClient toy_lib client
unfolding IsFaithfulClient
client-IsFaithful id key blob h = sym h

provider_runs :
    ((get_key_provider
        (λ b64. replicate 32 0)
        (record {
          kms_provider = "local";
          local_master_key_b64 = some "AAAA";
          aws_kms_key_id = none;
        })
        none).0
      ≡ some (local_key (replicate 32 0)))
    × ((get_key_provider
          (λ b64. [])
          (record {
            kms_provider = "vault-transit";
            local_master_key_b64 = none;
            aws_kms_key_id = none;
          })
          none).0
        ≡ none)
unfolding get_key_provider new_local_key_provider
provider_runs = (refl, refl)

with_local_key-IsFaithful_example : IsFaithful (with_local_key toy_lib client [] (replicate 12 4))
with_local_key-IsFaithful_example =
    with_local_key-IsFaithful toy_lib client [] (replicate 12 4) toy_lib-IsFaithful refl
