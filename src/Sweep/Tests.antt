-- ===== src/Sweep/Tests.antt =====
-- The theorems on a sweep at a concrete credential.
use securestore.Common.{none, some, [], ◌∷◌, true, ◌≡◌}
use securestore.Credential.Samples.{sample_credential}
use securestore.Credential.Types.{VersionStatus}
use securestore.Database.{Db, empty}
use securestore.Sweep.{run_expiry_sweep}
use securestore.Sweep.Idempotence.{run_expiry_sweep_twice}

-- An active credential whose version expires at 1000.
abbrev db : Db
db = record empty {
  credentials = record sample_credential { current_version_id = some 201 } ∷ [];
  versions =
      record {
        id = 201;
        credential_id = 101;
        version_number = 1;
        status = VersionStatus.active;
        rotation_of = none;
        expires_at = some 1000;
        refresh_expires_at = none;
        scopes = [];
        created_by_agent_id = 5;
      }
      ∷ [];
}

run_expiry_sweep_twice_example :
    run_expiry_sweep true 900 200 (run_expiry_sweep true 900 200 db)
    ≡ run_expiry_sweep true 900 200 db
run_expiry_sweep_twice_example = run_expiry_sweep_twice 900 200 db
