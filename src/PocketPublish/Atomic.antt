-- ===== src/PocketPublish/Atomic.antt =====
-- A publication replaces the published file with a verified one, or leaves it as it is.
use Prim.Native.String.{String}
use arkode.Prelude.{ℕ, ◌≡◌, ◌⊎◌, List, Option, some}
use arkode.Prelude.Results.{Result, ok, err}
use arkode.Pocket.Payload.{PocketSnapshotPayload}
use arkode.PocketState.{PocketStateRow, attempt_of}
use arkode.PocketPublish.{PublishEnv, published, PocketPublishResult, verify}

-- What is relied on of rclone, by what the published file holds: only a rename that answers replaces
-- the published file.
pub record KeepsPublished {R : Type 0} (env : PublishEnv R) (file : R → Option (List ℕ))
    : Type 0 where
  pub copy_to : (bytes : List ℕ) (r : R) → file (env.copy_to bytes r).1 ≡ file r
  pub copy_down : (r : R) → file (env.copy_down r).1 ≡ file r
  pub failed_move :
      (message : String) (r r' : R) → env.move_to r ≡ (err message, r') → file r' ≡ file r

module _ {R : Type 0} (env : PublishEnv R) where
  -- The remote file before a rename that answered: it was downloaded and decrypts to a payload.
  abbrev pub IsVerified : Type 0
  IsVerified =
      (dek : List ℕ) × (bytes : List ℕ) × (payload : PocketSnapshotPayload) × (before : R)
      × (after : R) × (env.copy_down before ≡ (ok bytes, after))
      × (verify env dek bytes ≡ ok payload)
      × ((env.move_to after).0 ≡ ok tt)

  module _ (row : PocketStateRow) where
    -- The file was replaced, and its revision is confirmed.
    abbrev pub IsReplaced : PocketPublishResult × PocketStateRow × R → Type 0
    IsReplaced result =
        (result.0.status ≡ published)
        × (result.1.last_confirmed_revision ≡ some (attempt_of row).target_revision)
        × IsVerified

    -- The file is the one before, and so is the confirmed revision.
    abbrev pub IsKept :
        (R → Option (List ℕ)) → R → PocketPublishResult × PocketStateRow × R → Type 0
    IsKept file r result =
        (file result.2 ≡ file r) × (result.1.last_confirmed_revision ≡ row.last_confirmed_revision)

module _ {R : Type 0} (env : PublishEnv R) (file : R → Option (List ℕ))
    (keeps : KeepsPublished env file) where
  abbrev Uploads : R → Result String (Unit {0}) × R → Type 0
  Uploads r (ok answer, r') = IsVerified env
  Uploads r (err message, r') = file r' ≡ file r

  module _ (row : PocketStateRow) (r : R)
      (meanwhile : (x : PocketStateRow)
        → (env.meanwhile x).last_confirmed_revision ≡ x.last_confirmed_revision) where
    abbrev Ends : PocketPublishResult × PocketStateRow × R → Type 0
    Ends result = IsReplaced env row result ⊎ IsKept env row file r result
