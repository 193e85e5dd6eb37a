-- ===== src/PocketPublish.antt =====
-- packages/engine-core/src/vault/pocket/runPocketPublish.ts: one publication for the phone. rclone and
-- the files of the staging directory are parameters, and so are the stored key and the payload that is
-- read from the vault.
pub mod Atomic
mod Examples
use Prim.Native.String.{String}
use arkode.Prelude.{
  ℕ, Bool, true, false, not, ◌&&◌, ◌||◌, List, [], ◌∷◌, Option, none, some, if◌then◌else◌,
}
use arkode.Prelude.Results.{Result, ok, err, ◌>>=◌, ◌>>◌}
use arkode.FileOrchestrator.{text_of}
use arkode.Pocket.Blob.{PocketCryptoAdapter}
use arkode.Pocket.Json.{TextPlatform}
use arkode.Pocket.Payload.{Text, PocketSnapshotPayload}
use arkode.Pocket.SyncFile.{
  PocketSyncFileMeta, SyncError, build_pocket_sync_file, serialize_pocket_sync_file,
  parse_pocket_sync_file, decrypt_pocket_snapshot_payload,
}
use arkode.PocketState.{
  PocketStateRow, PocketPublishAttempt, PocketTable, is_dirty, attempt_of, set_drive_file_id,
  begin_publish_attempt, confirm_publish, record_failure,
}

pub data PocketPublishStatus : Type 0 where
  published skipped_not_dirty not_configured disabled publish_failed : PocketPublishStatus

-- The state that the source adds is the row that the call leaves.
pub record PocketPublishResult : Type 0 where
  pub status : PocketPublishStatus
  pub revision : Option ℕ
  pub error : Option String

-- `R` is the state of the remote folder. A call of rclone answers, or throws, and may change it in
-- either case. `meanwhile` is what else happens to the row while the upload runs.
pub record PublishEnv (R : Type 0) : Type 0 where
  pub platform : TextPlatform
  pub adapter : PocketCryptoAdapter
  pub is_unlocked : Bool
  pub stored_dek : Option (List ℕ)
  pub has_drive_config : Bool
  pub build_payload : Result String PocketSnapshotPayload
  pub id_text : ℕ → Text
  pub generated_at : Text
  pub message_of : SyncError → String
  pub redact_secrets : String → String
  pub attempted_now : ℕ
  pub confirmed_now : ℕ
  pub stage_file : List ℕ → Result String (Unit {0})
  pub copy_to : List ℕ → R → Result String (Unit {0}) × R
  pub copy_down : R → Result String (List ℕ) × R
  pub move_to : R → Result String (Unit {0}) × R
  pub list_ids : R → Result String (List String) × R
  pub list_leftovers : R → Result String (List String) × R
  pub delete_file : String → R → R
  pub meanwhile : PocketStateRow → PocketStateRow

module _ {R : Type 0} (env : PublishEnv R) where
  abbrev pub failed_result : String → PocketPublishResult
  failed_result message = record { status = publish_failed; revision = none; error = some message }

  abbrev pub plain_result : PocketPublishStatus → PocketPublishResult
  plain_result status = record { status = status; revision = none; error = none }

  -- An error of pocket-shared, as its message.
  abbrev pub thrown : {A : Type 0} → Result SyncError A → Result String A
  thrown (ok a) = ok a
  thrown (err error) = err (env.message_of error)

  abbrev pub publish_meta : PocketStateRow → ℕ → PocketSyncFileMeta
  publish_meta row revision = record {
    pocket_id = env.id_text row.pocket_id;
    revision = revision;
    generated_at = env.generated_at;
  }

  -- `decryptPocketSnapshotPayload(parsePocketSyncFile(bytes), …)`, for its errors.
  unfoldable pub verify : List ℕ → List ℕ → Result String PocketSnapshotPayload
  unfolding parse_pocket_sync_file decrypt_pocket_snapshot_payload
  verify dek bytes = do
    file ← thrown (parse_pocket_sync_file env.platform bytes)
    thrown (decrypt_pocket_snapshot_payload env.platform file dek env.adapter)

  -- Up to the upload: the file, checked and staged.
  unfoldable pub prepare_file :
      List ℕ → PocketStateRow → PocketPublishAttempt → Result String (List ℕ)
  unfolding build_pocket_sync_file serialize_pocket_sync_file verify
  prepare_file dek row attempt = do
    payload ← env.build_payload
    file ← thrown (
        build_pocket_sync_file env.platform payload dek (publish_meta row attempt.target_revision)
          env.adapter)
    let bytes = serialize_pocket_sync_file env.platform file
    checked ← verify dek bytes
    env.stage_file bytes
    ok bytes

  -- The rename over the published file, if what was downloaded is good.
  abbrev pub after_verify : Result String PocketSnapshotPayload → R → Result String (Unit {0}) × R
  after_verify (err message) r = (err message, r)
  after_verify (ok payload) r = env.move_to r

  abbrev pub after_copy_down : List ℕ → Result String (List ℕ) × R → Result String (Unit {0}) × R
  after_copy_down dek (err message, r) = (err message, r)
  after_copy_down dek (ok downloaded, r) = after_verify (verify dek downloaded) r

  abbrev pub after_copy_to : List ℕ → Result String (Unit {0}) × R → Result String (Unit {0}) × R
  after_copy_to dek (err message, r) = (err message, r)
  after_copy_to dek (ok answer, r) = after_copy_down dek (env.copy_down r)

  abbrev pub upload : List ℕ → Result String (List ℕ) → R → Result String (Unit {0}) × R
  upload dek (err message) r = (err message, r)
  upload dek (ok bytes) r = after_copy_to dek (env.copy_to bytes r)

  -- `if (ids[0]) setDriveFileId(ids[0])`.
  abbrev pub locate : Result String (List String) → PocketStateRow → PocketStateRow
  locate (err message) row = row
  locate (ok []) row = row
  locate (ok (id ∷ _)) row = elim (text_of (some id)) [
    | none ↦ row
    | some file_id ↦ set_drive_file_id (some file_id) row
  ]

  abbrev pub delete_all_files : List String → R → R
  delete_all_files [] r = r
  delete_all_files (name ∷ names) r = delete_all_files names (env.delete_file name r)

  abbrev pub sweep_leftovers : Result String (List String) × R → R
  sweep_leftovers (err message, r) = r
  sweep_leftovers (ok names, r) = delete_all_files names r

  -- The confirmation after the rename, or the `catch`.
  abbrev pub after_upload :
      PocketPublishAttempt
      → PocketStateRow
      → Result String (Unit {0}) × R
      → PocketPublishResult × PocketStateRow × R
  after_upload attempt row (err message, r) = (
    failed_result (env.redact_secrets message),
    record_failure (env.redact_secrets message) (env.meanwhile row),
    r,
  )
  after_upload attempt row (ok answer, r) =
      let (ids, r1) = env.list_ids r in
      (
        record { status = published; revision = some attempt.target_revision; error = none },
        confirm_publish env.confirmed_now attempt (locate ids (env.meanwhile row)),
        sweep_leftovers (env.list_leftovers r1),
      )

  -- What follows the tests.
  abbrev pub publish_with : List ℕ → PocketStateRow → R → PocketPublishResult × PocketStateRow × R
  publish_with dek row r =
      let (attempt, begun) = begin_publish_attempt env.attempted_now row in
      after_upload attempt begun (upload dek (prepare_file dek row attempt) r)

  abbrev pub refuse : String → PocketStateRow → R → PocketPublishResult × PocketStateRow × R
  refuse message row r = (failed_result message, record_failure message row, r)

  abbrev pub if_drive :
      Bool → Option String → List ℕ → PocketStateRow → R → PocketPublishResult × PocketStateRow × R
  if_drive true (some path) dek row r = publish_with dek row r
  if_drive connected path dek row r =
      refuse "Google Drive is not connected for Arkode Pocket." row r

  abbrev pub if_dek :
      Option (List ℕ) → PocketStateRow → R → PocketPublishResult × PocketStateRow × R
  if_dek none row r = refuse "Arkode Pocket has no device key yet — pair a device first." row r
  if_dek (some dek) row r = if_drive env.has_drive_config (text_of row.drive_remote_path) dek row r

  abbrev pub guarded :
      Bool → Bool → Bool → Bool → PocketStateRow → R → PocketPublishResult × PocketStateRow × R
  guarded false enabled wanted unlocked row r = (plain_result not_configured, row, r)
  guarded true false wanted unlocked row r = (plain_result disabled, row, r)
  guarded true true false unlocked row r = (plain_result skipped_not_dirty, row, r)
  guarded true true true false row r =
      refuse "The vault is locked — unlock Arkode to publish Pocket." row r
  guarded true true true true row r = if_dek env.stored_dek row r

  -- On the row; without one the answer is `not_configured` and nothing changes.
  unfoldable pub do_publish : Bool → PocketStateRow → R → PocketPublishResult × PocketStateRow × R
  unfolding prepare_file begin_publish_attempt confirm_publish verify
  do_publish force row r =
      guarded row.configured row.enabled (is_dirty row || force) env.is_unlocked row r

  unfoldable pub run_pocket_publish : Bool → PocketTable → R → PocketPublishResult × PocketTable × R
  unfolding do_publish
  run_pocket_publish force none r = (plain_result not_configured, none, r)
  run_pocket_publish force (some row) r =
      let (result, row', r') = do_publish force row r in (result, some row', r')
