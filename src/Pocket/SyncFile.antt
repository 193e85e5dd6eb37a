-- ===== src/Pocket/SyncFile.antt =====
-- packages/pocket-shared/src/format.ts: the file that the desktop uploads and the phone downloads.
pub mod Published
pub mod Samples
mod Examples
use arkode.Prelude.{
  ℕ, ◌≡◌, Bool, true, false, not, List, [], ◌∷◌, Option, none, some, ltb, if◌then◌else◌,
}
use arkode.Prelude.Results.{Result, ok, err, ◌>>=◌, ◌>>◌, ensure, or_throw}
use arkode.Pocket.Bytes.{codes, bytes_to_base64, base64_to_bytes}
use arkode.Pocket.Blob.{
  PocketCryptoError, PocketCryptoAdapter, encrypt_pocket_blob, decrypt_pocket_blob,
}
use arkode.Pocket.Json.{
  Json, string, number, object, Fields, no_fields, field, get, same_text, as_string, as_number,
  as_record, TextPlatform,
}
use arkode.Pocket.Payload.{Text, PocketSnapshotPayload}
use arkode.Pocket.Snapshot.{PocketFormatError, validate_pocket_snapshot_payload}
use arkode.Pocket.Snapshot.Documents.{payload_json}

abbrev pub sync_file_magic : Text
sync_file_magic = codes "ARKPKT"

abbrev pub sync_format_version : ℕ
sync_format_version = 1

-- `magic` is the constant.
pub record PocketSyncFile : Type 0 where
  pub format_version : ℕ
  pub pocket_id : Text
  pub revision : ℕ
  pub generated_at : Text
  pub payload : Text

pub record PocketSyncFileMeta : Type 0 where
  pub pocket_id : Text
  pub revision : ℕ
  pub generated_at : Text

-- What the functions of the file throw: the messages of the envelope, and those of the blob and of
-- the payload passed on.
pub data SyncError : Type 0 where
  bad_json not_an_object bad_magic newer_format missing_fields payload_not_json : SyncError
  crypto : PocketCryptoError → SyncError
  payload_format : PocketFormatError → SyncError

-- A throw of a callee, as one of the caller.
abbrev pub rethrow {ℓ} :
    {E : Type 0} {A : Type ℓ} → (E → SyncError) → Result E A → Result SyncError A
rethrow as_error (ok a) = ok a
rethrow as_error (err e) = err (as_error e)

-- The object as `JSON.stringify` writes it.
abbrev pub file_json : PocketSyncFile → Json
file_json file = object (
    field "magic" (string sync_file_magic) (
      field "formatVersion" (number file.format_version) (
        field "pocketId" (string file.pocket_id) (
          field "revision" (number file.revision) (
            field "generatedAt" (string file.generated_at)
              (field "payload" (string file.payload) no_fields))))))

abbrev pub has_magic : Option Text → Bool
has_magic none = false
has_magic (some text) = same_text text sync_file_magic

module _ (platform : TextPlatform) where
  unfoldable pub build_pocket_sync_file :
      PocketSnapshotPayload
      → List ℕ
      → PocketSyncFileMeta
      → PocketCryptoAdapter
      → Result SyncError PocketSyncFile
  build_pocket_sync_file payload dek file_meta adapter = do
    let plaintext = platform.utf8_to_bytes (platform.stringify (payload_json payload))
    blob ← rethrow crypto (encrypt_pocket_blob adapter plaintext dek)
    ok (record {
      format_version = sync_format_version;
      pocket_id = file_meta.pocket_id;
      revision = file_meta.revision;
      generated_at = file_meta.generated_at;
      payload = bytes_to_base64 blob;
    })

  unfoldable pub serialize_pocket_sync_file : PocketSyncFile → List ℕ
  serialize_pocket_sync_file file = platform.utf8_to_bytes (platform.stringify (file_json file))

  unfoldable pub parse_pocket_sync_file : List ℕ → Result SyncError PocketSyncFile
  parse_pocket_sync_file raw = do
    parsed ← or_throw (platform.parse (platform.bytes_to_utf8 raw)) bad_json
    f ← or_throw (as_record parsed) not_an_object
    ensure (has_magic (as_string (get "magic" f))) bad_magic
    format_version ← or_throw (as_number (get "formatVersion" f)) newer_format
    ensure (not (ltb sync_format_version format_version)) newer_format
    pocket_id ← or_throw (as_string (get "pocketId" f)) missing_fields
    revision ← or_throw (as_number (get "revision" f)) missing_fields
    generated_at ← or_throw (as_string (get "generatedAt" f)) missing_fields
    payload ← or_throw (as_string (get "payload" f)) missing_fields
    ok (record {
      format_version = format_version;
      pocket_id = pocket_id;
      revision = revision;
      generated_at = generated_at;
      payload = payload;
    })

  unfoldable pub decrypt_pocket_snapshot_payload :
      PocketSyncFile → List ℕ → PocketCryptoAdapter → Result SyncError PocketSnapshotPayload
  decrypt_pocket_snapshot_payload file dek adapter = do
    let blob = base64_to_bytes file.payload
    plaintext ← rethrow crypto (decrypt_pocket_blob adapter blob dek)
    parsed ← or_throw (platform.parse (platform.bytes_to_utf8 plaintext)) payload_not_json
    rethrow payload_format (validate_pocket_snapshot_payload parsed)
