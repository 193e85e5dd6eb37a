-- ===== src/Pocket/Pairing.antt =====
-- packages/pocket-shared/src/pairing.ts: the code that hands the phone its key.
pub mod Scanned
mod Examples
use arkode.Prelude.{ℕ, Bool, List, [], ◌∷◌, Option, none, some, ◌==◌, length}
use arkode.Prelude.Results.{Result, ok, err, ◌>>=◌, ◌>>◌, ensure, or_throw}
use arkode.Pocket.Bytes.{bytes_to_base64, base64_to_bytes}
use arkode.Pocket.Json.{
  Json, string, number, object, Fields, no_fields, field, get, as_string, as_number, as_record,
  TextPlatform,
}
use arkode.Pocket.Payload.{Text}
use arkode.Pocket.Snapshot.Documents.{text_or_null}

abbrev pub pairing_payload_version : ℕ
pairing_payload_version = 1

abbrev pub pocket_dek_length : ℕ
pocket_dek_length = 32

pub record PocketPairingDriveHint : Type 0 where
  pub file_id : Option Text
  pub remote_path : Text
  pub file_name : Text

-- `v` is the constant 1.
pub record PocketPairingPayload : Type 0 where
  pub pocket_id : Text
  pub dek : Text
  pub drive : PocketPairingDriveHint

-- The messages of `PocketFormatError`, one constructor for each throw.
pub data PairingError : Type 0 where
  bad_dek_length not_a_pairing_code unsupported_version missing_fields : PairingError
  missing_drive_fields malformed_key : PairingError

unfoldable pub build_pairing_payload :
    Text → List ℕ → PocketPairingDriveHint → Result PairingError PocketPairingPayload
build_pairing_payload pocket_id dek drive = do
  ensure (length dek == pocket_dek_length) bad_dek_length
  ok (record { pocket_id = pocket_id; dek = bytes_to_base64 dek; drive = drive })

abbrev pub drive_json : PocketPairingDriveHint → Json
drive_json drive = object (
    field "fileId" (text_or_null drive.file_id) (
      field "remotePath" (string drive.remote_path)
        (field "fileName" (string drive.file_name) no_fields)))

-- The object as `JSON.stringify` writes it.
abbrev pub pairing_json : PocketPairingPayload → Json
pairing_json payload = object (
    field "v" (number pairing_payload_version) (
      field "pocketId" (string payload.pocket_id)
        (field "dek" (string payload.dek) (field "drive" (drive_json payload.drive) no_fields))))

abbrev pub record_at : Option Json → Option Fields
record_at none = none
record_at (some json) = as_record json

unfoldable pub pairing_payload_dek : PocketPairingPayload → List ℕ
pairing_payload_dek payload = base64_to_bytes payload.dek

module _ (platform : TextPlatform) where
  unfoldable pub serialize_pairing_payload : PocketPairingPayload → Text
  serialize_pairing_payload payload = platform.stringify (pairing_json payload)

  unfoldable pub parse_pairing_payload : Text → Result PairingError PocketPairingPayload
  parse_pairing_payload text = do
    parsed ← or_throw (platform.parse text) not_a_pairing_code
    p ← or_throw (as_record parsed) not_a_pairing_code
    v ← or_throw (as_number (get "v" p)) unsupported_version
    ensure (v == pairing_payload_version) unsupported_version
    pocket_id ← or_throw (as_string (get "pocketId" p)) missing_fields
    dek ← or_throw (as_string (get "dek" p)) missing_fields
    drive ← or_throw (record_at (get "drive" p)) missing_fields
    remote_path ← or_throw (as_string (get "remotePath" drive)) missing_drive_fields
    file_name ← or_throw (as_string (get "fileName" drive)) missing_drive_fields
    ensure (length (base64_to_bytes dek) == pocket_dek_length) malformed_key
    ok (record {
      pocket_id = pocket_id;
      dek = dek;
      drive = record {
        file_id = as_string (get "fileId" drive);
        remote_path = remote_path;
        file_name = file_name;
      };
    })
