-- ===== src/Pocket/SyncFile/Published.antt =====
-- From the desktop's payload to the phone's.
use arkode.Prelude.{ℕ, ◌≡◌, refl, List, some, length, All}
use arkode.Prelude.Results.{ok}
use arkode.Pocket.Bytes.{bytes_to_base64}
use arkode.Ciphertext.{IsByte}
use arkode.Pocket.Bytes.Base64.{base64_to_bytes-bytes_to_base64}
use arkode.Pocket.Blob.{key_len, PocketCryptoAdapter}
use arkode.Pocket.Blob.Layout.{IsAesGcm, sealed_blob, decrypt-encrypt}
use arkode.Pocket.Json.{Json, TextPlatform}
use arkode.Pocket.Payload.{PocketSnapshotPayload}
use arkode.Pocket.Snapshot.Documents.{payload_json}
use arkode.Pocket.Snapshot.RoundTrip.{IsPocketCredential, validate-payload_json}
use arkode.Pocket.SyncFile.{
  sync_format_version, PocketSyncFile, PocketSyncFileMeta, file_json, build_pocket_sync_file,
  serialize_pocket_sync_file, parse_pocket_sync_file, decrypt_pocket_snapshot_payload,
}

module _ (platform : TextPlatform) where
  abbrev pub written : Json → List ℕ
  written json = platform.utf8_to_bytes (platform.stringify json)

  -- A document that is written and read again is the same.
  abbrev pub ReadsBack : Json → Type 0
  ReadsBack json = platform.parse (platform.bytes_to_utf8 (written json)) ≡ some json

  abbrev pub published_file :
      PocketSnapshotPayload → List ℕ → PocketSyncFileMeta → PocketCryptoAdapter → PocketSyncFile
  published_file payload dek file_meta adapter = record {
    format_version = sync_format_version;
    pocket_id = file_meta.pocket_id;
    revision = file_meta.revision;
    generated_at = file_meta.generated_at;
    payload = bytes_to_base64 (sealed_blob adapter (written (payload_json payload)) dek);
  }

  parse-serialize :
      (file : PocketSyncFile)
      → file.format_version ≡ sync_format_version
      → ReadsBack (file_json file)
      → parse_pocket_sync_file platform (serialize_pocket_sync_file platform file) ≡ ok file
  unfolding parse_pocket_sync_file serialize_pocket_sync_file
  parse-serialize file current reads = rw (reads, current) refl

  module _ (adapter : PocketCryptoAdapter) (aes : IsAesGcm adapter)
      (payload : PocketSnapshotPayload) (dek : List ℕ) (file_meta : PocketSyncFileMeta)
      (key : length dek ≡ key_len) (bytes : All IsByte (written (payload_json payload))) where
    build-eq-published :
        build_pocket_sync_file platform payload dek file_meta adapter
        ≡ ok (published_file payload dek file_meta adapter)
    unfolding build_pocket_sync_file
    build-eq-published =
        rw (decrypt-encrypt adapter aes (written (payload_json payload)) dek bytes key).0 refl

    decrypt-published :
        All IsPocketCredential payload.credentials
        → ReadsBack (payload_json payload)
        → decrypt_pocket_snapshot_payload platform
            (published_file payload dek file_meta adapter)
            dek
            adapter
          ≡ ok payload
    unfolding decrypt_pocket_snapshot_payload
    decrypt-published filled reads =
        let (_, blob_bytes, opened) =
          decrypt-encrypt adapter aes (written (payload_json payload)) dek bytes key in
        rw
          (
            base64_to_bytes-bytes_to_base64
                (sealed_blob adapter (written (payload_json payload)) dek) blob_bytes,
            opened,
            reads,
            validate-payload_json payload filled,
          )
          refl

-- What the desktop publishes is what the phone shows: building the file succeeds, the phone parses
-- the uploaded bytes to the same file, and with the key of the pairing it decrypts the file to the
-- same payload. AES-256-GCM does what `IsAesGcm` says, the key has 32 bytes, the custom fields of a
-- secret, where there are any, are not empty, and the two documents are read as they were written,
-- the payload's as bytes.
pub published-ReadsBack :
    (platform : TextPlatform) (adapter : PocketCryptoAdapter)
    → IsAesGcm adapter
    → (payload : PocketSnapshotPayload) (dek : List ℕ) (file_meta : PocketSyncFileMeta)
    → length dek ≡ key_len
    → All IsPocketCredential payload.credentials
    → All IsByte (written platform (payload_json payload))
    → ReadsBack platform (payload_json payload)
    → ReadsBack platform (file_json (published_file platform payload dek file_meta adapter))
    → (build_pocket_sync_file platform payload dek file_meta adapter
        ≡ ok (published_file platform payload dek file_meta adapter))
      × (parse_pocket_sync_file platform (
            serialize_pocket_sync_file platform
              (published_file platform payload dek file_meta adapter))
          ≡ ok (published_file platform payload dek file_meta adapter))
      × (decrypt_pocket_snapshot_payload platform
            (published_file platform payload dek file_meta adapter)
            dek
            adapter
          ≡ ok payload)
published-ReadsBack platform adapter aes payload dek file_meta key filled bytes reads file_reads = (
  build-eq-published platform adapter aes payload dek file_meta key bytes,
  parse-serialize platform (published_file platform payload dek file_meta adapter) refl file_reads,
  decrypt-published platform adapter aes payload dek file_meta key bytes filled reads,
)
