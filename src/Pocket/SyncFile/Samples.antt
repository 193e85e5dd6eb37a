-- ===== src/Pocket/SyncFile/Samples.antt =====
-- A platform that writes and reads two documents: a file and its payload.
use arkode.Prelude.{ℕ, List, [], ◌∷◌, Option, none, some, if◌then◌else◌}
use arkode.Pocket.Bytes.{codes, bytes_to_base64}
use arkode.Pocket.Blob.Layout.{sealed_blob}
use arkode.Pocket.Json.{Json, object, get, same_text, TextPlatform}
use arkode.Pocket.Snapshot.Documents.{payload_json}
use arkode.Pocket.SyncFile.{PocketSyncFile, PocketSyncFileMeta, file_json}
use arkode.Pocket.Samples.{plain_cipher, dek, one_client}

abbrev pub first_meta : PocketSyncFileMeta
first_meta = record { pocket_id = codes "p1"; revision = 1; generated_at = codes "2026-01-02" }

-- The file with the payload's text, which is the number 2.
abbrev pub first_file : PocketSyncFile
first_file = record {
  format_version = 1;
  pocket_id = codes "p1";
  revision = 1;
  generated_at = codes "2026-01-02";
  payload = bytes_to_base64 (sealed_blob plain_cipher (2 ∷ []) dek);
}

abbrev pub write : Json → List ℕ
write (object v) = elim (get "magic" v) [ none ↦ 2 ∷ [] | some _ ↦ 1 ∷ [] ]
write _ = []

abbrev pub read : List ℕ → Option Json
read text =
    if same_text text (1 ∷ [])
    then some (file_json first_file)
    else if same_text text (2 ∷ [])
    then some (payload_json one_client)
    else none

-- Two documents are written and read: the file with its magic, and the payload.
abbrev pub two_documents : TextPlatform
two_documents = record {
  stringify = write;
  parse = read;
  utf8_to_bytes = λ text. text;
  bytes_to_utf8 = λ bytes. bytes;
}
