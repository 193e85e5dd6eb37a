-- ===== src/PocketPublish/Examples.antt =====
-- A first publication to a folder that holds two files, the uploaded one and the published one.
use arkode.Prelude.{ℕ, ◌≡◌, refl, true, false, List, [], Option, none, some}
use arkode.Prelude.Results.{ok}
use arkode.Pocket.Bytes.{codes, base64_to_bytes, bytes_to_base64}
use arkode.Pocket.Blob.{encrypt_pocket_blob, decrypt_pocket_blob}
use arkode.Pocket.Snapshot.{
  validate_pocket_snapshot_payload, assert_only_keys, validate_each, validate_client,
  validate_credential, validate_secret,
}
use arkode.Pocket.Snapshot.Documents.{payload_json}
use arkode.Pocket.SyncFile.Samples.{two_documents}
use arkode.Pocket.Samples.{plain_cipher, dek, one_client}
use arkode.PocketState.{PocketStateRow, new_pocket_row}
use arkode.PocketPublish.{PublishEnv, published, do_publish}

-- The uploaded file and the published one.
abbrev Folder : Type 0
Folder = List ℕ × Option (List ℕ)

abbrev published_file : Folder → Option (List ℕ)
published_file r = r.1

abbrev publish_env : PublishEnv Folder
publish_env = record {
  platform = two_documents;
  adapter = plain_cipher;
  is_unlocked = true;
  stored_dek = some dek;
  has_drive_config = true;
  build_payload = ok one_client;
  id_text = λ id. codes "p1";
  generated_at = codes "2026-01-02";
  message_of = λ error. "bad file";
  redact_secrets = λ text. text;
  attempted_now = 11;
  confirmed_now = 13;
  stage_file = λ bytes. ok tt;
  copy_to = λ bytes r. (ok tt, (bytes, r.1));
  copy_down = λ r. (ok r.0, r);
  move_to = λ r. (ok tt, ([], some r.0));
  list_ids = λ r. (ok [], r);
  list_leftovers = λ r. (ok [], r);
  delete_file = λ name r. r;
  meanwhile = λ row. row;
}

abbrev first_row : PocketStateRow
first_row = new_pocket_row 1 10 "backup"

abbrev empty_folder : Folder
empty_folder = ([], none)

first_publication : (do_publish publish_env false first_row empty_folder).0.status ≡ published
unfolding do_publish encrypt_pocket_blob decrypt_pocket_blob base64_to_bytes bytes_to_base64
    validate_pocket_snapshot_payload payload_json assert_only_keys validate_each validate_client
    validate_credential validate_secret
first_publication = refl
