-- ===== src/Pocket/SyncFile/Examples.antt =====
-- Tests and the theorem at a concrete input.
use arkode.Prelude.{◌≡◌, refl, [], ◌∷◌, arith}
use arkode.Prelude.Results.{ok, err}
use arkode.Pocket.Snapshot.Documents.{payload_json}
use arkode.Pocket.SyncFile.{
  bad_magic, build_pocket_sync_file, serialize_pocket_sync_file, parse_pocket_sync_file,
  decrypt_pocket_snapshot_payload,
}
use arkode.Pocket.SyncFile.Published.{published-ReadsBack}
use arkode.Pocket.Samples.{plain_cipher, plain_cipher-IsAesGcm, dek, one_client}
use arkode.Pocket.SyncFile.Samples.{first_meta, first_file, two_documents}

other_document : parse_pocket_sync_file two_documents (2 ∷ []) ≡ err bad_magic
unfolding parse_pocket_sync_file payload_json
other_document = refl

published-ReadsBack_example :
    (build_pocket_sync_file two_documents one_client dek first_meta plain_cipher ≡ ok first_file)
    × (parse_pocket_sync_file two_documents (serialize_pocket_sync_file two_documents first_file)
        ≡ ok first_file)
    × (decrypt_pocket_snapshot_payload two_documents first_file dek plain_cipher ≡ ok one_client)
unfolding payload_json
published-ReadsBack_example =
    published-ReadsBack two_documents plain_cipher plain_cipher-IsAesGcm one_client dek first_meta
      refl ((λ e. cc), tt) (omega arith, tt) refl refl
