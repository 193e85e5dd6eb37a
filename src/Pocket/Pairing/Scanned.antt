-- ===== src/Pocket/Pairing/Scanned.antt =====
-- What the phone reads from the code that the desktop shows.
use arkode.Prelude.{ℕ, ◌≡◌, refl, ap, subst, List, some, ◌==◌, length, All, arith}
use arkode.Prelude.Results.{Result, ok, err, ensure, or_throw, then_bound, then_done}
use arkode.Pocket.Bytes.{bytes_to_base64, base64_to_bytes}
use arkode.Ciphertext.{IsByte}
use arkode.Pocket.Bytes.Base64.{base64_to_bytes-bytes_to_base64}
use arkode.Pocket.Json.{TextPlatform, get, as_string, as_number, as_record}
use arkode.Pocket.Payload.{Text}
use arkode.Pocket.Snapshot.RoundTrip.{as_string-text_or_null}
use arkode.Pocket.Pairing.{
  pocket_dek_length, pairing_payload_version, PairingError, not_a_pairing_code, unsupported_version,
  missing_fields, missing_drive_fields, record_at, PocketPairingDriveHint, PocketPairingPayload,
  malformed_key, build_pairing_payload, pairing_json, pairing_payload_dek,
  serialize_pairing_payload, parse_pairing_payload,
}

abbrev pub shown_payload : Text → List ℕ → PocketPairingDriveHint → PocketPairingPayload
shown_payload pocket_id dek drive = record {
  pocket_id = pocket_id;
  dek = bytes_to_base64 dek;
  drive = drive;
}

-- Pairing hands over the key: for a key of 32 bytes the desktop builds a code, the phone parses the
-- code's text to the same payload, and the key that it takes out is the desktop's. The payload's
-- document is read as it was written.
pub scanned-dek :
    (platform : TextPlatform) (pocket_id : Text) (dek : List ℕ) (drive : PocketPairingDriveHint)
    → All IsByte dek
    → length dek ≡ pocket_dek_length
    → platform.parse (platform.stringify (pairing_json (shown_payload pocket_id dek drive)))
      ≡ some (pairing_json (shown_payload pocket_id dek drive))
    → (build_pairing_payload pocket_id dek drive ≡ ok (shown_payload pocket_id dek drive))
      × (parse_pairing_payload platform
            (serialize_pairing_payload platform (shown_payload pocket_id dek drive))
          ≡ ok (shown_payload pocket_id dek drive))
      × (pairing_payload_dek (shown_payload pocket_id dek drive) ≡ dek)
unfolding build_pairing_payload parse_pairing_payload serialize_pairing_payload pairing_payload_dek
scanned-dek platform pocket_id dek drive bytes key reads =
    let back = base64_to_bytes-bytes_to_base64 dek bytes in
    (rw key refl, rw (reads, back, key, as_string-text_or_null drive.file_id) refl, back)

abbrev dek_in : Text → Result PairingError PocketPairingPayload → Text
dek_in otherwise (err error) = otherwise
dek_in otherwise (ok payload) = payload.dek

ensured_key :
    (key : List ℕ)
    → ensure (length key == pocket_dek_length) malformed_key ≡ ok tt
    → length key ≡ pocket_dek_length
ensured_key key h = ground arith

-- A code that the phone accepts holds a key of 32 bytes.
pub parsed-dek_length :
    (platform : TextPlatform) (text : Text) (payload : PocketPairingPayload)
    → parse_pairing_payload platform text ≡ ok payload
    → length (pairing_payload_dek payload) ≡ pocket_dek_length
unfolding parse_pairing_payload pairing_payload_dek
parsed-dek_length platform text payload h =
    then_bound (or_throw (platform.parse text) not_a_pairing_code) h λ parsed _ h1.
      then_bound (or_throw (as_record parsed) not_a_pairing_code) h1 λ p _ h2.
        then_bound (or_throw (as_number (get "v" p)) unsupported_version) h2 λ v _ h3.
          then_done (ensure (v == pairing_payload_version) unsupported_version) h3 λ _ h4.
            then_bound (or_throw (as_string (get "pocketId" p)) missing_fields) h4 λ pocket_id _ h5.
              then_bound (or_throw (as_string (get "dek" p)) missing_fields) h5 λ dek _ h6.
                then_bound (or_throw (record_at (get "drive" p)) missing_fields) h6 λ drive _ h7.
                  then_bound (or_throw (as_string (get "remotePath" drive)) missing_drive_fields) h7
                    λ path _ h8.
                      then_bound (or_throw (as_string (get "fileName" drive)) missing_drive_fields)
                        h8
                        λ name _ h9.
                          then_done
                            (ensure (length (base64_to_bytes dek) == pocket_dek_length)
                              malformed_key)
                            h9
                            λ long done.
                              subst (λ d. length (base64_to_bytes d) ≡ pocket_dek_length)
                                (ap (dek_in dek) done) (ensured_key (base64_to_bytes dek) long)
