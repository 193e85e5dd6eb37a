-- ===== src/Pocket/Pairing/Examples.antt =====
-- A test and the theorems at a concrete input.
use arkode.Prelude.{ℕ, ◌≡◌, refl, List, [], ◌∷◌, none, some, All, arith}
use arkode.Prelude.Results.{ok, err}
use arkode.Pocket.Bytes.{codes, zeros}
use arkode.Ciphertext.{IsByte}
use arkode.Pocket.Json.{TextPlatform}
use arkode.Pocket.Pairing.{
  PocketPairingDriveHint, bad_dek_length, build_pairing_payload, pairing_json, pairing_payload_dek,
  serialize_pairing_payload, parse_pairing_payload,
}
use arkode.Pocket.Samples.{zeros-IsByte}
use arkode.Pocket.Pairing.Scanned.{shown_payload, scanned-dek}

abbrev key : List ℕ
key = 7 ∷ zeros 31

abbrev drive : PocketPairingDriveHint
drive = record { file_id = none; remote_path = codes "Arkode/Pocket"; file_name = codes "a.json" }

-- One code is shown and scanned.
abbrev one_code : TextPlatform
one_code = record {
  stringify = λ json. 1 ∷ [];
  parse = λ text. some (pairing_json (shown_payload (codes "p1") key drive));
  utf8_to_bytes = λ text. text;
  bytes_to_utf8 = λ bytes. bytes;
}

short_key : build_pairing_payload (codes "p1") (zeros 16) drive ≡ err bad_dek_length
unfolding build_pairing_payload
short_key = refl

key_bytes : All IsByte key
key_bytes = (omega arith, zeros-IsByte 31)

scanned-dek_example :
    (build_pairing_payload (codes "p1") key drive ≡ ok (shown_payload (codes "p1") key drive))
    × (parse_pairing_payload one_code
          (serialize_pairing_payload one_code (shown_payload (codes "p1") key drive))
        ≡ ok (shown_payload (codes "p1") key drive))
    × (pairing_payload_dek (shown_payload (codes "p1") key drive) ≡ key)
scanned-dek_example = scanned-dek one_code (codes "p1") key drive key_bytes refl refl
