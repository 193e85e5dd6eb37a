-- ===== src/Pocket/Samples.antt =====
-- A small payload, a key, and a cipher that hides nothing, for the examples.
use arkode.Prelude.{
  ℕ, zero, suc, ◌≡◌, refl, ap, true, List, [], ◌∷◌, none, some, length, if◌then◌else◌, All, arith,
}
use arkode.Prelude.Results.{ok, err}
use arkode.Pocket.Bytes.{codes, zeros, bytes_equal}
use arkode.Ciphertext.{IsByte}
use arkode.Pocket.Blob.{tag_len, PocketCryptoAdapter}
use arkode.Pocket.Blob.Layout.{IsAesGcm}
use arkode.Pocket.Payload.{ssh, PocketCredential, PocketCredentialSecret, PocketSnapshotPayload}

abbrev pub plain_cipher : PocketCryptoAdapter
plain_cipher = record {
  random_bytes = zeros;
  aes_gcm_encrypt =
      λ key nonce plaintext. record { ciphertext = plaintext; auth_tag = zeros tag_len };
  aes_gcm_decrypt =
      λ key nonce ciphertext tag. if bytes_equal tag (zeros tag_len) then ok ciphertext else err tt;
}

pub length-zeros : (n : ℕ) → length (zeros n) ≡ n
length-zeros zero = refl
length-zeros (suc n) = ap suc (length-zeros n)

pub zeros-IsByte : (n : ℕ) → All IsByte (zeros n)
zeros-IsByte zero = tt
zeros-IsByte (suc n) = (omega arith, zeros-IsByte n)

pub plain_cipher-IsAesGcm : IsAesGcm plain_cipher
unfolding bytes_equal
plain_cipher-IsAesGcm = record {
  random_length = length-zeros;
  random_bytes = zeros-IsByte;
  tag_length = λ key nonce plaintext. refl;
  sealed_bytes = λ key nonce plaintext bytes. (bytes, zeros-IsByte tag_len);
  opens = λ key nonce plaintext bytes. refl;
}

abbrev pub dek : List ℕ
dek = zeros 32

abbrev pub root_secret : PocketCredentialSecret
root_secret = record {
  password = some (codes "hunter2");
  token = none;
  client_secret = none;
  private_key = none;
  private_key_passphrase = none;
  custom = some (("pin", codes "0000") ∷ []);
  notes = none;
}

abbrev pub root_login : PocketCredential
root_login = record {
  id = codes "k1";
  client_id = codes "c1";
  name = codes "root";
  kind = ssh;
  environment = none;
  tags = codes "prod" ∷ [];
  host = some (codes "10.0.0.1");
  port = some 22;
  username = some (codes "root");
  database_name = none;
  url = none;
  favorite = true;
  description = none;
  secret = root_secret;
}

abbrev pub one_client : PocketSnapshotPayload
one_client = record {
  clients = record { id = codes "c1"; name = codes "Acme" } ∷ [];
  credentials = root_login ∷ [];
  urls = [];
}
