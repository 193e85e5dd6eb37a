-- ===== src/Vault/CredentialBlob/Examples.antt =====
-- A form with an empty field and an unknown one, stored and read back after the password has changed.
use arkode.Prelude.{ℕ, ◌≡◌, refl, false, List, [], ◌∷◌, Option, none, some, if◌then◌else◌}
use arkode.Prelude.Results.{ok, err}
use arkode.Pocket.Bytes.{codes, zeros}
use arkode.Pocket.Json.{Json, string, object, no_fields, field, same_text, TextPlatform}
use arkode.Tables.Keyed.{get_value, put_value}
use arkode.Vault.Crypto.{encrypt_bytes, decrypt_bytes}
use arkode.Vault.Session.{apply_dek, arm_timer}
use arkode.Vault.AutoUnlock.{is_enabled, parse_key_file}
use arkode.Vault.State.{init, unlock, with_dek}
use arkode.Vault.Samples.{
  plain, plain-IsCipher, windows, first, second, new_vault, renamed, renamed-History,
}
use arkode.Vault.Secrets.{get_secret, set_secret}
use arkode.Vault.Secrets.Refines.{nothing}
use arkode.Vault.CredentialBlob.{
  VaultCredentialSecret, normalize_credential_secret, write_credential_secret, bad_json,
  read_credential_secret,
}
use arkode.Vault.CredentialBlob.Stored.{read-write_credential_secret}

-- The form, and what is kept of it.
abbrev form : Json
form = object (
    field "password" (string (codes "hunter2"))
      (field "token" (string []) (field "colour" (string (codes "red")) no_fields)))

abbrev kept : Json
kept = object (field "password" (string (codes "hunter2")) no_fields)

abbrev kept_secret : VaultCredentialSecret
kept_secret = record {
  password = some (codes "hunter2");
  token = none;
  client_secret = none;
  private_key = none;
  private_key_passphrase = none;
  custom = none;
  notes = none;
}

-- The text 1 is the document that is kept; no other text is JSON.
abbrev read : List ℕ → Option Json
read text = if same_text text (1 ∷ []) then some kept else none

abbrev one_document : TextPlatform
one_document = record {
  stringify = λ json. 1 ∷ [];
  parse = read;
  utf8_to_bytes = λ text. text;
  bytes_to_utf8 = λ bytes. bytes;
}

read-write_credential_secret_example :
    (read_credential_secret one_document plain windows second "vault:credential:1"
      (unlock plain windows second (codes "new") false renamed).1
      (write_credential_secret one_document plain windows first
        (zeros 12)
        "vault:credential:1"
        kept_secret
        new_vault
        []).2).0
    ≡ ok kept_secret
unfolding normalize_credential_secret init apply_dek arm_timer encrypt_bytes is_enabled
    parse_key_file
read-write_credential_secret_example =
    read-write_credential_secret one_document plain windows (codes "new") (zeros 32) renamed
      new_vault [] (λ ref. none) plain-IsCipher renamed-History nothing first second second
      (zeros 12) "vault:credential:1" form kept_secret refl refl refl refl

-- A text that is not JSON throws.
not_json :
    (read_credential_secret one_document plain windows second "vault:credential:1" new_vault
      (set_secret plain windows first (zeros 12) "vault:credential:1" (2 ∷ []) new_vault []).2).0
    ≡ err bad_json
unfolding read_credential_secret init apply_dek arm_timer encrypt_bytes is_enabled parse_key_file
    get_secret set_secret with_dek decrypt_bytes get_value put_value
not_json = refl
