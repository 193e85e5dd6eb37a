-- ===== src/Vault/CredentialBlob.antt =====
-- packages/engine-core/src/vault/credentialBlob.ts: the secret part of a credential, one encrypted
-- JSON text. `VaultCredentialSecret` has the fields of `PocketCredentialSecret`.
pub mod Stored
mod Examples
use Prim.Native.String.{String}
use arkode.Prelude.{ℕ, Bool, true, false, List, [], ◌∷◌, Option, none, some, or_default}
use arkode.Prelude.Results.{Result, ok, err}
use arkode.Pocket.Json.{
  Json, string, object, Fields, no_fields, field, get, as_string, as_object, as_record,
  TextPlatform,
}
use arkode.Pocket.Payload.{Text, PocketCredentialSecret}
use arkode.Pocket.Snapshot.{if_any, empty_secret}
use arkode.Pocket.Snapshot.Documents.{secret_fields}
use arkode.Vault.Crypto.{NodeCrypto}
use arkode.Vault.AutoUnlock.{AutoUnlockDeps}
use arkode.Vault.Session.{VaultState, Call, VaultError, Done}
use arkode.Vault.Secrets.{SecretTable, Read, get_secret, set_secret}

abbrev pub VaultCredentialSecret : Type 0
VaultCredentialSecret = PocketCredentialSecret

-- A string that is not empty.
abbrev pub filled_text : Option Json → Option Text
filled_text (some (string (c ∷ cs))) = some (c ∷ cs)
filled_text _ = none

-- The entries of `custom` whose value is a string that is not empty.
abbrev pub filled_entries : Fields → List (String × Text)
filled_entries no_fields = []
filled_entries (field key (string (c ∷ cs)) rest) = (key, c ∷ cs) ∷ filled_entries rest
filled_entries (field key _ rest) = filled_entries rest

abbrev pub filled_custom : Option Json → Option (List (String × Text))
filled_custom v = elim (as_object v) [ none ↦ none | some fields ↦ if_any (filled_entries fields) ]

abbrev pub normal_secret : Fields → VaultCredentialSecret
normal_secret src = record {
  password = filled_text (get "password" src);
  token = filled_text (get "token" src);
  client_secret = filled_text (get "clientSecret" src);
  private_key = filled_text (get "privateKey" src);
  private_key_passphrase = filled_text (get "privateKeyPassphrase" src);
  custom = filled_custom (get "custom" src);
  notes = filled_text (get "notes" src);
}

-- None where no key is left.
abbrev pub unless_empty : VaultCredentialSecret → Option VaultCredentialSecret
unless_empty s = elim (secret_fields s) [ no_fields ↦ none | field _ _ _ ↦ some s ]

unfoldable pub normalize_credential_secret : Json → Option VaultCredentialSecret
normalize_credential_secret input = elim (as_record input) [
  | none ↦ none
  | some src ↦ unless_empty (normal_secret src)
]

-- What reading a secret throws.
pub data BlobError : Type 0 where
  store_error : VaultError → BlobError
  bad_json : BlobError

module _ (platform : TextPlatform) (crypto : NodeCrypto) (auto_unlock : Option AutoUnlockDeps) where
  unfoldable pub write_credential_secret :
      Call
      → List ℕ
      → String
      → VaultCredentialSecret
      → VaultState
      → SecretTable
      → Done × VaultState × SecretTable
  unfolding set_secret
  write_credential_secret call nonce ref secret s table =
      set_secret crypto auto_unlock call nonce ref
        (platform.utf8_to_bytes (platform.stringify (object (secret_fields secret)))) s table

  abbrev pub parsed_secret : Option Json → Result BlobError VaultCredentialSecret
  parsed_secret none = err bad_json
  parsed_secret (some json) = ok (or_default (normalize_credential_secret json) empty_secret)

  abbrev pub secret_of_text : Read crypto auto_unlock → Result BlobError VaultCredentialSecret
  secret_of_text (err error) = err (store_error error)
  secret_of_text (ok none) = ok empty_secret
  secret_of_text (ok (some raw)) = parsed_secret (platform.parse (platform.bytes_to_utf8 raw))

  unfoldable pub read_credential_secret :
      Call → String → VaultState → SecretTable → Result BlobError VaultCredentialSecret × VaultState
  unfolding get_secret normalize_credential_secret
  read_credential_secret call ref s table =
      let (read, s') = get_secret crypto auto_unlock call ref s table in (secret_of_text read, s')
