-- ===== src/Pocket/Snapshot.antt =====
-- packages/pocket-shared/src/format.ts: the validator of a snapshot's payload, which lets nothing
-- else through.
pub mod Documents
pub mod RoundTrip
pub mod AllowList
mod Examples
use Prim.Native.String.{String}
use text.Mathlib.Text.{◌==◌ as str_eq}
use arkode.Prelude.{
  ℕ, ◌+◌, Bool, true, false, List, [], ◌∷◌, Option, none, some, ◌==◌, if◌then◌else◌, is_some, any,
}
use arkode.Prelude.Results.{Result, ok, err, ◌>>=◌, ◌>>◌, ensure, or_throw}
use arkode.Pocket.Payload.{
  Text, PocketCredentialKind, pocket_credential_kinds, kind_in, PocketCredentialSecret,
  PocketClient, PocketCredential, PocketUrl, PocketSnapshotPayload,
}
use arkode.Pocket.Json.{
  Json, null, string, object, Items, no_items, item, Fields, no_fields, field, get, as_string,
  as_number, as_array, as_object, is_true, strings_of,
}

abbrev pub snapshot_payload_version : ℕ
snapshot_payload_version = 1

-- Which part of the payload a message is about.
pub data Place : Type 0 where
  payload : Place
  clients_at credentials_at secret_at urls_at : ℕ → Place

-- The messages of `PocketFormatError`, one constructor for each throw of the validator.
pub data PocketFormatError : Type 0 where
  not_an_object missing_fields unrecognized_kind : Place → PocketFormatError
  unexpected_field : Place → String → PocketFormatError
  unsupported_payload_version missing_arrays : PocketFormatError

abbrev pub allowed_payload_keys : List String
allowed_payload_keys = "formatVersion" ∷ "clients" ∷ "credentials" ∷ "urls" ∷ []

abbrev pub allowed_secret_keys : List String
allowed_secret_keys =
    "password" ∷ "token" ∷ "clientSecret" ∷ "privateKey" ∷ "privateKeyPassphrase" ∷ "custom"
    ∷ "notes" ∷ []

abbrev pub allowed_credential_keys : List String
allowed_credential_keys =
    "id" ∷ "clientId" ∷ "name" ∷ "kind" ∷ "environment" ∷ "tags" ∷ "host" ∷ "port" ∷ "username"
    ∷ "databaseName" ∷ "url" ∷ "favorite" ∷ "description" ∷ "secret" ∷ []

abbrev pub allowed_url_keys : List String
allowed_url_keys =
    "id" ∷ "clientId" ∷ "name" ∷ "url" ∷ "environment" ∷ "tags" ∷ "favorite" ∷ "description" ∷ []

abbrev pub allowed_client_keys : List String
allowed_client_keys = "id" ∷ "name" ∷ []

abbrev pub is_allowed : List String → String → Bool
is_allowed allowed key = any (str_eq key) allowed

-- The first key that is not allowed throws.
unfoldable pub assert_only_keys : Fields → List String → Place → Result PocketFormatError (Unit {0})
assert_only_keys no_fields allowed what = ok tt
assert_only_keys (field key value rest) allowed what =
    let others = assert_only_keys rest allowed what in
    if is_allowed allowed key then others else err (unexpected_field what key)

abbrev pub validate_tags : Option Json → List Text
validate_tags v = elim (as_array v) [ none ↦ [] | some items ↦ strings_of items ]

-- The entries of `custom` whose value is a string.
abbrev pub string_entries : Fields → List (String × Text)
string_entries no_fields = []
string_entries (field key (string text) rest) = (key, text) ∷ string_entries rest
string_entries (field key _ rest) = string_entries rest

abbrev pub if_any : List (String × Text) → Option (List (String × Text))
if_any [] = none
if_any (entry ∷ entries) = some (entry ∷ entries)

abbrev pub validate_custom : Option Json → Option (List (String × Text))
validate_custom v = elim (as_object v) [
  | none ↦ none
  | some fields ↦ if_any (string_entries fields)
]

abbrev pub empty_secret : PocketCredentialSecret
empty_secret = record {
  password = none;
  token = none;
  client_secret = none;
  private_key = none;
  private_key_passphrase = none;
  custom = none;
  notes = none;
}

abbrev pub secret_of : Fields → PocketCredentialSecret
secret_of v = record {
  password = as_string (get "password" v);
  token = as_string (get "token" v);
  client_secret = as_string (get "clientSecret" v);
  private_key = as_string (get "privateKey" v);
  private_key_passphrase = as_string (get "privateKeyPassphrase" v);
  custom = validate_custom (get "custom" v);
  notes = as_string (get "notes" v);
}

unfoldable pub validate_secret :
    Option Json → Place → Result PocketFormatError PocketCredentialSecret
validate_secret none what = ok empty_secret
validate_secret (some null) what = ok empty_secret
validate_secret (some (object v)) what = do
  assert_only_keys v allowed_secret_keys what
  ok (secret_of v)
validate_secret (some _) what = err (not_an_object what)

unfoldable pub validate_client : Json → ℕ → Result PocketFormatError PocketClient
validate_client json index = do
  v ← or_throw (as_object (some json)) (not_an_object (clients_at index))
  assert_only_keys v allowed_client_keys (clients_at index)
  id ← or_throw (as_string (get "id" v)) (missing_fields (clients_at index))
  name ← or_throw (as_string (get "name" v)) (missing_fields (clients_at index))
  ok (record { id = id; name = name })

unfoldable pub validate_credential : Json → ℕ → Result PocketFormatError PocketCredential
validate_credential json index = do
  v ← or_throw (as_object (some json)) (not_an_object (credentials_at index))
  assert_only_keys v allowed_credential_keys (credentials_at index)
  id ← or_throw (as_string (get "id" v)) (missing_fields (credentials_at index))
  client_id ← or_throw (as_string (get "clientId" v)) (missing_fields (credentials_at index))
  name ← or_throw (as_string (get "name" v)) (missing_fields (credentials_at index))
  kind_text ← or_throw (as_string (get "kind" v)) (unrecognized_kind (credentials_at index))
  kind ←
      or_throw (kind_in pocket_credential_kinds kind_text)
        (unrecognized_kind (credentials_at index))
  secret ← validate_secret (get "secret" v) (secret_at index)
  ok (record {
    id = id;
    client_id = client_id;
    name = name;
    kind = kind;
    environment = as_string (get "environment" v);
    tags = validate_tags (get "tags" v);
    host = as_string (get "host" v);
    port = as_number (get "port" v);
    username = as_string (get "username" v);
    database_name = as_string (get "databaseName" v);
    url = as_string (get "url" v);
    favorite = is_true (get "favorite" v);
    description = as_string (get "description" v);
    secret = secret;
  })

unfoldable pub validate_url : Json → ℕ → Result PocketFormatError PocketUrl
validate_url json index = do
  v ← or_throw (as_object (some json)) (not_an_object (urls_at index))
  assert_only_keys v allowed_url_keys (urls_at index)
  id ← or_throw (as_string (get "id" v)) (missing_fields (urls_at index))
  client_id ← or_throw (as_string (get "clientId" v)) (missing_fields (urls_at index))
  name ← or_throw (as_string (get "name" v)) (missing_fields (urls_at index))
  url ← or_throw (as_string (get "url" v)) (missing_fields (urls_at index))
  ok (record {
    id = id;
    client_id = client_id;
    name = name;
    url = url;
    environment = as_string (get "environment" v);
    tags = validate_tags (get "tags" v);
    favorite = is_true (get "favorite" v);
    description = as_string (get "description" v);
  })

-- `value.map((v, i) => validate(v, i))`, from index i on.
module _ {A : Type 0} (validate : Json → ℕ → Result PocketFormatError A) where
  unfoldable pub validate_each : ℕ → Items → Result PocketFormatError (List A)
  validate_each i no_items = ok []
  validate_each i (item json rest) =
      validate json i >>= λ a. validate_each (i + 1) rest >>= λ valid. ok (a ∷ valid)

unfoldable pub validate_pocket_snapshot_payload :
    Json → Result PocketFormatError PocketSnapshotPayload
validate_pocket_snapshot_payload json = do
  value ← or_throw (as_object (some json)) (not_an_object payload)
  assert_only_keys value allowed_payload_keys payload
  version ← or_throw (as_number (get "formatVersion" value)) unsupported_payload_version
  ensure (version == snapshot_payload_version) unsupported_payload_version
  clients ← or_throw (as_array (get "clients" value)) missing_arrays
  credentials ← or_throw (as_array (get "credentials" value)) missing_arrays
  urls ← or_throw (as_array (get "urls" value)) missing_arrays
  valid_clients ← validate_each validate_client 0 clients
  valid_credentials ← validate_each validate_credential 0 credentials
  valid_urls ← validate_each validate_url 0 urls
  ok (record { clients = valid_clients; credentials = valid_credentials; urls = valid_urls })
