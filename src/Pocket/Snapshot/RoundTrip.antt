-- ===== src/Pocket/Snapshot/RoundTrip.antt =====
-- The validator takes what the desktop writes, and gives it back unchanged.
use Prim.Native.String.{String}
use text.Mathlib.Text.{◌==◌ as str_eq}
use arkode.Prelude.{
  ℕ, ◌+◌, ◌≡◌, ◌≢◌, refl, sym, ap, Bool, true, false, List, [], ◌∷◌, Option, none, some,
  if◌then◌else◌, All, or_else,
}
use arkode.Prelude.Results.{Result, ok}
use arkode.Pocket.Bytes.{codes}
use arkode.Pocket.Payload.{
  Text, PocketCredentialKind, ssh, sftp, ftp, postgres, mysql, mariadb, smtp, http_basic, web_panel,
  api, oauth_client, generic_login, generic_secret, ssh_key, custom, pocket_credential_kinds,
  kind_in, PocketCredentialSecret, PocketClient, PocketCredential, PocketUrl, PocketSnapshotPayload,
}
use arkode.Pocket.Json.{Json, string, object, Fields, get, as_string, as_number, strings_of}
use arkode.Pocket.Snapshot.{
  Place, secret_at, PocketFormatError, allowed_secret_keys, is_allowed, assert_only_keys,
  string_entries, if_any, validate_custom, secret_of, validate_secret, validate_client,
  validate_credential, validate_url, validate_each, validate_pocket_snapshot_payload,
}
use arkode.Pocket.Snapshot.Documents.{
  kind_name, text_or_null, number_or_null, items_of, optional, string?, entries, object?,
  secret_fields, client_json, credential_json, url_json, payload_json,
}

-- A custom field that is there is not empty.
abbrev pub IsFilled : Option (List (String × Text)) → Type 0
IsFilled o = o ≢ some []

abbrev pub IsPocketCredential : PocketCredential → Type 0
IsPocketCredential c = IsFilled c.secret.custom

if_same {ℓ} : {A : Type ℓ} (b : Bool) (a : A) → (if b then a else a) ≡ a
if_same true a = refl
if_same false a = refl

pub get-optional :
    (key name : String) (value : Option Json) (rest : Fields)
    → get key (optional name value rest)
      ≡ (if str_eq name key then or_else value (get key rest) else get key rest)
get-optional key name none rest = sym (if_same (str_eq name key) (get key rest))
get-optional key name (some value) rest = refl

assert_only_keys-optional :
    (key : String) (value : Option Json) (rest : Fields) (allowed : List String) (what : Place)
    → is_allowed allowed key ≡ true
    → assert_only_keys (optional key value rest) allowed what ≡ assert_only_keys rest allowed what
unfolding assert_only_keys
assert_only_keys-optional key none rest allowed what h = refl
assert_only_keys-optional key (some value) rest allowed what h = rw h refl

pub as_string-text_or_null : (o : Option Text) → as_string (some (text_or_null o)) ≡ o
as_string-text_or_null none = refl
as_string-text_or_null (some text) = refl

as_number-number_or_null : (o : Option ℕ) → as_number (some (number_or_null o)) ≡ o
as_number-number_or_null none = refl
as_number-number_or_null (some n) = refl

as_string-string? : (o : Option Text) → as_string (or_else (string? o) none) ≡ o
as_string-string? none = refl
as_string-string? (some text) = refl

strings_of-items_of : (texts : List Text) → strings_of (items_of string texts) ≡ texts
strings_of-items_of [] = refl
strings_of-items_of (t ∷ ts) = ap (◌∷◌ t) (strings_of-items_of ts)

string_entries-entries : (more : List (String × Text)) → string_entries (entries more) ≡ more
string_entries-entries [] = refl
string_entries-entries (entry ∷ more) = ap (◌∷◌ entry) (string_entries-entries more)

validate_custom-object? :
    (o : Option (List (String × Text)))
    → IsFilled o
    → validate_custom (or_else (object? o) none) ≡ o
validate_custom-object? none h = refl
validate_custom-object? (some []) h = absurd (h refl)
validate_custom-object? (some (entry ∷ more)) h = ap if_any (string_entries-entries (entry ∷ more))

kind_in-kind_name :
    (kind : PocketCredentialKind)
    → kind_in pocket_credential_kinds (codes (kind_name kind)) ≡ some kind
kind_in-kind_name ssh = refl
kind_in-kind_name sftp = refl
kind_in-kind_name ftp = refl
kind_in-kind_name postgres = refl
kind_in-kind_name mysql = refl
kind_in-kind_name mariadb = refl
kind_in-kind_name smtp = refl
kind_in-kind_name http_basic = refl
kind_in-kind_name web_panel = refl
kind_in-kind_name api = refl
kind_in-kind_name oauth_client = refl
kind_in-kind_name generic_login = refl
kind_in-kind_name generic_secret = refl
kind_in-kind_name ssh_key = refl
kind_in-kind_name custom = refl

ruleset document_laws = (
  as_string-text_or_null, as_number-number_or_null, as_string-string?, strings_of-items_of,
  kind_in-kind_name,
)

secret_of-secret_fields :
    (s : PocketCredentialSecret) → IsFilled s.custom → secret_of (secret_fields s) ≡ s
secret_of-secret_fields s filled =
    simp (get-optional, as_string-string?, validate_custom-object? s.custom filled)

assert_only_keys-secret_fields :
    (s : PocketCredentialSecret) (what : Place)
    → assert_only_keys (secret_fields s) allowed_secret_keys what ≡ ok tt
unfolding assert_only_keys
assert_only_keys-secret_fields s what =
    let all = allowed_secret_keys in
    rw
      (
        assert_only_keys-optional "password" _ _ all what refl,
        assert_only_keys-optional "token" _ _ all what refl,
        assert_only_keys-optional "clientSecret" _ _ all what refl,
        assert_only_keys-optional "privateKey" _ _ all what refl,
        assert_only_keys-optional "privateKeyPassphrase" _ _ all what refl,
        assert_only_keys-optional "custom" _ _ all what refl,
        assert_only_keys-optional "notes" _ _ all what refl,
      )
      refl

validate_secret-secret_fields :
    (s : PocketCredentialSecret) (what : Place)
    → IsFilled s.custom
    → validate_secret (some (object (secret_fields s))) what ≡ ok s
unfolding validate_secret
validate_secret-secret_fields s what filled =
    rw (assert_only_keys-secret_fields s what, secret_of-secret_fields s filled)

validate_client-client_json : (c : PocketClient) (i : ℕ) → validate_client (client_json c) i ≡ ok c
unfolding validate_client assert_only_keys
validate_client-client_json c i = refl

validate_url-url_json : (u : PocketUrl) (i : ℕ) → validate_url (url_json u) i ≡ ok u
unfolding validate_url assert_only_keys
validate_url-url_json u i = simp document_laws

validate_credential-credential_json :
    (c : PocketCredential) (i : ℕ)
    → IsPocketCredential c
    → validate_credential (credential_json c) i ≡ ok c
unfolding validate_credential assert_only_keys
validate_credential-credential_json c i filled =
    rw (kind_in-kind_name c.kind, validate_secret-secret_fields c.secret (secret_at i) filled)
      (simp document_laws)

validate_each-items_of :
    {A : Type 0} (validate : Json → ℕ → Result PocketFormatError A) (to_json : A → Json)
    (P : A → Type 0)
    → ((a : A) (i : ℕ) → P a → validate (to_json a) i ≡ ok a)
    → (values : List A) (i : ℕ) → All P values
    → validate_each validate i (items_of to_json values) ≡ ok values
unfolding validate_each
validate_each-items_of validate to_json P each [] i h = refl
validate_each-items_of validate to_json P each (a ∷ values) i (ha, hs) =
    rw (each a i ha, validate_each-items_of validate to_json P each values (i + 1) hs) refl

everywhere {ℓ} : {A : Type ℓ} (xs : List A) → All (λ x. Unit {0}) xs
everywhere [] = tt
everywhere (x ∷ xs) = (tt, everywhere xs)

-- A payload that is written out passes the validator, and comes back unchanged: no field that the
-- types allow is dropped or refused. The custom fields of a secret, where there are any, are not
-- empty.
pub validate-payload_json :
    (p : PocketSnapshotPayload)
    → All IsPocketCredential p.credentials
    → validate_pocket_snapshot_payload (payload_json p) ≡ ok p
unfolding validate_pocket_snapshot_payload payload_json assert_only_keys
validate-payload_json p filled =
    rw
      (
        validate_each-items_of validate_client client_json (λ c. Unit {0})
            (λ c i _. validate_client-client_json c i) p.clients 0 (everywhere p.clients),
        validate_each-items_of validate_credential credential_json IsPocketCredential
            validate_credential-credential_json p.credentials 0 filled,
        validate_each-items_of validate_url url_json (λ u. Unit {0})
            (λ u i _. validate_url-url_json u i) p.urls 0 (everywhere p.urls),
      )
      refl
