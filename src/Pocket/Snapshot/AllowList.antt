-- ===== src/Pocket/Snapshot/AllowList.antt =====
-- What the validator lets through.
use Prim.Native.String.{String}
use arkode.Prelude.{ℕ, ◌+◌, ◌≡◌, refl, inl, inr, true, List, Option, none, some, ◌==◌, Bool-cases}
use arkode.Prelude.Results.{
  Result, ok, then_bound, then_done, or_throw, ensure, >>-eq-ok, or_throw-eq-ok,
}
use arkode.Pocket.Payload.{
  Text, pocket_credential_kinds, kind_in, PocketCredentialSecret, PocketClient, PocketCredential,
  PocketUrl, PocketSnapshotPayload,
}
use arkode.Pocket.Json.{
  Json, null, boolean, number, string, array, object, Items, no_items, item, Fields, no_fields,
  field, get, as_array, as_object, as_string, as_number,
}
use arkode.Pocket.Snapshot.{
  Place, payload, not_an_object, missing_fields, unrecognized_kind, missing_arrays,
  unsupported_payload_version, snapshot_payload_version, clients_at, credentials_at, urls_at,
  secret_at, PocketFormatError, allowed_payload_keys, allowed_secret_keys, allowed_credential_keys,
  allowed_url_keys, allowed_client_keys, is_allowed, assert_only_keys, validate_secret,
  validate_client, validate_credential, validate_url, validate_each,
  validate_pocket_snapshot_payload,
}

abbrev pub HasOnly : List String → Fields → Type 0
HasOnly allowed no_fields = Unit
HasOnly allowed (field key value rest) = (is_allowed allowed key ≡ true) × HasOnly allowed rest

abbrev pub AllItems : (Json → Type 0) → Items → Type 0
AllItems P no_items = Unit
AllItems P (item json rest) = P json × AllItems P rest

-- An object with no key beyond the allowed ones.
abbrev pub IsObjectWith : List String → Json → Type 0
IsObjectWith allowed json = (v : Fields) × (json ≡ object v) × HasOnly allowed v

-- A secret that is absent or null, or an object with allowed keys.
abbrev pub IsAllowedSecret : Option Json → Type 0
IsAllowedSecret none = Unit
IsAllowedSecret (some null) = Unit
IsAllowedSecret (some json) = IsObjectWith allowed_secret_keys json

abbrev pub IsAllowedCredential : Json → Type 0
IsAllowedCredential json =
    (v : Fields) × (json ≡ object v)
    × HasOnly allowed_credential_keys v
    × IsAllowedSecret (get "secret" v)

-- The array under a key of the payload, each of its items as given.
abbrev pub HoldsArray : String → (Json → Type 0) → Fields → Type 0
HoldsArray key P value = (items : Items) × (get key value ≡ some (array items)) × AllItems P items

abbrev pub IsAllowedPayload : Json → Type 0
IsAllowedPayload json =
    (value : Fields) × (json ≡ object value)
    × HasOnly allowed_payload_keys value
    × HoldsArray "clients" (IsObjectWith allowed_client_keys) value
    × HoldsArray "credentials" IsAllowedCredential value
    × HoldsArray "urls" (IsObjectWith allowed_url_keys) value

assert_only_keys_sound :
    (v : Fields) (allowed : List String) (what : Place)
    → assert_only_keys v allowed what ≡ ok tt
    → HasOnly allowed v
unfolding assert_only_keys
assert_only_keys_sound no_fields allowed what h = tt
assert_only_keys_sound (field key value rest) allowed what h =
    elim (Bool-cases (is_allowed allowed key)) [
      | inl known ↦ (known, assert_only_keys_sound rest allowed what (rw known at h))
      | inr other ↦ cc (rw other at h)
    ]

as_object_sound : (json : Json) {v : Fields} → as_object (some json) ≡ some v → json ≡ object v
as_object_sound (object v) h = cc
as_object_sound null h = cc
as_object_sound (boolean b) h = cc
as_object_sound (number n) h = cc
as_object_sound (string text) h = cc
as_object_sound (array items) h = cc

as_array_sound : (o : Option Json) {v : Items} → as_array o ≡ some v → o ≡ some (array v)
as_array_sound (some (array items)) h = cc
as_array_sound none h = cc
as_array_sound (some null) h = cc
as_array_sound (some (boolean b)) h = cc
as_array_sound (some (number n)) h = cc
as_array_sound (some (string text)) h = cc
as_array_sound (some (object v)) h = cc

-- The steps of the validators, with their errors.
abbrev object_or : PocketFormatError → Json → Result PocketFormatError Fields
object_or error json = or_throw (as_object (some json)) error

abbrev text_or : PocketFormatError → String → Fields → Result PocketFormatError Text
text_or error key v = or_throw (as_string (get key v)) error

abbrev array_or_missing : String → Fields → Result PocketFormatError Items
array_or_missing key value = or_throw (as_array (get key value)) missing_arrays

array_under :
    (key : String) (value : Fields) {items : Items}
    → array_or_missing key value ≡ ok items
    → get key value ≡ some (array items)
array_under key value h = as_array_sound (get key value) (or_throw-eq-ok _ missing_arrays h)

validate_client-allowed :
    (json : Json) (i : ℕ) (c : PocketClient)
    → validate_client json i ≡ ok c
    → IsObjectWith allowed_client_keys json
unfolding validate_client
validate_client-allowed json i c h =
    then_bound (object_or (not_an_object (clients_at i)) json) h λ v is_object h1.
      then_done (assert_only_keys v allowed_client_keys (clients_at i)) h1 λ only _. (
        v,
        as_object_sound json (or_throw-eq-ok _ (not_an_object (clients_at i)) is_object),
        assert_only_keys_sound v allowed_client_keys (clients_at i) only,
      )

validate_url-allowed :
    (json : Json) (i : ℕ) (u : PocketUrl)
    → validate_url json i ≡ ok u
    → IsObjectWith allowed_url_keys json
unfolding validate_url
validate_url-allowed json i u h =
    then_bound (object_or (not_an_object (urls_at i)) json) h λ v is_object h1.
      then_done (assert_only_keys v allowed_url_keys (urls_at i)) h1 λ only _. (
        v,
        as_object_sound json (or_throw-eq-ok _ (not_an_object (urls_at i)) is_object),
        assert_only_keys_sound v allowed_url_keys (urls_at i) only,
      )

validate_secret-allowed :
    (o : Option Json) (what : Place) (s : PocketCredentialSecret)
    → validate_secret o what ≡ ok s
    → IsAllowedSecret o
unfolding validate_secret
validate_secret-allowed none what s h = tt
validate_secret-allowed (some null) what s h = tt
validate_secret-allowed (some (object v)) what s h = (
  v,
  refl,
  assert_only_keys_sound v allowed_secret_keys what
      (>>-eq-ok (assert_only_keys v allowed_secret_keys what) _ h).0,
)
validate_secret-allowed (some (boolean b)) what s h = cc
validate_secret-allowed (some (number n)) what s h = cc
validate_secret-allowed (some (string text)) what s h = cc
validate_secret-allowed (some (array items)) what s h = cc

validate_credential-allowed :
    (json : Json) (i : ℕ) (c : PocketCredential)
    → validate_credential json i ≡ ok c
    → IsAllowedCredential json
unfolding validate_credential
validate_credential-allowed json i c h =
    let at = credentials_at i in
    then_bound (object_or (not_an_object at) json) h λ v is_object h1.
      then_done (assert_only_keys v allowed_credential_keys at) h1 λ only h2.
        then_bound (text_or (missing_fields at) "id" v) h2 λ id _ h3.
          then_bound (text_or (missing_fields at) "clientId" v) h3 λ client_id _ h4.
            then_bound (text_or (missing_fields at) "name" v) h4 λ name _ h5.
              then_bound (text_or (unrecognized_kind at) "kind" v) h5 λ kind_text _ h6.
                then_bound
                  (or_throw (kind_in pocket_credential_kinds kind_text) (unrecognized_kind at)) h6
                  λ kind _ h7.
                    then_bound (validate_secret (get "secret" v) (secret_at i)) h7
                      λ secret secret_ok _. (
                        v,
                        as_object_sound json (or_throw-eq-ok _ (not_an_object at) is_object),
                        assert_only_keys_sound v allowed_credential_keys (credentials_at i) only,
                        validate_secret-allowed (get "secret" v) (secret_at i) secret secret_ok,
                      )

validate_each-allowed :
    {A : Type 0} (validate : Json → ℕ → Result PocketFormatError A) (P : Json → Type 0)
    → ((json : Json) (i : ℕ) (a : A) → validate json i ≡ ok a → P json)
    → (items : Items) (i : ℕ) (values : List A) → validate_each validate i items ≡ ok values
    → AllItems P items
unfolding validate_each
validate_each-allowed validate P each no_items i values h = tt
validate_each-allowed validate P each (item json rest) i values h =
    then_bound (validate json i) h λ a valid h1.
      then_bound (validate_each validate (i + 1) rest) h1 λ more all_valid _.
        (each json i a valid, validate_each-allowed validate P each rest (i + 1) more all_valid)

-- A document that passes the validator is an object whose arrays hold clients, credentials and urls
-- only, and at each level, the payload, each item and each secret, every key is on the allow list
-- of that level.
pub validated-IsAllowed :
    (json : Json) (p : PocketSnapshotPayload)
    → validate_pocket_snapshot_payload json ≡ ok p
    → IsAllowedPayload json
unfolding validate_pocket_snapshot_payload
validated-IsAllowed json p h =
    then_bound (object_or (not_an_object payload) json) h λ value is_object h1.
      then_done (assert_only_keys value allowed_payload_keys payload) h1 λ only h2.
        then_bound (or_throw (as_number (get "formatVersion" value)) unsupported_payload_version) h2
          λ version _ h3.
            then_done (ensure (version == snapshot_payload_version) unsupported_payload_version) h3
              λ _ h4. then_bound (array_or_missing "clients" value) h4 λ clients has_clients h5.
                then_bound (array_or_missing "credentials" value) h5
                  λ credentials has_credentials h6.
                    then_bound (array_or_missing "urls" value) h6 λ urls has_urls h7.
                      then_bound (validate_each validate_client 0 clients) h7 λ cs valid_clients h8.
                        then_bound (validate_each validate_credential 0 credentials) h8
                          λ ds valid_credentials h9.
                            then_bound (validate_each validate_url 0 urls) h9 λ us valid_urls _. (
                              value,
                              as_object_sound json
                                  (or_throw-eq-ok _ (not_an_object payload) is_object),
                              assert_only_keys_sound value allowed_payload_keys payload only,
                              (
                                clients,
                                array_under "clients" value has_clients,
                                validate_each-allowed validate_client
                                    (IsObjectWith allowed_client_keys) validate_client-allowed
                                    clients 0 cs valid_clients,
                              ),
                              (
                                credentials,
                                array_under "credentials" value has_credentials,
                                validate_each-allowed validate_credential IsAllowedCredential
                                    validate_credential-allowed credentials 0 ds valid_credentials,
                              ),
                              (
                                urls,
                                array_under "urls" value has_urls,
                                validate_each-allowed validate_url (IsObjectWith allowed_url_keys)
                                    validate_url-allowed urls 0 us valid_urls,
                              ),
                            )
