-- ===== src/Pocket/Snapshot/Documents.antt =====
-- The objects of types.ts as `JSON.stringify` writes them: a key whose value is undefined is left
-- out, null is written.
use Prim.Native.String.{String}
use arkode.Prelude.{ℕ, List, [], ◌∷◌, Option, none, some}
use arkode.Pocket.Bytes.{codes}
use arkode.Pocket.Payload.{
  Text, PocketCredentialKind, ssh, sftp, ftp, postgres, mysql, mariadb, smtp, http_basic, web_panel,
  api, oauth_client, generic_login, generic_secret, ssh_key, custom, PocketCredentialSecret,
  PocketClient, PocketCredential, PocketUrl, PocketSnapshotPayload,
}
use arkode.Pocket.Json.{
  Json, null, boolean, number, string, array, object, Items, no_items, item, Fields, no_fields,
  field,
}

abbrev pub kind_name : PocketCredentialKind → String
kind_name ssh = "ssh"
kind_name sftp = "sftp"
kind_name ftp = "ftp"
kind_name postgres = "postgres"
kind_name mysql = "mysql"
kind_name mariadb = "mariadb"
kind_name smtp = "smtp"
kind_name http_basic = "http_basic"
kind_name web_panel = "web_panel"
kind_name api = "api"
kind_name oauth_client = "oauth_client"
kind_name generic_login = "generic_login"
kind_name generic_secret = "generic_secret"
kind_name ssh_key = "ssh_key"
kind_name custom = "custom"

abbrev pub text_or_null : Option Text → Json
text_or_null none = null
text_or_null (some text) = string text

abbrev pub number_or_null : Option ℕ → Json
number_or_null none = null
number_or_null (some n) = number n

abbrev pub items_of {ℓ} : {A : Type ℓ} → (A → Json) → List A → Items
items_of to_json [] = no_items
items_of to_json (a ∷ more) = item (to_json a) (items_of to_json more)

-- `[key]: value`, left out where the value is undefined.
abbrev pub optional : String → Option Json → Fields → Fields
optional key none rest = rest
optional key (some value) rest = field key value rest

abbrev pub string? : Option Text → Option Json
string? none = none
string? (some text) = some (string text)

abbrev pub entries : List (String × Text) → Fields
entries [] = no_fields
entries ((key, text) ∷ more) = field key (string text) (entries more)

abbrev pub object? : Option (List (String × Text)) → Option Json
object? none = none
object? (some more) = some (object (entries more))

abbrev pub secret_fields : PocketCredentialSecret → Fields
secret_fields s = optional "password" (string? s.password) (
    optional "token" (string? s.token) (
      optional "clientSecret" (string? s.client_secret) (
        optional "privateKey" (string? s.private_key) (
          optional "privateKeyPassphrase" (string? s.private_key_passphrase) (
            optional "custom" (object? s.custom) (optional "notes" (string? s.notes) no_fields))))))

abbrev pub client_json : PocketClient → Json
client_json c = object (field "id" (string c.id) (field "name" (string c.name) no_fields))

abbrev pub credential_json : PocketCredential → Json
credential_json c = object (
    field "id" (string c.id) (
      field "clientId" (string c.client_id) (
        field "name" (string c.name) (
          field "kind" (string (codes (kind_name c.kind))) (
            field "environment" (text_or_null c.environment) (
              field "tags" (array (items_of string c.tags)) (
                field "host" (text_or_null c.host) (
                  field "port" (number_or_null c.port) (
                    field "username" (text_or_null c.username) (
                      field "databaseName" (text_or_null c.database_name) (
                        field "url" (text_or_null c.url) (
                          field "favorite" (boolean c.favorite) (
                            field "description" (text_or_null c.description) (
                              field "secret" (object (secret_fields c.secret))
                                no_fields))))))))))))))

abbrev pub url_json : PocketUrl → Json
url_json u = object (
    field "id" (string u.id) (
      field "clientId" (string u.client_id) (
        field "name" (string u.name) (
          field "url" (string u.url) (
            field "environment" (text_or_null u.environment) (
              field "tags" (array (items_of string u.tags)) (
                field "favorite" (boolean u.favorite)
                  (field "description" (text_or_null u.description) no_fields))))))))

unfoldable pub payload_json : PocketSnapshotPayload → Json
payload_json p = object (
    field "formatVersion" (number 1) (
      field "clients" (array (items_of client_json p.clients)) (
        field "credentials" (array (items_of credential_json p.credentials))
          (field "urls" (array (items_of url_json p.urls)) no_fields))))
