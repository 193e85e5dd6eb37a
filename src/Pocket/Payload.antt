-- ===== src/Pocket/Payload.antt =====
-- packages/pocket-shared/src/types.ts: what a snapshot may hold.
use Prim.Native.String.{String}
use arkode.Prelude.{ℕ, Bool, List, [], ◌∷◌, Option, none, some, if◌then◌else◌}
use arkode.Pocket.Bytes.{codes}
use arkode.Pocket.Json.{same_text}

abbrev pub Text : Type 0
Text = List ℕ

pub data PocketCredentialKind : Type 0 where
  ssh sftp ftp postgres mysql mariadb smtp http_basic web_panel : PocketCredentialKind
  api oauth_client generic_login generic_secret ssh_key custom : PocketCredentialKind

-- `POCKET_CREDENTIAL_KINDS`, each with its text.
abbrev pub pocket_credential_kinds : List (String × PocketCredentialKind)
pocket_credential_kinds =
    ("ssh", ssh)
    ∷ ("sftp", sftp)
    ∷ ("ftp", ftp)
    ∷ ("postgres", postgres)
    ∷ ("mysql", mysql)
    ∷ ("mariadb", mariadb)
    ∷ ("smtp", smtp)
    ∷ ("http_basic", http_basic)
    ∷ ("web_panel", web_panel)
    ∷ ("api", api)
    ∷ ("oauth_client", oauth_client)
    ∷ ("generic_login", generic_login)
    ∷ ("generic_secret", generic_secret)
    ∷ ("ssh_key", ssh_key)
    ∷ ("custom", custom)
    ∷ []

abbrev pub kind_in : List (String × PocketCredentialKind) → Text → Option PocketCredentialKind
kind_in [] text = none
kind_in ((name, kind) ∷ kinds) text =
    if same_text (codes name) text then some kind else kind_in kinds text

-- Each optional field of the interface is none where the key is absent.
pub record PocketCredentialSecret : Type 0 where
  pub password : Option Text
  pub token : Option Text
  pub client_secret : Option Text
  pub private_key : Option Text
  pub private_key_passphrase : Option Text
  pub custom : Option (List (String × Text))
  pub notes : Option Text

pub record PocketClient : Type 0 where
  pub id : Text
  pub name : Text

pub record PocketCredential : Type 0 where
  pub id : Text
  pub client_id : Text
  pub name : Text
  pub kind : PocketCredentialKind
  pub environment : Option Text
  pub tags : List Text
  pub host : Option Text
  pub port : Option ℕ
  pub username : Option Text
  pub database_name : Option Text
  pub url : Option Text
  pub favorite : Bool
  pub description : Option Text
  pub secret : PocketCredentialSecret

pub record PocketUrl : Type 0 where
  pub id : Text
  pub client_id : Text
  pub name : Text
  pub url : Text
  pub environment : Option Text
  pub tags : List Text
  pub favorite : Bool
  pub description : Option Text

-- `formatVersion` is the constant 1.
pub record PocketSnapshotPayload : Type 0 where
  pub clients : List PocketClient
  pub credentials : List PocketCredential
  pub urls : List PocketUrl
