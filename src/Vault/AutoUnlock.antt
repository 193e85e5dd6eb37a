-- ===== src/Vault/AutoUnlock.antt =====
-- packages/engine-core/src/vault/autoUnlock.ts: the key file of one machine. The state is the file's
-- content, none where there is no file. DPAPI and SHA-256 are parameters. Removing the file works;
-- writing it may fail, and then the old file stays.
use arkode.Prelude.{
  ℕ, zero, suc, ◌+◌, ◌*◌, ◌/◌, ◌%◌, Bool, true, false, not, ◌&&◌, List, [], ◌∷◌, ◌++◌, Option, none,
  some, ◌==◌, ltb, if◌then◌else◌, length, take, drop,
}
use arkode.Prelude.Results.{Result, ok, err}
use arkode.Pocket.Bytes.{codes, char_at}
use arkode.Pocket.Json.{same_text}

abbrev pub key_file_magic : List ℕ
key_file_magic = codes "ARKAU"

abbrev pub fp_len : ℕ
fp_len = 8

-- magic + version + fp + createdAtMs
abbrev pub key_file_header_len : ℕ
key_file_header_len = length key_file_magic + 1 + fp_len + 8

-- `protect` and `unprotect` answer none where they throw.
pub record AutoUnlockDeps : Type 0 where
  pub is_supported : Bool
  pub protect : List ℕ → Option (List ℕ)
  pub unprotect : List ℕ → Option (List ℕ)
  pub sha256 : List ℕ → List ℕ

pub data ParsedFile : Type 0 where
  absent malformed : ParsedFile
  parsed : List ℕ → ℕ → List ℕ → ParsedFile

pub data AutoUnlockStatus : Type 0 where
  unsupported disabled stale error : AutoUnlockStatus
  enabled : ℕ → AutoUnlockStatus

pub data EnableError : Type 0 where
  bad_kek_length protect_failed write_failed : EnableError

-- `writeBigUInt64LE` and `readBigUInt64LE`.
abbrev pub le_bytes : ℕ → ℕ → List ℕ
le_bytes zero n = []
le_bytes (suc k) n = n % 256 ∷ le_bytes k (n / 256)

abbrev pub from_le : List ℕ → ℕ
from_le [] = 0
from_le (b ∷ bs) = b + 256 * from_le bs

abbrev pub is_key_file : List ℕ → Bool
is_key_file raw =
    not (ltb (length raw) (key_file_header_len + 1))
    && same_text (take (length key_file_magic) raw) key_file_magic
    && (char_at raw (length key_file_magic) == 1)

unfoldable pub parse_key_file : Option (List ℕ) → ParsedFile
parse_key_file none = absent
parse_key_file (some raw) =
    let fp_start = length key_file_magic + 1 in
    if is_key_file raw
    then parsed (take fp_len (drop fp_start raw)) (from_le (take 8 (drop (fp_start + fp_len) raw)))
        (drop key_file_header_len raw)
    else malformed

module _ (deps : AutoUnlockDeps) where
  abbrev pub fingerprint : List ℕ → List ℕ
  fingerprint kek_salt = take fp_len (deps.sha256 kek_salt)

  abbrev pub is_parsed : ParsedFile → Bool
  is_parsed absent = false
  is_parsed malformed = false
  is_parsed (parsed fp created_at blob) = true

  unfoldable pub is_enabled : Option (List ℕ) → Bool
  unfolding parse_key_file
  is_enabled file = deps.is_supported && is_parsed (parse_key_file file)

  -- The status, with what becomes of the file.
  abbrev pub status_of : List ℕ → Option (List ℕ) → ParsedFile → AutoUnlockStatus × Option (List ℕ)
  status_of current_salt file absent = (disabled, file)
  status_of current_salt file malformed = (error, none)
  status_of current_salt file (parsed fp created_at blob) =
      if same_text fp (fingerprint current_salt) then (enabled created_at, file) else (stale, none)

  unfoldable pub file_status : List ℕ → Option (List ℕ) → AutoUnlockStatus × Option (List ℕ)
  unfolding parse_key_file
  file_status current_salt file =
      if deps.is_supported
      then status_of current_salt file (parse_key_file file)
      else (unsupported, file)

  abbrev pub write_key_file :
      Bool
      → ℕ
      → List ℕ
      → Option (List ℕ)
      → Option (List ℕ)
      → Result EnableError (Unit {0}) × Option (List ℕ)
  write_key_file can_write now current_salt none file = (err protect_failed, file)
  write_key_file false now current_salt (some protected) file = (err write_failed, file)
  write_key_file true now current_salt (some protected) file = (
    ok tt,
    some (key_file_magic ++ (1 ∷ (fingerprint current_salt ++ (le_bytes 8 now ++ protected)))),
  )

  unfoldable pub enable_file :
      Bool → ℕ → List ℕ → List ℕ → Option (List ℕ) → Result EnableError (Unit {0}) × Option (List ℕ)
  enable_file can_write now kek current_salt file =
      if length kek == 32
      then write_key_file can_write now current_salt (deps.protect kek) file
      else (err bad_kek_length, file)

  abbrev pub unprotected : Option (List ℕ) → Option (List ℕ) → Option (List ℕ) × Option (List ℕ)
  unprotected none file = (none, none)
  unprotected (some kek) file = if length kek == 32 then (some kek, file) else (none, none)

  abbrev pub load_parsed : List ℕ → Option (List ℕ) → ParsedFile → Option (List ℕ) × Option (List ℕ)
  load_parsed current_salt file absent = (none, file)
  load_parsed current_salt file malformed = (none, none)
  load_parsed current_salt file (parsed fp created_at blob) =
      if same_text fp (fingerprint current_salt)
      then unprotected (deps.unprotect blob) file
      else (none, none)

  -- The key, with what becomes of the file.
  unfoldable pub load_kek : List ℕ → Option (List ℕ) → Option (List ℕ) × Option (List ℕ)
  unfolding parse_key_file
  load_kek current_salt file =
      if deps.is_supported
      then load_parsed current_salt file (parse_key_file file)
      else (none, file)
