-- ===== src/Vault/Secrets/Examples.antt =====
-- A secret that is written, read back after the password has changed, and asked for while locked.
use Prim.Native.String.{String}
use arkode.Prelude.{ℕ, ◌≡◌, refl, false, List, [], Option, none, some}
use arkode.Prelude.Results.{ok, err}
use arkode.Pocket.Bytes.{codes, zeros}
use arkode.Tables.Keyed.{update, get_value, put_value, delete_value}
use arkode.Vault.Crypto.{encrypt_bytes}
use arkode.Vault.Session.{vault_locked, lock, apply_dek, arm_timer}
use arkode.Vault.AutoUnlock.{is_enabled, parse_key_file}
use arkode.Vault.State.{init, unlock, with_dek}
use arkode.Vault.Samples.{
  plain, plain-IsCipher, windows, first, second, new_vault, renamed, renamed-History,
}
use arkode.Vault.Secrets.{SecretTable, get_secret, set_secret, delete_secret}
use arkode.Vault.Secrets.Refines.{nothing, written, get_secret-refines}

abbrev one_secret : SecretTable
one_secret =
    (set_secret plain windows first (zeros 12) "vault:credential:1" (codes "hunter2") new_vault
      []).2

abbrev one_text : String → Option (List ℕ)
one_text = update (λ ref. none) "vault:credential:1" (some (codes "hunter2"))

get_secret-refines_example :
    (get_secret plain windows second "vault:credential:1"
      (unlock plain windows second (codes "new") false renamed).1
      one_secret).0
    ≡ ok (one_text "vault:credential:1")
unfolding init apply_dek arm_timer encrypt_bytes is_enabled parse_key_file
get_secret-refines_example =
    get_secret-refines plain windows (codes "new") (zeros 32) renamed one_secret one_text
      plain-IsCipher renamed-History
      (written first (zeros 12) "vault:credential:1" (codes "hunter2") new_vault [] (λ ref. none)
        nothing refl refl)
      second second false "vault:credential:1"

-- While the vault is locked, a text that is there throws; one that is absent reads as null, and a
-- deletion works.
while_locked :
    ((get_secret plain windows second "vault:credential:1" (lock new_vault) one_secret).0
      ≡ err vault_locked)
    × ((get_secret plain windows second "vault:credential:2" (lock new_vault) one_secret).0
        ≡ ok none)
    × (delete_secret "vault:credential:1" one_secret ≡ [])
unfolding init apply_dek arm_timer encrypt_bytes is_enabled parse_key_file get_secret set_secret
    with_dek get_value put_value delete_value lock
while_locked = (refl, refl, refl)
