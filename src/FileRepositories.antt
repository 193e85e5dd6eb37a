-- ===== src/FileRepositories.antt =====
-- packages/engine-core/src/fileBackup/db/repositories/fileBackupRepositoriesRepo.ts: the table of
-- the restic repositories, one for each client.
use Prim.Native.String.{String}
use arkode.Prelude.{
  ℕ, Bool, List, ◌∷◌, reverse, Option, none, some, ◌==◌, any, find, keep, if◌then◌else◌,
}
use arkode.Prelude.Results.{Result, ok, err}
use arkode.Tables.{update_where, get_where}
use arkode.FileTypes.{FileBackupRepository}

abbrev pub FileRepositories : Type 0
FileRepositories = List FileBackupRepository

abbrev pub repository_key : FileBackupRepository → ℕ
repository_key r = r.id

pub record CreateFileBackupRepositoryInput : Type 0 where
  pub client_id : ℕ
  pub repo_path : String
  pub password_secret_ref : String

-- `friendlyUniqueClientError`.
pub data CreateRepositoryError : Type 0 where
  client_has_repository : CreateRepositoryError

-- `client_id` is UNIQUE.
unfoldable pub create_repository :
    ℕ
    → CreateFileBackupRepositoryInput
    → FileRepositories
    → Result CreateRepositoryError FileRepositories
create_repository id input rows =
    if any (λ (r : FileBackupRepository). r.client_id == input.client_id) rows
    then err client_has_repository
    else ok (
        record {
          id = id;
          client_id = input.client_id;
          repo_path = input.repo_path;
          password_secret_ref = input.password_secret_ref;
          last_pruned_at = none;
          last_checked_at = none;
          initialized_at = none;
        }
        ∷ rows)

unfoldable pub get_repository_by_id : ℕ → FileRepositories → Option FileBackupRepository
unfolding get_where
get_repository_by_id id rows = get_where repository_key id rows

unfoldable pub get_repository_by_client : ℕ → FileRepositories → Option FileBackupRepository
get_repository_by_client client_id rows = find (λ r. r.client_id == client_id) rows

-- `ORDER BY created_at`: the rows are newest first.
abbrev pub list_for_active_clients : (ℕ → Bool) → FileRepositories → FileRepositories
list_for_active_clients is_active rows = reverse (keep (λ r. is_active r.client_id) rows)

-- restic's own id is written to a column that is left out.
unfoldable pub mark_initialized : ℕ → ℕ → FileRepositories → FileRepositories
unfolding update_where
mark_initialized id now =
    update_where repository_key id (λ r. record r { initialized_at = some now })

unfoldable pub mark_pruned : ℕ → ℕ → FileRepositories → FileRepositories
unfolding update_where
mark_pruned id now = update_where repository_key id (λ r. record r { last_pruned_at = some now })

unfoldable pub mark_checked : ℕ → ℕ → FileRepositories → FileRepositories
unfolding update_where
mark_checked id now = update_where repository_key id (λ r. record r { last_checked_at = some now })
