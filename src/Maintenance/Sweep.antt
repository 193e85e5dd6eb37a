-- ===== src/Maintenance/Sweep.antt =====
-- What a sweep reports.
use mathlib.Core.List.{map-append}
use Prim.Native.String.{String}
use arkode.Prelude.{
  ℕ, ◌≡◌, refl, ap₂, ◌∙◌, Bool, true, false, ◌||◌, List, [], ◌∷◌, ◌++◌, map, Option, none, some,
  is_some,
}
use arkode.Prelude.Results.{Result, ok, err}
use arkode.FileTypes.{FileBackupRepository, MaintenanceOperation, prune, check, check_read_data}
use arkode.Locking.{HeldBy}
use arkode.Maintenance.{
  Moment, MaintenanceEnv, MaintenanceState, MaintenanceOpts, MaintenanceOutcome, CheckResult,
  after_prune, after_check, run_restic, if_password, if_free, if_due, is_operation_due, next_step,
  consider, run_operations, recover, run_repositories, repositories_of, operations_to_consider,
  run_file_backup_maintenance,
}

abbrev pub subject : MaintenanceOutcome → ℕ × MaintenanceOperation
subject o = (o.repository_id, o.operation)

-- Each operation on each repository, repository by repository.
abbrev pub asked :
    List FileBackupRepository → List MaintenanceOperation → List (ℕ × MaintenanceOperation)
asked [] operations = []
asked (repository ∷ rest) operations =
    map (λ operation. (repository.id, operation)) operations ++ asked rest operations

module _ {W : Type 0} (env : MaintenanceEnv W) where
  abbrev IsAbout : ℕ → MaintenanceOperation → MaintenanceOutcome × MaintenanceState W → Type 0
  IsAbout id operation result = subject result.0 ≡ (id, operation)

  module _ (at : Moment) (repository : FileBackupRepository) where
    after_prune-IsAbout :
        (operation : MaintenanceOperation) (result : Result String ℕ) (s : MaintenanceState W)
        → IsAbout repository.id operation (after_prune env at repository operation result s)
    after_prune-IsAbout operation (err message) s = refl
    after_prune-IsAbout operation (ok bytes) s = refl

    after_check-IsAbout :
        (operation : MaintenanceOperation) (result : Result String CheckResult)
        (s : MaintenanceState W)
        → IsAbout repository.id operation (after_check env at repository operation result s)
    after_check-IsAbout operation (err message) s = refl
    after_check-IsAbout operation (ok result) s = refl

    run_restic-IsAbout :
        (operation : MaintenanceOperation) (password : String) (s : MaintenanceState W)
        → IsAbout repository.id operation (run_restic env at repository operation password s)
    run_restic-IsAbout prune password s = after_prune-IsAbout prune _ _
    run_restic-IsAbout check password s = after_check-IsAbout check _ _
    run_restic-IsAbout check_read_data password s = after_check-IsAbout check_read_data _ _

    module _ (operation : MaintenanceOperation) (s : MaintenanceState W) where
      if_password-IsAbout :
          (password : Option String)
          → IsAbout repository.id operation (if_password env at repository operation password s)
      if_password-IsAbout none = refl
      if_password-IsAbout (some password) = run_restic-IsAbout operation password _

      if_free-IsAbout :
          (holder : Option HeldBy)
          → IsAbout repository.id operation (if_free env at repository operation holder s)
      if_free-IsAbout (some holder) = refl
      if_free-IsAbout none = if_password-IsAbout _

      if_due-IsAbout :
          (due : Bool) → IsAbout repository.id operation (if_due env at repository operation due s)
      if_due-IsAbout false = refl
      if_due-IsAbout true = if_free-IsAbout _

  run_operations-subjects :
      (forced : Bool) (repository : FileBackupRepository) (operations : List MaintenanceOperation)
      (s : MaintenanceState W)
      → map subject (run_operations env forced repository operations s).0
        ≡ map (λ operation. (repository.id, operation)) operations
  unfolding run_operations
  run_operations-subjects forced repository [] s = refl
  run_operations-subjects forced repository (operation ∷ operations) s =
      ap₂ ◌∷◌
        (if_due-IsAbout (env.moment s.step) repository operation (next_step env s)
          (forced || is_operation_due repository operation (env.moment s.step).due_now))
        (run_operations-subjects forced repository operations
          (consider env forced repository operation s).1)

  run_repositories-subjects :
      (requested : Option MaintenanceOperation) (repositories : List FileBackupRepository)
      (s : MaintenanceState W)
      → map subject (run_repositories env requested repositories s).0
        ≡ asked repositories (operations_to_consider requested)
  unfolding run_repositories
  run_repositories-subjects requested [] s = refl
  run_repositories-subjects requested (repository ∷ rest) s =
      let operations = operations_to_consider requested in
      let first =
        run_operations env (is_some requested) repository operations (recover env repository s) in
      map-append subject first.0 (run_repositories env requested rest first.1).0
      ∙ ap₂ ◌++◌
          (run_operations-subjects (is_some requested) repository operations
            (recover env repository s))
          (run_repositories-subjects requested rest first.1)

-- A sweep reports on every operation that it was asked for, on each repository once and in order:
-- a busy repository, a missing password or an error of restic stops nothing that comes after it.
pub sweep-subjects :
    {W : Type 0} (env : MaintenanceEnv W) (opts : MaintenanceOpts) (s : MaintenanceState W)
    → map subject (run_file_backup_maintenance env opts s).0
      ≡ asked
          (repositories_of env opts.repository_id s.repositories)
          (operations_to_consider opts.operation)
unfolding run_file_backup_maintenance
sweep-subjects env opts s =
    run_repositories-subjects env opts.operation
      (repositories_of env opts.repository_id s.repositories) s
