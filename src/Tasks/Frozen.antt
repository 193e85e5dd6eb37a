-- ===== src/Tasks/Frozen.antt =====
-- What a backup fixes of its task, through any sequence of operations.
use arkode.Prelude.{ℕ, ◌≡◌, refl, ◌∙◌, Bool, true, List, [], ◌∷◌, Option, some, All}
use arkode.Types.{BackupTask}
use arkode.Runs.{Runs}
use arkode.Tasks.{Tasks, TransportType, get_task, has_real_backup}
use arkode.Tasks.Operations.{Operation, perform_all}
use arkode.Tasks.Kept.{source_of, perform_task-IsKept}

-- A task that has a real backup is frozen: whatever operations follow, on this task or others, with
-- whatever input, and whichever of them throw, the task stays in the table with its strategy, its
-- transport or connection, its engine and every field of its pipeline as they were, as long as a
-- Success or Warning run of the task with a file is in the table of runs at each call.
pub perform_all-frozen :
    (transports : ℕ → Option TransportType) (connections : ℕ → Bool) (id : ℕ)
    (steps : List (Operation × Runs)) (tasks : Tasks) (t : BackupTask)
    → get_task id tasks ≡ some t
    → All (λ step. has_real_backup id step.1 ≡ true) steps
    → (t' : BackupTask) × (get_task id (perform_all transports connections steps tasks) ≡ some t')
      × (source_of t' ≡ source_of t)
unfolding perform_all
perform_all-frozen transports connections id [] tasks t found backed = (t, found, refl)
perform_all-frozen transports connections id ((operation, runs) ∷ steps) tasks t found backed =
    let (s, here, same) =
      perform_task-IsKept id tasks t found transports connections operation runs backed.0 in
    let (t', later, same') = perform_all-frozen transports connections id steps _ s here backed.1 in
    (t', later, same' ∙ same)
