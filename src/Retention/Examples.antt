-- ===== src/Retention/Examples.antt =====
-- Three stored backups of one task, and a disk on which every deletion succeeds.
use Prim.Native.String.{String}
use arkode.Prelude.{arith, ◌≡◌, refl, [], ◌∷◌, none, some, length}
use arkode.Runs.{Runs, list_successful_runs}
use arkode.Retention.{
  RetentionPolicy, RetentionState, Unlinked, removed, list_deleted_run_ids, kept_runs,
  apply_retention, to_delete,
}
use arkode.Prelude.{arith, ◌<◌}
use arkode.Retention.Plan.{selected, to_delete-candidates}
use arkode.Retention.Bounds.{selected-exact}
use arkode.Samples.{nightly, stored_run, noon_of}

abbrev three_runs : Runs
three_runs = stored_run 3 (noon_of 3) ∷ stored_run 2 (noon_of 2) ∷ stored_run 1 (noon_of 1) ∷ []

abbrev keep_one : RetentionPolicy
keep_one = record { count = some 1; days = none }

abbrev easy_disk : String → Unit {0} → Unlinked × Unit {0}
easy_disk path w = (removed, w)

abbrev nothing_deleted : RetentionState (Unit {0})
nothing_deleted = record { deletions = []; log = []; disk = tt }

program : Unit {0}
unfolding apply_retention kept_runs list_successful_runs list_deleted_run_ids
program = tt

-- The two older runs go, the oldest first.
apply_run :
    list_deleted_run_ids 7
      (apply_retention easy_disk nightly keep_one 0 none three_runs nothing_deleted).deletions
    ≡ 2 ∷ 1 ∷ []
unfolding program
apply_run = refl

to_delete-candidates_example : length (to_delete keep_one 0 three_runs) < length three_runs
to_delete-candidates_example =
    (to_delete-candidates keep_one 0 (stored_run 3 (noon_of 3))
      (stored_run 2 (noon_of 2) ∷ stored_run 1 (noon_of 1) ∷ [])).1

selected-exact_example :
    selected (record { count = some 2; days = none }) 0 0 three_runs ≡ stored_run 1 (noon_of 1) ∷ []
selected-exact_example =
    (selected-exact 0 2 1 (stored_run 3 (noon_of 3))
      (stored_run 2 (noon_of 2) ∷ stored_run 1 (noon_of 1) ∷ [])).0
