-- ===== src/Runs/Examples.antt =====
-- Three stored backups, two of which started at the same time.
use mathlib.Core.List.{Perm}
use arkode.Prelude.{◌≡◌, [], ◌∷◌, ◌++◌, none, some, arith, length, keep}
use arkode.Runs.{Runs, start_of, is_backup, list_backups}
use arkode.Tables.Newest.{IsNewestFirst}
use arkode.Runs.Pages.{list_backups-append, list_backups_complete}
use arkode.Samples.{stored_run}

abbrev three : Runs
three = stored_run 3 5 ∷ stored_run 2 9 ∷ stored_run 1 5 ∷ []

program : Unit {0}
unfolding list_backups
program = tt

two_pages :
    (list_backups none (some 7) (some 2) (some 0) three).0
      ++ (list_backups none (some 7) (some 1) (some 2) three).0
    ≡ (list_backups none (some 7) (some 3) (some 0) three).0
two_pages = list_backups-append none (some 7) 2 1 0 three

list_backups_complete_example :
    (length (list_backups (some 1) none (some 10) none three).0
      ≡ (list_backups (some 1) none (some 10) none three).1)
    × Perm
        (list_backups (some 1) none (some 10) none three).0
        (keep (is_backup (some 1) none) three)
    × IsNewestFirst start_of (list_backups (some 1) none (some 10) none three).0
unfolding program
list_backups_complete_example = list_backups_complete (some 1) none 10 three (omega arith)
