-- ===== src/RunDue/Examples.antt =====
-- Two tasks at noon of day 5, one of which is due.
use arkode.Prelude.{◌≡◌, [], ◌∷◌, arith}
use arkode.Orchestrator.Samples.{stored}
use arkode.RunDue.{run_due_tasks}
use arkode.RunDue.Samples.{envs, paused}
use arkode.RunDue.Pass.{decisions, due_list, run_due-decisions}
use arkode.Samples.{nightly, noon_of}

run_due-decisions_example :
    decisions (run_due_tasks envs (noon_of 5) (nightly ∷ paused ∷ []) stored).0
    ≡ due_list envs (noon_of 5) (nightly ∷ paused ∷ []) stored
run_due-decisions_example =
    run_due-decisions envs (noon_of 5) (nightly ∷ paused ∷ []) stored
      (λ i j differ e. differ (omega arith)) ((λ e. omega arith, tt), (tt, tt))
      (λ i. (λ e. omega arith, (λ e. omega arith, tt))) ((λ e. omega arith, tt), (tt, tt))
