-- ===== src/Retention/Apply.antt =====
-- The loop that deletes: what it records, and what survives it.
use Prim.Native.String.{String}
use arkode.Prelude.{ℕ, ◌≢◌, Bool, List, includes, All}
use arkode.Runs.{Runs}
use arkode.Retention.{Candidate, RetentionDeletion, list_deleted_run_ids}

abbrev is_deleted : ℕ → List RetentionDeletion → ℕ → Bool
is_deleted task_id ds id = includes (list_deleted_run_ids task_id ds) id

-- A run other than these is selected.
abbrev Spares : ℕ → List Candidate → Type 0
Spares id cs = All (λ (c : Candidate). c.run.id ≢ id) cs
