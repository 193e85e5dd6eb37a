-- ===== src/Retention/Plan.antt =====
-- Which runs a retention pass selects, newest run first.
use arkode.Prelude.{
  ℕ, ◌+◌, ◌-◌, ◌≤◌, ◌<◌, ◌≡◌, refl, ap, List, [], ◌∷◌, map, reverse, arith, length, take, take_all,
  length-append,
}
use mathlib.Core.List.{reverse-cons}
use arkode.Types.{BackupRun}
use arkode.Runs.{Runs}
use arkode.Retention.{RetentionPolicy, Candidate, candidates_from, to_delete}

abbrev pub runs_of : List Candidate → Runs
runs_of = map (λ (c : Candidate). c.run)

-- The runs selected from a list whose first run has rank `rank`, newest first.
abbrev pub selected : RetentionPolicy → ℕ → ℕ → Runs → Runs
selected policy now rank runs = runs_of (candidates_from policy now rank runs)

length-reverse {ℓ} : {A : Type ℓ} (xs : List A) → length (reverse xs) ≡ length xs
length-reverse [] = refl
length-reverse (x ∷ xs) =
    omega
      (arith, ap length (reverse-cons x xs), length-append (reverse xs) (x ∷ []), length-reverse xs)

length-candidates-le :
    (policy : RetentionPolicy) (now rank : ℕ) (runs : Runs)
    → length (candidates_from policy now rank runs) ≤ length runs
unfolding candidates_from
length-candidates-le policy now rank [] = omega arith
length-candidates-le policy now rank (r ∷ rs) =
    ground (arith, length-candidates-le policy now (rank + 1) rs)

-- The floor on the survivors never has to cut the list of candidates short: what is deleted is
-- every candidate, the oldest first, and there are fewer of them than there are runs.
pub to_delete-candidates :
    (policy : RetentionPolicy) (now : ℕ) (run : BackupRun) (older : Runs)
    → (to_delete policy now (run ∷ older) ≡ reverse (candidates_from policy now 0 (run ∷ older)))
      × (length (to_delete policy now (run ∷ older)) < length (run ∷ older))
unfolding to_delete candidates_from
to_delete-candidates policy now run older =
    let cs = candidates_from policy now (0 + 1) older in
    let few : length (reverse cs) ≤ length older =
      omega (arith, length-reverse cs, length-candidates-le policy now (0 + 1) older) in
    let e : length (run ∷ older) - 1 ≡ length older = omega arith in
    let whole : take (length older) (reverse cs) ≡ reverse cs =
      take_all (length older) (reverse cs) few in
    rw (e, whole) (refl, omega arith)
