-- ===== src/Retention/Bounds.antt =====
-- What each kind of policy selects, exactly.
use arkode.Prelude.{
  ℕ, zero, suc, ◌+◌, ◌-◌, ◌<◌, ◌≡◌, refl, inl, inr, [], ◌∷◌, none, some, arith, leb, drop, keep,
  Bool-cases,
}
use arkode.Types.{BackupRun}
use arkode.Runs.{Runs}
use arkode.Retention.{violates_days, candidates_from}
use arkode.Retention.Plan.{selected}

module _ (now : ℕ) where
  selected-count :
      (count rank : ℕ) (runs : Runs)
      → 0 < rank
      → selected (record { count = some count; days = none }) now rank runs
        ≡ drop (count - rank) runs
  unfolding candidates_from
  selected-count count rank [] pos = drop-nil (count - rank)
    where
      drop-nil : (n : ℕ) → [] ≡ drop {A = BackupRun} n []
      drop-nil zero = refl
      drop-nil (suc n) = refl
  selected-count count rank (r ∷ rs) pos = elim (Bool-cases (leb count rank)) [
    | inl over ↦
        let z : count - rank ≡ 0 = ground arith in
        let z' : count - (rank + 1) ≡ 0 = ground arith in
        let ih = selected-count count (rank + 1) rs (omega arith) in
        rw z (ground (arith, rw z' at ih))
    | inr under ↦
        let z : count - rank ≡ suc (count - (rank + 1)) = ground arith in
        rw z (ground (arith, selected-count count (rank + 1) rs (omega arith)))
  ]

  selected-days :
      (days rank : ℕ) (runs : Runs)
      → 0 < rank
      → selected (record { count = none; days = some days }) now rank runs
        ≡ keep (violates_days (some days) now) runs
  unfolding candidates_from
  selected-days days rank [] pos = refl
  selected-days days rank (r ∷ rs) pos =
      ground (arith, selected-days days (rank + 1) rs (omega arith))

  selected-both :
      (count days rank : ℕ) (runs : Runs)
      → 0 < rank
      → selected (record { count = some count; days = some days }) now rank runs
        ≡ keep (violates_days (some days) now) (drop (count - rank) runs)
  unfolding candidates_from
  selected-both count days rank [] pos = drop-nil (count - rank)
    where
      drop-nil : (n : ℕ) → [] ≡ keep (violates_days (some days) now) (drop n [])
      drop-nil zero = refl
      drop-nil (suc n) = refl
  selected-both count days rank (r ∷ rs) pos = elim (Bool-cases (leb count rank)) [
    | inl over ↦
        let z : count - rank ≡ 0 = ground arith in
        let z' : count - (rank + 1) ≡ 0 = ground arith in
        let ih = selected-both count days (rank + 1) rs (omega arith) in
        rw z (ground (arith, rw z' at ih))
    | inr under ↦
        let z : count - rank ≡ suc (count - (rank + 1)) = ground arith in
        rw z (ground (arith, selected-both count days (rank + 1) rs (omega arith)))
  ]

  -- Of the Success runs that still have their backup, newest first, a policy by count selects all
  -- but the `count` newest, a policy by days those past the age, and both together the ones that
  -- each would select; the newest run is never selected, also where `count` is 0.
  pub selected-exact :
      (count days : ℕ) (newest : BackupRun) (older : Runs)
      → (selected (record { count = some count; days = none }) now 0 (newest ∷ older)
          ≡ drop (count - 1) older)
        × (selected (record { count = none; days = some days }) now 0 (newest ∷ older)
            ≡ keep (violates_days (some days) now) older)
        × (selected (record { count = some count; days = some days }) now 0 (newest ∷ older)
            ≡ keep (violates_days (some days) now) (drop (count - 1) older))
  unfolding candidates_from
  selected-exact count days newest older = (
    selected-count count 1 older (omega arith),
    selected-days days 1 older (omega arith),
    selected-both count days 1 older (omega arith),
  )
