-- ===== src/Tables/Newest.antt =====
-- `ORDER BY started_at DESC, rowid DESC`: a stable sort of the rows that were selected.
use mathlib.Core.List.{Perm}
use mathlib.Core.List.Perm
use arkode.Prelude.{
  ℕ, ◌+◌, ◌≤◌, ◌≡◌, refl, inl, inr, List, [], ◌∷◌, some, ltb, arith, length, head?, All, All-imp,
  Bool-cases, if◌then◌else◌,
}

module _ {A : Type 0} (started : A → ℕ) where
  unfoldable pub insert_newest : A → List A → List A
  insert_newest r [] = r ∷ []
  insert_newest r (x ∷ xs) =
      let later = insert_newest r xs in
      if ltb (started r) (started x) then x ∷ later else r ∷ x ∷ xs

  unfoldable pub newest_first : List A → List A
  unfolding insert_newest
  newest_first [] = []
  newest_first (r ∷ rs) = insert_newest r (newest_first rs)

  -- Starts do not grow along the list.
  abbrev pub IsNewestFirst : List A → Type 0
  IsNewestFirst [] = Unit {0}
  IsNewestFirst (r ∷ rs) = All (λ x. started x ≤ started r) rs × IsNewestFirst rs

  pub All-insert_newest {ℓ} :
      (P : A → Type ℓ) (r : A) (xs : List A) → P r → All P xs → All P (insert_newest r xs)
  unfolding insert_newest
  All-insert_newest P r [] h a = (h, a)
  All-insert_newest P r (x ∷ xs) h a = ground (arith, All-insert_newest P r xs h a.1)

  pub All-newest_first {ℓ} : (P : A → Type ℓ) (xs : List A) → All P xs → All P (newest_first xs)
  unfolding newest_first
  All-newest_first P [] a = a
  All-newest_first P (x ∷ xs) a =
      All-insert_newest P x (newest_first xs) a.0 (All-newest_first P xs a.1)

  -- A row that no other started after comes first.
  pub insert_newest-top :
      (r : A) (xs : List A)
      → All (λ x. started x ≤ started r) xs
      → head? (insert_newest r xs) ≡ some r
  unfolding insert_newest
  insert_newest-top r [] h = refl
  insert_newest-top r (x ∷ xs) h = ground (arith, h.0)

  insert_newest-IsNewestFirst :
      (r : A) (xs : List A) → IsNewestFirst xs → IsNewestFirst (insert_newest r xs)
  unfolding insert_newest
  insert_newest-IsNewestFirst r [] h = (tt, tt)
  insert_newest-IsNewestFirst r (x ∷ xs) h = elim (Bool-cases (ltb (started r) (started x))) [
    | inl older ↦ rw older (
      All-insert_newest (λ y. started y ≤ started x) r xs (ground arith) h.0,
      insert_newest-IsNewestFirst r xs h.1,
    )
    | inr newer ↦
        let r_newer : started x ≤ started r = ground arith in
        rw newer (
          (
            r_newer,
            All-imp (λ y. started y ≤ started x) (λ y. started y ≤ started r) xs
                (λ y le. omega arith) h.0,
          ),
          h,
        )
  ]

  pub newest_first-IsNewestFirst : (xs : List A) → IsNewestFirst (newest_first xs)
  unfolding newest_first
  newest_first-IsNewestFirst [] = tt
  newest_first-IsNewestFirst (x ∷ xs) =
      insert_newest-IsNewestFirst x (newest_first xs) (newest_first-IsNewestFirst xs)

  insert_newest-perm : (r : A) (xs : List A) → Perm (insert_newest r xs) (r ∷ xs)
  unfolding insert_newest
  insert_newest-perm r [] = Perm.rfl
  insert_newest-perm r (x ∷ xs) = elim (Bool-cases (ltb (started r) (started x))) [
    | inl older ↦ rw older (Perm.trans (Perm.cons x (insert_newest-perm r xs)) (Perm.swap r x xs))
    | inr newer ↦ rw newer Perm.rfl
  ]

  pub newest_first-perm : (xs : List A) → Perm (newest_first xs) xs
  unfolding newest_first
  newest_first-perm [] = Perm.rfl
  newest_first-perm (x ∷ xs) =
      Perm.trans (insert_newest-perm x (newest_first xs)) (Perm.cons x (newest_first-perm xs))

  length-insert_newest : (r : A) (xs : List A) → length (insert_newest r xs) ≡ length xs + 1
  unfolding insert_newest
  length-insert_newest r [] = omega arith
  length-insert_newest r (x ∷ xs) = ground (arith, length-insert_newest r xs)

  pub length-newest_first : (xs : List A) → length (newest_first xs) ≡ length xs
  unfolding newest_first
  length-newest_first [] = refl
  length-newest_first (x ∷ xs) =
      omega (arith, length-insert_newest x (newest_first xs), length-newest_first xs)
