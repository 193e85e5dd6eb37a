-- ===== src/Tables.antt =====
-- Tables of SQLite as the repositories use them: a table is the list of its rows, the row inserted
-- last first, and its primary key is a field of the row.
pub mod Recover
pub mod Newest
pub mod Keyed
use arkode.Prelude.{
  ℕ, ◌≡◌, refl, ap, sym, ◌∙◌, ==_iff, ◌≢◌, Bool, true, false, not, ◌&&◌, List, [], ◌∷◌, map, Option,
  none, some, arith, ◌==◌, find, keep, All, if◌then◌else◌, Bool-cases, inl, inr, subst,
}
use mathlib.Core.Option
use mathlib.Core.Option.{some-injective}

module _ {A : Type 0} (key : A → ℕ) where
  -- UPDATE … SET … WHERE id = ?
  unfoldable pub update_where : ℕ → (A → A) → List A → List A
  update_where id change [] = []
  update_where id change (r ∷ rs) =
      let rest = update_where id change rs in if key r == id then change r ∷ rest else r ∷ rest

  -- SELECT * … WHERE id = ?
  unfoldable pub get_where : ℕ → List A → Option A
  get_where id rows = find (λ r. key r == id) rows

  -- No row has this id.
  abbrev pub Fresh : ℕ → List A → Type 0
  Fresh id rows = All (λ r. key r ≢ id) rows

  abbrev pub UniqueKeys : List A → Type 0
  UniqueKeys [] = Unit {0}
  UniqueKeys (r ∷ rs) = Fresh (key r) rs × UniqueKeys rs

  pub update_where-Fresh :
      (id : ℕ) (change : A → A) (rows : List A) → Fresh id rows → update_where id change rows ≡ rows
  unfolding update_where
  update_where-Fresh id change [] h = refl
  update_where-Fresh id change (r ∷ rs) h = ground (arith, h.0, update_where-Fresh id change rs h.1)

  pub All-update_where {ℓ} :
      (P : A → Type ℓ) (id : ℕ) (change : A → A) (rows : List A)
      → ((r : A) → P r → P (change r))
      → All P rows
      → All P (update_where id change rows)
  unfolding update_where
  All-update_where P id change [] keeps h = tt
  All-update_where P id change (r ∷ rs) keeps h =
      by_key (key r == id) (All-update_where P id change rs keeps h.1)
    where
      by_key :
          (b : Bool)
          → All P (update_where id change rs)
          → All P
              (if b then change r ∷ update_where id change rs else r ∷ update_where id change rs)
      by_key true rest = (keeps r h.0, rest)
      by_key false rest = (h.0, rest)

  pub get_where-All {ℓ} :
      (P : A → Type ℓ) (id : ℕ) (rows : List A) {row : A}
      → get_where id rows ≡ some row
      → All P rows
      → P row
  unfolding get_where
  get_where-All P id [] e h = cc
  get_where-All P id (r ∷ rs) {row} e h = elim (Bool-cases (key r == id)) [
    | inl here ↦ subst P (some-injective r row (rw here at e)) h.0
    | inr other ↦ get_where-All P id rs (rw other at e) h.1
  ]

  pub get_where-key :
      (id : ℕ) (rows : List A) {row : A} → get_where id rows ≡ some row → key row ≡ id
  unfolding get_where
  get_where-key id [] e = cc
  get_where-key id (r ∷ rs) {row} e = elim (Bool-cases (key r == id)) [
    | inl here ↦ ap key (sym (some-injective r row (rw here at e))) ∙ (==_iff (key r) id).0 here
    | inr other ↦ get_where-key id rs (rw other at e)
  ]

  pub update_where-head :
      (id : ℕ) (change : A → A) (r : A) (rows : List A)
      → key r ≡ id
      → Fresh id rows
      → update_where id change (r ∷ rows) ≡ change r ∷ rows
  unfolding update_where
  update_where-head id change r rows e h = ground (arith, update_where-Fresh id change rows h)

  -- Reading a row back after an UPDATE of one row.
  pub get_where-update_where :
      (change : A → A)
      → ((r : A) → key (change r) ≡ key r)
      → (j id : ℕ) (rows : List A)
      → get_where j (update_where id change rows)
        ≡ (if j == id then Option.map change (get_where j rows) else get_where j rows)
  unfolding get_where update_where
  get_where-update_where change same j id [] = ground arith
  get_where-update_where change same j id (r ∷ rs) =
      ground (arith, same r, get_where-update_where change same j id rs)

  -- The same after an UPDATE that writes a whole row.
  pub get_where-put :
      (row : A) (j : ℕ) (rows : List A)
      → get_where j (update_where (key row) (λ r. row) rows)
        ≡ (if j == key row then Option.map (λ r. row) (get_where j rows) else get_where j rows)
  unfolding get_where update_where
  get_where-put row j [] = ground arith
  get_where-put row j (r ∷ rs) = ground (arith, get_where-put row j rs)
