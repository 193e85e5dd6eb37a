-- ===== src/Runs/Pages.antt =====
-- The paginated listing of backups (listBackups of runsRepo.ts).
use mathlib.Core.List.{Perm}
use arkode.Prelude.{
  ℕ, zero, suc, ◌+◌, ◌≤◌, ◌≡◌, refl, ap, sym, ◌∙◌, List, [], ◌∷◌, ◌++◌, Option, none, some, arith,
  length, take, drop, keep, take_all,
}
use arkode.Tables.Newest.{
  newest_first, IsNewestFirst, newest_first-IsNewestFirst, newest_first-perm, length-newest_first,
}
use arkode.Runs.{Runs, start_of, is_backup, select, list_backups}

drop_nil {ℓ} : {A : Type ℓ} (n : ℕ) → drop {A = A} n [] ≡ []
drop_nil zero = refl
drop_nil (suc n) = refl

take_nil {ℓ} : {A : Type ℓ} (n : ℕ) → take {A = A} n [] ≡ []
take_nil zero = refl
take_nil (suc n) = refl

take-append_drop {ℓ} :
    {A : Type ℓ} (l m : ℕ) (xs : List A) → take l xs ++ take m (drop l xs) ≡ take (l + m) xs
take-append_drop zero m xs = let e : m ≡ 0 + m = omega arith in ap (λ n. take n xs) e
take-append_drop (suc l) m [] = take_nil m ∙ sym (take_nil (suc l + m))
take-append_drop (suc l) m (x ∷ xs) =
    let e : suc (l + m) ≡ suc l + m = omega arith in
    ap (◌∷◌ x) (take-append_drop l m xs) ∙ ap (λ n. take n (x ∷ xs)) e

drop-drop {ℓ} : {A : Type ℓ} (o l : ℕ) (xs : List A) → drop l (drop o xs) ≡ drop (o + l) xs
drop-drop zero l xs = let e : l ≡ 0 + l = omega arith in ap (λ n. drop n xs) e
drop-drop (suc o) l [] = drop_nil l ∙ sym (drop_nil (suc o + l))
drop-drop (suc o) l (x ∷ xs) =
    let e : suc (o + l) ≡ suc o + l = omega arith in drop-drop o l xs ∙ ap (λ n. drop n (x ∷ xs)) e

-- Two pages in a row are the page of both lengths: no backup is shown twice or left out between.
pub list_backups-append :
    (client_id task_id : Option ℕ) (limit limit' offset : ℕ) (runs : Runs)
    → (list_backups client_id task_id (some limit) (some offset) runs).0
        ++ (list_backups client_id task_id (some limit') (some (offset + limit)) runs).0
      ≡ (list_backups client_id task_id (some (limit + limit')) (some offset) runs).0
unfolding list_backups
list_backups-append client_id task_id limit limit' offset runs =
    let listed = select (is_backup client_id task_id) runs in
    ap (λ later. take limit (drop offset listed) ++ take limit' later)
      (sym (drop-drop offset limit listed))
    ∙ take-append_drop limit limit' (drop offset listed)

-- A first page with room for the total is the whole listing: it has as many backups as the total
-- says, they are those of the table that pass the filters, and they come newest first.
pub list_backups_complete :
    (client_id task_id : Option ℕ) (limit : ℕ) (runs : Runs)
    → (list_backups client_id task_id (some limit) none runs).1 ≤ limit
    → (length (list_backups client_id task_id (some limit) none runs).0
        ≡ (list_backups client_id task_id (some limit) none runs).1)
      × Perm
          (list_backups client_id task_id (some limit) none runs).0
          (keep (is_backup client_id task_id) runs)
      × IsNewestFirst start_of (list_backups client_id task_id (some limit) none runs).0
unfolding list_backups
list_backups_complete client_id task_id limit runs fits =
    let kept = keep (is_backup client_id task_id) runs in
    let whole : take limit (newest_first start_of kept) ≡ newest_first start_of kept =
      take_all limit (newest_first start_of kept)
        (omega (arith, length-newest_first start_of kept)) in
    rw whole (
      length-newest_first start_of kept,
      newest_first-perm start_of kept,
      newest_first-IsNewestFirst start_of kept,
    )
