-- ===== src/Tables/Recover.antt =====
-- The loop that fails the dead rows of a listing, one UPDATE at a time.
use arkode.Prelude.{
  ℕ, ◌≡◌, refl, Bool, false, not, ◌&&◌, List, [], ◌∷◌, map, arith, keep, if◌then◌else◌,
}
use arkode.Tables.{update_where, Fresh, UniqueKeys, update_where-head}

module _ {A : Type 0} (key : A → ℕ) (is_stale : A → Bool) (fail : A → A) where
  -- `for (const row of listed) { if (!isStale(row)) continue; markFinished(row.id, …) }`
  unfoldable pub fail_stale : List A → List A → List A
  fail_stale [] rows = rows
  fail_stale (r ∷ rs) rows =
      fail_stale rs (if is_stale r then update_where key (key r) fail rows else rows)

  module _ (same : (r : A) → key (fail r) ≡ key r) (listed : A → Bool) where
    -- What becomes of one row.
    abbrev pub failed_if_dead : A → A
    failed_if_dead r = if listed r && is_stale r then fail r else r

    fail_stale-skip :
        (ls : List A) (r : A) (rows : List A)
        → Fresh key (key r) ls
        → fail_stale ls (r ∷ rows) ≡ r ∷ fail_stale ls rows
    unfolding fail_stale update_where
    fail_stale-skip [] r rows h = refl
    fail_stale-skip (l ∷ ls) r rows h = ground (
      arith,
      h.0,
      fail_stale-skip ls r rows h.1,
      fail_stale-skip ls r (update_where key (key l) fail rows) h.1,
    )

    Fresh-keep : (id : ℕ) (rows : List A) → Fresh key id rows → Fresh key id (keep listed rows)
    Fresh-keep id [] h = tt
    Fresh-keep id (r ∷ rs) h = ground (arith, Fresh-keep id rs h.1)

    -- Over the listing of the table itself, exactly the listed dead rows are failed.
    pub fail_stale-map :
        (rows : List A)
        → UniqueKeys key rows
        → fail_stale (keep listed rows) rows ≡ map failed_if_dead rows
    unfolding fail_stale
    fail_stale-map [] u = refl
    fail_stale-map (r ∷ rs) u = ground (
      arith,
      same r,
      update_where-head key (key r) fail r rs refl u.0,
      fail_stale-skip (keep listed rs) r rs (Fresh-keep (key r) rs u.0),
      fail_stale-skip (keep listed rs) (fail r) rs (rw (same r) (Fresh-keep (key r) rs u.0)),
      fail_stale-map rs u.1,
    )

    module _ (done : (r : A) → listed (fail r) ≡ false) where
      -- Nothing listed afterwards is dead, so if nothing alive is listed, nothing is.
      pub idle_after :
          (rows : List A)
          → keep (λ r. not (is_stale r)) (keep listed (map failed_if_dead rows)) ≡ []
          → keep listed (map failed_if_dead rows) ≡ []
      idle_after [] h = refl
      idle_after (r ∷ rs) h = ground (arith, done r, idle_after rs)

      -- The recovery changes no listed row that is alive.
      pub live_after :
          (rows : List A)
          → keep (λ r. not (is_stale r)) (keep listed (map failed_if_dead rows))
            ≡ keep (λ r. not (is_stale r)) (keep listed rows)
      live_after [] = refl
      live_after (r ∷ rs) = ground (arith, done r, live_after rs)

    pub Fresh-failed_if_dead :
        (id : ℕ) (rows : List A) → Fresh key id rows → Fresh key id (map failed_if_dead rows)
    Fresh-failed_if_dead id [] h = tt
    Fresh-failed_if_dead id (r ∷ rs) h = ground (arith, same r, Fresh-failed_if_dead id rs h.1)

    pub UniqueKeys-failed_if_dead :
        (rows : List A) → UniqueKeys key rows → UniqueKeys key (map failed_if_dead rows)
    UniqueKeys-failed_if_dead [] u = tt
    UniqueKeys-failed_if_dead (r ∷ rs) u =
        ground
          (arith, same r, Fresh-failed_if_dead (key r) rs u.0, UniqueKeys-failed_if_dead rs u.1)
