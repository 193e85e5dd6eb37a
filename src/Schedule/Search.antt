-- ===== src/Schedule/Search.antt =====
-- The loop of `nextScheduledRunAt`: it returns the first day that it does not skip.
use arkode.Prelude.{
  ℕ, zero, suc, ◌+◌, ◌≤◌, ◌<◌, ◌≡◌, inl, inr, Bool, true, false, not, ◌&&◌, ◌||◌, some, arith, leb,
  ◌==◌, if◌then◌else◌, Bool-cases,
}
use native.Mathlib.Decide.{dec_lt}
use arkode.Calendar.{at_time}
use arkode.Schedule.Next.{ScheduleShape, day_matches_frequency, walk}

module _ (s : ScheduleShape) (now : ℕ) (ran : Bool) (hours minutes : ℕ) where
  -- The loop returns at this offset.
  abbrev pub accepts : ℕ → Bool
  accepts offset =
      day_matches_frequency s (at_time now offset hours minutes)
      && not (offset == 0 && (ran || leb (at_time now offset hours minutes) now))

  pub record Found (from rounds d : ℕ) : Type 0 where
    pub offset : ℕ
    pub from_le : from ≤ offset
    pub lt_end : offset < from + rounds
    pub at_offset : d ≡ at_time now offset hours minutes
    pub accepted : accepts offset ≡ true
    pub first : (j : ℕ) → from ≤ j → j < offset → accepts j ≡ false

  walk-suc :
      (rounds offset : ℕ)
      → walk s now ran hours minutes (suc rounds) offset ≡ (
          if accepts offset
          then some (at_time now offset hours minutes)
          else walk s now ran hours minutes rounds (offset + 1))
  unfolding walk
  walk-suc rounds offset = ground arith

  pub walk-Found :
      (rounds from d : ℕ) → walk s now ran hours minutes rounds from ≡ some d → Found from rounds d
  unfolding walk
  walk-Found zero from d e = cc
  walk-Found (suc rounds) from d e = elim (Bool-cases (accepts from)) [
    | inl hit ↦ record {
      offset = from;
      from_le = omega arith;
      lt_end = omega arith;
      at_offset = ground (arith, walk-suc rounds from);
      accepted = hit;
      first = λ j low high. absurd (omega arith);
    }
    | inr miss ↦
        let later : Found (from + 1) rounds d =
          walk-Found rounds (from + 1) d (ground (arith, walk-suc rounds from)) in
        record {
          offset = later.offset;
          from_le = omega arith;
          lt_end = omega arith;
          at_offset = later.at_offset;
          accepted = later.accepted;
          first = λ j low high. elim (dec_lt from j) [
            | yes after ↦ later.first j (omega arith) high
            | no here ↦ let e' : j ≡ from = omega arith in rw e' miss
          ];
        }
  ]

  -- If some day in reach is not skipped, the loop returns one.
  pub walk_finds :
      (rounds from offset : ℕ)
      → from ≤ offset
      → offset < from + rounds
      → accepts offset ≡ true
      → (d : ℕ) × (walk s now ran hours minutes rounds from ≡ some d)
  unfolding walk
  walk_finds zero from offset low high hit = absurd (omega arith)
  walk_finds (suc rounds) from offset low high hit = elim (Bool-cases (accepts from)) [
    | inl here ↦ (at_time now from hours minutes, rw (walk-suc rounds from, here))
    | inr miss ↦ elim (dec_lt from offset) [
      | yes after ↦
          let (d, e) = walk_finds rounds (from + 1) offset (omega arith) (omega arith) hit in
          (d, rw (walk-suc rounds from, miss) e)
      | no same ↦ let e : from ≡ offset = omega arith in absurd (false_true from offset e miss hit)
    ]
  ]
    where
      false_true : (a b : ℕ) → a ≡ b → accepts a ≡ false → accepts b ≡ true → ⊥
      false_true a b e p q = let p' = rw e at p in cc
