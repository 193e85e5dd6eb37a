-- ===== src/Schedule/Days.antt =====
-- Facts about the days that the schedulers compare: civil dates are valid, tell days apart, and
-- walk through a month one by one.
use arkode.Prelude.{
  ℕ, zero, suc, ◌+◌, ◌-◌, ◌*◌, ◌≤◌, ◌<◌, ◌≡◌, refl, ap, inl, inr, true, arith, ltb, min, Bool-cases,
}
use native.Mathlib.Decide.{dec_lt}
use arkode.Calendar.{Civil, days_in_month, next_day, civil, day_of}
use arkode.Schedule.IsDue.{is_same_local_date}

pub days_in_month_bounds : (y m : ℕ) → (28 ≤ days_in_month y m) × (days_in_month y m ≤ 31)
unfolding days_in_month
days_in_month_bounds y m = ground arith

pub record IsValid (c : Civil) : Type 0 where
  pub month_le : c.month ≤ 11
  pub date_pos : 1 ≤ c.date
  pub date_le : c.date ≤ days_in_month c.year c.month

next_day-IsValid : (c : Civil) → IsValid c → IsValid (next_day c)
unfolding next_day
next_day-IsValid c v =
    ground (arith, days_in_month_bounds c.year (c.month + 1), days_in_month_bounds (c.year + 1) 0)

pub civil-IsValid : (n : ℕ) → IsValid (civil n)
unfolding civil days_in_month
civil-IsValid zero = omega arith
civil-IsValid (suc n) = next_day-IsValid (civil n) (civil-IsValid n)

-- A number that grows from day to day.
abbrev key : Civil → ℕ
key c = c.year * 384 + c.month * 32 + c.date

next_day-key : (c : Civil) → IsValid c → key c < key (next_day c)
unfolding next_day
next_day-key c v = ground (arith, days_in_month_bounds c.year c.month)

civil-key-lt : (a b : ℕ) → a < b → key (civil a) < key (civil b)
unfolding civil
civil-key-lt a zero h = absurd (omega arith)
civil-key-lt a (suc b) h = elim (dec_lt a b) [
  | yes earlier ↦ omega (arith, civil-key-lt a b earlier, next_day-key (civil b) (civil-IsValid b))
  | no later ↦
      let e : a ≡ b = omega arith in
      omega (arith, ap (λ n. key (civil n)) e, next_day-key (civil b) (civil-IsValid b))
]

civil-injective : (a b : ℕ) → key (civil a) ≡ key (civil b) → a ≡ b
civil-injective a b e = elim (dec_lt a b) [
  | yes h ↦ absurd (omega (arith, civil-key-lt a b h))
  | no h ↦ elim (dec_lt b a) [
    | yes k ↦ absurd (omega (arith, civil-key-lt b a k))
    | no k ↦ omega arith
  ]
]

-- Two instants have the same year, month and date exactly when they fall on the same day.
pub same_local_date-day : (a b : ℕ) → is_same_local_date a b ≡ true → day_of a ≡ day_of b
unfolding is_same_local_date
same_local_date-day a b h = civil-injective (day_of a) (day_of b) (ground arith)

pub day-same_local_date : (a b : ℕ) → day_of a ≡ day_of b → is_same_local_date a b ≡ true
unfolding is_same_local_date
day-same_local_date a b h = rw h (ground arith)

civil-suc :
    (n : ℕ) (y m d : ℕ)
    → civil n ≡ record { year = y; month = m; date = d }
    → d + 1 ≤ days_in_month y m
    → civil (suc n) ≡ record { year = y; month = m; date = d + 1 }
unfolding civil next_day
civil-suc n y m d e h = rw e (ground arith)

-- Within a month the date grows by one a day.
civil-within_month :
    (n k : ℕ) (y m d : ℕ)
    → civil n ≡ record { year = y; month = m; date = d }
    → d + k ≤ days_in_month y m
    → civil (n + k) ≡ record { year = y; month = m; date = d + k }
civil-within_month n zero y m d e h =
    let z : n + 0 ≡ n = omega arith in let w : d + 0 ≡ d = omega arith in rw (z, w) e
civil-within_month n (suc k) y m d e h =
    let z : n + suc k ≡ suc (n + k) = omega arith in
    let w : d + suc k ≡ d + k + 1 = omega arith in
    rw (z, w)
      (civil-suc (n + k) y m (d + k) (civil-within_month n k y m d e (omega arith)) (omega arith))

-- The last day of a month is followed by the first of another.
civil-next_month :
    (n : ℕ) (y m : ℕ)
    → civil n ≡ record { year = y; month = m; date = days_in_month y m }
    → (y' : ℕ) × (m' : ℕ) × (civil (suc n) ≡ record { year = y'; month = m'; date = 1 })
unfolding civil next_day
civil-next_month n y m e = elim (Bool-cases (ltb m 11)) [
  | inl before ↦ (y, m + 1, rw e (ground arith))
  | inr december ↦ (y + 1, 0, rw e (ground arith))
]

abbrev pub HasDate : ℕ → ℕ → Type 0
HasDate day n = (civil n).date ≡ min day (days_in_month (civil n).year (civil n).month)

HasDate-record :
    (day n y m d : ℕ)
    → civil n ≡ record { year = y; month = m; date = d }
    → d ≡ min day (days_in_month y m)
    → HasDate day n
HasDate-record day n y m d e h = rw e h

-- From the first of a month its day `day`, or its last, is at most 30 days off.
from_first :
    (day n y m : ℕ)
    → 1 ≤ day
    → civil n ≡ record { year = y; month = m; date = 1 }
    → (k : ℕ) × (k ≤ 30) × HasDate day (n + k)
from_first day n y m pos e =
    let k : ℕ = min day (days_in_month y m) - 1 in
    (
      k,
      omega (arith, days_in_month_bounds y m),
      HasDate-record day (n + k) y m (1 + k)
          (civil-within_month n k y m 1 e (omega (arith, days_in_month_bounds y m)))
          (omega (arith, days_in_month_bounds y m)),
    )

from_day :
    (day n y m d : ℕ)
    → 1 ≤ day
    → civil n ≡ record { year = y; month = m; date = d }
    → 1 ≤ d
    → d ≤ days_in_month y m
    → (k : ℕ) × (1 ≤ k) × (k ≤ 62) × HasDate day (n + k)
from_day day n y m d pos e low high = elim (dec_lt d (min day (days_in_month y m))) [
  | yes before ↦
      let k : ℕ = min day (days_in_month y m) - d in
      (
        k,
        omega arith,
        omega (arith, days_in_month_bounds y m),
        HasDate-record day (n + k) y m (d + k) (civil-within_month n k y m d e (omega arith))
            (omega arith),
      )
  | no passed ↦
      let j : ℕ = days_in_month y m - d in
      let w : d + j ≡ days_in_month y m = omega arith in
      let last = civil-within_month n j y m d e (omega arith) in
      let (y', m', first) = civil-next_month (n + j) y m (rw w at last) in
      let (i, i_le, has) = from_first day (suc (n + j)) y' m' pos first in
      let z : suc (n + j) + i ≡ n + (j + 1 + i) = omega arith in
      (j + 1 + i, omega arith, omega (arith, days_in_month_bounds y m), rw z at has)
]

-- From every day, the clamped day `day` of some month comes up within 62 days.
pub day_of_month_comes : (day n : ℕ) → 1 ≤ day → (k : ℕ) × (1 ≤ k) × (k ≤ 62) × HasDate day (n + k)
day_of_month_comes day n pos =
    let v = civil-IsValid n in
    from_day day n (civil n).year (civil n).month (civil n).date pos refl v.date_pos v.date_le
