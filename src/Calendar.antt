-- ===== src/Calendar.antt =====
-- The part of JavaScript's `Date` that the schedulers use. A `Date` is its number of milliseconds
-- since the start of 1970 on the local clock; the zone's offset is fixed, so a local day has
-- 86,400,000 of them.
use arkode.Prelude.{
  ℕ, zero, suc, ◌+◌, ◌*◌, ◌/◌, ◌%◌, Bool, ◌&&◌, ◌||◌, not, ltb, ◌==◌, if◌then◌else◌,
}

abbrev pub day_ms : ℕ
day_ms = 86400000

-- The day since 1970 on which an instant falls.
abbrev pub day_of : ℕ → ℕ
day_of t = t / day_ms

pub record Civil : Type 0 where
  pub year : ℕ
  -- As `getMonth`: from 0.
  pub month : ℕ
  pub date : ℕ

pub is_leap_year : ℕ → Bool
is_leap_year y = y % 4 == 0 && (not (y % 100 == 0) || y % 400 == 0)

unfoldable pub days_in_month : ℕ → ℕ → ℕ
unfolding is_leap_year
days_in_month y m =
    if m == 1
    then (if is_leap_year y then 29 else 28)
    else if m == 3 || m == 5 || m == 8 || m == 10
    then 30
    else 31

unfoldable pub next_day : Civil → Civil
next_day c =
    if ltb c.date (days_in_month c.year c.month)
    then record c { date = c.date + 1 }
    else if ltb c.month 11
    then record { year = c.year; month = c.month + 1; date = 1 }
    else record { year = c.year + 1; month = 0; date = 1 }

unfoldable pub civil : ℕ → Civil
civil zero = record { year = 1970; month = 0; date = 1 }
civil (suc n) = next_day (civil n)

-- `getDate()` and `getDay()`: 1970-01-01 was a Thursday.
unfoldable pub get_date : ℕ → ℕ
get_date t = (civil (day_of t)).date

abbrev pub get_day : ℕ → ℕ
get_day t = (day_of t + 4) % 7

-- `new Date(d.getFullYear(), d.getMonth() + 1, 0).getDate()`.
unfoldable pub last_day_of_month : ℕ → ℕ
last_day_of_month t = days_in_month (civil (day_of t)).year (civil (day_of t)).month

-- `new Date(d.getFullYear(), d.getMonth(), d.getDate() + offset, hours, minutes, 0, 0)`.
abbrev pub at_time : ℕ → ℕ → ℕ → ℕ → ℕ
at_time t offset hours minutes = (day_of t + offset) * day_ms + hours * 3600000 + minutes * 60000
