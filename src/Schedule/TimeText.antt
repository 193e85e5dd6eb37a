-- ===== src/Schedule/TimeText.antt =====
-- `scheduleTime.split(':').map(Number)` and the format that `setSchedule` accepts.
use arkode.Prelude.{
  ℕ, ◌+◌, ◌-◌, ◌*◌, Bool, false, ◌&&◌, ◌||◌, List, [], ◌∷◌, map, Option, none, some, leb, ◌==◌,
  if◌then◌else◌,
}

abbrev is_digit : ℕ → Bool
is_digit c = leb b'0' c && leb c b'9'

-- `Number(text)` of a text of decimal digits, from the value so far; anything else is NaN, `none`.
unfoldable pub number_from : ℕ → List ℕ → Option ℕ
number_from acc [] = some acc
number_from acc (c ∷ cs) =
    let rest = number_from (acc * 10 + (c - b'0')) cs in if is_digit c then rest else none

abbrev pub cons_head : ℕ → List (List ℕ) → List (List ℕ)
cons_head c [] = (c ∷ []) ∷ []
cons_head c (w ∷ ws) = (c ∷ w) ∷ ws

-- `text.split(':')`.
unfoldable pub split_colon : List ℕ → List (List ℕ)
split_colon [] = [] ∷ []
split_colon (c ∷ cs) =
    let rest = split_colon cs in if c == b':' then [] ∷ rest else cons_head c rest

-- `const [hours, minutes] = …`; what is missing is undefined, which counts as NaN from here on.
abbrev pub first_two : List (Option ℕ) → Option ℕ × Option ℕ
first_two [] = (none, none)
first_two (h ∷ []) = (h, none)
first_two (h ∷ m ∷ _) = (h, m)

unfoldable pub hours_minutes : List ℕ → Option ℕ × Option ℕ
unfolding number_from split_colon
hours_minutes text = first_two (map (number_from 0) (split_colon text))

-- `!scheduleTime` is true of null and of the empty text.
abbrev pub is_set : Option (List ℕ) → Option (List ℕ)
is_set none = none
is_set (some []) = none
is_set (some (c ∷ cs)) = some (c ∷ cs)

-- SCHEDULE_TIME_FORMAT, /^([01]\d|2[0-3]):[0-5]\d$/.
unfoldable pub matches_time_format : List ℕ → Bool
matches_time_format (a ∷ b ∷ c ∷ d ∷ e ∷ []) =
    (leb b'0' a && leb a b'1' && is_digit b || a == b'2' && leb b'0' b && leb b b'3')
    && c == b':'
    && leb b'0' d
    && leb d b'5'
    && is_digit e
matches_time_format _ = false
