-- ===== src/Age.antt =====
-- The age gate: shared/age.ts. A date is a year, a month from 1 to 12 and a day; the clock is an
-- argument.
mod Laws
mod Tests
use strangertv.Common.{
  ℕ, zero, suc, ◌+◌, ◌-◌, ◌*◌, ◌%◌, List, [], ◌∷◌, Option, none, some, Bool, true, false, not, ◌&&◌,
  ◌||◌, if◌then◌else◌, ltb, leb, ◌==◌, ℕ_eq,
}

pub record CalendarDate : Type 0 where
  pub year : ℕ
  pub month : ℕ
  pub day : ℕ

abbrev pub date : ℕ → ℕ → ℕ → CalendarDate
date y m d = record { year = y; month = m; day = d }

-- MIN_ADULT_AGE
abbrev pub min_adult_age : ℕ
min_adult_age = 18

abbrev pub adult_birth_year_span : ℕ
adult_birth_year_span = 100

-- The calendar of `Date`.
unfoldable pub is_leap : ℕ → Bool
is_leap y = (y % 4 == 0) && not (y % 100 == 0) || (y % 400 == 0)

unfoldable pub month_days : ℕ → ℕ → ℕ
unfolding is_leap
month_days y m =
    if m == 2
    then (if is_leap y then 29 else 28)
    else if (m == 4) || (m == 6) || (m == 9) || (m == 11)
    then 30
    else 31

-- a <= b, for dates at midnight and a clock that is past it
unfoldable pub not_after : CalendarDate → CalendarDate → Bool
not_after a b =
    ltb a.year b.year
    || (a.year == b.year) && (ltb a.month b.month || (a.month == b.month) && leb a.day b.day)

abbrev pub before_birthday : CalendarDate → CalendarDate → Bool
before_birthday birth today =
    ltb today.month birth.month || (today.month == birth.month) && ltb today.day birth.day

-- age >= MIN_ADULT_AGE, where a difference below zero is none.
abbrev old_enough : ℕ → ℕ → Bool → Bool
old_enough this_year birth_year true = leb (birth_year + min_adult_age + 1) this_year
old_enough this_year birth_year false = leb (birth_year + min_adult_age) this_year

-- `isAdult`: `none` is a text that `new Date` does not read.
unfoldable pub is_adult : CalendarDate → Option CalendarDate → Bool
unfolding not_after
is_adult today none = false
is_adult today (some birth) =
    not_after birth today && old_enough today.year birth.year (before_birthday birth today)

unfoldable pub max_adult_birth_year : CalendarDate → ℕ
max_adult_birth_year now = now.year - min_adult_age

-- `max - span + 1`; a span that reaches below the year 0 is not offered by any caller.
unfoldable pub min_adult_birth_year : CalendarDate → ℕ → ℕ
unfolding max_adult_birth_year
min_adult_birth_year now span = max_adult_birth_year now + 1 - span

-- The loop `for (let y = max; y >= min; y--)`, which runs max + 1 - min times.
unfoldable pub years_down : ℕ → ℕ → List ℕ
years_down zero y = []
years_down (suc rounds) y = y ∷ years_down rounds (y - 1)

unfoldable pub adult_birth_years : CalendarDate → ℕ → List ℕ
unfolding years_down max_adult_birth_year min_adult_birth_year
adult_birth_years now span =
    let max = max_adult_birth_year now in years_down (max + 1 - min_adult_birth_year now span) max

-- `new Date(y, m, d)` for a day that may be past the month's end, by less than a month.
abbrev pub rolled : ℕ → ℕ → ℕ → CalendarDate
rolled y m d =
    if leb d (month_days y m)
    then date y m d
    else if m == 12
    then date (y + 1) 1 (d - month_days y m)
    else date y (m + 1) (d - month_days y m)

-- `maxAdultBirthDate`, before it is printed
unfoldable pub max_adult_birth_date : CalendarDate → CalendarDate
unfolding month_days is_leap
max_adult_birth_date now = rolled (now.year - min_adult_age) now.month now.day

-- `new Date(year, month, 0).getDate()`, where a year below 100 is one of the last century.
unfoldable pub days_in_month : ℕ → ℕ → ℕ
unfolding month_days is_leap
days_in_month year month =
    if (year == 0) || (month == 0)
    then 31
    else month_days (if ltb year 100 then 1900 + year else year) month
