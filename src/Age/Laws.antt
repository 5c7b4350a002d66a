-- ===== src/Age/Laws.antt =====
-- The age gate of shared/age.ts against the calendar.
use strangertv.Common.{
  ℕ, zero, suc, ◌+◌, ◌-◌, ◌≤◌, ◌<◌, List, some, Bool, true, false, not, ◌&&◌, if◌then◌else◌, leb,
  ◌==◌, ℕ_eq, ◌≡◌, refl, ap, ◌∙◌, arith, length, get_elem?,
}
use strangertv.Age.{
  CalendarDate, date, is_adult, not_after, max_adult_birth_date, month_days, is_leap, years_down,
  adult_birth_years, max_adult_birth_year, min_adult_birth_year,
}

-- The birthday eighteen years later.
abbrev pub coming_of_age : CalendarDate → CalendarDate
coming_of_age birth = date (birth.year + 18) birth.month birth.day

-- Somebody is an adult exactly from the eighteenth birthday on.
pub is_adult-not_after :
    (birth today : CalendarDate)
    → is_adult today (some birth) ≡ not_after (coming_of_age birth) today
unfolding is_adult not_after
is_adult-not_after birth today = ground arith

pub record IsDate (d : CalendarDate) : Type 0 where
  pub month_pos : 1 ≤ d.month
  pub month_le : d.month ≤ 12
  pub day_pos : 1 ≤ d.day
  pub day_le : d.day ≤ month_days d.year d.month

abbrev pub is_leap_day : CalendarDate → Bool
is_leap_day d = (d.month == 2) && (d.day == 29)

-- Eighteen years before a leap year there is none.
is_leap-back : (y : ℕ) → 18 ≤ y → is_leap y ≡ true → is_leap (y - 18) ≡ false
unfolding is_leap
is_leap-back y h l = ground arith

month_days-le : (y m : ℕ) → month_days y m ≤ 31
unfolding month_days
month_days-le y m = ground arith

-- A day of a month is one of the month eighteen years before, but for the leap day.
month_days-back :
    (y m d : ℕ)
    → 18 ≤ y
    → d ≤ month_days y m
    → leb d (month_days (y - 18) m) ≡ not ((m == 2) && (d == 29))
unfolding month_days
month_days-back y m d h v = ground (arith, is_leap-back y h)

-- What `setFullYear` makes of the day.
abbrev eighteen_before : CalendarDate → CalendarDate
eighteen_before now =
    if is_leap_day now then date (now.year - 18) 3 1 else date (now.year - 18) now.month now.day

max_adult_birth_date-back :
    (now : CalendarDate)
    → IsDate now
    → 18 ≤ now.year
    → max_adult_birth_date now ≡ eighteen_before now
unfolding max_adult_birth_date month_days
max_adult_birth_date-back now v h =
    ground (arith, month_days-back now.year now.month now.day h v.day_le, is_leap-back now.year h)

-- The picker reads the local calendar and the test of an age that of UTC. The latest date that the
-- picker offers is one of an adult exactly if the date in UTC is the local one or later; on a local
-- 29th of February exactly if it is the 1st of March or later.
pub max_adult_birth_date-is_adult :
    (local utc : CalendarDate)
    → IsDate local
    → 18 ≤ local.year
    → is_adult utc (some (max_adult_birth_date local))
      ≡ (if is_leap_day local then not_after (date local.year 3 1) utc else not_after local utc)
unfolding not_after
max_adult_birth_date-is_adult local utc v h =
    is_adult-not_after (max_adult_birth_date local) utc
    ∙ ap (λ d. not_after (coming_of_age d) utc) (max_adult_birth_date-back local v h)
    ∙ ground arith

-- Where both calendars show the same date, no adult was born after the latest date that the picker
-- offers.
pub adults_are_offered :
    (now birth : CalendarDate)
    → IsDate now
    → 18 ≤ now.year
    → is_adult now (some birth) ≡ true
    → not_after birth (max_adult_birth_date now) ≡ true
unfolding not_after
adults_are_offered now birth v h a =
    ap (not_after birth) (max_adult_birth_date-back now v h)
    ∙ ground (arith, is_adult-not_after birth now)

-- The years of the picker.
years_down-get_elem? :
    (rounds y i : ℕ)
    → i < rounds
    → rounds ≤ y + 1
    → get_elem? (years_down rounds y) i ≡ some (y - i)
unfolding years_down
years_down-get_elem? zero y i h k = absurd (omega arith)
years_down-get_elem? (suc r) y zero h k = ground arith
years_down-get_elem? (suc r) y (suc i) h k =
    years_down-get_elem? r (y - 1) i (omega arith) (omega arith) ∙ ap some (omega arith)

length-years_down : (rounds y : ℕ) → length (years_down rounds y) ≡ rounds
unfolding years_down
length-years_down zero y = refl
length-years_down (suc r) y = ap suc (length-years_down r (y - 1))

abbrev pub InRange : List ℕ → ℕ → ℕ → Type 0
InRange ys n last = (length ys ≡ n) × ((i : ℕ) → i < n → get_elem? ys i ≡ some (last - i))

-- The picker offers as many years as the span says, from the latest one in which an adult can be
-- born downward, each once.
pub adult_birth_years-InRange :
    (now : CalendarDate) (span : ℕ)
    → span ≤ max_adult_birth_year now + 1
    → InRange (adult_birth_years now span) span (max_adult_birth_year now)
unfolding adult_birth_years min_adult_birth_year
adult_birth_years-InRange now span h =
    let max : ℕ = max_adult_birth_year now in
    let rounds : max + 1 - (max + 1 - span) ≡ span = omega arith in
    rw (rounds) (length-years_down span max, λ i k. years_down-get_elem? span max i k h)
