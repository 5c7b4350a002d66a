-- ===== src/Age/Tests.antt =====
-- Birthdays, and the days on which somebody asks.
use strangertv.Common.{some, false, ◌≡◌, refl, arith, ℕ_eq}
use strangertv.Age.{
  date, is_adult, not_after, max_adult_birth_date, month_days, is_leap, days_in_month,
}
use strangertv.Age.Laws.{IsDate, is_adult-not_after, max_adult_birth_date-is_adult}

is_adult-not_after_example :
    is_adult (date 2026 6 14) (some (date 2008 6 15)) ≡ not_after (date 2026 6 15) (date 2026 6 14)
is_adult-not_after_example = is_adult-not_after (date 2008 6 15) (date 2026 6 14)

june-IsDate : IsDate (date 2026 6 15)
unfolding month_days is_leap
june-IsDate = record {
  month_pos = omega arith;
  month_le = omega arith;
  day_pos = omega arith;
  day_le = omega arith;
}

-- East of Greenwich, after midnight there and before midnight in UTC.
max_adult_birth_date-is_adult_example :
    is_adult (date 2026 6 14) (some (max_adult_birth_date (date 2026 6 15))) ≡ false
unfolding not_after
max_adult_birth_date-is_adult_example =
    max_adult_birth_date-is_adult (date 2026 6 15) (date 2026 6 14) june-IsDate (omega arith)

century : days_in_month 99 2 ≡ 28
unfolding days_in_month month_days is_leap
century = refl
