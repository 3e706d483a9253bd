-- ===== src/Calendar/Dates/Weekdays.antt =====
-- The weekdays on which the months begin.
use native.Mathlib.Numerals.{add-one}
use roost_assured.Common.{
  ℕ, suc, ◌+◌, ◌%◌, ◌≤◌, ◌≡◌, refl, arith, if◌then◌else◌, number_key, string_key,
}
use roost_assured.Calendar.Dates.{
  is_leap, month_length, month_weekday, days_before_month, days_before_year,
}

days_in_year-months : (y : ℕ) → days_before_month y 12 ≡ (if is_leap y then 366 else 365)
unfolding days_before_month month_length
days_in_year-months y = ground arith

days_before_year-suc :
    (y : ℕ)
    → 1 ≤ y
    → days_before_year (y + 1) ≡ days_before_year y + (if is_leap y then 366 else 365)
unfolding days_before_year is_leap
days_before_year-suc y h = ground arith

days_before_month-suc :
    (y m : ℕ) → days_before_month y (suc m) ≡ days_before_month y m + month_length y m
unfolding days_before_month
days_before_month-suc y m = refl

pub month_weekday-next_month :
    (y m : ℕ) → month_weekday y (m + 1) ≡ (month_weekday y m + month_length y m) % 7
unfolding month_weekday
month_weekday-next_month y m = rw (add-one m) (omega (arith, days_before_month-suc y m))

pub month_weekday-next_year :
    (y : ℕ) → 1 ≤ y → month_weekday (y + 1) 0 ≡ (month_weekday y 11 + month_length y 11) % 7
unfolding month_weekday
month_weekday-next_year y h = omega (
  arith,
  days_before_month-suc y 11,
  days_in_year-months y,
  days_before_year-suc y h,
  first_month,
)
  where
    first_month : days_before_month (y + 1) 0 ≡ 0
    first_month = unfold days_before_month in refl
