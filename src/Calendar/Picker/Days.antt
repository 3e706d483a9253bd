-- ===== src/Calendar/Picker/Days.antt =====
-- Days in a row, as the loop of `applyRange` of app/frontend/components/CalendarPicker.jsx meets them.
use roost_assured.Common.{ℕ, ◌+◌, ◌≤◌, ◌<◌, ◌≡◌, true, arith, ltb, number_key, string_key}
use roost_assured.Common.Text.{text_key}
use roost_assured.Calendar.Dates.{LocalDate, month_length, next_day, date_lt, date_le, IsDate}
use roost_assured.Calendar.Picker.{rank}

-- A day of some month of any year.
pub record IsDay (t : LocalDate) : Type 0 where
  pub month_in : t.month ≤ 11
  pub date_in : (1 ≤ t.date) × (t.date ≤ month_length t.year t.month)

pub IsDate-IsDay : {t : LocalDate} → IsDate t → IsDay t
IsDate-IsDay v = record { month_in = v.month_in; date_in = v.date_in }

pub month_length_range : (y m : ℕ) → (28 ≤ month_length y m) × (month_length y m ≤ 31)
unfolding month_length
month_length_range y m = ground arith

-- Dates are ordered as their ranks.
pub date_lt-rank : (a b : LocalDate) → IsDay a → IsDay b → date_lt a b ≡ ltb (rank a) (rank b)
unfolding date_lt
date_lt-rank a b va vb =
    ground (arith, month_length_range a.year a.month, month_length_range b.year b.month)

pub next_day-IsDay : (t : LocalDate) → IsDay t → IsDay (next_day t)
unfolding next_day
next_day-IsDay t v = ground (
  arith,
  month_length_range t.year (t.month + 1),
  month_length_range (t.year + 1) 0,
  month_length_range t.year t.month,
)

pub next_day-year-le : (t : LocalDate) → t.year ≤ (next_day t).year
unfolding next_day
next_day-year-le t = ground arith

pub rank-lt-next_day : (t : LocalDate) → IsDay t → rank t < rank (next_day t)
unfolding next_day
rank-lt-next_day t v = ground (arith, month_length_range t.year t.month)

-- There is no day between a date and the next.
pub next_day_le : (t d : LocalDate) → IsDay t → IsDay d → date_le (next_day t) d ≡ date_lt t d
unfolding next_day date_lt
next_day_le t d v w = ground arith

-- A range that starts at a date or later stays there.
pub next_day-le :
    (a t : LocalDate) → IsDay a → IsDay t → date_le a t ≡ true → date_le a (next_day t) ≡ true
next_day-le a t va v h = ground (
  arith,
  date_lt-rank t a v va,
  date_lt-rank (next_day t) a (next_day-IsDay t v) va,
  rank-lt-next_day t v,
)

-- A day between two dates is a date.
pub within :
    (a t b : LocalDate)
    → IsDate a
    → IsDate b
    → IsDay t
    → date_le a t ≡ true
    → date_le t b ≡ true
    → IsDate t
unfolding date_lt
within a t b va vb v h k = record {
  year_in = (ground (arith, va.year_in), ground (arith, vb.year_in));
  month_in = v.month_in;
  date_in = v.date_in;
}
