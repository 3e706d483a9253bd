-- ===== src/Calendar/Picker/Months.antt =====
-- Turning the pages of app/frontend/components/CalendarPicker.jsx.
use roost_assured.Common.{
  ℕ, ◌+◌, ◌*◌, ◌%◌, ◌≤◌, ◌≡◌, ap, ◌≢◌, ◌⊎◌, inl, inr, true, false, arith, Bool-cases, number_key,
  string_key,
}
use roost_assured.Calendar.Dates.{
  LocalDate, days_in_month, month_length, first_weekday, month_weekday, full_year,
}
use roost_assured.Calendar.Dates.Weekdays.{month_weekday-next_month, month_weekday-next_year}
use roost_assured.Calendar.Picker.{
  Picker, Delta, back, forth, shift_month, change_month, is_viewing_current_month,
}

-- The month in view is a month of the year, and not before the current one.
pub record IsOpen (today : LocalDate) (p : Picker) : Type 0 where
  pub month_in : p.view_month ≤ 11
  pub not_past : today.year * 12 + today.month ≤ p.view_year * 12 + p.view_month

-- `changeMonth` keeps the view on a month of the year that is not before the current one.
pub change_month-IsOpen :
    (today : LocalDate) (delta : Delta) (p : Picker)
    → today.month ≤ 11
    → IsOpen today p
    → IsOpen today (change_month today delta p)
unfolding change_month shift_month
change_month-IsOpen today delta p h v = ground arith

-- The range fields stay.
pub change_month-entries :
    (today : LocalDate) (delta : Delta) (p : Picker)
    → ((change_month today delta p).range_start ≡ p.range_start)
      × ((change_month today delta p).range_end ≡ p.range_end)
unfolding change_month
change_month-entries today delta p = ground arith

-- From a view that is not past, in a year after 0: one month on and one back is where one was, and so is one back and one on, unless the view is
-- on the current month: there the way back does nothing, and there alone.
pub change_month_inverse :
    (today : LocalDate) (p : Picker)
    → today.month ≤ 11
    → 1 ≤ today.year
    → IsOpen today p
    → (change_month today back (change_month today forth p) ≡ p)
      × ((is_viewing_current_month today p ≡ true) × (change_month today back p ≡ p)
          ⊎ (is_viewing_current_month today p ≡ false)
            × (change_month today back p ≢ p)
            × (change_month today forth (change_month today back p) ≡ p))
unfolding change_month shift_month is_viewing_current_month
change_month_inverse today p h y v = (
  ground arith,
  elim (Bool-cases (is_viewing_current_month today p)) [
    | inl here ↦ inl (here, ground arith)
    | inr later ↦
        inr (later, λ e. ground (arith, ap (λ (q : Picker). q.view_month) e), ground arith)
  ],
)

month_weekday-shift_month :
    (y m : ℕ)
    → 1 ≤ y
    → m ≤ 11
    → let (y', m') = shift_month forth y m in
      month_weekday y' m' ≡ (month_weekday y m + month_length y m) % 7
unfolding shift_month
month_weekday-shift_month y m h k =
    ground (arith, month_weekday-next_month y m, month_weekday-next_year y h)

-- `Date` takes the month after for the month after, but for December 99.
full_year-shift_month :
    (y m : ℕ)
    → y ≢ 99
    → (full_year (shift_month forth y m).0 ≡ (shift_month forth (full_year y) m).0)
      × ((shift_month forth y m).1 ≡ (shift_month forth (full_year y) m).1)
unfolding shift_month full_year
full_year-shift_month y m h = ground arith

full_year-positive : (y : ℕ) → 1 ≤ full_year y
unfolding full_year
full_year-positive y = ground arith

-- In every year but 99 each month that the calendar draws begins on the weekday that follows the last
-- day of the month before it.
pub first_weekday-shift_month :
    (y m : ℕ)
    → y ≢ 99
    → m ≤ 11
    → let (y', m') = shift_month forth y m in
      first_weekday y' m' ≡ (first_weekday y m + days_in_month y m) % 7
unfolding first_weekday days_in_month
first_weekday-shift_month y m h k =
    let (years, months) = full_year-shift_month y m h in
    rw (years, months) (month_weekday-shift_month (full_year y) m (full_year-positive y) k)
