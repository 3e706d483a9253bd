-- ===== src/Calendar/Examples.antt =====
-- The theorems on the calendars of app/frontend at dates of 2026, and runs of the components.
use mathlib.Core.List.{foldl}
use roost_assured.Common.{
  ℕ, ◌+◌, ◌%◌, ◌≡◌, refl, ◌≢◌, ◌⊎◌, inr, true, false, not, ◌&&◌, ◌||◌, none, some, List, [], ◌∷◌,
  arith, if◌then◌else◌, ◌==◌, number_key, string_key, contains,
}
use roost_assured.Common.Text.{text_key}
use roost_assured.Common.Sets.{flip, set_of, add, delete}
use roost_assured.Calendar.Dates.{
  LocalDate, local, first_weekday, days_in_month, date_lt, date_le, to_date_key, parse_date_key,
  IsDate, read_date, full_year, month_length, next_day, decimal, is_leap, pad_start, text_of,
}
use roost_assured.Calendar.Dates.Keys.{to_date_key-lt, parse-to_date_key}
use roost_assured.Calendar.Texts.{text_lt, sort, IsAscending}
use roost_assured.Calendar.Picker.{
  Picker, new_picker, toggle_day, apply_range, back, forth, change_month, is_viewing_current_month,
  shift_month, PickerEvent, toggle, enter_start, enter_end, turn, pick, change_start, change_end,
}
use roost_assured.Calendar.Picker.Ranges.{apply_range_fills}
use roost_assured.Calendar.Picker.Selection.{toggle_day_flips, toggle_day_twice}
use roost_assured.Calendar.Picker.Months.{change_month_inverse, first_weekday-shift_month}
use roost_assured.Calendar.Picker.Sessions.{IsSound, session-IsSound}

-- 28 February and 2 March 2026.
abbrev february : LocalDate
february = record { year = 2026; month = 1; date = 28 }

abbrev march : LocalDate
march = record { year = 2026; month = 2; date = 2 }

february-IsDate : IsDate february
unfolding month_length
february-IsDate = record {
  year_in = (omega arith, omega arith);
  month_in = omega arith;
  date_in = (omega arith, ground arith);
}

march-IsDate : IsDate march
unfolding month_length
march-IsDate = record {
  year_in = (omega arith, omega arith);
  month_in = omega arith;
  date_in = (omega arith, ground arith);
}

-- The month in view is the one of 28 February.
abbrev picker : Picker
picker = record { view_year = 2026; view_month = 1; range_start = []; range_end = [] }

parse-to_date_key_example : parse_date_key (to_date_key february) ≡ some february
parse-to_date_key_example = parse-to_date_key february february-IsDate

to_date_key-lt_example : text_lt (to_date_key february) (to_date_key march) ≡ date_lt february march
to_date_key-lt_example = to_date_key-lt february march february-IsDate march-IsDate

apply_range_fills_example :
    ((date_le february march && date_le february march) ≡ false)
      × (apply_range february [] (to_date_key february) (to_date_key march) ≡ none)
    ⊎ ((date_le february march && date_le february march) ≡ true)
      × (r : List (List ℕ)) × (apply_range february [] (to_date_key february) (to_date_key march)
          ≡ some r)
      × IsAscending r
      × (contains r (to_date_key march)
          ≡ (date_le february march && date_le february march && date_le march march)
            || contains [] (to_date_key march))
apply_range_fills_example =
    apply_range_fills february february march [] february-IsDate february-IsDate march-IsDate march
      march-IsDate

toggle_day_flips_example :
    (text_lt (to_date_key february) (to_date_key february) ≡ true)
      × (toggle_day february [] picker 28 ≡ none)
    ⊎ (text_lt (to_date_key february) (to_date_key february) ≡ false)
      × (r : List (List ℕ)) × (toggle_day february [] picker 28 ≡ some r)
      × IsAscending r
      × ((z : List ℕ)
          → contains r z ≡ (
              if z == to_date_key february
              then not (contains [] (to_date_key february))
              else contains [] z))
unfolding full_year
toggle_day_flips_example = toggle_day_flips february [] picker 28

toggle_day_twice_example : toggle_day february (to_date_key february ∷ []) picker 28 ≡ some []
unfolding toggle_day text_lt to_date_key sort flip set_of full_year
toggle_day_twice_example =
    toggle_day_twice february [] (to_date_key february ∷ []) picker 28 tt refl

change_month_inverse_example :
    (change_month february back (change_month february forth picker) ≡ picker)
    × ((is_viewing_current_month february picker ≡ true)
          × (change_month february back picker ≡ picker)
        ⊎ (is_viewing_current_month february picker ≡ false)
          × (change_month february back picker ≢ picker)
          × (change_month february forth (change_month february back picker) ≡ picker))
change_month_inverse_example =
    change_month_inverse february picker (omega arith) (omega arith)
      (record { month_in = omega arith; not_past = omega arith })

first_weekday-shift_month_example :
    first_weekday 2026 2 ≡ (first_weekday 2026 1 + days_in_month 2026 1) % 7
unfolding shift_month
first_weekday-shift_month_example = first_weekday-shift_month 2026 1 (omega arith) (omega arith)

-- Two clicks, a turn of the page, and a range from today to 2 March.
abbrev clicks : List PickerEvent
clicks =
    toggle 28
    ∷ turn forth
    ∷ toggle 5
    ∷ enter_start (to_date_key february)
    ∷ enter_end (to_date_key march)
    ∷ []

session-IsSound_example : IsSound february (foldl (pick february) (new_picker february, []) clicks)
session-IsSound_example =
    session-IsSound february february-IsDate clicks (
      tt,
      (tt, (tt, (inr (february, refl, february-IsDate), (inr (march, refl, march-IsDate), tt)))),
    )

-- The dates picked after the clicks.
clicked :
    (foldl (pick february) (new_picker february, []) clicks).1
    ≡ to_date_key february
      ∷ to_date_key (local 2026 2 1)
      ∷ to_date_key march
      ∷ to_date_key (local 2026 2 5)
      ∷ []
unfolding pick change_end apply_range change_start to_date_key read_date date_lt sort next_day
    full_year month_length add set_of change_month shift_month new_picker toggle_day text_lt decimal
    is_leap pad_start text_of delete flip
clicked = refl
