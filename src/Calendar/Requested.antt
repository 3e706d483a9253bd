-- ===== src/Calendar/Requested.antt =====
-- app/frontend/components/RequestedDatesCalendar.jsx: the dates that an owner asks for, each
-- undecided, accepted or declined. The server sends keys of dates; an invalid one is not modelled
-- (it counts as today where the first month to show is chosen).
use roost_assured.Common.{
  ℕ, zero, suc, ◌+◌, Bool, Option, none, some, List, [], ◌∷◌, if◌then◌else◌, number_key, string_key,
  contains,
}
use roost_assured.Common.Text.{text_key}
use roost_assured.Common.Sets.{set_of}
use roost_assured.Calendar.Dates.{
  LocalDate, new_date, days_in_month, first_weekday, to_date_key, parse_date_key,
}
use roost_assured.Calendar.Picker.{Delta, shift_month}

pub record MonthView : Type 0 where
  pub view_year : ℕ
  pub view_month : ℕ

abbrev month_of : LocalDate → MonthView
month_of t = record { view_year = t.year; view_month = t.month }

abbrev month_of_key : LocalDate → Option LocalDate → MonthView
month_of_key today none = month_of today
month_of_key today (some t) = month_of t

-- The month first shown: that of the first date asked for, else the current one.
unfoldable pub first_view : LocalDate → List (List ℕ) → MonthView
first_view today [] = month_of today
first_view today (key ∷ keys) = month_of_key today (parse_date_key key)

-- `changeMonth(delta)`.
unfoldable pub turn_month : Delta → MonthView → MonthView
turn_month delta v =
    let (y, m) = shift_month delta v.view_year v.view_month in
    record { view_year = y; view_month = m }

pub data Choice : Type 0 where
  undecided accepted declined : Choice

-- What is drawn for a day: its key, the state if it is asked for or answered, and whether a click
-- on it is passed on.
pub record RequestedCell : Type 0 where
  pub key : List ℕ
  pub state : Option Choice
  pub enabled : Bool

module _ (requested_dates accepted_dates declined_dates : List (List ℕ)) where
  unfoldable pub requested_cell : List ℕ → RequestedCell
  requested_cell key =
      let is_requested = contains (set_of requested_dates) key in
      record {
        key = key;
        state =
            if contains (set_of accepted_dates) key
            then some accepted
            else if contains (set_of declined_dates) key
            then some declined
            else if is_requested
            then some undecided
            else none;
        enabled = is_requested;
      }

  requested_cells : MonthView → ℕ → ℕ → List RequestedCell
  requested_cells v zero day = []
  requested_cells v (suc left) day =
      requested_cell (to_date_key (new_date v.view_year v.view_month day))
      ∷ requested_cells v left (day + 1)

  -- The blanks before the first day, and the days of the month in view.
  unfoldable pub render_requested : MonthView → ℕ × List RequestedCell
  unfolding requested_cells requested_cell
  render_requested v = (
    first_weekday v.view_year v.view_month,
    requested_cells v (days_in_month v.view_year v.view_month) 1,
  )
