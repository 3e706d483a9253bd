-- ===== src/Calendar/Picker.antt =====
-- app/frontend/components/CalendarPicker.jsx: the month in view, the two range fields, and the
-- dates picked, which the parent keeps. `today` is the local date of the render, as an argument.
-- A handler returns the new state and the value that it passes to `onChange`, if it calls it.
pub mod Days
pub mod Ranges
pub mod Selection
pub mod Months
pub mod Sessions
use roost_assured.Common.{
  ℕ, zero, suc, ◌+◌, ◌-◌, ◌*◌, ◌/◌, ◌%◌, ◌≤◌, ◌<◌, String, ◌≡◌, refl, sym, ap, ◌∙◌, ◌≢◌, ◌↔◌, ◌⊎◌,
  inl, inr, Bool, true, false, not, ◌&&◌, ◌||◌, Option, none, some, List, [], ◌∷◌, ◌++◌, map, arith,
  ltb, leb, nat_beq, if◌then◌else◌, ltb→lt, lt→ltb, nat_beq_iff, Bool-cases, Option-cases,
  Comparable, ◌==◌, number_key, string_key, ==_refl, ==_false, ==_comm, length, All, keep, any,
  every, find, when, length-append, length-keep, keep-append, keep-keep, contains, contains-append,
  contains-keep,
}
use roost_assured.Common.Text.{text_beq, text_key}
use roost_assured.Common.Sets.{add, flip, set_of}
use roost_assured.Calendar.Dates.{
  LocalDate, new_date, days_in_month, next_day, first_weekday, date_lt, date_le, later, to_date_key,
  read_date,
}
use roost_assured.Calendar.Texts.{text_lt, sort}

pub record Picker : Type 0 where
  pub view_year : ℕ
  pub view_month : ℕ
  pub range_start : List ℕ
  pub range_end : List ℕ

unfoldable pub new_picker : LocalDate → Picker
new_picker today = record {
  view_year = today.year;
  view_month = today.month;
  range_start = [];
  range_end = [];
}

-- `toggleDay(day)`: a past day is left alone.
unfoldable pub toggle_day : LocalDate → List (List ℕ) → Picker → ℕ → Option (List (List ℕ))
toggle_day today selected_dates p day =
    let key = to_date_key (new_date p.view_year p.view_month day) in
    let selected = set_of selected_dates in
    if text_lt key (to_date_key today) then none else some (sort (flip key selected))

-- The position of a date, with 31 days to each month.
abbrev pub rank : LocalDate → ℕ
rank t = (t.year * 12 + t.month) * 31 + t.date

-- The loop of `applyRange`; the fuel is the distance in `rank`.
pub add_range : ℕ → LocalDate → LocalDate → List (List ℕ) → List (List ℕ)
add_range zero d last selected = selected
add_range (suc fuel) d last selected =
    let rest = add_range fuel (next_day d) last (add (to_date_key d) selected) in
    if date_le d last then rest else selected

-- What `applyRange` does with the two dates that it has read; `none` is an invalid date, which is
-- below and above nothing.
pub apply_dates :
    LocalDate → Option LocalDate → Option LocalDate → List (List ℕ) → Option (List (List ℕ))
apply_dates today (some first) (some last) selected =
    let start = later first today in
    if date_lt last start
    then none
    else some (sort (add_range (rank last + 1 - rank start) start last selected))
apply_dates today _ _ selected = some (sort selected)

-- `applyRange(start, end)`, of the texts of the two fields.
unfoldable pub apply_range : LocalDate → List (List ℕ) → List ℕ → List ℕ → Option (List (List ℕ))
unfolding apply_dates add_range
apply_range today selected_dates start last =
    if text_beq start [] || text_beq last []
    then none
    else apply_dates today (read_date start) (read_date last) (set_of selected_dates)

-- The argument of `changeMonth`, -1 or 1.
pub data Delta : Type 0 where
  back forth : Delta

-- The month and year that `changeMonth` computes.
unfoldable pub shift_month : Delta → ℕ → ℕ → ℕ × ℕ
shift_month back y m = if nat_beq m 0 then (y - 1, 11) else (y, m - 1)
shift_month forth y m = if ltb 11 (m + 1) then (y + 1, 0) else (y, m + 1)

-- `changeMonth(delta)`: no month before the current one comes into view.
unfoldable pub change_month : LocalDate → Delta → Picker → Picker
change_month today delta p =
    let (y, m) = shift_month delta p.view_year p.view_month in
    if ltb y today.year || (nat_beq y today.year && ltb m today.month)
    then p
    else record p { view_month = m; view_year = y }

unfoldable pub is_viewing_current_month : LocalDate → Picker → Bool
is_viewing_current_month today p =
    nat_beq p.view_year today.year && nat_beq p.view_month today.month

-- The `onChange` handlers of the two date fields.
unfoldable pub change_start :
    LocalDate → List (List ℕ) → Picker → List ℕ → Picker × Option (List (List ℕ))
change_start today selected_dates p value =
    (record p { range_start = value }, apply_range today selected_dates value p.range_end)

unfoldable pub change_end :
    LocalDate → List (List ℕ) → Picker → List ℕ → Picker × Option (List (List ℕ))
change_end today selected_dates p value =
    (record p { range_end = value }, apply_range today selected_dates p.range_start value)

-- What is drawn for a day of the month in view.
pub record DayCell : Type 0 where
  pub day : ℕ
  pub selected : Bool
  pub disabled : Bool

day_cells : LocalDate → List (List ℕ) → Picker → ℕ → ℕ → List DayCell
day_cells today selected_dates p zero day = []
day_cells today selected_dates p (suc left) day =
    let key = to_date_key (new_date p.view_year p.view_month day) in
    record {
      day = day;
      selected = contains (set_of selected_dates) key;
      disabled = text_lt key (to_date_key today);
    }
    ∷ day_cells today selected_dates p left (day + 1)

-- What the component draws: the month's number and year, the blanks before its first day, its
-- days, whether the way back is open, and the least date that each field takes.
pub record PickerView : Type 0 where
  pub title : ℕ × ℕ
  pub leading_blanks : ℕ
  pub days : List DayCell
  pub previous_disabled : Bool
  pub start_min : List ℕ
  pub end_min : List ℕ

unfoldable pub render_picker : LocalDate → List (List ℕ) → Picker → PickerView
unfolding day_cells
render_picker today selected_dates p = record {
  title = (p.view_month, p.view_year);
  leading_blanks = first_weekday p.view_year p.view_month;
  days = day_cells today selected_dates p (days_in_month p.view_year p.view_month) 1;
  previous_disabled = is_viewing_current_month today p;
  start_min = to_date_key today;
  end_min = if text_beq p.range_start [] then to_date_key today else p.range_start;
}

-- What a user does with the component; the parent takes the value passed to `onChange` as the new
-- `selectedDates`.
pub data PickerEvent : Type 0 where
  toggle : ℕ → PickerEvent
  enter_start enter_end : List ℕ → PickerEvent
  turn : Delta → PickerEvent

abbrev pub taken : List (List ℕ) → Option (List (List ℕ)) → List (List ℕ)
taken old none = old
taken old (some new) = new

unfoldable pub pick : LocalDate → Picker × List (List ℕ) → PickerEvent → Picker × List (List ℕ)
pick today (p, selected_dates) (toggle day) =
    (p, taken selected_dates (toggle_day today selected_dates p day))
pick today (p, selected_dates) (enter_start value) =
    let (q, sent) = change_start today selected_dates p value in (q, taken selected_dates sent)
pick today (p, selected_dates) (enter_end value) =
    let (q, sent) = change_end today selected_dates p value in (q, taken selected_dates sent)
pick today (p, selected_dates) (turn delta) = (change_month today delta p, selected_dates)
