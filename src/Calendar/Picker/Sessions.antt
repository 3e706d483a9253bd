-- ===== src/Calendar/Picker/Sessions.antt =====
-- Every sequence of clicks and entries on app/frontend/components/CalendarPicker.jsx.
use mathlib.Core.List.{foldl}
use roost_assured.Common.{
  ℕ, ◌≡◌, refl, ◌⊎◌, inl, inr, List, [], ◌∷◌, arith, number_key, string_key, All,
}
use roost_assured.Common.Text.{text_key}
use roost_assured.Calendar.Dates.{LocalDate, to_date_key, IsDate}
use roost_assured.Calendar.Picker.{
  Picker, PickerEvent, toggle, enter_start, enter_end, turn, pick, change_start, change_end,
  apply_range, new_picker, taken,
}
use roost_assured.Calendar.Picker.Ranges.{apply_range_no_start, apply_range_no_end}
use roost_assured.Calendar.Picker.Selection.{IsPicked, toggle_day-IsPicked, apply_range-IsPicked}
use roost_assured.Calendar.Picker.Months.{IsOpen, change_month-IsOpen, change_month-entries}

-- A date field holds nothing or the text of a date.
abbrev pub IsEntry : List ℕ → Type 0
IsEntry value = (value ≡ []) ⊎ (t : LocalDate) × (value ≡ to_date_key t) × IsDate t

-- The state of the component and the dates picked, at any time.
pub record IsSound (today : LocalDate) (s : Picker × List (List ℕ)) : Type 0 where
  pub view : IsOpen today s.0
  pub start_entry : IsEntry s.0.range_start
  pub end_entry : IsEntry s.0.range_end
  pub picked : IsPicked today s.1

-- A user can type or pick in a date field only a date, or clear it.
abbrev pub IsInput : PickerEvent → Type 0
IsInput (toggle day) = Unit
IsInput (enter_start value) = IsEntry value
IsInput (enter_end value) = IsEntry value
IsInput (turn delta) = Unit

module _ (today : LocalDate) (vt : IsDate today) where
  range-IsPicked :
      (xs : List (List ℕ)) (start last : List ℕ)
      → IsEntry start
      → IsEntry last
      → IsPicked today xs
      → IsPicked today (taken xs (apply_range today xs start last))
  range-IsPicked xs start last (inl e) l p = rw (e, apply_range_no_start) p
  range-IsPicked xs start last (inr (a, e, va)) (inl f) p = rw (f, apply_range_no_end) p
  range-IsPicked xs start last (inr (a, e, va)) (inr (b, f, vb)) p =
      rw (e, f) (apply_range-IsPicked today a b xs vt va vb p)

  -- Every event keeps the dates picked a set in ascending order with no date before today, and
  -- the month in view a month that is not past.
  pub pick-IsSound :
      (s : Picker × List (List ℕ)) (e : PickerEvent)
      → IsInput e
      → IsSound today s
      → IsSound today (pick today s e)
  unfolding pick change_start change_end
  pick-IsSound (p, xs) (toggle day) i v = record {
    view = v.view;
    start_entry = v.start_entry;
    end_entry = v.end_entry;
    picked = toggle_day-IsPicked today xs p day v.picked;
  }
  pick-IsSound (p, xs) (enter_start value) i v = record {
    view = record { month_in = v.view.month_in; not_past = v.view.not_past };
    start_entry = i;
    end_entry = v.end_entry;
    picked = range-IsPicked xs value p.range_end i v.end_entry v.picked;
  }
  pick-IsSound (p, xs) (enter_end value) i v = record {
    view = record { month_in = v.view.month_in; not_past = v.view.not_past };
    start_entry = v.start_entry;
    end_entry = i;
    picked = range-IsPicked xs p.range_start value v.start_entry i v.picked;
  }
  pick-IsSound (p, xs) (turn delta) i v =
      let (same_start, same_end) = change_month-entries today delta p in
      record {
        view = change_month-IsOpen today delta p vt.month_in v.view;
        start_entry = rw same_start v.start_entry;
        end_entry = rw same_end v.end_entry;
        picked = v.picked;
      }

  pub new_picker-IsSound : IsSound today (new_picker today, [])
  unfolding new_picker
  new_picker-IsSound = record {
    view = record { month_in = vt.month_in; not_past = omega arith };
    start_entry = inl refl;
    end_entry = inl refl;
    picked = record { ascending = tt; upcoming = λ z h. cc };
  }

  -- After any such events on a fresh form, on a day of a year of four digits, the dates picked are in ascending order without
  -- repetition, none of them before today, and the month in view is not past.
  pub session-IsSound :
      (es : List PickerEvent)
      → All IsInput es
      → IsSound today (foldl (pick today) (new_picker today, []) es)
  session-IsSound es i = go es (new_picker today, []) i new_picker-IsSound
    where
      go :
          (es : List PickerEvent) (s : Picker × List (List ℕ))
          → All IsInput es
          → IsSound today s
          → IsSound today (foldl (pick today) s es)
      go [] s i v = v
      go (e ∷ es) s i v = go es (pick today s e) i.1 (pick-IsSound s e i.0 v)
