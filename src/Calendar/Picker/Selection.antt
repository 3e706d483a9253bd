-- ===== src/Calendar/Picker/Selection.antt =====
-- The dates picked with app/frontend/components/CalendarPicker.jsx, by any sequence of clicks and
-- entries: a set in ascending order, without a date before today.
use roost_assured.Common.{
  ℕ, zero, suc, ◌+◌, ◌-◌, ◌≡◌, refl, ◌⊎◌, inl, inr, true, false, not, none, some, List, arith,
  if◌then◌else◌, Bool-cases, ◌==◌, number_key, string_key, contains,
}
use roost_assured.Common.Text.{text_beq_iff, text_key}
use roost_assured.Common.Sets.{
  add, flip, set_of, contains-add, contains-flip, contains-set_of, Distinct-flip, Distinct-set_of,
}
use roost_assured.Calendar.Dates.{
  LocalDate, new_date, date_lt, date_le, later, next_day, to_date_key, IsDate,
}
use roost_assured.Calendar.Dates.Keys.{to_date_key-lt}
use roost_assured.Calendar.Picker.Days.{IsDay, IsDate-IsDay, next_day-IsDay, next_day-le, within}
use roost_assured.Calendar.Picker.Ranges.{
  later-IsDate, filled, apply_range-filled, filled-IsAscending, le-later,
}
use roost_assured.Calendar.Texts.{
  text_lt, sort, contains-sort, IsAscending, sort-IsAscending, IsAscending-ext,
}
use roost_assured.Calendar.Picker.{Picker, toggle_day, add_range, apply_range, rank, taken}

toggled : List ℕ → List (List ℕ) → List (List ℕ)
toggled key selected_dates = sort (flip key (set_of selected_dates))

contains-toggled :
    (key : List ℕ) (xs : List (List ℕ)) (z : List ℕ)
    → contains (toggled key xs) z ≡ (if z == key then not (contains xs key) else contains xs z)
unfolding toggled
contains-toggled key xs z = simp (contains-sort, contains-flip, contains-set_of)

toggled-IsAscending : (key : List ℕ) (xs : List (List ℕ)) → IsAscending (toggled key xs)
unfolding toggled
toggled-IsAscending key xs = sort-IsAscending _ (Distinct-flip key (set_of xs) (Distinct-set_of xs))

toggled-toggled :
    (key : List ℕ) (xs : List (List ℕ)) → IsAscending xs → toggled key (toggled key xs) ≡ xs
toggled-toggled key xs a = IsAscending-ext _ xs (toggled-IsAscending key _) a (λ z. ground (
  arith,
  contains-toggled key (toggled key xs) z,
  contains-toggled key xs z,
  contains-toggled key xs key,
  text_beq_iff z key,
  text_beq_iff key key,
))

abbrev key_of : Picker → ℕ → List ℕ
key_of p day = to_date_key (new_date p.view_year p.view_month day)

toggle_day-toggled :
    (today : LocalDate) (selected_dates : List (List ℕ)) (p : Picker) (day : ℕ)
    → toggle_day today selected_dates p day ≡ (
        if text_lt (key_of p day) (to_date_key today)
        then none
        else some (toggled (key_of p day) selected_dates))
unfolding toggle_day toggled
toggle_day-toggled today selected_dates p day = refl

-- `toggleDay` on a day that is not past passes on the same dates but for that day, in ascending
-- order: the day goes if it was there, and comes if it was not. On a past day it does nothing.
pub toggle_day_flips :
    (today : LocalDate) (selected_dates : List (List ℕ)) (p : Picker) (day : ℕ)
    → let key = to_date_key (new_date p.view_year p.view_month day) in
      (text_lt key (to_date_key today) ≡ true) × (toggle_day today selected_dates p day ≡ none)
      ⊎ (text_lt key (to_date_key today) ≡ false)
        × (r : List (List ℕ)) × (toggle_day today selected_dates p day ≡ some r)
        × IsAscending r
        × ((z : List ℕ)
            → contains r z
              ≡ (if z == key then not (contains selected_dates key) else contains selected_dates z))
toggle_day_flips today selected_dates p day =
    elim (Bool-cases (text_lt (key_of p day) (to_date_key today))) [
      | inl past ↦ inl (past, rw (toggle_day-toggled, past) refl)
      | inr open_day ↦ inr (
        open_day,
        toggled (key_of p day) selected_dates,
        rw (toggle_day-toggled, open_day) refl,
        toggled-IsAscending (key_of p day) selected_dates,
        contains-toggled (key_of p day) selected_dates,
      )
    ]

-- `toggleDay` twice on a day that is not past gives the dates back, if they were in order.
pub toggle_day_twice :
    (today : LocalDate) (selected_dates r : List (List ℕ)) (p : Picker) (day : ℕ)
    → IsAscending selected_dates
    → toggle_day today selected_dates p day ≡ some r
    → toggle_day today r p day ≡ some selected_dates
toggle_day_twice today selected_dates r p day a h = ground (
  arith,
  toggle_day-toggled today selected_dates p day,
  toggle_day-toggled today r p day,
  toggled-toggled (key_of p day) selected_dates a,
)

-- No text of the list comes before today's.
abbrev pub IsUpcoming : LocalDate → List (List ℕ) → Type 0
IsUpcoming today xs = (z : List ℕ) → contains xs z ≡ true → text_lt z (to_date_key today) ≡ false

toggled-IsUpcoming :
    (today : LocalDate) (key : List ℕ) (xs : List (List ℕ))
    → text_lt key (to_date_key today) ≡ false
    → IsUpcoming today xs
    → IsUpcoming today (toggled key xs)
toggled-IsUpcoming today key xs n u z h =
    ground (arith, contains-toggled key xs z, text_beq_iff z key, u z)

add_range-IsUpcoming :
    (today last : LocalDate)
    → IsDate today
    → IsDate last
    → (fuel : ℕ) (cur : LocalDate) (selected : List (List ℕ)) → IsDay cur
    → date_le today cur ≡ true
    → IsUpcoming today selected
    → IsUpcoming today (add_range fuel cur last selected)
unfolding add_range
add_range-IsUpcoming today last vt vl zero cur selected v le u = u
add_range-IsUpcoming today last vt vl (suc fuel) cur selected v le u =
    elim (Bool-cases (date_le cur last)) [
      | inl more ↦ rw more (
          add_range-IsUpcoming today last vt vl fuel (next_day cur) (add (to_date_key cur) selected)
            (next_day-IsDay cur v) (next_day-le today cur (IsDate-IsDay vt) v le)
            (λ z h. ground (
              arith,
              contains-add (to_date_key cur) selected z,
              text_beq_iff (to_date_key cur) z,
              to_date_key-lt cur today (within today cur last vt vl v le more) vt,
              u z,
            )))
      | inr done ↦ rw done u
    ]

filled-IsUpcoming :
    (today start last : LocalDate) (xs : List (List ℕ))
    → IsDate today
    → IsDate start
    → IsDate last
    → IsUpcoming today xs
    → IsUpcoming today (filled today start last xs)
unfolding filled
filled-IsUpcoming today start last xs vt vs vl u z h =
    let from = later start today in
    add_range-IsUpcoming today last vt vl (rank last + 1 - rank from) from (set_of xs)
      (IsDate-IsDay (later-IsDate start today vs vt)) (le-later start today vs vt)
      (λ y g. u y (rw contains-set_of at g)) z (rw contains-sort at h)

-- The dates picked: in ascending order, none before today.
pub record IsPicked (today : LocalDate) (xs : List (List ℕ)) : Type 0 where
  pub ascending : IsAscending xs
  pub upcoming : IsUpcoming today xs

pub toggle_day-IsPicked :
    (today : LocalDate) (xs : List (List ℕ)) (p : Picker) (day : ℕ)
    → IsPicked today xs
    → IsPicked today (taken xs (toggle_day today xs p day))
toggle_day-IsPicked today xs p day v =
    rw toggle_day-toggled (elim (Bool-cases (text_lt (key_of p day) (to_date_key today))) [
      | inl past ↦ rw past v
      | inr open_day ↦ rw open_day (record {
        ascending = toggled-IsAscending (key_of p day) xs;
        upcoming = toggled-IsUpcoming today (key_of p day) xs open_day v.upcoming;
      })
    ])

pub apply_range-IsPicked :
    (today start last : LocalDate) (xs : List (List ℕ))
    → IsDate today
    → IsDate start
    → IsDate last
    → IsPicked today xs
    → IsPicked today (taken xs (apply_range today xs (to_date_key start) (to_date_key last)))
apply_range-IsPicked today start last xs vt vs vl v =
    rw (apply_range-filled today start last xs vt vs vl)
      (elim (Bool-cases (date_lt last (later start today))) [
        | inl early ↦ rw early v
        | inr fits ↦ rw fits (record {
          ascending = filled-IsAscending today start last xs vt vs vl;
          upcoming = filled-IsUpcoming today start last xs vt vs vl v.upcoming;
        })
      ])
