-- ===== src/Calendar/Picker/Ranges.antt =====
-- Filling a range of dates: `applyRange` of app/frontend/components/CalendarPicker.jsx.
use roost_assured.Common.{
  ℕ, zero, suc, ◌+◌, ◌-◌, ◌≤◌, ◌<◌, ◌≡◌, refl, ◌⊎◌, inl, inr, Bool, true, false, not, ◌&&◌, ◌||◌,
  none, some, List, [], arith, if◌then◌else◌, Bool-cases, ◌==◌, number_key, string_key, contains,
}
use roost_assured.Common.Text.{text_key}
use roost_assured.Common.Sets.{
  add, set_of, Distinct, contains-add, Distinct-add, contains-set_of, Distinct-set_of,
}
use roost_assured.Calendar.Dates.{LocalDate, next_day, date_lt, date_le, later, to_date_key, IsDate}
use roost_assured.Calendar.Dates.Keys.{to_date_key-==, read-to_date_key, to_date_key-ne-nil}
use roost_assured.Calendar.Texts.{sort, contains-sort, IsAscending, sort-IsAscending}
use roost_assured.Calendar.Picker.Days.{
  IsDay, IsDate-IsDay, date_lt-rank, next_day-IsDay, next_day-year-le, rank-lt-next_day,
  next_day_le,
}
use roost_assured.Calendar.Picker.{rank, add_range, apply_range}

-- Below, `d` is any date and `last` the end of the range.
module _ (d last : LocalDate) (vd : IsDate d) (vl : IsDate last) where
  abbrev in_range : LocalDate → Bool
  in_range start = date_le start d && date_le d last

  -- Up to the end of the range, the key of `d` is that of the current date on one round only.
  same_key :
      (cur : LocalDate)
      → IsDay cur
      → 1000 ≤ cur.year
      → date_le cur last ≡ true
      → (to_date_key cur == to_date_key d) ≡ not (date_lt cur d) && not (date_lt d cur)
  unfolding date_lt
  same_key cur v y more =
      let vc : IsDate cur = record {
        year_in = (y, ground (arith, vl.year_in));
        month_in = v.month_in;
        date_in = v.date_in;
      } in
      to_date_key-== cur d vc vd

  contains-add_range :
      (fuel : ℕ) (cur : LocalDate) (selected : List (List ℕ))
      → IsDay cur
      → 1000 ≤ cur.year
      → rank last < fuel + rank cur
      → contains (add_range fuel cur last selected) (to_date_key d)
        ≡ in_range cur || contains selected (to_date_key d)
  unfolding add_range
  contains-add_range zero cur selected v y f = ground (
    arith,
    date_lt-rank d cur (IsDate-IsDay vd) v,
    date_lt-rank last d (IsDate-IsDay vl) (IsDate-IsDay vd),
  )
  contains-add_range (suc fuel) cur selected v y f = elim (Bool-cases (date_le cur last)) [
    | inl more ↦ rw more (
        ground (
          arith,
          contains-add_range fuel (next_day cur) (add (to_date_key cur) selected)
              (next_day-IsDay cur v),
          next_day-year-le cur,
          rank-lt-next_day cur v,
          next_day_le cur d v (IsDate-IsDay vd),
          contains-add (to_date_key cur) selected (to_date_key d),
          same_key cur v y more,
          date_lt-rank d cur (IsDate-IsDay vd) v,
          date_lt-rank cur d v (IsDate-IsDay vd),
          date_lt-rank last d (IsDate-IsDay vl) (IsDate-IsDay vd),
          date_lt-rank last cur (IsDate-IsDay vl) v,
        ))
    | inr done ↦ rw done (
        ground (
          arith,
          date_lt-rank d cur (IsDate-IsDay vd) v,
          date_lt-rank last d (IsDate-IsDay vl) (IsDate-IsDay vd),
          date_lt-rank last cur (IsDate-IsDay vl) v,
        ))
  ]

  pub Distinct-add_range :
      (fuel : ℕ) (cur : LocalDate) (selected : List (List ℕ))
      → Distinct selected
      → Distinct (add_range fuel cur last selected)
  unfolding add_range
  Distinct-add_range zero cur selected h = h
  Distinct-add_range (suc fuel) cur selected h = elim (Bool-cases (date_le cur last)) [
    | inl more ↦ rw more (
        Distinct-add_range fuel (next_day cur) (add (to_date_key cur) selected)
          (Distinct-add (to_date_key cur) selected h))
    | inr done ↦ rw done h
  ]

pub later-IsDate : (a b : LocalDate) → IsDate a → IsDate b → IsDate (later a b)
later-IsDate a b va vb = elim (Bool-cases (date_lt a b)) [ inl p ↦ rw p vb | inr p ↦ rw p va ]

date_le-later :
    (a b d : LocalDate)
    → IsDate a
    → IsDate b
    → IsDate d
    → date_le (later a b) d ≡ date_le a d && date_le b d
date_le-later a b d va vb vd = ground (
  arith,
  date_lt-rank a b (IsDate-IsDay va) (IsDate-IsDay vb),
  date_lt-rank d a (IsDate-IsDay vd) (IsDate-IsDay va),
  date_lt-rank d b (IsDate-IsDay vd) (IsDate-IsDay vb),
)

pub le-later : (a b : LocalDate) → IsDate a → IsDate b → date_le b (later a b) ≡ true
le-later a b va vb = ground (
  arith,
  date_lt-rank a b (IsDate-IsDay va) (IsDate-IsDay vb),
  date_lt-rank b b (IsDate-IsDay vb) (IsDate-IsDay vb),
)

-- What `applyRange` passes on, when it gets as far as that.
unfoldable pub filled : LocalDate → LocalDate → LocalDate → List (List ℕ) → List (List ℕ)
filled today start last selected_dates = sort (
    add_range (rank last + 1 - rank (later start today)) (later start today) last
      (set_of selected_dates))

module _ (today start last : LocalDate) (selected_dates : List (List ℕ)) (vt : IsDate today)
    (vs : IsDate start) (vl : IsDate last) where
  pub apply_range-filled :
      apply_range today selected_dates (to_date_key start) (to_date_key last) ≡ (
        if date_lt last (later start today)
        then none
        else some (filled today start last selected_dates))
  unfolding apply_range filled
  apply_range-filled =
      rw (to_date_key-ne-nil start vs, to_date_key-ne-nil last vl)
        (rw (read-to_date_key start vs, read-to_date_key last vl) refl)

  contains-filled :
      (d : LocalDate)
      → IsDate d
      → contains (filled today start last selected_dates) (to_date_key d)
        ≡ (date_le start d && date_le today d && date_le d last)
          || contains selected_dates (to_date_key d)
  unfolding filled
  contains-filled d vd =
      let from = later start today in
      let vf = later-IsDate start today vs vt in
      rw (contains-sort _ (to_date_key d)) (
        rw
          (contains-add_range d last vd vl (rank last + 1 - rank from) from (set_of selected_dates)
            (IsDate-IsDay vf) vf.year_in.0 (omega arith))
          (rw (contains-set_of selected_dates (to_date_key d), date_le-later start today d vs vt vd)
            (ground arith)))

  pub filled-IsAscending : IsAscending (filled today start last selected_dates)
  unfolding filled
  filled-IsAscending = sort-IsAscending _ (
      Distinct-add_range start last vs vl (rank last + 1 - rank (later start today))
        (later start today) (set_of selected_dates) (Distinct-set_of selected_dates))

  -- Of two fields filled with dates of years of four digits, `applyRange` passes on an ascending list without repetition that holds
  -- a date just when it was picked before or lies in the range and not before today; if the range
  -- ends before it begins, or before today, it passes on nothing.
  pub apply_range_fills :
      (d : LocalDate)
      → IsDate d
      → ((date_le start last && date_le today last) ≡ false)
          × (apply_range today selected_dates (to_date_key start) (to_date_key last) ≡ none)
        ⊎ ((date_le start last && date_le today last) ≡ true)
          × (r : List (List ℕ)) × (apply_range today selected_dates
                (to_date_key start)
                (to_date_key last)
              ≡ some r)
          × IsAscending r
          × (contains r (to_date_key d)
              ≡ (date_le start d && date_le today d && date_le d last)
                || contains selected_dates (to_date_key d))
  apply_range_fills d vd = elim (Bool-cases (date_lt last (later start today))) [
    | inl p ↦
        inl
          (rw (← date_le-later start today last vs vt vl, p) refl, rw (apply_range-filled, p) refl)
    | inr p ↦ inr (
      rw (← date_le-later start today last vs vt vl, p) refl,
      filled today start last selected_dates,
      rw (apply_range-filled, p) refl,
      filled-IsAscending,
      contains-filled d vd,
    )
  ]

-- With a field empty `applyRange` passes on nothing.
pub apply_range_no_start :
    (today : LocalDate) (xs : List (List ℕ)) (last : List ℕ) → apply_range today xs [] last ≡ none
unfolding apply_range
apply_range_no_start today xs last = refl

pub apply_range_no_end :
    (today : LocalDate) (xs : List (List ℕ)) (start : List ℕ) → apply_range today xs start [] ≡ none
unfolding apply_range
apply_range_no_end today xs start = ground arith
