-- ===== src/Calendar/Dates.antt =====
-- Local dates and the text keys that the calendars make of them: `toDateKey` of
-- app/frontend/components/CalendarPicker.jsx, `dateKey` and `parseDateKey` of
-- app/frontend/components/RequestedDatesCalendar.jsx, and what they use of JavaScript's `Date`.
-- A `Date` at local midnight is its year, month (from 0) and date; a text is the list of its
-- code units. Years are those of `Date`, below 10^6.
pub mod Keys
pub mod Weekdays
use mathlib.Core.Option
use roost_assured.Common.{
  ℕ, zero, suc, ◌+◌, ◌-◌, ◌*◌, ◌/◌, ◌%◌, ◌≤◌, ◌≡◌, Bool, true, false, not, ◌&&◌, ◌||◌, Option, none,
  some, List, [], ◌∷◌, ◌++◌, ltb, leb, nat_beq, if◌then◌else◌,
}

pub record LocalDate : Type 0 where
  pub year : ℕ
  pub month : ℕ
  pub date : ℕ

abbrev pub local : ℕ → ℕ → ℕ → LocalDate
local y m d = record { year = y; month = m; date = d }

-- The year that `new Date(year, ...)` takes a number for: 0 to 99 are 1900 to 1999.
unfoldable pub full_year : ℕ → ℕ
full_year y = if leb y 99 then 1900 + y else y

-- `new Date(year, month, day)`.
abbrev pub new_date : ℕ → ℕ → ℕ → LocalDate
new_date y m d = local (full_year y) m d

unfoldable pub is_leap : ℕ → Bool
is_leap y =
    if not (nat_beq (y % 4) 0)
    then false
    else if not (nat_beq (y % 100) 0)
    then true
    else nat_beq (y % 400) 0

-- The days of a month of the calendar.
unfoldable pub month_length : ℕ → ℕ → ℕ
unfolding is_leap
month_length y m =
    if nat_beq m 1
    then (if is_leap y then 29 else 28)
    else if nat_beq m 3 || nat_beq m 5 || nat_beq m 8 || nat_beq m 10
    then 30
    else 31

-- `new Date(year, month + 1, 0).getDate()`.
unfoldable pub days_in_month : ℕ → ℕ → ℕ
unfolding month_length
days_in_month y m = month_length (full_year y) m

-- `date.setDate(date.getDate() + 1)`.
unfoldable pub next_day : LocalDate → LocalDate
next_day t =
    if ltb t.date (month_length t.year t.month)
    then record t { date = t.date + 1 }
    else if ltb t.month 11
    then local t.year (t.month + 1) 1
    else local (t.year + 1) 0 1

days_before_month : ℕ → ℕ → ℕ
days_before_month y zero = 0
days_before_month y (suc m) = days_before_month y m + month_length y m

-- The days before January 1st, for years from 1.
days_before_year : ℕ → ℕ
days_before_year y = let p = y - 1 in p * 365 + p / 4 - p / 100 + p / 400

-- The weekday on which a month of the calendar begins, 0 for Sunday.
unfoldable pub month_weekday : ℕ → ℕ → ℕ
unfolding days_before_month days_before_year
month_weekday y m = (days_before_year y + days_before_month y m + 1) % 7

-- `new Date(year, month, 1).getDay()`.
unfoldable pub first_weekday : ℕ → ℕ → ℕ
unfolding month_weekday
first_weekday y m = month_weekday (full_year y) m

-- `a < b` and `a <= b` on dates.
unfoldable pub date_lt : LocalDate → LocalDate → Bool
date_lt a b =
    if nat_beq a.year b.year
    then (if nat_beq a.month b.month then ltb a.date b.date else ltb a.month b.month)
    else ltb a.year b.year

abbrev pub date_le : LocalDate → LocalDate → Bool
date_le a b = not (date_lt b a)

-- `new Date(Math.max(a, b))`.
abbrev pub later : LocalDate → LocalDate → LocalDate
later a b = if date_lt a b then b else a

-- `String(n)`, for n below 10 ^ 7.
unfoldable pub decimal : ℕ → ℕ → List ℕ
decimal zero n = []
decimal (suc fuel) n =
    let front = decimal fuel (n / 10) in
    if ltb n 10 then (48 + n) ∷ [] else front ++ (48 + n % 10) ∷ []

unfoldable pub text_of : ℕ → List ℕ
unfolding decimal
text_of n = decimal 7 n

-- `text.padStart(2, "0")`.
unfoldable pub pad_start : List ℕ → List ℕ
pad_start [] = b'0' ∷ b'0' ∷ []
pad_start (c ∷ []) = b'0' ∷ c ∷ []
pad_start cs = cs

unfoldable pub to_date_key : LocalDate → List ℕ
unfolding text_of pad_start
to_date_key t =
    text_of t.year
    ++ (b'-' ∷ (pad_start (text_of (t.month + 1)) ++ (b'-' ∷ pad_start (text_of t.date))))

-- A date that the calendar has, with a year of four digits.
pub record IsDate (t : LocalDate) : Type 0 where
  pub year_in : (1000 ≤ t.year) × (t.year ≤ 9999)
  pub month_in : t.month ≤ 11
  pub date_in : (1 ≤ t.date) × (t.date ≤ month_length t.year t.month)

-- `key.split("-")`.
split_dash : List ℕ → List (List ℕ)
split_dash [] = [] ∷ []
split_dash (c ∷ cs) = elim (split_dash cs) [
  | [] ↦ []
  | part ∷ parts ↦ if nat_beq c b'-' then [] ∷ part ∷ parts else (c ∷ part) ∷ parts
]

-- `Number(text)` of a text of digits.
number_from : ℕ → List ℕ → ℕ
number_from n [] = n
number_from n (c ∷ cs) = number_from (n * 10 + (c - b'0')) cs

-- The year, month and day that the parts of a key name; `none` stands for an invalid `Date`.
of_parts : List (List ℕ) → Option (ℕ × ℕ × ℕ)
of_parts (y ∷ m ∷ d ∷ _) = some (number_from 0 y, number_from 0 m, number_from 0 d)
of_parts _ = none

-- `parseDateKey(key)`.
unfoldable pub parse_date_key : List ℕ → Option LocalDate
unfolding split_dash of_parts number_from
parse_date_key key = Option.map (λ (y, m, d). new_date y (m - 1) d) (of_parts (split_dash key))

-- `new Date(key + "T00:00:00")`, which takes the year as it stands.
unfoldable pub read_date : List ℕ → Option LocalDate
unfolding split_dash of_parts number_from
read_date key = Option.map (λ (y, m, d). local y (m - 1) d) (of_parts (split_dash key))
