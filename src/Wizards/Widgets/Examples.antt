-- ===== src/Wizards/Widgets/Examples.antt =====
-- The theorems on the widgets of the forms of app/frontend at a counter and a list.
use roost_assured.Common.{ℕ, ◌+◌, ◌-◌, ◌<◌, ◌≡◌, List, [], ◌∷◌, arith, number_key, string_key}
use roost_assured.Calendar.Picker.{back, forth}
use roost_assured.Wizards.Widgets.{parse_count, adjust_count, digits_from}
use roost_assured.Wizards.Widgets.Laws.{parse_count-adjust_count}

-- The text 41.
abbrev forty_one : List ℕ
forty_one = b'4' ∷ b'1' ∷ []

small : parse_count forty_one < 9999999
unfolding parse_count digits_from
small = omega arith

parse_count-adjust_count_example :
    (parse_count (adjust_count forty_one back) ≡ parse_count forty_one - 1)
    × (parse_count (adjust_count forty_one forth) ≡ parse_count forty_one + 1)
parse_count-adjust_count_example = parse_count-adjust_count forty_one small
