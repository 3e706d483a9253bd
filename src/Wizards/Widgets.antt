-- ===== src/Wizards/Widgets.antt =====
-- What the forms of several steps share: lists of choices (`Checklist.jsx`, `toggleInList`),
-- counters (`Stepper.jsx`, `adjustCount`) and the bar of steps, of app/frontend.
pub mod Laws
mod Examples
use roost_assured.Common.{
  ℕ, zero, suc, ◌+◌, ◌-◌, ◌*◌, ◌/◌, ◌%◌, ◌≤◌, ◌<◌, String, ◌≡◌, refl, sym, ap, ◌∙◌, ◌≢◌, ◌↔◌, ◌⊎◌,
  inl, inr, Bool, true, false, not, ◌&&◌, ◌||◌, Option, none, some, List, [], ◌∷◌, ◌++◌, map, arith,
  ltb, leb, nat_beq, if◌then◌else◌, ltb→lt, lt→ltb, nat_beq_iff, Bool-cases, Option-cases,
  Comparable, ◌==◌, number_key, string_key, ==_refl, ==_false, ==_comm, length, All, keep, any,
  every, find, when, length-append, length-keep, keep-append, keep-keep, contains, contains-append,
  contains-keep, first_some, without, find_id, contains-map-without, find_id-without,
  find_id-append, find_id-eq-none, All-keep, All-append,
}
use roost_assured.Common.View.{Node, segment, option, button, number}
use roost_assured.Calendar.Picker.{Delta, back, forth}
use roost_assured.Calendar.Dates.{text_of}

-- The list that `toggleInList` puts in the place of `list`.
unfoldable pub toggle_in_list {ℓ} : {A : Type ℓ} ⦃e : Comparable A⦄ → List A → A → List A
toggle_in_list list value =
    if contains list value then keep (λ v. not (v == value)) list else list ++ value ∷ []

-- `parseInt(text, 10) || 0` of a text that has no sign and no leading space: its leading digits.
unfoldable pub digits_from : ℕ → List ℕ → ℕ
digits_from n [] = n
digits_from n (c ∷ cs) =
    let rest = digits_from (n * 10 + (c - 48)) cs in if leb 48 c && leb c 57 then rest else n

unfoldable pub parse_count : List ℕ → ℕ
unfolding digits_from
parse_count text = digits_from 0 text

-- `Math.max(0, current + delta)`.
abbrev pub shift_count : Delta → ℕ → ℕ
shift_count back n = n - 1
shift_count forth n = n + 1

-- The text that `adjustCount` puts in the place of `text`.
unfoldable pub adjust_count : List ℕ → Delta → List ℕ
unfolding parse_count
adjust_count text delta = text_of (shift_count delta (parse_count text))

-- `Checklist`: `toggle` is `onToggle`.
unfoldable pub render_checklist :
    {A : Type 0} → List String → List String → (String → A) → List (Node A)
render_checklist options value toggle = map (λ o. option o (contains value o) (toggle o)) options

-- `Stepper`.
unfoldable pub render_stepper : {A : Type 0} → List ℕ → (Delta → A) → List (Node A)
unfolding parse_count
render_stepper value change =
    button "–" false (change back)
    ∷ number (parse_count value)
    ∷ button "+" false (change forth)
    ∷ []

-- The bar of `n` steps from the i-th on: lit up to the current one.
unfoldable pub step_bar : {A : Type 0} → ℕ → ℕ → ℕ → List (Node A)
step_bar i zero step = []
step_bar i (suc n) step = segment (leb i step) ∷ step_bar (i + 1) n step
