-- ===== src/Wizards/Signup/Examples.antt =====
-- A visitor who signs up with the form of app/frontend/pages/Signup.jsx.
use roost_assured.Common.{String, refl, true, number_key, string_key}
use roost_assured.Api.{fulfilled}
use roost_assured.Wizards.SignupForm.{
  TextField, account_of, city_field, state_field, zip_code_field, name_field, email_address_field,
  phone_number_field, address_field, password_field, password_confirmation_field, set_field,
}
use roost_assured.Wizards.Signup.{
  on_form_submit, go_next, validate_step, validate_account, create_account_start, save_dates_start,
}
use roost_assured.Wizards.Signup.Moves.{
  World, new_world, set_form, submit_form, account_answered, Move, typed, agreed, submitted,
  answered_account, Moves, here, then_move,
}
use roost_assured.Wizards.Signup.Laws.{IsSound}
use roost_assured.Wizards.Signup.Reach.{reached-IsSound}

abbrev type_in : TextField → String → World String → World String
type_in f v w = set_form (set_field f v) w

abbrev agree : World String → World String
agree w = set_form (λ form. record form { agreed_to_terms = true }) w

abbrev located_world : World String
located_world =
    type_in zip_code_field "97214"
      (type_in state_field "OR" (type_in city_field "Portland" new_world))

abbrev account_world : World String
account_world = submit_form (
    submit_form (submit_form (submit_form (submit_form (submit_form (submit_form located_world))))))

abbrev filled_world : World String
filled_world = agree (
    type_in password_confirmation_field "eggs" (
      type_in password_field "eggs" (
        type_in address_field "1 Coop Lane" (
          type_in phone_number_field "555-0148" (
            type_in email_address_field "ada@example.com"
              (type_in name_field "Ada" account_world))))))

abbrev dates_world : World String
dates_world = account_answered (fulfilled "Ada") (submit_form filled_world)

-- One more move.
abbrev and_then : {v w : World String} → Moves new_world v → Move v w → Moves new_world w
and_then {v} {w} ms m = then_move new_world v w ms m

located_moves : Moves new_world located_world
unfolding new_world
located_moves =
    and_then
      (and_then (and_then (here new_world) (typed _ city_field "Portland" refl))
        (typed _ state_field "OR" refl))
      (typed _ zip_code_field "97214" refl)

account_moves : Moves new_world account_world
unfolding new_world submit_form on_form_submit go_next validate_step validate_account set_field
    create_account_start save_dates_start
account_moves =
    and_then
      (and_then
        (and_then
          (and_then
            (and_then (and_then (and_then located_moves (submitted _ refl)) (submitted _ refl))
              (submitted _ refl))
            (submitted _ refl))
          (submitted _ refl))
        (submitted _ refl))
      (submitted _ refl)

filled_moves : Moves new_world filled_world
unfolding new_world submit_form on_form_submit go_next validate_step validate_account set_field
    create_account_start save_dates_start
filled_moves =
    and_then
      (and_then
        (and_then
          (and_then
            (and_then
              (and_then (and_then account_moves (typed _ name_field "Ada" refl))
                (typed _ email_address_field "ada@example.com" refl))
              (typed _ phone_number_field "555-0148" refl))
            (typed _ address_field "1 Coop Lane" refl))
          (typed _ password_field "eggs" refl))
        (typed _ password_confirmation_field "eggs" refl))
      (agreed _ true refl)

dates_moves : Moves new_world dates_world
unfolding new_world submit_form on_form_submit go_next validate_step validate_account set_field
    create_account_start save_dates_start
dates_moves =
    and_then (and_then filled_moves (submitted _ refl))
      (answered_account _ (account_of filled_world.wizard.form) (fulfilled "Ada") refl)

reached-IsSound_example : IsSound dates_world
reached-IsSound_example = reached-IsSound dates_world dates_moves
