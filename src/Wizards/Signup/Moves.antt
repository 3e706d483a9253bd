-- ===== src/Wizards/Signup/Moves.antt =====
-- What can happen to the form of app/frontend/pages/Signup.jsx: the moves that a visitor can make
-- with what the page shows, and the answers of the server to its requests. The checks that a
-- browser makes of `required` fields are left out, so the moves here are more than the real ones.
use roost_assured.Common.{
  ℕ, ◌<◌, String, ◌≡◌, Bool, true, false, Option, none, some, List, [], ◌∷◌, number_key, string_key,
  first_some,
}
use roost_assured.Api.{Settled}
use roost_assured.Calendar.Picker.{Delta}
use roost_assured.Wizards.SignupForm.{
  Form, TextField, ListField, CountField, Account, set_field, toggle_field, adjust_field,
  city_field, state_field, zip_code_field, flock_size_tier_field, sitting_type_field,
  other_care_task_field, feed_location_field, water_location_field, special_requests_field,
  coop_features_field, care_tasks_field,
}
use roost_assured.Wizards.Signup.{
  Wizard, new_wizard, Call, go_back, on_form_submit, create_account_finish, save_dates_finish,
  no_call, registration, update_dates, account_step, dates_step,
}

-- The form, the user that `setUser` was last given, whether `navigate("/")` was called, the request
-- that is under way, and the forms that were sent to the registration endpoint, the last first.
pub record World (User : Type 0) : Type 0 where
  pub wizard : Wizard
  pub user : Option User
  pub left : Bool
  pub in_flight : Call
  pub registered : List Form

unfoldable pub new_world : {User : Type 0} → World User
new_world = record {
  wizard = new_wizard;
  user = none;
  left = false;
  in_flight = no_call;
  registered = [];
}

-- The step that shows a field.
abbrev pub step_of_text : TextField → ℕ
step_of_text city_field = 0
step_of_text state_field = 0
step_of_text zip_code_field = 0
step_of_text flock_size_tier_field = 1
step_of_text sitting_type_field = 3
step_of_text other_care_task_field = 4
step_of_text feed_location_field = 5
step_of_text water_location_field = 5
step_of_text special_requests_field = 6
step_of_text _ = account_step

abbrev pub step_of_list : ListField → ℕ
step_of_list coop_features_field = 2
step_of_list care_tasks_field = 4

abbrev pub set_form : {User : Type 0} → (Form → Form) → World User → World User
set_form f w = record w { wizard = record w.wizard { form = f w.wizard.form } }

-- The forms registered so far, with the one that a submission sends.
abbrev note_registration : Call → Form → List Form → List Form
note_registration (registration a) f fs = f ∷ fs
note_registration _ f fs = fs

module _ {User : Type 0} where
  -- What a submission leaves behind.
  abbrev pub after : Wizard × Call → World User → World User
  after (wizard, call) w = record w {
    wizard = wizard;
    in_flight = call;
    registered = note_registration call w.wizard.form w.registered;
  }

  unfoldable pub submit_form : World User → World User
  submit_form w = after (on_form_submit w.wizard) w

  unfoldable pub leave : World User → World User
  leave w = record w { left = true }

  unfoldable pub account_answered : Settled User → World User → World User
  unfolding create_account_finish
  account_answered r w =
      let (wizard, user) = create_account_finish r w.wizard in
      record w { wizard = wizard; user = first_some user w.user; in_flight = no_call }

  unfoldable pub dates_answered : Settled User → World User → World User
  unfolding save_dates_finish
  dates_answered r w =
      let (wizard, user) = save_dates_finish r w.wizard in
      record w {
        wizard = wizard;
        user = first_some user w.user;
        left = elim user [ none ↦ w.left | some u ↦ true ];
        in_flight = no_call;
      }

pub data Move {User : Type 0} : World User → World User → Type 0 where
  typed :
      (w : World User) (f : TextField) (v : String)
      → w.wizard.step ≡ step_of_text f
      → Move w (set_form (set_field f v) w)
  toggled :
      (w : World User) (f : ListField) (v : String)
      → w.wizard.step ≡ step_of_list f
      → Move w (set_form (toggle_field f v) w)
  counted :
      (w : World User) (f : CountField) (delta : Delta)
      → w.wizard.step ≡ 5
      → Move w (set_form (adjust_field f delta) w)
  agreed :
      (w : World User) (checked : Bool)
      → w.wizard.step ≡ account_step
      → Move w (set_form (λ form. record form { agreed_to_terms = checked }) w)
  picked :
      (w : World User) (dates : List (List ℕ))
      → w.wizard.step ≡ dates_step
      → Move w (set_form (λ form. record form { sitting_dates = dates }) w)
  submitted : (w : World User) → w.wizard.submitting ≡ false → Move w (submit_form w)
  went_back :
      (w : World User)
      → w.wizard.submitting ≡ false
      → 0 < w.wizard.step
      → w.wizard.step < dates_step
      → Move w (record w { wizard = go_back w.wizard })
  skipped :
      (w : World User) → w.wizard.submitting ≡ false → w.wizard.step ≡ dates_step → Move w (leave w)
  closed : (w : World User) → Move w (leave w)
  answered_account :
      (w : World User) (a : Account) (r : Settled User)
      → w.in_flight ≡ registration a
      → Move w (account_answered r w)
  answered_dates :
      (w : World User) (dates : List (List ℕ)) (r : Settled User)
      → w.in_flight ≡ update_dates dates
      → Move w (dates_answered r w)

-- Any number of moves.
pub data Moves {User : Type 0} : World User → World User → Type 0 where
  here : (w : World User) → Moves w w
  then_move : (u v w : World User) → Moves u v → Move v w → Moves u w
