-- ===== src/Wizards/Signup.antt =====
-- The sign-up form, app/frontend/pages/Signup.jsx. A handler that awaits the server is two
-- functions, up to the request and from the answer on. A date is its key.
pub mod Moves
pub mod Laws
pub mod Submissions
pub mod Reach
mod Examples
pub mod Render
use roost_assured.Wizards.SignupForm.{Form, initial_form, Account, account_of}
use roost_assured.Common.{
  ℕ, zero, suc, ◌+◌, ◌-◌, ◌*◌, ◌/◌, ◌%◌, ◌≤◌, ◌<◌, String, ◌≡◌, refl, sym, ap, ◌∙◌, ◌≢◌, ◌↔◌, ◌⊎◌,
  inl, inr, Bool, true, false, not, ◌&&◌, ◌||◌, Option, none, some, List, [], ◌∷◌, ◌++◌, map, arith,
  ltb, leb, nat_beq, if◌then◌else◌, ltb→lt, lt→ltb, nat_beq_iff, Bool-cases, Option-cases,
  Comparable, ◌==◌, number_key, string_key, ==_refl, ==_false, ==_comm, length, All, keep, any,
  every, find, when, length-append, length-keep, keep-append, keep-keep, contains, contains-append,
  contains-keep, first_some, without, find_id, contains-map-without, find_id-without,
  find_id-append, find_id-eq-none, All-keep, All-append,
}
use roost_assured.Common.Text.{is_empty}
use roost_assured.Api.{Settled, fulfilled, rejected, errors_or}
use roost_assured.Calendar.Picker.{Delta}
use roost_assured.Wizards.Widgets.{toggle_in_list, adjust_count}

pub record Wizard : Type 0 where
  pub step : ℕ
  pub form : Form
  pub errors : List String
  pub submitting : Bool

abbrev pub new_wizard : Wizard
new_wizard = record { step = 0; form = initial_form; errors = []; submitting = false }

-- `STEPS`, `ACCOUNT_STEP` and `DATES_STEP`.
abbrev pub steps : List String
steps =
    "Location" ∷ "Chicken math" ∷ "Coop type" ∷ "Sitting type" ∷ "Care tasks" ∷ "Feed & water setup"
    ∷ "Special requests" ∷ "Account" ∷ "Sitting dates" ∷ []

abbrev pub account_step : ℕ
account_step = 7

abbrev pub dates_step : ℕ
dates_step = 8

-- `validateStep` at the account step.
unfoldable pub validate_account : Form → Option String
validate_account form =
    if is_empty form.name
      || (is_empty form.email_address
          || (is_empty form.phone_number
              || (is_empty form.address
                  || (is_empty form.password || is_empty form.password_confirmation))))
    then some "Please fill in every field."
    else if not (form.password == form.password_confirmation)
    then some "Passwords don't match."
    else if not form.agreed_to_terms
    then some "You must agree to the Terms of Service and Privacy Policy to continue."
    else none

-- `validateStep`.
unfoldable pub validate_step : ℕ → Form → Option String
unfolding validate_account
validate_step step form =
    if nat_beq step 0 && (is_empty form.city || (is_empty form.state || is_empty form.zip_code))
    then some "Please fill in your city, state, and ZIP code."
    else if nat_beq step account_step
    then validate_account form
    else none

abbrev refuse : Wizard → Option String → Wizard → Wizard
refuse w none w' = w'
refuse w (some error) w' = record w { errors = error ∷ [] }

-- `goNext`.
unfoldable pub go_next : Wizard → Wizard
go_next w = refuse w (validate_step w.step w.form) (record w { errors = []; step = w.step + 1 })

-- `goBack`: no step before the first.
unfoldable pub go_back : Wizard → Wizard
go_back w = record w { errors = []; step = w.step - 1 }

abbrev account_answer : Wizard → Option String → Wizard × Option Account
account_answer w (some error) = (record w { errors = error ∷ [] }, none)
account_answer w none = (record w { submitting = true; errors = [] }, some (account_of w.form))

-- `createAccount` up to its request, and what it sends, if anything.
unfoldable pub create_account_start : Wizard → Wizard × Option Account
create_account_start w = account_answer w (validate_step w.step w.form)

module _ {User : Type 0} where
  -- The rest of `createAccount`, and the user that it passes to `setUser`.
  unfoldable pub create_account_finish : Settled User → Wizard → Wizard × Option User
  create_account_finish (fulfilled user) w =
      (record w { errors = []; step = dates_step; submitting = false }, some user)
  create_account_finish (rejected es) w =
      (record w { errors = errors_or es "Something went wrong."; submitting = false }, none)

  -- The rest of `saveSittingDates`, after which the visitor goes to "/" if there is a user.
  unfoldable pub save_dates_finish : Settled User → Wizard → Wizard × Option User
  save_dates_finish (fulfilled user) w = (record w { submitting = false }, some user)
  save_dates_finish (rejected es) w =
      (record w { errors = errors_or es "Something went wrong."; submitting = false }, none)

-- `saveSittingDates` up to its request, and the dates that it sends.
unfoldable pub save_dates_start : Wizard → Wizard × List (List ℕ)
save_dates_start w = (record w { submitting = true; errors = [] }, w.form.sitting_dates)

-- A request that a submission makes.
pub data Call : Type 0 where
  no_call : Call
  registration : Account → Call
  update_dates : List (List ℕ) → Call

abbrev pub call_of : Option Account → Call
call_of none = no_call
call_of (some a) = registration a

-- `onFormSubmit`.
unfoldable pub on_form_submit : Wizard → Wizard × Call
unfolding go_next create_account_start save_dates_start
on_form_submit w =
    let (created, account) = create_account_start w in
    let (saving, dates) = save_dates_start w in
    if nat_beq w.step account_step
    then (created, call_of account)
    else if nat_beq w.step dates_step
    then (saving, update_dates dates)
    else (go_next w, no_call)
