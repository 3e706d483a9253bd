-- ===== src/Wizards/CareRequest.antt =====
-- The form for a new care request, app/frontend/components/CareRequestModal.jsx. Of the user that
-- it is given only the fields that it reads are kept; `none` is a field that is null. The handler
-- that awaits the server is two functions, up to the request and from the answer on.
pub mod Runs
pub mod Laws
mod Examples
pub mod Render
use roost_assured.Common.{
  ℕ, zero, suc, ◌+◌, ◌-◌, ◌*◌, ◌/◌, ◌%◌, ◌≤◌, ◌<◌, String, ◌≡◌, refl, sym, ap, ◌∙◌, ◌≢◌, ◌↔◌, ◌⊎◌,
  inl, inr, Bool, true, false, not, ◌&&◌, ◌||◌, Option, none, some, List, [], ◌∷◌, ◌++◌, map, arith,
  ltb, leb, nat_beq, if◌then◌else◌, ltb→lt, lt→ltb, nat_beq_iff, Bool-cases, Option-cases,
  Comparable, ◌==◌, number_key, string_key, ==_refl, ==_false, ==_comm, length, All, keep, any,
  every, find, when, length-append, length-keep, keep-append, keep-keep, contains, contains-append,
  contains-keep, first_some, without, find_id, contains-map-without, find_id-without,
  find_id-append, find_id-eq-none, All-keep, All-append,
}
use roost_assured.Common.Text.{is_empty, text_or}
use roost_assured.Api.{Settled, fulfilled, rejected, errors_or}
use roost_assured.Wizards.Widgets.{toggle_in_list}

pub record User : Type 0 where
  pub phone_number : Option String
  pub address : Option String
  pub city : Option String
  pub state : Option String
  pub zip_code : Option String
  pub care_tasks : Option (List String)
  pub other_care_task : Option String
  pub special_requests : Option String
  pub sitting_dates : Option (List (List ℕ))

pub record RequestForm : Type 0 where
  pub phone_number : String
  pub address : String
  pub city : String
  pub state : String
  pub zip_code : String
  pub care_tasks : List String
  pub other_care_task : String
  pub special_requests : String
  pub sitting_dates : List (List ℕ)

pub record Modal : Type 0 where
  pub step : ℕ
  pub form : RequestForm
  pub errors : List String
  pub submitting : Bool

-- `!value` and `value || ""` of a text, `value || []` of a list.
abbrev pub is_missing : Option String → Bool
is_missing none = true
is_missing (some s) = is_empty s

abbrev pub or_empty : Option String → String
or_empty none = ""
or_empty (some s) = text_or s ""

abbrev or_nil {ℓ} : {A : Type ℓ} → Option (List A) → List A
or_nil none = []
or_nil (some xs) = xs

-- `needsContactInfo`.
unfoldable pub needs_contact_info : User → Bool
needs_contact_info u =
    is_missing u.phone_number
    || (is_missing u.address
        || (is_missing u.city || (is_missing u.state || is_missing u.zip_code)))

-- `STEPS`, `LAST_STEP` and `stepOffset`.
unfoldable pub steps : User → List String
steps u =
    if needs_contact_info u
    then "Contact & address" ∷ "Care tasks" ∷ "Special requests" ∷ "Sitting dates" ∷ []
    else "Care tasks" ∷ "Special requests" ∷ "Sitting dates" ∷ []

unfoldable pub last_step : User → ℕ
unfolding steps
last_step u = length (steps u) - 1

unfoldable pub step_offset : User → ℕ
step_offset u = if needs_contact_info u then 1 else 0

-- `step === CONTACT_STEP`, where the latter may be null.
unfoldable pub is_contact_step : User → ℕ → Bool
is_contact_step u step = needs_contact_info u && nat_beq step 0

unfoldable pub new_modal : User → Modal
new_modal u = record {
  step = 0;
  form = record {
    phone_number = or_empty u.phone_number;
    address = or_empty u.address;
    city = or_empty u.city;
    state = or_empty u.state;
    zip_code = or_empty u.zip_code;
    care_tasks = or_nil u.care_tasks;
    other_care_task = or_empty u.other_care_task;
    special_requests = or_empty u.special_requests;
    sitting_dates = or_nil u.sitting_dates;
  };
  errors = [];
  submitting = false;
}

pub data RequestField : Type 0 where
  phone_number_field address_field city_field state_field zip_code_field : RequestField
  other_care_task_field special_requests_field : RequestField

-- `handleChange`.
unfoldable pub set_field : RequestField → String → RequestForm → RequestForm
set_field phone_number_field v form = record form { phone_number = v }
set_field address_field v form = record form { address = v }
set_field city_field v form = record form { city = v }
set_field state_field v form = record form { state = v }
set_field zip_code_field v form = record form { zip_code = v }
set_field other_care_task_field v form = record form { other_care_task = v }
set_field special_requests_field v form = record form { special_requests = v }

-- `toggleInList("care_tasks", value)`.
unfoldable pub toggle_care_task : String → RequestForm → RequestForm
toggle_care_task value form = record form { care_tasks = toggle_in_list form.care_tasks value }

abbrev pub lacks_contact : RequestForm → Bool
lacks_contact f =
    is_empty f.phone_number
    || (is_empty f.address || (is_empty f.city || (is_empty f.state || is_empty f.zip_code)))

-- `validateStep`.
unfoldable pub validate_step : User → ℕ → RequestForm → Option String
unfolding is_contact_step
validate_step u step form =
    if is_contact_step u step && lacks_contact form
    then some "Please fill in your phone number and address so a sitter can reach you."
    else none

abbrev pub step_min : ℕ → ℕ → ℕ
step_min a b = if ltb b a then b else a

abbrev advance : User → Modal → Option String → Modal
advance u m (some error) = record m { errors = error ∷ [] }
advance u m none = record m { errors = []; step = step_min (m.step + 1) (last_step u) }

-- `goNext` and `goBack`.
unfoldable pub go_next : User → Modal → Modal
unfolding validate_step last_step
go_next u m = advance u m (validate_step u m.step m.form)

unfoldable pub go_back : Modal → Modal
go_back m = record m { errors = []; step = m.step - 1 }

abbrev send : Modal → Option String → Modal × Option RequestForm
send m (some error) = (record m { errors = error ∷ [] }, none)
send m none = (record m { submitting = true; errors = [] }, some m.form)

-- `handleSubmit` up to its request, and the form that it sends, if any.
unfoldable pub submit_start : User → Modal → Modal × Option RequestForm
unfolding validate_step
submit_start u m = send m (validate_step u m.step m.form)

-- The rest of `handleSubmit`, and the user that it passes to `onSuccess`.
unfoldable pub submit_finish : {U : Type 0} → Settled U → Modal → Modal × Option U
submit_finish (fulfilled user) m = (record m { submitting = false }, some user)
submit_finish (rejected es) m =
    (record m { errors = errors_or es "Something went wrong."; submitting = false }, none)

-- `onFormSubmit`.
unfoldable pub on_form_submit : User → Modal → Modal × Option RequestForm
unfolding go_next submit_start last_step
on_form_submit u m = if ltb m.step (last_step u) then (go_next u m, none) else submit_start u m
