-- ===== src/Account/Sitter.antt =====
-- The sitter's side of app/frontend/pages/Account.jsx: the form of a listing or an application, and
-- the handlers that send it. How a number is written as a text is a parameter.
pub mod Parts
pub mod Payments
pub mod Entries
use Prim.Native.String.{◌++◌ as text_append}
use roost_assured.Common.{
  ℕ, zero, suc, ◌+◌, ◌-◌, ◌*◌, ◌/◌, ◌%◌, ◌≤◌, ◌<◌, String, ◌≡◌, refl, sym, ap, ◌∙◌, ◌≢◌, ◌↔◌, ◌⊎◌,
  inl, inr, Bool, true, false, not, ◌&&◌, ◌||◌, Option, none, some, List, [], ◌∷◌, ◌++◌, map, arith,
  ltb, leb, nat_beq, if◌then◌else◌, ltb→lt, lt→ltb, nat_beq_iff, Bool-cases, Option-cases,
  Comparable, ◌==◌, number_key, string_key, ==_refl, ==_false, ==_comm, length, All, keep, any,
  every, find, when, length-append, length-keep, keep-append, keep-keep, contains, contains-append,
  contains-keep, first_some, without, find_id, contains-map-without, find_id-without,
  find_id-append, find_id-eq-none, All-keep, All-append,
}
use roost_assured.Common.Text.{is_empty, text_or}
use roost_assured.Api.{Settled, fulfilled, rejected, errors_or}
use roost_assured.Wizards.Widgets.{toggle_in_list}
use roost_assured.Account.{
  Scalar, missing, entered, numeric, SitterField, first_name, middle_name, last_name,
  street_address, sitter_city, sitter_state, sitter_zip_code, bio, price_per_visit,
  years_experience, travel_radius_miles, SitterForm, Listing, Application, User, Availability, Page,
}
unfoldable pub use Parts.*

-- `AVAILABILITY_DAYS`, `AVAILABILITY_TIMES` and `TRAVEL_RADII`.
abbrev pub availability_days : List String
availability_days =
    "Monday" ∷ "Tuesday" ∷ "Wednesday" ∷ "Thursday" ∷ "Friday" ∷ "Saturday" ∷ "Sunday" ∷ []

abbrev pub availability_times : List String
availability_times = "Morning" ∷ "Evening" ∷ []

abbrev pub travel_radii : List ℕ
travel_radii = 5 ∷ 10 ∷ 15 ∷ 20 ∷ 25 ∷ 50 ∷ []

-- The form of a user who has neither a listing nor an application.
abbrev blank_scalars : SitterField → Scalar
blank_scalars travel_radius_miles = numeric 10
blank_scalars _ = entered ""

abbrev pub blank_form : SitterForm
blank_form = record {
  scalars = blank_scalars;
  own_flock = false;
  background_check_consent = false;
  availability_days = some [];
  availability_times = some [];
  resume = none;
  resume_filename = none;
  profile_photo = none;
  profile_photo_url = none;
}

abbrev application_form : Option Application → Option SitterForm
application_form none = none
application_form (some a) = some a.form

-- `user.sitter || user.sitter_application`.
unfoldable pub sitter_form_of : User → Option SitterForm
sitter_form_of u = elim u.sitter [
  | some listing ↦ some listing.form
  | none ↦ application_form u.sitter_application
]

abbrev or_blank_form : Option SitterForm → SitterForm
or_blank_form none = blank_form
or_blank_form (some f) = f

-- The answer of /account, which has no `catch`.
unfoldable pub account_finish : Settled (User × List Availability) → Page → Page
unfolding sitter_form_of
account_finish (fulfilled (user, list)) p = record p {
  form = some user;
  sitter_form = some (or_blank_form (sitter_form_of user));
  availabilities = list;
}
account_finish (rejected es) p = p

abbrev index : SitterField → ℕ
index first_name = 0
index middle_name = 1
index last_name = 2
index street_address = 3
index sitter_city = 4
index sitter_state = 5
index sitter_zip_code = 6
index bio = 7
index price_per_visit = 8
index years_experience = 9
index travel_radius_miles = 10

abbrev pub put_scalar : SitterField → Scalar → (SitterField → Scalar) → SitterField → Scalar
put_scalar f value scalars g = if nat_beq (index f) (index g) then value else scalars g

abbrev toggled : Option (List String) → String → Option (List String)
toggled none value = some (value ∷ [])
toggled (some list) value = some (toggle_in_list list value)

-- `handleSitterChange`, `toggleSitterList`, `handleResumeChange` and `handleProfilePhotoChange`.
pub data SitterEdit : Type 0 where
  set_scalar : SitterField → String → SitterEdit
  set_own_flock set_consent : Bool → SitterEdit
  toggle_day toggle_time : String → SitterEdit
  set_resume set_photo : Option String → SitterEdit

unfoldable pub edit_sitter : SitterEdit → SitterForm → SitterForm
edit_sitter (set_scalar f value) form = record form {
  scalars = put_scalar f (entered value) form.scalars;
}
edit_sitter (set_own_flock checked) form = record form { own_flock = checked }
edit_sitter (set_consent checked) form = record form { background_check_consent = checked }
edit_sitter (toggle_day value) form = record form {
  availability_days = toggled form.availability_days value;
}
edit_sitter (toggle_time value) form = record form {
  availability_times = toggled form.availability_times value;
}
edit_sitter (set_resume file) form = record form { resume = file }
edit_sitter (set_photo file) form = record form { profile_photo = file }

-- The first lines of `handleSitterSubmit` and of `handleSubmit` of the application.
unfoldable pub sitter_start : Page → Page
sitter_start p = record p { sitter_submitting = true; errors = []; notice = none }

-- What both do with an answer of the server: `notice` is the text that they then show.
unfoldable pub sitter_finish : String → Settled User → Page → Page
unfolding sitter_form_of
sitter_finish notice (fulfilled user) p = record p {
  form = some user;
  sitter_form = sitter_form_of user;
  session_user = some user;
  notice = some notice;
  sitter_submitting = false;
}
sitter_finish notice (rejected es) p = record p {
  errors = errors_or es "Something went wrong.";
  sitter_submitting = false;
}

-- The requests of the sitter's side: the listing, and for an application the payment method, by the
-- third party, the application with it, or an update of the application.
pub data SitterCall : Type 0 where
  patch_profile create_payment post_application patch_application : FormData → SitterCall

-- `handleSubmit` of the application, up to its first call, if it makes one: `ready` says whether
-- the third party's script is there.
unfoldable pub application_start :
    (number_text : ℕ → String) (application : Option Application) (ready : Bool)
    → SitterForm
    → Page
    → Page × Option SitterCall
unfolding sitter_start build_application
application_start number_text (some a) ready form p =
    (sitter_start p, some (patch_application (build_application number_text form)))
application_start number_text none ready form p =
    if ready
    then (sitter_start p, some (create_payment (build_application number_text form)))
    else (record (sitter_start p) { sitter_submitting = false }, none)

-- What the third party answers: an error with its message, the id of a payment method, or a promise
-- that is rejected, with `err.data?.errors` of what is thrown.
pub data PaymentResult : Type 0 where
  stripe_error payment_method : String → PaymentResult
  payment_thrown : Option (List String) → PaymentResult

-- From that answer on: the call with the application, if any.
unfoldable pub payment_finish : FormData → PaymentResult → Page → Page × Option SitterCall
payment_finish entries (stripe_error message) p =
    (record p { errors = message ∷ []; sitter_submitting = false }, none)
payment_finish entries (payment_thrown es) p =
    (record p { errors = errors_or es "Something went wrong."; sitter_submitting = false }, none)
payment_finish entries (payment_method id) p =
    (p, some (post_application (entries ++ ("payment_method_id", text_part id) ∷ [])))

-- The notice of `handleApplicationSubmitted`, for the application as it was before.
abbrev pub submitted_notice : Option Application → String
submitted_notice none = "Application submitted — we'll email you once it's reviewed."
submitted_notice (some a) = "Application updated."
