-- ===== src/Account.antt =====
-- The page component `Account` of app/frontend/pages/Account.jsx: the state of the page, and the
-- handlers that save the account, an object of named values as the server sends it and the forms edit
-- it. A handler that awaits the server is two functions, up to the call and from the answer on.
pub mod Fields
pub mod Sitter
pub mod Render
pub mod Events
pub mod Sections
mod Examples
use roost_assured.Common.{
  ℕ, zero, suc, ◌+◌, ◌-◌, ◌*◌, ◌/◌, ◌%◌, ◌≤◌, ◌<◌, String, ◌≡◌, refl, sym, ap, ◌∙◌, ◌≢◌, ◌↔◌, ◌⊎◌,
  inl, inr, Bool, true, false, not, ◌&&◌, ◌||◌, Option, none, some, List, [], ◌∷◌, ◌++◌, map, arith,
  ltb, leb, nat_beq, if◌then◌else◌, ltb→lt, lt→ltb, nat_beq_iff, Bool-cases, Option-cases,
  Comparable, ◌==◌, number_key, string_key, ==_refl, ==_false, ==_comm, length, All, keep, any,
  every, find, when, length-append, length-keep, keep-append, keep-keep, contains, contains-append,
  contains-keep, first_some, without, find_id, contains-map-without, find_id-without,
  find_id-append, find_id-eq-none, All-keep, All-append,
}
use mathlib.Core.Option
use roost_assured.Common.Text.{is_empty}
use roost_assured.Api.{Settled, fulfilled, rejected, errors_or}
use roost_assured.Calendar.Picker.{Delta}
use roost_assured.Calendar.Dates.{text_of}
use roost_assured.Wizards.Widgets.{toggle_in_list, parse_count, shift_count}
unfoldable pub use Fields.*

-- The sitter's listing and the application of a user, as the server sends them. A scalar may be
-- null, a text or a number.
pub data Scalar : Type 0 where
  missing : Scalar
  entered : String → Scalar
  numeric : ℕ → Scalar

pub data SitterField : Type 0 where
  first_name middle_name last_name street_address sitter_city sitter_state sitter_zip_code :
      SitterField
  bio price_per_visit years_experience travel_radius_miles : SitterField

-- `sitterForm`; a file is held by its name, `none` is anything but a file.
pub record SitterForm : Type 0 where
  pub scalars : SitterField → Scalar
  pub own_flock : Bool
  pub background_check_consent : Bool
  pub availability_days : Option (List String)
  pub availability_times : Option (List String)
  pub resume : Option String
  pub resume_filename : Option String
  pub profile_photo : Option String
  pub profile_photo_url : Option String

-- "complete", "pending", "restricted", and any other text or none.
pub data OnboardingStatus : Type 0 where
  complete started restricted not_begun : OnboardingStatus

pub record Listing : Type 0 where
  pub form : SitterForm
  pub stripe_onboarding_status : OnboardingStatus

-- "pending", "approved", "rejected".
pub data ApplicationStatus : Type 0 where
  pending approved refused : ApplicationStatus

pub record Application : Type 0 where
  pub form : SitterForm
  pub status : ApplicationStatus

pub record User : Type 0 where
  pub values : Values
  pub sitter : Option Listing
  pub sitter_application : Option Application

pub record Availability : Type 0 where
  pub id : ℕ
  pub start_date : String
  pub end_date : String

pub record NewAvailability : Type 0 where
  pub start_date : String
  pub end_date : String

-- The state of the page, with the user of the session, which the page sets too.
pub record Page : Type 0 where
  pub section : Section
  pub form : Option User
  pub sitter_form : Option SitterForm
  pub availabilities : List Availability
  pub new_availability : NewAvailability
  pub errors : List String
  pub notice : Option String
  pub submitting : Bool
  pub sitter_submitting : Bool
  pub has_payment_method : Option Bool
  pub onboarding_link_loading : Bool
  pub publishable_key : Option String
  pub session_user : Option User

abbrev pub no_availability : NewAvailability
no_availability = record { start_date = ""; end_date = "" }

unfoldable pub new_page : Option User → Page
new_page user = record {
  section = profile;
  form = none;
  sitter_form = none;
  availabilities = [];
  new_availability = no_availability;
  errors = [];
  notice = none;
  submitting = false;
  sitter_submitting = false;
  has_payment_method = none;
  onboarding_link_loading = false;
  publishable_key = none;
  session_user = user;
}

-- A click on a section: `setSection(s.key); setErrors([]); setNotice(null)`.
unfoldable pub choose_section : Section → Page → Page
choose_section s p = record p { section = s; errors = []; notice = none }

-- `setForm`, with an edit of the values.
abbrev edit_user : (Values → Values) → User → User
edit_user f u = record u { values = f u.values }

unfoldable pub edit_values : (Values → Values) → Page → Page
edit_values f p = record p { form = Option.map (edit_user f) p.form }

-- `save` up to its request, and from the answer on.
unfoldable pub save_start : Page → Page
save_start p = record p { submitting = true; errors = []; notice = none }

unfoldable pub save_finish : Settled User → Page → Page
save_finish (fulfilled user) p = record p {
  form = some user;
  session_user = some user;
  notice = some "Saved.";
  submitting = false;
}
save_finish (rejected es) p = record p {
  errors = errors_or es "Something went wrong.";
  submitting = false;
}

-- The rest of `addAvailability` and of `removeAvailability`, which has no `catch`.
unfoldable pub add_availability_finish : Settled (List Availability) → Page → Page
add_availability_finish (fulfilled list) p = record p {
  availabilities = list;
  new_availability = no_availability;
}
add_availability_finish (rejected es) p = record p {
  errors = errors_or es "Couldn't add availability.";
}

unfoldable pub remove_availability_finish : Settled (List Availability) → Page → Page
remove_availability_finish (fulfilled list) p = record p { availabilities = list }
remove_availability_finish (rejected es) p = p

-- The answer of `refreshPaymentMethod`: is there a card, and the key.
unfoldable pub payment_method_finish : Settled (Bool × Option String) → Page → Page
payment_method_finish (fulfilled (has, key)) p = record p {
  has_payment_method = some has;
  publishable_key = key;
}
payment_method_finish (rejected es) p = p

-- `onSaved` of the card: it asks for the payment method again.
unfoldable pub card_saved : Page → Page
card_saved p = record p { notice = some "Card saved." }

-- `handleStripeOnboarding`, and the page that the browser is sent to.
unfoldable pub onboarding_start : Page → Page
onboarding_start p = record p { onboarding_link_loading = true }

unfoldable pub onboarding_finish : Settled String → Page → Page × Option String
onboarding_finish (fulfilled url) p = (p, some url)
onboarding_finish (rejected es) p = (
  record p {
    errors = errors_or es "Couldn't start onboarding. Try again.";
    onboarding_link_loading = false;
  },
  none,
)

-- Whether the button of a section that saves values can be clicked: `disabled` of the three buttons;
-- the other sections have none.
abbrev pub blocks_save : Section → Values → Bool
blocks_save profile form = false
blocks_save flock form = false
blocks_save dates form = missing_contact_info form
blocks_save _ form = true

abbrev pub can_save : Section → Page → User → Bool
can_save s p u = is_section p.section s && (not p.submitting && not (blocks_save s u.values))
