-- ===== src/Account/Events.antt =====
-- What can happen to the page of app/frontend/pages/Account.jsx: edits, clicks on its buttons, and
-- answers. The browser's checks of `required` fields are left out, and answers other than those to a
-- save and to the sitter's requests come at any time, so there is more here than can really happen.
pub mod Sound
pub mod Calls
pub mod Runs
use mathlib.Core.Option
use roost_assured.Common.{
  ℕ, zero, suc, ◌+◌, ◌-◌, ◌*◌, ◌/◌, ◌%◌, ◌≤◌, ◌<◌, String, ◌≡◌, refl, sym, ap, ◌∙◌, ◌≢◌, ◌↔◌, ◌⊎◌,
  inl, inr, Bool, true, false, not, ◌&&◌, ◌||◌, Option, none, some, List, [], ◌∷◌, ◌++◌, map, arith,
  ltb, leb, nat_beq, if◌then◌else◌, ltb→lt, lt→ltb, nat_beq_iff, Bool-cases, Option-cases,
  Comparable, ◌==◌, number_key, string_key, ==_refl, ==_false, ==_comm, length, All, keep, any,
  every, find, when, length-append, length-keep, keep-append, keep-keep, contains, contains-append,
  contains-keep, first_some, without, find_id, contains-map-without, find_id-without,
  find_id-append, find_id-eq-none, All-keep, All-append,
}
use roost_assured.Api.{Settled, fulfilled, rejected}
use roost_assured.Api.Laws.{is_some}
use roost_assured.Calendar.Picker.{Delta}
use roost_assured.Account.{
  Section, profile, flock, dates, payment, sitter, is_section, Value, Field, is_field, Values,
  section_fields, payload, change, toggle, adjust, change_dates, SitterForm, Application, User,
  Availability, NewAvailability, Page, new_page, choose_section, edit_values, save_start,
  save_finish, add_availability_finish, remove_availability_finish, payment_method_finish,
  card_saved, onboarding_start, onboarding_finish, can_save,
}
use roost_assured.Account.Sitter.{
  account_finish, SitterEdit, edit_sitter, FormData, build_profile, sitter_start, sitter_finish,
  SitterCall, patch_profile, create_payment, post_application, patch_application, application_start,
  PaymentResult, payment_finish, submitted_notice,
}

pub data AccountEvent : Type 0 where
  account_answer : Settled (User × List Availability) → AccountEvent
  section_chosen : Section → AccountEvent
  typed toggled : Field → String → AccountEvent
  counted : Field → Delta → AccountEvent
  picked : List (List ℕ) → AccountEvent
  save_clicked : Section → AccountEvent
  save_answer : Settled User → AccountEvent
  sitter_edited : SitterEdit → AccountEvent
  profile_clicked : AccountEvent
  application_clicked : Bool → AccountEvent
  stripe_answer : PaymentResult → AccountEvent
  sitter_answer : Settled User → AccountEvent
  availability_typed : NewAvailability → AccountEvent
  availability_added availability_removed : Settled (List Availability) → AccountEvent
  payment_method_answer : Settled (Bool × Option String) → AccountEvent
  card_stored onboarding_clicked : AccountEvent
  onboarding_answer : Settled String → AccountEvent

-- The page, the saves and the sitter's requests under way, the latter with the notice for their
-- success, and all that were sent, the last first.
pub record Visit : Type 0 where
  pub page : Page
  pub saves : List (List (Field × Value))
  pub sitter_calls : List (String × SitterCall)
  pub saved : List (Section × Values)
  pub called : List SitterCall

abbrev pub new_visit : Option User → Visit
new_visit user = record {
  page = new_page user;
  saves = [];
  sitter_calls = [];
  saved = [];
  called = [];
}

abbrev pub on_page : (Page → Page) → Visit → Visit
on_page f v = record v { page = f v.page }

-- `setSitterForm` with an edit, and `setNewAvailability`.
abbrev pub set_sitter_form : (SitterForm → SitterForm) → Page → Page
set_sitter_form f p = record p { sitter_form = Option.map f p.sitter_form }

abbrev pub set_new_availability : NewAvailability → Page → Page
set_new_availability a p = record p { new_availability = a }

-- Whether the section in view has the field.
abbrev shows : Page → Field → Bool
shows p f = any (is_field f) (section_fields p.section)

abbrev pub edit_shown : Field → (Values → Values) → Visit → Visit
edit_shown f edit v = if shows v.page f then on_page (edit_values edit) v else v

-- `save`, called with the section's part of the account.
send_save : Section → User → Visit → Visit
send_save s u v = record v {
  page = save_start v.page;
  saves = payload s u.values ∷ v.saves;
  saved = (s, u.values) ∷ v.saved;
}

pub click_save : Section → Visit → Option User → Visit
unfolding send_save
click_save s v none = v
click_save s v (some u) = if can_save s v.page u then send_save s u v else v

pub answer_save : Settled User → Visit → List (List (Field × Value)) → Visit
answer_save r v [] = v
answer_save r v (c ∷ rest) = record v { page = save_finish r v.page; saves = rest }

-- A request of the sitter's side is sent, if there is one.
send_call : String → Page × Option SitterCall → Visit → Visit
send_call notice (p, none) v = record v { page = p }
send_call notice (p, some c) v = record v {
  page = p;
  sitter_calls = (notice, c) ∷ v.sitter_calls;
  called = c ∷ v.called;
}

-- The form of the section "sitter", if it is in view and not locked: the user and the form.
abbrev locked : Visit → Bool
locked v = not (is_section v.page.section sitter) || v.page.sitter_submitting

module _ (number_text : ℕ → String) where
  -- `handleSitterSubmit`, for a user with a listing.
  pub click_profile : Visit → Option User → Option SitterForm → Visit
  unfolding send_call
  click_profile v (some u) (some form) =
      if locked v || not (is_some u.sitter)
      then v
      else send_call "Sitter profile updated."
          (sitter_start v.page, some (patch_profile (build_profile number_text form))) v
  click_profile v _ _ = v

  -- `handleSubmit` of the application, for a user without one.
  pub click_application : Bool → Visit → Option User → Option SitterForm → Visit
  unfolding send_call
  click_application ready v (some u) (some form) =
      if locked v || is_some u.sitter
      then v
      else send_call (submitted_notice u.sitter_application)
          (application_start number_text u.sitter_application ready form v.page) v
  click_application ready v _ _ = v

-- The third party's answer to a payment, and the server's to the other requests.
pub answer_stripe : PaymentResult → Visit → List (String × SitterCall) → Visit
unfolding send_call
answer_stripe r v ((notice, create_payment entries) ∷ rest) =
    send_call notice (payment_finish entries r v.page) (record v { sitter_calls = rest })
answer_stripe r v _ = v

pub answer_call : Settled User → Visit → List (String × SitterCall) → Visit
answer_call r v [] = v
answer_call r v ((notice, create_payment entries) ∷ rest) = v
answer_call r v ((notice, c) ∷ rest) = record v {
  page = sitter_finish notice r v.page;
  sitter_calls = rest;
}

module _ (number_text : ℕ → String) where
  unfoldable pub on_account : Visit → AccountEvent → Visit
  unfolding click_save answer_save click_profile click_application answer_stripe answer_call
  on_account v (account_answer r) = on_page (account_finish r) v
  on_account v (section_chosen s) = on_page (choose_section s) v
  on_account v (typed f t) = edit_shown f (change f t) v
  on_account v (toggled f t) = edit_shown f (toggle f t) v
  on_account v (counted f d) = edit_shown f (adjust f d) v
  on_account v (picked ds) =
      if is_section v.page.section dates then on_page (edit_values (change_dates ds)) v else v
  on_account v (save_clicked s) = click_save s v v.page.form
  on_account v (save_answer r) = answer_save r v v.saves
  on_account v (sitter_edited e) = on_page (set_sitter_form (edit_sitter e)) v
  on_account v profile_clicked = click_profile number_text v v.page.form v.page.sitter_form
  on_account v (application_clicked ready) =
      click_application number_text ready v v.page.form v.page.sitter_form
  on_account v (stripe_answer r) = answer_stripe r v v.sitter_calls
  on_account v (sitter_answer r) = answer_call r v v.sitter_calls
  on_account v (availability_typed a) = on_page (set_new_availability a) v
  on_account v (availability_added r) = on_page (add_availability_finish r) v
  on_account v (availability_removed r) = on_page (remove_availability_finish r) v
  on_account v (payment_method_answer r) = on_page (payment_method_finish r) v
  on_account v card_stored = on_page card_saved v
  on_account v onboarding_clicked = on_page onboarding_start v
  on_account v (onboarding_answer r) = on_page (λ p. (onboarding_finish r p).0) v
