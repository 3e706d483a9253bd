-- ===== src/Account/Render.antt =====
-- What the page of app/frontend/pages/Account.jsx draws.
pub mod SitterForms
pub mod Flock
use mathlib.Core.List.{flat_map}
use roost_assured.Common.{
  ℕ, zero, suc, ◌+◌, ◌-◌, ◌*◌, ◌/◌, ◌%◌, ◌≤◌, ◌<◌, String, ◌≡◌, refl, sym, ap, ◌∙◌, ◌≢◌, ◌↔◌, ◌⊎◌,
  inl, inr, Bool, true, false, not, ◌&&◌, ◌||◌, Option, none, some, List, [], ◌∷◌, ◌++◌, map, arith,
  ltb, leb, nat_beq, if◌then◌else◌, ltb→lt, lt→ltb, nat_beq_iff, Bool-cases, Option-cases,
  Comparable, ◌==◌, number_key, string_key, ==_refl, ==_false, ==_comm, length, All, keep, any,
  every, find, when, length-append, length-keep, keep-append, keep-keep, contains, contains-append,
  contains-keep, first_some, without, find_id, contains-map-without, find_id-without,
  find_id-append, find_id-eq-none, All-keep, All-append,
}
use roost_assured.Common.Text.{is_empty}
use roost_assured.Common.View.{
  Node, heading, words, shown, notice, alert, child, field, option, button, submit, link,
}
use roost_assured.Api.{join}
use roost_assured.Api.Laws.{is_some}
use roost_assured.Calendar.Picker.{Delta, back, forth}
use roost_assured.Calendar.Dates.{text_of}
use roost_assured.Wizards.Options.{
  FlockSizeTier, SittingType, flock_size_tiers, coop_features, sitting_types, care_tasks,
}
use roost_assured.Wizards.Widgets.{render_checklist, parse_count}
use roost_assured.Account.{
  Section, profile, flock, dates, payment, sitter, is_section, section_label, sections, Value,
  null_value, text, digits, number, texts, keys, Field, Values, list_of, keys_of, count_of,
  missing_contact_info, SitterForm, Listing, OnboardingStatus, complete, started, restricted,
  not_begun, ApplicationStatus, pending, approved, refused, Application, User, Availability, Page,
}
use roost_assured.Account.Render.SitterForms.{
  AccountAction, go_to, edit_field, toggle_value, step_count, remove_availability, start_onboarding,
  save_dates, render_application, listing_part,
}
use roost_assured.Account.Render.Flock.{shown_value, flock_part}

notice_part : Option String → List (Node AccountAction)
notice_part none = []
notice_part (some t) = if is_empty t then [] else notice t ∷ []

profile_part : Page → Values → List (Node AccountAction)
profile_part p form =
    heading "Profile"
    ∷ field "name" (shown_value (form Field.name)) true
    ∷ field "phone_number" (shown_value (form Field.phone_number)) false
    ∷ field "address" (shown_value (form Field.address)) false
    ∷ field "city" (shown_value (form Field.city)) false
    ∷ field "state" (shown_value (form Field.state)) false
    ∷ field "zip_code" (shown_value (form Field.zip_code)) false
    ∷ submit (if p.submitting then "Saving…" else "Save changes") p.submitting
    ∷ []

dates_part : Page → Values → List (Node AccountAction)
dates_part p form =
    heading "Sitting dates"
    ∷ words "Click days on the calendar, or use the fields on the right to fill a range."
    ∷ (when (missing_contact_info form) (
          words "Add your phone number and address on the"
          ∷ button "Profile" false (go_to profile)
          ∷ words
              "tab before requesting a sitter — that's what a sitter uses to actually reach you."
          ∷ [])
        ++ (child "CalendarPicker" (length (keys_of (form Field.sitting_dates)))
            ∷ button (if p.submitting then "Saving…" else "Save dates")
                (p.submitting || missing_contact_info form) save_dates
            ∷ []))

payment_part : Page → List (Node AccountAction)
payment_part p =
    heading "Payment method"
    ∷ words
        "Add a card so you can accept a sitter's bid — you're charged when you accept, and only then."
    ∷ (when (on_file p.has_payment_method)
          (words "A card is on file. Save a new one below to replace it." ∷ [])
        ++ (child "StripeCardForm" 0 ∷ []))
  where
    on_file : Option Bool → Bool
    on_file none = false
    on_file (some has) = has

-- The line on a listing or an application, of which `applicationStatus` is null for a sitter.
status_part : User → List (Node AccountAction)
status_part u = elim u.sitter [
  | some listing ↦ words "You're an approved sitter. Edit your listing below." ∷ []
  | none ↦ elim u.sitter_application [
    | none ↦
        words
          "Sitter profiles are granted by invite after a quick application review — fill this out and we'll be in touch."
        ∷ []
    | some a ↦ elim a.status [
      | pending ↦
          words
            "Your application is pending review. You can still update your answers below while you wait."
          ∷ []
      | refused ↦
          words
            "Your application wasn't approved. You're welcome to update your answers and resubmit."
          ∷ []
      | approved ↦ []
    ]
  ]
]

abbrev bank_words : OnboardingStatus → String
bank_words complete = "Payouts are active — you're all set to get paid for accepted bids."
bank_words started =
    "You've started onboarding with Stripe but haven't finished. Complete it to get paid for accepted bids."
bank_words restricted =
    "Stripe needs more information before you can be paid — finish onboarding to resolve this."
bank_words not_begun =
    "Set up your payout account with Stripe so you can get paid when a bid is accepted."

abbrev bank_label : OnboardingStatus → String
bank_label complete = "Update bank information"
bank_label _ = "Set up payouts"

bank_part : Page → Listing → List (Node AccountAction)
bank_part p listing =
    heading "Bank information"
    ∷ words (bank_words listing.stripe_onboarding_status)
    ∷ button
        (if p.onboarding_link_loading
          then "Redirecting…"
          else bank_label listing.stripe_onboarding_status)
        p.onboarding_link_loading start_onboarding
    ∷ []

availability_line : Availability → List (Node AccountAction)
availability_line a =
    shown a.start_date
    ∷ words "–"
    ∷ shown a.end_date
    ∷ button "Remove" false (remove_availability a.id)
    ∷ []

availability_part : Page → List (Node AccountAction)
unfolding availability_line
availability_part p =
    heading "Availability"
    ∷ (flat_map availability_line p.availabilities
        ++ (field "start_date" p.new_availability.start_date true
            ∷ field "end_date" p.new_availability.end_date true
            ∷ submit "Add" false
            ∷ []))

abbrev is_key : Option String → Bool
is_key none = false
is_key (some key) = not (is_empty key)

module _ (number_text : ℕ → String) where
  -- The section of the sitter, with the form of the listing or of the application; `ready` says whether
  -- the third party's script is there.
  sitter_part : Bool → Page → User → SitterForm → List (Node AccountAction)
  unfolding status_part bank_part availability_part
  sitter_part ready p u form =
      heading "Become a sitter"
      ∷ (status_part u ++ (elim u.sitter [
        | some listing ↦
            listing_part number_text p form ++ (bank_part p listing ++ availability_part p)
        | none ↦
            if is_key p.publishable_key
            then render_application number_text ready u.sitter_application p form
            else words "Loading…" ∷ []
      ]))

  -- A page that has loaded has the form; without it the source fails.
  sitter_section : Bool → Page → User → Option SitterForm → List (Node AccountAction)
  unfolding sitter_part
  sitter_section ready p u none = []
  sitter_section ready p u (some form) = sitter_part ready p u form

  section_part : Bool → Page → User → Section → List (Node AccountAction)
  unfolding profile_part flock_part dates_part payment_part sitter_section
  section_part ready p u profile = profile_part p u.values
  section_part ready p u flock = flock_part p u.values
  section_part ready p u dates = dates_part p u.values
  section_part ready p u payment = payment_part p
  section_part ready p u sitter = sitter_section ready p u p.sitter_form

  render_form : Bool → Page → Option User → List (Node AccountAction)
  unfolding section_part notice_part
  render_form ready p none = words "Loading…" ∷ []
  render_form ready p (some u) =
      heading "Account settings"
      ∷ words "Manage your profile, flock details, and sitting requests."
      ∷ (map (λ s. option (section_label s) (is_section p.section s) (go_to s)) sections
          ++ (notice_part p.notice
              ++ (when (ltb 0 (length p.errors)) (alert (join p.errors) ∷ [])
                  ++ section_part ready p u p.section)))

  unfoldable pub render_account : Bool → Page → List (Node AccountAction)
  unfolding render_form
  render_account ready p = render_form ready p p.form
