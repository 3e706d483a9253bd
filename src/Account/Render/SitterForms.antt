-- ===== src/Account/Render/SitterForms.antt =====
-- The forms of the sitter's section of app/frontend/pages/Account.jsx: the application,
-- `SitterApplicationForm`, and the listing of an approved sitter.
use roost_assured.Common.{
  ℕ, String, Bool, true, false, not, ◌&&◌, ◌||◌, Option, none, some, List, [], ◌∷◌, ◌++◌, map,
  nat_beq, if◌then◌else◌, ◌==◌, number_key, string_key, when,
}
use roost_assured.Common.Text.{is_empty, text_or}
use roost_assured.Common.View.{Node, words, shown, child, checkbox, field, option, submit, link}
use roost_assured.Calendar.Picker.{Delta}
use roost_assured.Wizards.Widgets.{render_checklist}
use roost_assured.Account.{
  Section, Field, Scalar, missing, entered, numeric, SitterField, first_name, middle_name,
  last_name, street_address, sitter_city, sitter_state, sitter_zip_code, bio, price_per_visit,
  years_experience, travel_radius_miles, SitterForm, Application, Page,
}
use roost_assured.Account.Sitter.{
  availability_days, availability_times, travel_radii, member, scalar_text,
}

-- What the controls of the page do.
pub data AccountAction : Type 0 where
  go_to : Section → AccountAction
  edit_field toggle_value : Field → String → AccountAction
  step_count : Field → Delta → AccountAction
  choose_radius : ℕ → AccountAction
  toggle_weekday toggle_time : String → AccountAction
  remove_availability : ℕ → AccountAction
  start_onboarding save_dates : AccountAction

abbrev is_new : Option Application → Bool
is_new none = true
is_new (some a) = false

module _ (number_text : ℕ → String) where
  -- `sitterForm[name] || ""` in a field, which may be required.
  abbrev input : SitterForm → Bool × SitterField → Node AccountAction
  input form (required, f) = field (member f) (scalar_text number_text (form.scalars f)) required

  -- `travel_radius_miles || 10`.
  abbrev radius : Scalar → String
  radius missing = number_text 10
  radius (entered t) = text_or t (number_text 10)
  radius (numeric n) = number_text (if nat_beq n 0 then 10 else n)

  radius_part : SitterForm → List (Node AccountAction)
  radius_part form =
      words "Travel radius (miles)"
      ∷ map
          (λ r.
            option (number_text r) (number_text r == radius (form.scalars travel_radius_miles))
              (choose_radius r))
          travel_radii

abbrev or_nil : Option (List String) → List String
or_nil none = []
or_nil (some xs) = xs

-- The file on record, unless another was chosen: `resume_filename && !(resume instanceof File)`.
on_record : Option String → Option String → List (Node AccountAction)
on_record none file = []
on_record (some name) none =
    if is_empty name then [] else words "Currently on file:" ∷ shown name ∷ []
on_record (some name) (some file) = []

abbrev check_notice : List (Node AccountAction)
check_notice =
    words "Background checks are run by our third-party partner,"
    ∷ words "Checkr"
    ∷ words ". Submitting your application charges a"
    ∷ words "$50 non-refundable application fee"
    ∷ words
        ", which covers the cost of the check and processing. This fee applies whether or not your application is approved. Read the required"
    ∷ link "/background-check-disclosure"
    ∷ []

-- The fields at the top of the application.
abbrev top_fields : List (Bool × SitterField)
top_fields =
    (true, first_name)
    ∷ (false, middle_name)
    ∷ (true, last_name)
    ∷ (true, street_address)
    ∷ (true, sitter_city)
    ∷ (false, sitter_state)
    ∷ (true, sitter_zip_code)
    ∷ (true, price_per_visit)
    ∷ (false, years_experience)
    ∷ []

-- The box for the consent, the card and the button that sends.
consent_part : Bool → Bool → Page → SitterForm → List (Node AccountAction)
consent_part ready new p form =
    when new check_notice
    ++ (checkbox "background_check_consent" form.background_check_consent
        ∷ (when new (child "CardElement" 0 ∷ [])
            ++ (submit
                  (if p.sitter_submitting
                    then "Saving…"
                    else if new
                    then "Pay $50 & submit application"
                    else "Update application")
                  (p.sitter_submitting || new && not ready)
                ∷ [])))

times_part : SitterForm → List (Node AccountAction)
times_part form =
    words "Weekday availability"
    ∷ (render_checklist availability_days (or_nil form.availability_days) toggle_weekday
        ++ (words "Time of day"
            ∷ render_checklist availability_times (or_nil form.availability_times) toggle_time))

photo_part : SitterForm → Option String → List (Node AccountAction)
photo_part form (some file) = link file ∷ []
photo_part form none = elim form.profile_photo_url [
  | none ↦ []
  | some url ↦ if is_empty url then [] else link url ∷ []
]

module _ (number_text : ℕ → String) where
  -- `SitterApplicationForm`.
  unfoldable pub render_application :
      Bool → Option Application → Page → SitterForm → List (Node AccountAction)
  unfolding radius_part on_record consent_part times_part
  render_application ready application p form =
      map (input number_text form) top_fields
      ++ (radius_part number_text form
          ++ (times_part form
              ++ (input number_text form (false, bio)
                  ∷ field "resume" "" false
                  ∷ (on_record form.resume_filename form.resume
                      ++ (checkbox "own_flock" form.own_flock
                          ∷ consent_part ready (is_new application) p form)))))

  -- The form of a sitter's listing.
  unfoldable pub listing_part : Page → SitterForm → List (Node AccountAction)
  unfolding photo_part radius_part
  listing_part p form =
      photo_part form form.profile_photo
      ++ (field "profile_photo" "" false
          ∷ input number_text form (true, price_per_visit)
          ∷ input number_text form (false, years_experience)
          ∷ (radius_part number_text form
              ++ (input number_text form (false, bio)
                  ∷ checkbox "own_flock" form.own_flock
                  ∷ checkbox "background_check_consent" form.background_check_consent
                  ∷ submit (if p.sitter_submitting then "Saving…" else "Save sitter profile")
                      p.sitter_submitting
                  ∷ [])))
