-- ===== src/Account/Examples.antt =====
-- The theorems on app/frontend/pages/Account.jsx at a sitter of no experience and a new applicant.
use mathlib.Core.Option
use roost_assured.Common.{
  ℕ, zero, String, ◌≡◌, refl, true, none, some, List, [], ◌∷◌, nat_beq, if◌then◌else◌, number_key,
  string_key,
}
use roost_assured.Api.{fulfilled, rejected}
use roost_assured.Account.{
  profile, sitter, text, null_value, name, feed_location, Values, put, payload, is_section,
  years_experience, numeric, SitterForm, User, new_page, save_finish, missing_contact_info,
}
use roost_assured.Account.Sitter.{
  blank_form, put_scalar, text_part, file_part, build_profile, payment_method,
}
use roost_assured.Account.Sitter.Entries.{entry, typed_form, build_profile-years}
use roost_assured.Account.Sections.{merge, home_of, save_finish-values}
use roost_assured.Account.Events.{
  AccountEvent, account_answer, section_chosen, typed, save_clicked, save_answer,
  application_clicked, stripe_answer, sitter_answer,
}

abbrev as_text : ℕ → String
as_text zero = "0"
as_text n = "some"

abbrev empty_values : Values
empty_values f = null_value

abbrev applicant : User
applicant = record { values = empty_values; sitter = none; sitter_application = none }

abbrev typed_values : Values
typed_values = put feed_location (text "Garage") (put name (text "Ada") empty_values)

abbrev beginner : SitterForm
beginner = record blank_form { scalars = λ f. numeric 0 }

abbrev application_run : List AccountEvent
application_run =
    account_answer (fulfilled (applicant, []))
    ∷ typed name "Ada"
    ∷ save_clicked profile
    ∷ save_answer (fulfilled applicant)
    ∷ section_chosen sitter
    ∷ application_clicked true
    ∷ stripe_answer (payment_method "pm_1")
    ∷ sitter_answer (rejected none)
    ∷ []

no_contact : missing_contact_info empty_values ≡ true
unfolding missing_contact_info
no_contact = refl

save_finish-values_example :
    let user : User = record applicant {
      values = merge (payload profile typed_values) applicant.values;
    } in
    let p' = save_finish (fulfilled user) (new_page none) in
    (Option.map (λ u. u.values feed_location) p'.form
      ≡ some (
          if is_section (home_of feed_location) profile
          then typed_values feed_location
          else applicant.values feed_location))
    × (p'.session_user ≡ p'.form)
save_finish-values_example =
    save_finish-values profile typed_values applicant (new_page none) feed_location

build_profile-years_example :
    let sent = build_profile as_text (typed_form "Hens" "20" "0" "5" beginner) in
    let stored : SitterForm = record beginner {
      scalars = put_scalar years_experience (numeric 0) beginner.scalars;
    } in
    (entry "sitter[bio]" sent ≡ some (text_part "Hens"))
    × (entry "sitter[price_per_visit]" sent ≡ some (text_part "20"))
    × (entry "sitter[years_experience]" sent ≡ some (text_part "0"))
    × (entry "sitter[travel_radius_miles]" sent ≡ some (text_part "5"))
    × (entry "sitter[own_flock]" sent ≡ some (text_part (if beginner.own_flock then "1" else "0")))
    × (entry "sitter[background_check_consent]" sent
        ≡ some (text_part (if beginner.background_check_consent then "1" else "0")))
    × (entry "sitter[profile_photo]" sent ≡ Option.map file_part beginner.profile_photo)
    × (entry "sitter[years_experience]" (build_profile as_text stored)
        ≡ some (text_part (if nat_beq 0 0 then "" else as_text 0)))
build_profile-years_example = build_profile-years as_text beginner "Hens" "20" "0" "5" 0
