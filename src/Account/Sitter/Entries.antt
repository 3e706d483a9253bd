-- ===== src/Account/Sitter/Entries.antt =====
-- What the listing of a sitter, edited on app/frontend/pages/Account.jsx, is sent as.
use roost_assured.Common.{
  ℕ, String, ◌≡◌, refl, true, Option, none, some, [], ◌∷◌, nat_beq, if◌then◌else◌, ◌==◌, number_key,
  string_key,
}
use mathlib.Core.Option
use roost_assured.Account.{
  numeric, bio, price_per_visit, years_experience, travel_radius_miles, SitterForm,
}
use roost_assured.Account.Sitter.{
  set_scalar, edit_sitter, put_scalar, Part, text_part, file_part, FormData, file_entry,
  build_profile,
}

-- The first entry with the key.
abbrev pub entry : String → FormData → Option Part
entry key [] = none
entry key (e ∷ entries) = if e.0 == key then some e.1 else entry key entries

entry-file_entry :
    (key : String) (file : Option String)
    → key == key ≡ true
    → entry key (file_entry key file) ≡ Option.map file_part file
entry-file_entry key none h = refl
entry-file_entry key (some name) h = rw h refl

-- The form with its four texts typed in.
abbrev pub typed_form : String → String → String → String → SitterForm → SitterForm
typed_form about price years miles form = edit_sitter (set_scalar travel_radius_miles miles) (
    edit_sitter (set_scalar years_experience years)
      (edit_sitter (set_scalar price_per_visit price) (edit_sitter (set_scalar bio about) form)))

-- A listing whose four texts are typed in is sent with each of them as typed under its own key, and
-- with both ticks and the photo of the form under theirs. If the server sent a number of years of
-- experience, it is sent back as its digits if it is not 0, and as the empty text if it is.
pub build_profile-years :
    (number_text : ℕ → String) (form : SitterForm) (about price years miles : String) (n : ℕ)
    → let sent = build_profile number_text (typed_form about price years miles form) in
      let stored : SitterForm = record form {
        scalars = put_scalar years_experience (numeric n) form.scalars;
      } in
      (entry "sitter[bio]" sent ≡ some (text_part about))
      × (entry "sitter[price_per_visit]" sent ≡ some (text_part price))
      × (entry "sitter[years_experience]" sent ≡ some (text_part years))
      × (entry "sitter[travel_radius_miles]" sent ≡ some (text_part miles))
      × (entry "sitter[own_flock]" sent ≡ some (text_part (if form.own_flock then "1" else "0")))
      × (entry "sitter[background_check_consent]" sent
          ≡ some (text_part (if form.background_check_consent then "1" else "0")))
      × (entry "sitter[profile_photo]" sent ≡ Option.map file_part form.profile_photo)
      × (entry "sitter[years_experience]" (build_profile number_text stored)
          ≡ some (text_part (if nat_beq n 0 then "" else number_text n)))
unfolding edit_sitter build_profile
build_profile-years number_text form about price years miles n = (
  refl,
  refl,
  refl,
  refl,
  refl,
  refl,
  entry-file_entry "sitter[profile_photo]" form.profile_photo refl,
  refl,
)
