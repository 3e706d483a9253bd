-- ===== src/Account/Sitter/Parts.antt =====
-- The `FormData` that the sitter's forms of app/frontend/pages/Account.jsx are sent as. How a number is
-- written as a text is a parameter.
use Prim.Native.String.{◌++◌ as text_append}
use roost_assured.Common.{
  ℕ, String, Bool, Option, none, some, List, [], ◌∷◌, ◌++◌, map, nat_beq, if◌then◌else◌, number_key,
  string_key,
}
use roost_assured.Account.{
  Scalar, missing, entered, numeric, SitterField, first_name, middle_name, last_name,
  street_address, sitter_city, sitter_state, sitter_zip_code, bio, price_per_visit,
  years_experience, travel_radius_miles, SitterForm,
}

-- An entry of a `FormData`: its key, and a text or a file.
pub data Part : Type 0 where
  text_part file_part : String → Part

abbrev pub FormData : Type 0
FormData = List (String × Part)

-- The name of a member, and the keys of both forms.
abbrev pub member : SitterField → String
member first_name = "first_name"
member middle_name = "middle_name"
member last_name = "last_name"
member street_address = "street_address"
member sitter_city = "city"
member sitter_state = "state"
member sitter_zip_code = "zip_code"
member bio = "bio"
member price_per_visit = "price_per_visit"
member years_experience = "years_experience"
member travel_radius_miles = "travel_radius_miles"

abbrev pub key_in : String → String → String
key_in object name = text_append object (text_append "[" (text_append name "]"))

abbrev flag : Bool → Part
flag b = text_part (if b then "1" else "0")

abbrev pub file_entry : String → Option String → FormData
file_entry key none = []
file_entry key (some file) = (key, file_part file) ∷ []

abbrev pub list_entries : String → Option (List String) → FormData
list_entries key none = []
list_entries key (some values) = map (λ v. (key, text_part v)) values

abbrev pub application_scalars : List SitterField
application_scalars =
    first_name ∷ middle_name ∷ last_name ∷ street_address ∷ sitter_city ∷ sitter_state
    ∷ sitter_zip_code ∷ bio ∷ price_per_visit ∷ years_experience ∷ travel_radius_miles ∷ []

abbrev pub profile_scalars : List SitterField
profile_scalars = bio ∷ price_per_visit ∷ years_experience ∷ travel_radius_miles ∷ []

module _ (number_text : ℕ → String) where
  -- `sitterForm[f] || ""` as `append` writes it: also 0 is falsy.
  abbrev pub scalar_text : Scalar → String
  scalar_text missing = ""
  scalar_text (entered t) = t
  scalar_text (numeric n) = if nat_beq n 0 then "" else number_text n

  abbrev scalar_entries : String → List SitterField → SitterForm → FormData
  scalar_entries object fields form =
      map (λ f. (key_in object (member f), text_part (scalar_text (form.scalars f)))) fields

  -- `buildApplicationFormData`.
  unfoldable pub build_application : SitterForm → FormData
  build_application form =
      scalar_entries "sitter_application" application_scalars form
      ++ ((key_in "sitter_application" "own_flock", flag form.own_flock)
          ∷ (
            key_in "sitter_application" "background_check_consent",
            flag form.background_check_consent,
          )
          ∷ (list_entries "sitter_application[availability_days][]" form.availability_days
              ++ (list_entries "sitter_application[availability_times][]" form.availability_times
                  ++ file_entry (key_in "sitter_application" "resume") form.resume)))

  -- `buildSitterProfileFormData`.
  unfoldable pub build_profile : SitterForm → FormData
  build_profile form =
      scalar_entries "sitter" profile_scalars form
      ++ ((key_in "sitter" "own_flock", flag form.own_flock)
          ∷ (key_in "sitter" "background_check_consent", flag form.background_check_consent)
          ∷ file_entry (key_in "sitter" "profile_photo") form.profile_photo)
