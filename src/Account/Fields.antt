-- ===== src/Account/Fields.antt =====
-- The values of an account as the forms of app/frontend/pages/Account.jsx edit and send them: an
-- object of named values, in sections.
use roost_assured.Common.{
  ℕ, String, Bool, true, false, ◌||◌, List, [], ◌∷◌, map, nat_beq, if◌then◌else◌, number_key,
  string_key,
}
use roost_assured.Common.Text.{is_empty}
use roost_assured.Calendar.Picker.{Delta}
use roost_assured.Calendar.Dates.{text_of}
use roost_assured.Wizards.Widgets.{toggle_in_list, parse_count, shift_count}

-- `SECTIONS`.
pub data Section : Type 0 where
  profile flock dates payment sitter : Section

abbrev pub section_label : Section → String
section_label profile = "Profile"
section_label flock = "Flock & coop"
section_label dates = "Sitting dates"
section_label payment = "Payment method"
section_label sitter = "Become a sitter"

abbrev pub sections : List Section
sections = profile ∷ flock ∷ dates ∷ payment ∷ sitter ∷ []

abbrev pub is_section : Section → Section → Bool
is_section profile profile = true
is_section flock flock = true
is_section dates dates = true
is_section payment payment = true
is_section sitter sitter = true
is_section _ _ = false

-- A value of the account: null, a text, the text of a counter, by its code units, a number, a list of
-- texts, or a list of dates, by their keys.
pub data Value : Type 0 where
  null_value : Value
  text : String → Value
  digits : List ℕ → Value
  number : ℕ → Value
  texts : List String → Value
  keys : List (List ℕ) → Value

-- The members of the account that the forms edit.
pub data Field : Type 0 where
  name phone_number address city state zip_code : Field
  flock_size_tier coop_features sitting_type care_tasks other_care_task : Field
  feeder_count waterer_count feed_location water_location special_requests : Field
  sitting_dates : Field

abbrev pub index : Field → ℕ
index name = 0
index phone_number = 1
index address = 2
index city = 3
index state = 4
index zip_code = 5
index flock_size_tier = 6
index coop_features = 7
index sitting_type = 8
index care_tasks = 9
index other_care_task = 10
index feeder_count = 11
index waterer_count = 12
index feed_location = 13
index water_location = 14
index special_requests = 15
index sitting_dates = 16

abbrev pub is_field : Field → Field → Bool
is_field f g = nat_beq (index f) (index g)

abbrev pub Values : Type 0
Values = Field → Value

-- `{ ...form, [name]: value }`.
unfoldable pub put : Field → Value → Values → Values
put f value form g = if is_field f g then value else form g

-- `form[name] || []` of a list of texts, and of the dates.
abbrev pub list_of : Value → List String
list_of (texts xs) = xs
list_of _ = []

abbrev pub keys_of : Value → List (List ℕ)
keys_of (keys ds) = ds
keys_of _ = []

-- `!form[name]` of a text.
abbrev pub is_blank : Value → Bool
is_blank (text t) = is_empty t
is_blank null_value = true
is_blank _ = false

-- `handleChange` and `selectField`; `toggleInList`; `onChange` of the calendar.
unfoldable pub change : Field → String → Values → Values
change f value form = put f (text value) form

unfoldable pub toggle : Field → String → Values → Values
toggle f value form = put f (texts (toggle_in_list (list_of (form f)) value)) form

unfoldable pub change_dates : List (List ℕ) → Values → Values
change_dates ds form = put sitting_dates (keys ds) form

-- `parseInt(form[name], 10) || 0` of a counter, and `adjustCount`.
abbrev pub count_of : Value → ℕ
count_of (number n) = n
count_of (digits cs) = parse_count cs
count_of _ = 0

unfoldable pub adjust : Field → Delta → Values → Values
adjust f delta form = put f (digits (text_of (shift_count delta (count_of (form f))))) form

-- `missingContactInfo`.
unfoldable pub missing_contact_info : Values → Bool
missing_contact_info form =
    is_blank (form phone_number)
    || (is_blank (form address)
        || (is_blank (form city) || (is_blank (form state) || is_blank (form zip_code))))

-- The members that each of the three forms sends.
abbrev pub section_fields : Section → List Field
section_fields profile = name ∷ phone_number ∷ address ∷ city ∷ state ∷ zip_code ∷ []
section_fields flock =
    flock_size_tier ∷ coop_features ∷ sitting_type ∷ care_tasks ∷ other_care_task ∷ feeder_count
    ∷ waterer_count ∷ feed_location ∷ water_location ∷ special_requests ∷ []
section_fields dates = sitting_dates ∷ []
section_fields _ = []

-- `user` of the body of a save: of `handleProfileSubmit`, `handleFlockSubmit`, `handleSaveDates`.
unfoldable pub payload : Section → Values → List (Field × Value)
payload s form = map (λ f. (f, form f)) (section_fields s)
