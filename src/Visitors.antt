-- ===== src/Visitors.antt =====
-- The forms for visitors on the home page: app/frontend/components/WaitlistForm.jsx,
-- SittingWindowForm.jsx and ZipSearchForm.jsx there. A handler that awaits the server is two
-- functions; the second also says whether it calls `onSuccess`.
pub mod Waiting
mod Examples
use roost_assured.Common.{
  ℕ, zero, suc, ◌+◌, ◌-◌, ◌*◌, ◌/◌, ◌%◌, ◌≤◌, ◌<◌, String, ◌≡◌, refl, sym, ap, ◌∙◌, ◌≢◌, ◌↔◌, ◌⊎◌,
  inl, inr, Bool, true, false, not, ◌&&◌, ◌||◌, Option, none, some, List, [], ◌∷◌, ◌++◌, map, arith,
  ltb, leb, nat_beq, if◌then◌else◌, ltb→lt, lt→ltb, nat_beq_iff, Bool-cases, Option-cases,
  Comparable, ◌==◌, number_key, string_key, ==_refl, ==_false, ==_comm, length, All, keep, any,
  every, find, when, length-append, length-keep, keep-append, keep-keep, contains, contains-append,
  contains-keep, first_some, without, find_id, contains-map-without, find_id-without,
  find_id-append, find_id-eq-none, All-keep, All-append,
}
use roost_assured.Common.Text.{is_empty, text_or}
use roost_assured.Common.View.{
  Node, words, alert, notice, child, field, option, button, submit, link,
}
use roost_assured.Api.{Settled, fulfilled, rejected, message_or}
use roost_assured.Home.{Signup}

-- The props of `WaitlistForm` but for `onSuccess`, and its form.
pub record WaitlistProps : Type 0 where
  pub city : Option String
  pub state : Option String
  pub zip_code : Option String
  pub referral_code : Option String
  pub lock_zip : Bool

pub data Role : Type 0 where
  owner sitter both : Role

pub record WaitlistFields : Type 0 where
  pub email : String
  pub city : String
  pub state : String
  pub zip_code : String
  pub role : Role

pub record Waitlist : Type 0 where
  pub form : WaitlistFields
  pub error : Option String
  pub submitted : Option Signup
  pub submitting : Bool

abbrev or_empty : Option String → String
or_empty none = ""
or_empty (some t) = text_or t ""

unfoldable pub new_waitlist : WaitlistProps → Waitlist
new_waitlist props = record {
  form = record {
    email = "";
    city = or_empty props.city;
    state = or_empty props.state;
    zip_code = or_empty props.zip_code;
    role = owner;
  };
  error = none;
  submitted = none;
  submitting = false;
}

pub data WaitlistEdit : Type 0 where
  set_email set_city set_state set_zip_code : String → WaitlistEdit
  set_role : Role → WaitlistEdit

-- `handleChange`.
unfoldable pub edit_waitlist : WaitlistEdit → Waitlist → Waitlist
edit_waitlist (set_email v) w = record w { form = record w.form { email = v } }
edit_waitlist (set_city v) w = record w { form = record w.form { city = v } }
edit_waitlist (set_state v) w = record w { form = record w.form { state = v } }
edit_waitlist (set_zip_code v) w = record w { form = record w.form { zip_code = v } }
edit_waitlist (set_role v) w = record w { form = record w.form { role = v } }

-- `handleSubmit` up to its request, and the form and the code that it sends.
unfoldable pub waitlist_start : WaitlistProps → Waitlist → Waitlist × WaitlistFields × Option String
waitlist_start props w = (record w { submitting = true; error = none }, w.form, props.referral_code)

-- The rest of `handleSubmit`.
unfoldable pub waitlist_finish : Settled Signup → Waitlist → Waitlist × Bool
waitlist_finish (fulfilled signup) w =
    (record w { submitted = some signup; submitting = false }, true)
waitlist_finish (rejected es) w =
    (record w { error = some (message_or es "Something went wrong."); submitting = false }, false)

abbrev is_role : Role → Role → Bool
is_role owner owner = true
is_role sitter sitter = true
is_role both both = true
is_role _ _ = false

abbrev error_part : {A : Type 0} → Option String → List (Node A)
error_part none = []
error_part (some t) = if is_empty t then [] else alert t ∷ []

abbrev referral_link : Option String → List (Node WaitlistEdit)
referral_link none = []
referral_link (some code) = if is_empty code then [] else child "CopyReferralLink" 0 ∷ []

abbrev submitted_part : Signup → List (Node WaitlistEdit)
submitted_part signup =
    notice "You're on the list — we'll email you when Roost Assured launches near you."
    ∷ referral_link signup.referral_code

waitlist_form : WaitlistProps → Waitlist → List (Node WaitlistEdit)
waitlist_form props w =
    error_part w.error
    ++ (field "email" w.form.email true
        ∷ (when (not props.lock_zip) (
              field "city" w.form.city true
              ∷ field "state" w.form.state true
              ∷ field "zip_code" w.form.zip_code true
              ∷ [])
            ++ (option "Chicken owner" (is_role w.form.role owner) (set_role owner)
                ∷ option "Sitter" (is_role w.form.role sitter) (set_role sitter)
                ∷ option "Both" (is_role w.form.role both) (set_role both)
                ∷ submit (if w.submitting then "Joining…" else "Join the waitlist") w.submitting
                ∷ [])))

unfoldable pub render_waitlist : WaitlistProps → Waitlist → List (Node WaitlistEdit)
unfolding waitlist_form
render_waitlist props w = elim w.submitted [
  | none ↦ waitlist_form props w
  | some signup ↦ submitted_part signup
]

-- `SittingWindowForm`, whose errors are not shown.
pub record Window : Type 0 where
  pub sitting_start_date : String
  pub sitting_end_date : String
  pub submitting : Bool

abbrev pub new_window : Window
new_window = record { sitting_start_date = ""; sitting_end_date = ""; submitting = false }

-- `handleChange`.
pub data WindowField : Type 0 where
  start_date_field end_date_field : WindowField

unfoldable pub change_window : WindowField → String → Window → Window
change_window start_date_field value w = record w { sitting_start_date = value }
change_window end_date_field value w = record w { sitting_end_date = value }

pub data WindowAction : Type 0 where
  skip : WindowAction

-- `handleSubmit` and `handleSkip` up to the request, and the dates that it sends, if any.
unfoldable pub window_start : Window → Window × Option (String × String)
window_start w = (record w { submitting = true }, some (w.sitting_start_date, w.sitting_end_date))

unfoldable pub skip_start : Window → Window × Option (String × String)
skip_start w = (record w { submitting = true }, none)

-- The rest of both.
unfoldable pub window_finish : Settled {0} Unit → Window → Window × Bool
window_finish (fulfilled r) w = (record w { submitting = false }, true)
window_finish (rejected es) w = (record w { submitting = false }, false)

unfoldable pub render_window : Window → List (Node WindowAction)
render_window w =
    field "sitting_start_date" w.sitting_start_date false
    ∷ field "sitting_end_date" w.sitting_end_date false
    ∷ submit "Continue" w.submitting
    ∷ button "Skip for now" w.submitting skip
    ∷ []

-- `ZipSearchForm`, with the kind of care, both of which are available.
pub data CareType : Type 0 where
  sitting coop_care : CareType

pub record Search : Type 0 where
  pub care_type : CareType
  pub city : String
  pub state : String
  pub zip_code : String
  pub error : Option String
  pub submitting : Bool

unfoldable pub new_search : Search
new_search = record {
  care_type = sitting;
  city = "";
  state = "";
  zip_code = "";
  error = none;
  submitting = false;
}

-- `handleChange`.
pub data SearchField : Type 0 where
  city_field state_field zip_code_field : SearchField

unfoldable pub change_search : SearchField → String → Search → Search
change_search city_field value s = record s { city = value }
change_search state_field value s = record s { state = value }
change_search zip_code_field value s = record s { zip_code = value }

abbrev pub choose_care_type : CareType → Search → Search
choose_care_type type s = record s { care_type = type }

-- `handleSubmit` up to its request, and what it sends: the kind of care is not among it.
unfoldable pub search_start : Search → Search × String × String × String
search_start s = (record s { submitting = true; error = none }, s.city, s.state, s.zip_code)

unfoldable pub search_finish : Settled {0} Unit → Search → Search × Bool
search_finish (fulfilled r) s = (record s { submitting = false }, true)
search_finish (rejected es) s =
    (record s { error = some (message_or es "Something went wrong."); submitting = false }, false)

abbrev is_care_type : CareType → CareType → Bool
is_care_type sitting sitting = true
is_care_type coop_care coop_care = true
is_care_type _ _ = false

unfoldable pub render_search : Search → List (Node CareType)
render_search s =
    words "What kind of care are you looking for?"
    ∷ option "Chicken Sitting" (is_care_type s.care_type sitting) sitting
    ∷ option "Coop Care" (is_care_type s.care_type coop_care) coop_care
    ∷ (error_part s.error
        ++ (field "city" s.city true
            ∷ field "state" s.state true
            ∷ field "zip_code" s.zip_code true
            ∷ submit (if s.submitting then "Searching…" else "Search") s.submitting
            ∷ link "/become-a-sitter"
            ∷ words "Become a Sitter"
            ∷ words "NEW"
            ∷ words "Earn money caring for flocks near you"
            ∷ link "/become-a-sitter"
            ∷ []))
