-- ===== src/Home/Landing.antt =====
-- The first section of the page of app/frontend/pages/Home.jsx: which of its variants is shown, and
-- what each draws.
pub mod Controls
use mathlib.Core.List.{flat_map}
use roost_assured.Common.{
  ℕ, zero, suc, ◌+◌, ◌-◌, ◌*◌, ◌/◌, ◌%◌, ◌≤◌, ◌<◌, String, ◌≡◌, refl, sym, ap, ◌∙◌, ◌≢◌, ◌↔◌, ◌⊎◌,
  inl, inr, Bool, true, false, not, ◌&&◌, ◌||◌, Option, none, some, List, [], ◌∷◌, ◌++◌, map, arith,
  ltb, leb, nat_beq, if◌then◌else◌, ltb→lt, lt→ltb, nat_beq_iff, Bool-cases, Option-cases,
  Comparable, ◌==◌, number_key, string_key, ==_refl, ==_false, ==_comm, length, All, keep, any,
  every, find, when, length-append, length-keep, keep-append, keep-keep, contains, contains-append,
  contains-keep, first_some, without, find_id, contains-map-without, find_id-without,
  find_id-append, find_id-eq-none, All-keep, All-append,
}
use roost_assured.Common.Text.{is_empty}
use roost_assured.Common.View.{
  Node, heading, words, shown, number, dollars, link, button, child, counted,
}
use roost_assured.Wizards.CareRequest.{is_missing}
use roost_assured.Home.{Signup, NearbySitter, LandingData, Member, Page, date_count}
use roost_assured.Home.BidCard.{HomeAction, new_request, search_again}

-- The branches of the section, in order.
pub data Variant : Type 0 where
  welcome : Member → Variant
  on_the_list : Signup → Variant
  zip_live ask_window no_sitters referral search : Variant

-- `searched_zip` as a condition, and `referralFormShown`.
abbrev pub zip_searched : LandingData → Bool
zip_searched d = not (is_missing d.searched_zip)

abbrev pub referral_form_shown : Option String → LandingData → Bool
referral_form_shown referred_by_code d = not (is_missing referred_by_code) && not (zip_searched d)

-- The conditions of the section, one after the other.
unfoldable pub variant_of : Option String → Option Member → LandingData → Variant
variant_of referred_by_code (some user) d = welcome user
variant_of referred_by_code none d = elim d.confirmed_signup [
  | some signup ↦ on_the_list signup
  | none ↦
      if d.zip_is_live
      then zip_live
      else if zip_searched d && not d.sitting_window_asked
      then ask_window
      else if zip_searched d
      then no_sitters
      else if referral_form_shown referred_by_code d
      then referral
      else search
]

-- `{value}` of a text that may be null.
abbrev option_text : Option String → Node HomeAction
option_text none = shown ""
option_text (some t) = shown t

abbrev place : LandingData → List (Node HomeAction)
place d = option_text d.searched_city ∷ words "," ∷ option_text d.searched_state ∷ []

-- `{list.slice(0, n)}`.
first : {A : Type 0} → ℕ → List A → List A
first zero xs = []
first (suc n) [] = []
first (suc n) (x ∷ xs) = x ∷ first n xs

welcome_part : Member → List (Node HomeAction)
welcome_part user =
    words "Welcome back"
    ∷ heading "Good to see you,"
    ∷ shown user.name
    ∷ ((if ltb 0 (date_count user)
          then words "Your request is in —"
            ∷ (counted (date_count user) "day" "days"
                ++ (words
                      "of care requested. We'll email you as soon as a sitter nearby is ready to connect."
                    ∷ []))
          else words
              "Your account is set up. Add your sitting dates so nearby sitters know when you need help."
            ∷ [])
        ++ (button "New care request" false new_request
            ∷ when user.is_sitter (link "/job_requests" ∷ [])))

sitters_part : Signup → List NearbySitter → List (Node HomeAction)
unfolding first
sitters_part signup sitters = when (ltb 0 (length sitters)) (
    words "🎉 Good news —"
    ∷ (counted (length sitters) "sitter" "sitters"
        ++ (words "already active near"
            ∷ shown signup.city
            ∷ words ","
            ∷ shown signup.state
            ∷ words ". We'll reach out by email to help make the connection."
            ∷ flat_map
                (λ s. child "SitterShow" s.id ∷ shown s.name ∷ dollars s.price_per_visit ∷ [])
                (first 6 sitters))))

live_part : LandingData → List (Node HomeAction)
live_part d =
    words "Good news"
    ∷ ((if ltb 0 (length d.nearby_sitters)
          then heading "There are flock keepers available near"
            ∷ (place d
                ++ (words
                      "Congratulations — you're in an active area. Create your free account to see who's nearby and book a visit."
                    ∷ []))
          else heading "Roost Assured is live in"
            ∷ (place d
                ++ (words
                      "Create your free account to find a local sitter or start sitting for neighbors near you — no waitlist required."
                    ∷ [])))
        ++ (link "/signup" ∷ button "Search a different ZIP" false search_again ∷ []))

-- A form is a child of the page, by its name.
unfoldable pub render_variant : LandingData → Variant → List (Node HomeAction)
unfolding welcome_part sitters_part live_part
render_variant d (welcome user) = welcome_part user
render_variant d (on_the_list signup) =
    words "You're on the list"
    ∷ heading "Going out of town? Your flock still needs a keeper."
    ∷ words
        "Roost Assured connects backyard chicken owners with trusted local sitters — feeding, egg collection, and coop care while you're away."
    ∷ (sitters_part signup d.available_sitters ++ (child "WaitlistForm" 0 ∷ []))
render_variant d zip_live = live_part d
render_variant d ask_window =
    words "Almost there"
    ∷ heading "Let's find sitters near"
    ∷ (place d
        ++ (words "First, let us know when you're looking for coverage."
            ∷ child "SittingWindowForm" 0
            ∷ []))
render_variant d no_sitters =
    words "Almost there"
    ∷ heading "No sitters near"
    ∷ (place d
        ++ (words "yet."
            ∷ words
                "Enter your email and we'll let you know the moment Roost Assured has sitters (or owners) near you."
            ∷ child "WaitlistForm" 0
            ∷ words "Keep chickens yourself and free most days?"
            ∷ link "/signup"
            ∷ words "and apply to be a sitter instead."
            ∷ []))
render_variant d referral =
    words "Almost there"
    ∷ heading "Going out of town? Your flock still needs a keeper."
    ∷ words
        "Enter your email and we'll let you know the moment Roost Assured has sitters (or owners) near you."
    ∷ child "WaitlistForm" 0
    ∷ []
render_variant d search =
    words "Backyard chicken sitting, made simple"
    ∷ heading "Find a trusted chicken sitter near you."
    ∷ words
        "Roost Assured connects backyard chicken owners with background-checked local sitters for feeding, egg collection, and coop care. Enter your ZIP code to see what's happening in your area."
    ∷ child "ZipSearchForm" 0
    ∷ words "Background-checked sitters"
    ∷ words "Photo updates every visit"
    ∷ words "No subscriptions, pay per visit"
    ∷ []
