-- ===== src/Visitors/Examples.antt =====
-- The theorem on app/frontend/components/WaitlistForm.jsx at a visitor who joins the list.
use roost_assured.Common.{String, true, false, none, some, List, [], ◌∷◌, number_key, string_key}
use roost_assured.Api.{fulfilled}
use roost_assured.Home.{Signup, LandingData}
use roost_assured.Home.Visits.{home_answer}
use roost_assured.Visitors.{WaitlistProps, set_email}
use roost_assured.Visitors.Waiting.{VisitorEvent, of_page, edited, sent, waitlist_answer}

abbrev same_time : String → String
same_time t = t

-- A ZIP searched without a sitter near, and dates asked for.
abbrev landing : LandingData
landing = record {
  searched_city = some "Portland";
  searched_state = some "OR";
  searched_zip = some "97214";
  zip_is_live = false;
  sitting_window_asked = true;
  confirmed_signup = none;
  available_sitters = [];
  nearby_sitters = [];
}

abbrev props : WaitlistProps
props = record {
  city = some "Portland";
  state = some "OR";
  zip_code = some "97214";
  referral_code = none;
  lock_zip = true;
}

abbrev signup : Signup
signup = record { city = "Portland"; state = "OR"; zip_code = "97214"; referral_code = some "r1" }

abbrev joining : List VisitorEvent
joining =
    of_page (home_answer (fulfilled (some landing)))
    ∷ edited (set_email "ada@example.com")
    ∷ sent
    ∷ waitlist_answer (fulfilled signup)
    ∷ of_page (home_answer (fulfilled (some (record landing { confirmed_signup = some signup }))))
    ∷ []
