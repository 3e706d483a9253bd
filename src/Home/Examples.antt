-- ===== src/Home/Examples.antt =====
-- The theorems on app/frontend/pages/Home.jsx at an owner with two bids on a request.
use mathlib.Core.List.{foldl, flat_map}
use roost_assured.Common.{
  ℕ, suc, ◌+◌, ◌≤◌, String, ◌≡◌, refl, true, false, not, ◌&&◌, none, some, List, [], ◌∷◌,
  number_key, string_key, length, All, any,
}
use roost_assured.Common.View.{words, offers}
use roost_assured.Api.{fulfilled, rejected}
use roost_assured.Api.Laws.{is_some}
use roost_assured.JobRequests.Records.{submitted, not_started}
use roost_assured.Home.{
  OwnerBid, LandingData, Member, Page, accept, reject, new_page, has_request, load_finish,
  load_bids_finish, submitted_bids, active_bids, is_accepted,
}
use roost_assured.Home.Landing.{variant_of, render_variant}
use roost_assured.Home.BidCard.{render_bid_card, decide, cancel_request, first_name}
use roost_assured.Home.Render.{render_home, ready_data}
use roost_assured.Home.Requests.{is_open_bid, offers-request_controls}
use roost_assured.Home.Rating.{
  RateEvent, star_clicked, hovered, reviewed, sent, settled, new_rating, on_rating,
}
use roost_assured.Home.Rating.Sent.{IsStars, settled_count, ratings-IsStars}
use roost_assured.Home.Marketing.{toggle_faq}
use roost_assured.Home.Visits.{
  Visit, new_visit, take_out, post_decision, under_way, is_action, drawn, on_visit, HomeEvent,
  home_answer, bids_answer, clicked, form_sent,
}
use roost_assured.Home.Loading.{failed_load-forever}
use roost_assured.Home.Decisions.Runs.{IsOrderlyRun, orderly_run-decided, second_decision-reopens}

abbrev bid : ℕ → OwnerBid
bid i = record {
  id = i;
  status = submitted;
  amount = "25.0";
  message = none;
  accepted_dates = (7 ∷ []) ∷ [];
  declined_dates = [];
  stale = false;
  job_status = not_started;
  estimated_arrival_at = none;
  job_tasks = [];
  sitter_notes = none;
  rating = none;
  review = none;
  sitter = record {
    user_id = i + 10;
    name = "Ada Byron";
    city = "Portland";
    state = "OR";
    bio = none;
    years_experience = some 3;
    average_rating = none;
    ratings_count = 0;
    profile_photo_url = none;
  };
}

abbrev bids : List OwnerBid
bids = bid 1 ∷ bid 2 ∷ []

abbrev owner : Member
owner = record {
  name = "Grace";
  is_sitter = false;
  request = record {
    phone_number = none;
    address = none;
    city = none;
    state = none;
    zip_code = none;
    care_tasks = none;
    other_care_task = none;
    special_requests = none;
    sitting_dates = some ((7 ∷ []) ∷ (8 ∷ []) ∷ []);
  };
}

abbrev landing : LandingData
landing = record {
  searched_city = none;
  searched_state = none;
  searched_zip = none;
  zip_is_live = false;
  sitting_window_asked = false;
  confirmed_signup = none;
  available_sitters = [];
  nearby_sitters = [];
}

-- A time as it is.
abbrev same_time : String → String
same_time t = t

abbrev opening : List HomeEvent
opening = home_answer (fulfilled (some landing)) ∷ bids_answer (fulfilled bids) ∷ []

abbrev opened : Visit
opened = foldl (on_visit same_time none) (new_visit (some owner)) opening

abbrev page : Page
page = record (new_page (some owner)) {
  data_loaded = some landing;
  loading = false;
  bids = bids;
  bid_action_id = some 1;
}

first_name_of_two : first_name "Ada Byron" ≡ "Ada"
unfolding first_name
first_name_of_two = refl

first_question_closes : toggle_faq 0 (some 0) ≡ none
unfolding toggle_faq
first_question_closes = refl

failed_load-forever_example :
    drawn same_time none (
      foldl
        (on_visit same_time none)
        (on_visit same_time none (new_visit none) (home_answer (rejected none)))
        (form_sent "ZipSearchForm" ∷ home_answer (fulfilled (some landing)) ∷ []))
    ≡ words "Loading…" ∷ []
failed_load-forever_example =
    failed_load-forever same_time none none none
      (form_sent "ZipSearchForm" ∷ home_answer (fulfilled (some landing)) ∷ [])

offers-request_controls_example :
    (offers (is_action (decide 2 accept)) (render_home same_time none page)
      ≡ is_some (ready_data page)
        && (has_request page.user && any (is_open_bid page.bid_action_id 2) page.bids))
    × (offers (is_action cancel_request) (render_home same_time none page)
        ≡ is_some (ready_data page)
          && (has_request page.user && (not (any is_accepted page.bids) && not page.cancelling)))
offers-request_controls_example = offers-request_controls same_time none page 2 accept

abbrev one_decision : List HomeEvent
one_decision =
    home_answer (fulfilled (some landing))
    ∷ bids_answer (fulfilled bids)
    ∷ clicked (decide 1 accept) true
    ∷ []

one_decision-IsOrderlyRun : IsOrderlyRun same_time none (new_visit (some owner)) one_decision
unfolding on_visit new_visit take_out load_finish load_bids_finish
one_decision-IsOrderlyRun = (tt, (tt, ((λ j e. refl), tt)))

orderly_run-decided_example :
    offers
      (is_action (decide 1 reject))
      (drawn same_time none (foldl (on_visit same_time none) (new_visit (some owner)) one_decision))
    ≡ false
unfolding render_home on_visit new_visit take_out load_bids_finish load_finish render_variant
    variant_of submitted_bids flat_map active_bids render_bid_card
orderly_run-decided_example =
    orderly_run-decided same_time none (some owner) one_decision 1 accept reject
      one_decision-IsOrderlyRun refl

second_decision-reopens_example :
    let w =
      on_visit same_time none
        (on_visit same_time none opened (clicked (decide 1 accept) true))
        (clicked (decide 2 reject) true) in
    (under_way (post_decision 1 accept) w.calls ≡ true)
    × (under_way (post_decision 2 reject) w.calls ≡ true)
    × (offers (is_action (decide 1 accept)) (drawn same_time none w) ≡ true)
unfolding render_home on_visit new_visit take_out load_bids_finish load_finish render_variant
    variant_of submitted_bids flat_map active_bids render_bid_card
second_decision-reopens_example =
    second_decision-reopens same_time none opened 1 2 accept reject refl refl refl

abbrev rating_events : List RateEvent
rating_events = sent ∷ hovered 2 ∷ star_clicked 4 ∷ reviewed "Kind" ∷ sent ∷ sent ∷ settled ∷ []

ratings-IsStars_example :
    All IsStars (foldl on_rating new_rating rating_events).passed_on
    × (length (foldl on_rating new_rating rating_events).passed_on
        ≤ suc (settled_count 0 rating_events))
ratings-IsStars_example = ratings-IsStars rating_events
