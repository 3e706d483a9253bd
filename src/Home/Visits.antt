-- ===== src/Home/Visits.antt =====
-- What can happen to the page of app/frontend/pages/Home.jsx: clicks on the controls that it draws,
-- calls of its children, and the answers to the requests under way, in any order. An event that the
-- page does not offer in its state changes nothing.
use roost_assured.Common.{
  ℕ, String, Bool, true, false, not, ◌&&◌, Option, none, some, List, [], ◌∷◌, ◌++◌, nat_beq,
  if◌then◌else◌, number_key, string_key, any, when,
}
use roost_assured.Common.View.{Node, offers, mounts}
use roost_assured.Api.{Settled, fulfilled, rejected}
use roost_assured.Home.{
  OwnerBid, JobData, LandingData, Member, Page, Decision, accept, reject, new_page, load_start,
  load_finish, load_bids_finish, cancel_start, cancel_finish, decide_start, decide_finish,
  rate_start, rate_finish, job_update, drop_sitter,
}
use roost_assured.Home.BidCard.{
  HomeAction, new_request, edit_request, search_again, toggle_completed, cancel_request, decide,
}
use roost_assured.Home.Render.{render_home}

-- The requests: GET /home, GET /bids, one of a child form that ends with `load`, DELETE
-- /sitting_request, the decision on a bid, and its rating.
pub data Call : Type 0 where
  get_home get_bids send_form delete_request : Call
  post_decision : ℕ → Decision → Call
  post_rating : ℕ → Call

abbrev pub is_decision : Decision → Decision → Bool
is_decision accept accept = true
is_decision reject reject = true
is_decision _ _ = false

abbrev pub is_call : Call → Call → Bool
is_call get_home get_home = true
is_call get_bids get_bids = true
is_call send_form send_form = true
is_call delete_request delete_request = true
is_call (post_decision i d) (post_decision j e) = nat_beq i j && is_decision d e
is_call (post_rating i) (post_rating j) = nat_beq i j
is_call _ _ = false

-- Is it under way? The calls without it, if it was.
abbrev pub under_way : Call → List Call → Bool
under_way c calls = any (is_call c) calls

unfoldable pub take_out : Call → List Call → List Call
take_out c [] = []
take_out c (x ∷ calls) = let rest = take_out c calls in if is_call c x then calls else x ∷ rest

-- The page with the requests under way.
pub record Visit : Type 0 where
  pub page : Page
  pub calls : List Call

-- The effect on the user: `if (user) loadBids()`.
abbrev bids_effect : Option Member → List Call
bids_effect none = []
bids_effect (some user) = get_bids ∷ []

-- The first render with both effects; `load` sets what is set already.
unfoldable pub new_visit : Option Member → Visit
unfolding new_page load_start
new_visit user = record { page = load_start (new_page user); calls = get_home ∷ bids_effect user }

-- `setUser` with a new object, and the effect on it.
unfoldable pub set_user : Option Member → Visit → Visit
set_user user v = record {
  page = record v.page { user = user };
  calls = bids_effect user ++ v.calls;
}

abbrev pub ask : Call → Visit → Visit
ask c v = record v { calls = c ∷ v.calls }

abbrev pub on_page : (Page → Page) → Visit → Visit
on_page f v = record v { page = f v.page }

-- `setCareRequestOpen(open)` and `setBids(f)`.
abbrev pub set_request_open : Bool → Page → Page
set_request_open b p = record p { care_request_open = b }

abbrev pub set_bids : (List OwnerBid → List OwnerBid) → Page → Page
set_bids f p = record p { bids = f p.bids }

-- `load`, from a child or the page itself.
unfoldable pub start_load : Visit → Visit
unfolding load_start
start_load v = ask get_home (on_page load_start v)

-- An action of the page, with the answer of the visitor to the browser's question, if it asks one.
-- The button that forgets the ZIP waits for its request before it calls `load`.
unfoldable pub act : HomeAction → Bool → Visit → Visit
unfolding cancel_start decide_start
act new_request confirmed v = on_page (set_request_open true) v
act edit_request confirmed v = on_page (set_request_open true) v
act search_again confirmed v = ask send_form v
act toggle_completed confirmed v =
    on_page (λ p. record p { show_completed = not p.show_completed }) v
act cancel_request confirmed v =
    let (p, asked) = cancel_start confirmed v.page in
    record { page = p; calls = when asked (delete_request ∷ []) ++ v.calls }
act (decide bid_id action) confirmed v =
    ask (post_decision bid_id action) (on_page (decide_start bid_id) v)

abbrev pub is_action : HomeAction → HomeAction → Bool
is_action new_request new_request = true
is_action edit_request edit_request = true
is_action search_again search_again = true
is_action toggle_completed toggle_completed = true
is_action cancel_request cancel_request = true
is_action (decide i d) (decide j e) = nat_beq i j && is_decision d e
is_action _ _ = false

pub data HomeEvent : Type 0 where
  home_answer : Settled (Option LandingData) → HomeEvent
  bids_answer : Settled (List OwnerBid) → HomeEvent
  form_answer : Settled {0} Unit → HomeEvent
  cancel_answer : Settled Member → HomeEvent
  decision_answer : ℕ → Decision → Settled (List OwnerBid) → HomeEvent
  rating_answer : ℕ → Settled (List OwnerBid) → HomeEvent
  clicked : HomeAction → Bool → HomeEvent
  form_sent : String → HomeEvent
  rated : ℕ → HomeEvent
  request_closed : HomeEvent
  request_saved : Member → HomeEvent
  job_changed : ℕ → JobData → HomeEvent
  sitter_blocked : ℕ → HomeEvent
  user_changed : Option Member → HomeEvent

-- An answer comes only to a call under way, and takes it out.
abbrev pub answered : Call → (Visit → Visit) → Visit → Visit
answered c f v = if under_way c v.calls then f (record v { calls = take_out c v.calls }) else v

-- After the request of a form: `onSuccess`, which is `load`.
unfoldable pub form_done : Settled {0} Unit → Visit → Visit
form_done (fulfilled a) v = start_load v
form_done (rejected es) v = v

unfoldable pub cancelled : Settled Member → Visit → Visit
cancelled (fulfilled user) v = set_user (some user) (on_page (cancel_finish (fulfilled user)) v)
cancelled (rejected es) v = on_page (cancel_finish (rejected es)) v

module _ (to_time : String → String) (referred_by_code : Option String) where
  abbrev pub drawn : Visit → List (Node HomeAction)
  drawn v = render_home to_time referred_by_code v.page

  -- The forms for the waiting list and the dates, and the search, are told apart by their names.
  unfoldable pub on_visit : Visit → HomeEvent → Visit
  unfolding form_done cancelled act set_user
  on_visit v (home_answer r) = answered get_home (on_page (load_finish r)) v
  on_visit v (bids_answer r) = answered get_bids (on_page (load_bids_finish r)) v
  on_visit v (form_answer r) = answered send_form (form_done r) v
  on_visit v (cancel_answer r) = answered delete_request (cancelled r) v
  on_visit v (decision_answer i d r) = answered (post_decision i d) (on_page (decide_finish d r)) v
  on_visit v (rating_answer i r) = answered (post_rating i) (on_page (rate_finish r)) v
  on_visit v (clicked a confirmed) = if offers (is_action a) (drawn v) then act a confirmed v else v
  on_visit v (form_sent name) = if mounts name 0 (drawn v) then ask send_form v else v
  on_visit v (rated i) =
      if mounts "RateSitterForm" i (drawn v) then ask (post_rating i) (on_page rate_start v) else v
  on_visit v request_closed = on_page (set_request_open false) v
  on_visit v (request_saved user) = on_page (set_request_open false) (set_user (some user) v)
  on_visit v (job_changed i d) = on_page (set_bids (job_update i d)) v
  on_visit v (sitter_blocked i) = on_page (set_bids (drop_sitter i)) v
  on_visit v (user_changed user) = set_user user v
