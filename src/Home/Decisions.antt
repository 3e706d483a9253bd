-- ===== src/Home/Decisions.antt =====
-- `bidActionId` of app/frontend/pages/Home.jsx marks one bid, the one decided on last.
pub mod Slots
pub mod Runs
use roost_assured.Common.{
  ℕ, zero, suc, ◌+◌, ◌-◌, ◌*◌, ◌/◌, ◌%◌, ◌≤◌, ◌<◌, String, ◌≡◌, refl, sym, ap, ◌∙◌, ◌≢◌, ◌↔◌, ◌⊎◌,
  inl, inr, Bool, true, false, not, ◌&&◌, ◌||◌, Option, none, some, List, [], ◌∷◌, ◌++◌, map, arith,
  ltb, leb, nat_beq, if◌then◌else◌, ltb→lt, lt→ltb, nat_beq_iff, Bool-cases, Option-cases,
  Comparable, ◌==◌, number_key, string_key, ==_refl, ==_false, ==_comm, length, All, keep, any,
  every, find, when, length-append, length-keep, keep-append, keep-keep, contains, contains-append,
  contains-keep, first_some, without, find_id, contains-map-without, find_id-without,
  find_id-append, find_id-eq-none, All-keep, All-append,
}
use roost_assured.Common.View.{Node, offers, mounts}
use roost_assured.Api.{Settled, fulfilled, rejected}
use roost_assured.Api.Laws.{is_some}
use roost_assured.Home.{
  OwnerBid, Decision, accept, reject, LandingData, Member, Page, job_update, drop_sitter,
  load_start, load_finish, load_bids_finish, cancel_start, cancel_finish, decide_start,
  decide_finish, rate_start, rate_finish, new_page, has_request, is_submitted,
}
use roost_assured.Home.BidCard.{
  HomeAction, new_request, edit_request, search_again, toggle_completed, cancel_request, decide,
  is_slot,
}
use roost_assured.Home.Render.{ready_data, render_home}
use roost_assured.Home.Requests.{is_open_bid, offers-request_controls}
use roost_assured.Home.Visits.{
  Call, get_home, get_bids, send_form, delete_request, post_decision, post_rating, Visit, new_visit,
  set_user, ask, on_page, set_request_open, set_bids, under_way, take_out, is_call, is_decision,
  is_action, answered, cancelled, form_done, start_load, act, drawn, on_visit, HomeEvent,
  home_answer, bids_answer, form_answer, cancel_answer, decision_answer, rating_answer, clicked,
  form_sent, rated, request_closed, request_saved, job_changed, sitter_blocked, user_changed,
}
use roost_assured.Home.Decisions.Slots.{
  decided_id, decided_ids, slot_ids, is_decision_refl, length-take_out, contains-decided_ids,
  IsOther, decided_id-other, take_out-other,
}

-- The bid that is marked is the one with a decision under way, if there is one.
IsMarked : Visit → Type 0
IsMarked v = decided_ids v.calls ≡ slot_ids v.page.bid_action_id

-- A decision is clicked only while none is under way.
abbrev pub IsOrderly : Visit → HomeEvent → Type 0
IsOrderly v (clicked (decide i d) confirmed) =
    (j : ℕ) (e : Decision) → under_way (post_decision j e) v.calls ≡ false
IsOrderly v _ = Unit

-- How the page and the calls may change: only the field that marks a bid counts.
on_page-IsMarked :
    (f : Page → Page)
    → ((p : Page) → (f p).bid_action_id ≡ p.bid_action_id)
    → (v : Visit) → IsMarked v
    → IsMarked (on_page f v)
unfolding IsMarked
on_page-IsMarked f keeps v m = m ∙ ap slot_ids (sym (keeps v.page))

answered-IsMarked :
    (c : Call) (f : Visit → Visit)
    → IsOther c
    → ((v : Visit) → IsMarked v → IsMarked (f v))
    → (v : Visit) → IsMarked v
    → IsMarked (answered c f v)
unfolding IsMarked
answered-IsMarked c f other keeps v m = elim (Bool-cases (under_way c v.calls)) [
  | inl p ↦
      rw p (keeps (record v { calls = take_out c v.calls }) (take_out-other c other v.calls ∙ m))
  | inr p ↦ rw p m
]

set_user-IsMarked : (user : Option Member) (v : Visit) → IsMarked v → IsMarked (set_user user v)
unfolding set_user IsMarked
set_user-IsMarked none v m = m
set_user-IsMarked (some user) v m = m

-- With one bid marked at most, taking out its decision leaves none.
take_out-marked :
    (i : ℕ) (d : Decision) (slot : Option ℕ) (calls : List Call)
    → under_way (post_decision i d) calls ≡ true
    → decided_ids calls ≡ slot_ids slot
    → decided_ids (take_out (post_decision i d) calls) ≡ []
take_out-marked i d slot calls h m =
    nothing_left (decided_ids (take_out (post_decision i d) calls))
      (omega (arith, length-take_out i d calls h, ap length m, at_most_one slot))
  where
    at_most_one : (slot : Option ℕ) → length (slot_ids slot) ≤ 1
    at_most_one none = omega arith
    at_most_one (some j) = omega arith

    nothing_left : (xs : List ℕ) → length xs ≡ 0 → xs ≡ []
    nothing_left [] h = refl
    nothing_left (x ∷ xs) h = ground arith

decision_answer-IsMarked :
    (i : ℕ) (d : Decision) (r : Settled (List OwnerBid)) (v : Visit)
    → IsMarked v
    → IsMarked (answered (post_decision i d) (on_page (decide_finish d r)) v)
unfolding IsMarked decide_finish
decision_answer-IsMarked i d r v m = elim (Bool-cases (under_way (post_decision i d) v.calls)) [
  | inl p ↦ rw p (take_out-marked i d v.page.bid_action_id v.calls p m ∙ unmarked r)
  | inr p ↦ rw p m
]
  where
    unmarked :
        (r : Settled (List OwnerBid)) → [] ≡ slot_ids (decide_finish d r v.page).bid_action_id
    unmarked (fulfilled bids) = refl
    unmarked (rejected es) = refl

load_finish-slot :
    (r : Settled (Option LandingData)) (p : Page)
    → (load_finish r p).bid_action_id ≡ p.bid_action_id
unfolding load_finish
load_finish-slot (fulfilled d) p = refl
load_finish-slot (rejected es) p = refl

load_bids_finish-slot :
    (r : Settled (List OwnerBid)) (p : Page)
    → (load_bids_finish r p).bid_action_id ≡ p.bid_action_id
unfolding load_bids_finish
load_bids_finish-slot (fulfilled bids) p = refl
load_bids_finish-slot (rejected es) p = refl

cancel_finish-slot :
    (r : Settled Member) (p : Page) → (cancel_finish r p).bid_action_id ≡ p.bid_action_id
unfolding cancel_finish
cancel_finish-slot (fulfilled user) p = refl
cancel_finish-slot (rejected es) p = refl

rate_finish-slot :
    (r : Settled (List OwnerBid)) (p : Page) → (rate_finish r p).bid_action_id ≡ p.bid_action_id
unfolding rate_finish
rate_finish-slot (fulfilled bids) p = refl
rate_finish-slot (rejected es) p = refl

cancelled-IsMarked : (r : Settled Member) (v : Visit) → IsMarked v → IsMarked (cancelled r v)
unfolding cancelled
cancelled-IsMarked (fulfilled user) v m =
    set_user-IsMarked (some user) (on_page (cancel_finish (fulfilled user)) v)
      (on_page-IsMarked (cancel_finish (fulfilled user)) (cancel_finish-slot (fulfilled user)) v m)
cancelled-IsMarked (rejected es) v m =
    on_page-IsMarked (cancel_finish (rejected es)) (cancel_finish-slot (rejected es)) v m

form_done-IsMarked : (r : Settled {0} Unit) (v : Visit) → IsMarked v → IsMarked (form_done r v)
unfolding form_done start_load load_start IsMarked
form_done-IsMarked (fulfilled a) v m = m
form_done-IsMarked (rejected es) v m = m

decided_ids-idle :
    (calls : List Call)
    → ((j : ℕ) (e : Decision) → under_way (post_decision j e) calls ≡ false)
    → decided_ids calls ≡ []
decided_ids-idle [] idle = refl
decided_ids-idle (post_decision k e ∷ calls) idle = ground (arith, idle k e, is_decision_refl e)
decided_ids-idle (get_home ∷ calls) idle = decided_ids-idle calls idle
decided_ids-idle (get_bids ∷ calls) idle = decided_ids-idle calls idle
decided_ids-idle (send_form ∷ calls) idle = decided_ids-idle calls idle
decided_ids-idle (delete_request ∷ calls) idle = decided_ids-idle calls idle
decided_ids-idle (post_rating k ∷ calls) idle = decided_ids-idle calls idle

act-IsMarked :
    (a : HomeAction) (confirmed : Bool) (v : Visit)
    → IsOrderly v (clicked a confirmed)
    → IsMarked v
    → IsMarked (act a confirmed v)
unfolding act IsMarked decide_start cancel_start
act-IsMarked new_request confirmed v o m = m
act-IsMarked edit_request confirmed v o m = m
act-IsMarked search_again confirmed v o m = m
act-IsMarked toggle_completed confirmed v o m = m
act-IsMarked cancel_request true v o m = m
act-IsMarked cancel_request false v o m = m
act-IsMarked (decide i d) confirmed v o m = ap (i ∷◌) (decided_ids-idle v.calls o)

other : (c : Call) → decided_id c ≡ [] → IsOther c
unfolding IsOther
other get_home e i d = refl
other get_bids e i d = refl
other send_form e i d = refl
other delete_request e i d = refl
other (post_rating j) e i d = refl
other (post_decision j e') e i d = ground arith

either-IsMarked : (b : Bool) (v w : Visit) → IsMarked v → IsMarked w → IsMarked (if b then v else w)
either-IsMarked true v w m n = m
either-IsMarked false v w m n = n
