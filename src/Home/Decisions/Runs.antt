-- ===== src/Home/Decisions/Runs.antt =====
-- What the page of app/frontend/pages/Home.jsx offers while decisions on bids are under way.
use mathlib.Core.List.{foldl}
use roost_assured.Common.{
  ℕ, String, ◌≡◌, refl, sym, ap, ◌∙◌, Bool, true, false, not, ◌&&◌, Option, none, some, List, [],
  ◌∷◌, arith, nat_beq, nat_beq_iff, number_key, string_key, any, contains,
}
use roost_assured.Common.Lists.{any-none}
use roost_assured.Common.View.{offers, mounts}
use roost_assured.Api.Laws.{is_some}
use roost_assured.Home.{
  OwnerBid, Decision, Member, Page, job_update, drop_sitter, load_start, load_finish,
  load_bids_finish, decide_start, rate_start, rate_finish, new_page, has_request, is_submitted,
}
use roost_assured.Home.BidCard.{decide, is_slot}
use roost_assured.Home.Render.{ready_data, render_home}
use roost_assured.Home.Requests.{is_open_bid, offers-request_controls}
use roost_assured.Home.Visits.{
  get_home, get_bids, send_form, delete_request, post_decision, post_rating, Visit, new_visit,
  set_user, ask, on_page, set_request_open, set_bids, under_way, is_action, cancelled, form_done,
  act, drawn, on_visit, HomeEvent, home_answer, bids_answer, form_answer, cancel_answer,
  decision_answer, rating_answer, clicked, form_sent, rated, request_closed, request_saved,
  job_changed, sitter_blocked, user_changed,
}
use roost_assured.Home.Decisions.{
  IsMarked, IsOrderly, answered-IsMarked, other, on_page-IsMarked, load_finish-slot,
  load_bids_finish-slot, form_done-IsMarked, cancelled-IsMarked, decision_answer-IsMarked,
  rate_finish-slot, act-IsMarked, set_user-IsMarked, either-IsMarked,
}
use roost_assured.Home.Decisions.Slots.{slot_ids, contains-decided_ids, is_decision_refl}

contains-slot_ids : (slot : Option ℕ) (i : ℕ) → contains (slot_ids slot) i ≡ is_slot slot i
contains-slot_ids none i = refl
contains-slot_ids (some j) i = ground arith

marked-not-open :
    (slot : Option ℕ) (i : ℕ)
    → is_slot slot i ≡ true
    → (b : OwnerBid) → is_open_bid slot i b ≡ false
marked-not-open slot i h b = ground arith

-- Whether a bid of this number is open, whatever is marked.
abbrev awaits : ℕ → OwnerBid → Bool
awaits i b = nat_beq i b.id && (is_submitted b && not b.stale)

is_open_bid-awaits :
    (slot : Option ℕ) (i : ℕ) (bids : List OwnerBid)
    → any (is_open_bid slot i) bids ≡ any (awaits i) bids && not (is_slot slot i)
is_open_bid-awaits slot i [] = ground arith
is_open_bid-awaits slot i (b ∷ bids) = ground (arith, is_open_bid-awaits slot i bids)

new_visit-IsMarked : (user : Option Member) → IsMarked (new_visit user)
unfolding IsMarked new_visit new_page load_start
new_visit-IsMarked none = refl
new_visit-IsMarked (some user) = refl

module _ (to_time : String → String) (code : Option String) where
  on_visit-IsMarked :
      (v : Visit) (e : HomeEvent)
      → IsOrderly v e
      → IsMarked v
      → IsMarked (on_visit to_time code v e)
  unfolding on_visit rate_start IsMarked
  on_visit-IsMarked v (home_answer r) o m =
      answered-IsMarked get_home (on_page (load_finish r)) (other get_home refl)
        (on_page-IsMarked (load_finish r) (load_finish-slot r)) v m
  on_visit-IsMarked v (bids_answer r) o m =
      answered-IsMarked get_bids (on_page (load_bids_finish r)) (other get_bids refl)
        (on_page-IsMarked (load_bids_finish r) (load_bids_finish-slot r)) v m
  on_visit-IsMarked v (form_answer r) o m =
      answered-IsMarked send_form (form_done r) (other send_form refl) (form_done-IsMarked r) v m
  on_visit-IsMarked v (cancel_answer r) o m =
      answered-IsMarked delete_request (cancelled r) (other delete_request refl)
        (cancelled-IsMarked r) v m
  on_visit-IsMarked v (decision_answer i d r) o m = decision_answer-IsMarked i d r v m
  on_visit-IsMarked v (rating_answer i r) o m =
      answered-IsMarked (post_rating i) (on_page (rate_finish r)) (other (post_rating i) refl)
        (on_page-IsMarked (rate_finish r) (rate_finish-slot r)) v m
  on_visit-IsMarked v (clicked a confirmed) o m =
      either-IsMarked (offers (is_action a) (drawn to_time code v)) (act a confirmed v) v
        (act-IsMarked a confirmed v o m) m
  on_visit-IsMarked v (form_sent name) o m =
      either-IsMarked (mounts name 0 (drawn to_time code v)) (ask send_form v) v m m
  on_visit-IsMarked v (rated i) o m =
      either-IsMarked (mounts "RateSitterForm" i (drawn to_time code v))
        (ask (post_rating i) (on_page rate_start v)) v m m
  on_visit-IsMarked v request_closed o m = on_page-IsMarked (set_request_open false) (λ p. refl) v m
  on_visit-IsMarked v (request_saved user) o m =
      on_page-IsMarked (set_request_open false) (λ p. refl) (set_user (some user) v)
        (set_user-IsMarked (some user) v m)
  on_visit-IsMarked v (job_changed i d) o m =
      on_page-IsMarked (set_bids (job_update i d)) (λ p. refl) v m
  on_visit-IsMarked v (sitter_blocked i) o m =
      on_page-IsMarked (set_bids (drop_sitter i)) (λ p. refl) v m
  on_visit-IsMarked v (user_changed user) o m = set_user-IsMarked user v m

  -- Every event of the run is orderly where it comes.
  abbrev pub IsOrderlyRun : Visit → List HomeEvent → Type 0
  IsOrderlyRun v [] = Unit
  IsOrderlyRun v (e ∷ es) = IsOrderly v e × IsOrderlyRun (on_visit to_time code v e) es

  foldl-IsMarked :
      (es : List HomeEvent) (v : Visit)
      → IsOrderlyRun v es
      → IsMarked v
      → IsMarked (foldl (on_visit to_time code) v es)
  foldl-IsMarked [] v o m = m
  foldl-IsMarked (e ∷ es) v o m =
      foldl-IsMarked es (on_visit to_time code v e) o.1 (on_visit-IsMarked v e o.0 m)

  marked-not-offered :
      (v : Visit) (i : ℕ) (d e : Decision)
      → IsMarked v
      → under_way (post_decision i d) v.calls ≡ true
      → offers (is_action (decide i e)) (drawn to_time code v) ≡ false
  unfolding IsMarked
  marked-not-offered v i d e m h =
      (offers-request_controls to_time code v.page i e).0
      ∙ rw
          (any-none (is_open_bid v.page.bid_action_id i)
            (marked-not-open v.page.bid_action_id i held) v.page.bids)
          (ground arith)
    where
      held : is_slot v.page.bid_action_id i ≡ true
      held =
          sym (contains-slot_ids v.page.bid_action_id i)
          ∙ (ap (λ xs. contains xs i) (sym m) ∙ contains-decided_ids i d v.calls h)

  -- From the opening of the page on, if a decision is clicked only while none is under way, whatever else
  -- happens in whatever order, a bid with a decision under way offers no decision.
  pub orderly_run-decided :
      (user : Option Member) (es : List HomeEvent) (i : ℕ) (d e : Decision)
      → IsOrderlyRun (new_visit user) es
      → under_way (post_decision i d) (foldl (on_visit to_time code) (new_visit user) es).calls
        ≡ true
      → offers
          (is_action (decide i e))
          (drawn to_time code (foldl (on_visit to_time code) (new_visit user) es))
        ≡ false
  orderly_run-decided user es i d e o h =
      marked-not-offered _ i d e (foldl-IsMarked es (new_visit user) o (new_visit-IsMarked user)) h

  offers-decide :
      (p : Page) (i : ℕ) (d : Decision)
      → offers (is_action (decide i d)) (render_home to_time code p)
        ≡ is_some (ready_data p)
          && (has_request p.user && (any (awaits i) p.bids && not (is_slot p.bid_action_id i)))
  offers-decide p i d =
      (offers-request_controls to_time code p i d).0
      ∙ rw (is_open_bid-awaits p.bid_action_id i p.bids) refl

  -- A decision on one bid leaves what is offered for another.
  still_offered :
      (p : Page) (k j : ℕ) (e : Decision)
      → nat_beq k j ≡ false
      → offers (is_action (decide j e)) (render_home to_time code p) ≡ true
      → offers (is_action (decide j e)) (render_home to_time code (decide_start k p)) ≡ true
  unfolding decide_start
  still_offered p k j e apart h =
      offers-decide (decide_start k p) j e ∙ rw apart (ground (arith, offers-decide p j e, h))

  -- If two bids can be decided on, and one decision is clicked and then the other before any answer
  -- comes, then the first bid can be decided on once more while its decision is under way.
  pub second_decision-reopens :
      (v : Visit) (i j : ℕ) (d e : Decision)
      → nat_beq i j ≡ false
      → offers (is_action (decide i d)) (drawn to_time code v) ≡ true
      → offers (is_action (decide j e)) (drawn to_time code v) ≡ true
      → let w =
          on_visit to_time code
            (on_visit to_time code v (clicked (decide i d) true))
            (clicked (decide j e) true) in
        (under_way (post_decision i d) w.calls ≡ true)
        × (under_way (post_decision j e) w.calls ≡ true)
        × (offers (is_action (decide i d)) (drawn to_time code w) ≡ true)
  unfolding on_visit act decide_start
  second_decision-reopens v i j d e apart h k =
      rw (h, still_offered v.page i j e apart k)
        (
          ground (arith, nat_beq_iff i i, nat_beq_iff j j, is_decision_refl d, is_decision_refl e),
          ground (arith, nat_beq_iff j j, is_decision_refl e),
          still_offered v.page j i d (ground (arith, nat_beq_iff i j, nat_beq_iff j i)) h,
        )
