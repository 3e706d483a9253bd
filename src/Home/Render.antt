-- ===== src/Home/Render.antt =====
-- What the page of app/frontend/pages/Home.jsx draws: the landing section, the owner's request with
-- the bids on it, and the form for a care request.
pub mod Controls
use mathlib.Core.List.{flat_map}
use roost_assured.Common.{
  ℕ, zero, suc, ◌+◌, ◌-◌, ◌*◌, ◌/◌, ◌%◌, ◌≤◌, ◌<◌, String, ◌≡◌, refl, sym, ap, ◌∙◌, ◌≢◌, ◌↔◌, ◌⊎◌,
  inl, inr, Bool, true, false, not, ◌&&◌, ◌||◌, Option, none, some, List, [], ◌∷◌, ◌++◌, map, arith,
  ltb, leb, nat_beq, if◌then◌else◌, ltb→lt, lt→ltb, nat_beq_iff, Bool-cases, Option-cases,
  Comparable, ◌==◌, number_key, string_key, ==_refl, ==_false, ==_comm, length, All, keep, any,
  every, find, when, length-append, length-keep, keep-append, keep-keep, contains, contains-append,
  contains-keep, first_some, without, find_id, contains-map-without, find_id-without,
  find_id-append, find_id-eq-none, All-keep, All-append,
}
use roost_assured.Common.Text.{is_empty}
use roost_assured.Common.View.{Node, heading, words, number, notice, alert, button, child}
use roost_assured.Home.{
  OwnerBid, LandingData, Member, Page, has_accepted_bid, submitted_bids, completed_bids,
  active_bids, has_request,
}
use roost_assured.Home.BidCard.{HomeAction, toggle_completed, cancel_request, render_bid_card}
use roost_assured.Home.Landing.{variant_of, render_variant}

abbrev notice_part : Option String → List (Node HomeAction)
notice_part none = []
notice_part (some t) = if is_empty t then [] else notice t ∷ []

abbrev error_part : Option String → List (Node HomeAction)
error_part none = []
error_part (some t) = if is_empty t then [] else alert t ∷ []

new_bids_part : ℕ → List (Node HomeAction)
new_bids_part n = when (ltb 0 n) (
    if nat_beq n 1
    then words "You have a new bid to review below." ∷ []
    else words "You have" ∷ number n ∷ words "new bids to review below." ∷ [])

cancel_part : Page → List (Node HomeAction)
unfolding has_accepted_bid
cancel_part p =
    if has_accepted_bid p.bids
    then words
        "You've accepted a sitter's bid for this request, so it can't be cancelled here. Reach out if plans change."
      ∷ []
    else words
        "Changed your mind? You can cancel this request as long as you haven't accepted a bid yet."
      ∷ button (if p.cancelling then "Cancelling…" else "Cancel request") p.cancelling
          cancel_request
      ∷ []

-- The data that the page shows: none while it loads.
abbrev pub ready_data : Page → Option LandingData
ready_data p = if p.loading then none else p.data_loaded

abbrev marketing_of : Option Member → List (Node HomeAction)
marketing_of none = child "MarketingSections" 0 ∷ []
marketing_of (some user) = []

module _ (to_time : String → String) where
  bid_cards : Member → Page → List OwnerBid → List (Node HomeAction)
  bid_cards user p bids = flat_map (render_bid_card to_time user p.bid_action_id) bids

  completed_part : Member → Page → List (Node HomeAction)
  unfolding bid_cards
  completed_part user p = when (ltb 0 (length (completed_bids p.bids))) (
      button (if p.show_completed then "Hide" else "Show") false toggle_completed
      ∷ words "completed requests"
      ∷ number (length (completed_bids p.bids))
      ∷ when p.show_completed (bid_cards user p (completed_bids p.bids)))

  active_part : Member → Page → List (Node HomeAction)
  unfolding bid_cards
  active_part user p =
      if nat_beq (length p.bids) 0
      then words "No offers yet — check back once your request has been posted for a bit." ∷ []
      else bid_cards user p (active_bids p.bids)

  -- The section "Requests".
  requests_part : Member → Page → List (Node HomeAction)
  unfolding new_bids_part active_part completed_part cancel_part
  requests_part user p =
      heading "Requests"
      ∷ words "Bids sitters have submitted on your open request."
      ∷ (notice_part p.requests_notice
          ++ (error_part p.requests_error
              ++ (new_bids_part (length (submitted_bids p.bids))
                  ++ (active_part user p ++ (completed_part user p ++ cancel_part p)))))

  requests_of : Option Member → Page → List (Node HomeAction)
  unfolding requests_part
  requests_of none p = []
  requests_of (some user) p = when (has_request (some user)) (requests_part user p)

  render_loaded : Option String → Page → LandingData → List (Node HomeAction)
  unfolding requests_of
  render_loaded referred_by_code p d =
      render_variant d (variant_of referred_by_code p.user d)
      ++ (marketing_of p.user
          ++ (requests_of p.user p ++ when p.care_request_open (child "CareRequestModal" 0 ∷ [])))

  render_data : Option String → Page → Option LandingData → List (Node HomeAction)
  unfolding render_loaded
  render_data referred_by_code p none = words "Loading…" ∷ []
  render_data referred_by_code p (some d) = render_loaded referred_by_code p d

  -- The page, for the code `ref` of its address, which may be missing.
  unfoldable pub render_home : Option String → Page → List (Node HomeAction)
  unfolding render_data
  render_home referred_by_code p = render_data referred_by_code p (ready_data p)

  pub render_home-loading :
      (code : Option String) (p : Page)
      → p.loading ≡ true
      → render_home code p ≡ words "Loading…" ∷ []
  unfolding render_home render_data
  render_home-loading code p h = simp h refl
