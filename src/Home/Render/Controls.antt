-- ===== src/Home/Render/Controls.antt =====
-- The controls on the page of app/frontend/pages/Home.jsx for the owner's request and the bids on it.
use roost_assured.Common.{
  ℕ, String, ◌≡◌, refl, ap, ◌∙◌, inl, inr, Bool, false, not, ◌&&◌, ◌||◌, Option, none, some, List,
  arith, nat_beq, Bool-cases, number_key, string_key, length, keep, any,
}
use roost_assured.Common.Lists.{
  any-append, any-when, any-flat_map, any-cong, any-keep, any-keep-none, any-empty,
}
use roost_assured.Common.View.{enables, offers}
use roost_assured.Api.Laws.{is_some}
use roost_assured.Home.{
  OwnerBid, LandingData, Member, Page, is_accepted, is_done, has_accepted_bid, completed_bids,
  active_bids, submitted_bids, has_request,
}
use roost_assured.Home.BidCard.{
  HomeAction, new_request, search_again, toggle_completed, cancel_request, render_bid_card,
}
use roost_assured.Home.BidCard.Controls.{card_offers, offers-render_bid_card}
use roost_assured.Home.Landing.{variant_of}
use roost_assured.Home.Landing.Controls.{offers-render_variant}
use roost_assured.Home.Render.{
  notice_part, error_part, new_bids_part, cancel_part, bid_cards, completed_part, active_part,
  requests_part, requests_of, marketing_of, render_loaded, render_data, ready_data, render_home,
}

module _ (test : HomeAction → Bool) where
  offers-notice_part : (t : Option String) → offers test (notice_part t) ≡ false
  offers-notice_part t = ground arith

  offers-error_part : (t : Option String) → offers test (error_part t) ≡ false
  offers-error_part t = ground arith

  offers-new_bids_part : (n : ℕ) → offers test (new_bids_part n) ≡ false
  unfolding new_bids_part
  offers-new_bids_part n = ground arith

  offers-cancel_part :
      (p : Page)
      → offers test (cancel_part p)
        ≡ not (any is_accepted p.bids) && (not p.cancelling && test cancel_request)
  unfolding cancel_part has_accepted_bid
  offers-cancel_part p = ground arith

  offers-marketing_of : (user : Option Member) → offers test (marketing_of user) ≡ false
  offers-marketing_of user = ground arith

  -- Cards of completed jobs offer nothing.
  done-card_offers : (slot : Option ℕ) (b : OwnerBid) → is_done b && card_offers test slot b ≡ false
  done-card_offers slot b = ground arith

  active-card_offers :
      (slot : Option ℕ) (bids : List OwnerBid)
      → any (card_offers test slot) (keep (λ b. not (is_done b)) bids)
        ≡ any (card_offers test slot) bids
  active-card_offers slot bids = ground (
    arith,
    any-keep (card_offers test slot) is_done bids,
    any-keep-none (card_offers test slot) is_done (done-card_offers slot) bids,
  )

  module _ (to_time : String → String) where
    offers-bid_cards :
        (user : Member) (p : Page) (bids : List OwnerBid)
        → offers test (bid_cards to_time user p bids) ≡ any (card_offers test p.bid_action_id) bids
    unfolding bid_cards
    offers-bid_cards user p bids =
        any-flat_map (enables test) (render_bid_card to_time user p.bid_action_id) bids
        ∙ any-cong _ _ (offers-render_bid_card test to_time user p.bid_action_id) bids

    offers-active_part :
        (user : Member) (p : Page)
        → offers test (active_part to_time user p) ≡ any (card_offers test p.bid_action_id) p.bids
    unfolding active_part active_bids
    offers-active_part user p = elim (Bool-cases (nat_beq (length p.bids) 0)) [
      | inl e ↦ rw (e, any-empty (card_offers test p.bid_action_id) p.bids (ground arith)) refl
      | inr e ↦
          rw e (
            offers-bid_cards user p (active_bids p.bids)
            ∙ active-card_offers p.bid_action_id p.bids)
    ]

    offers-completed_part :
        (user : Member) (p : Page)
        → test toggle_completed ≡ false
        → offers test (completed_part to_time user p) ≡ false
    unfolding completed_part completed_bids
    offers-completed_part user p other =
        simp
          (
            any-when (enables test),
            offers-bid_cards user p (completed_bids p.bids),
            any-keep-none (card_offers test p.bid_action_id) is_done
                (done-card_offers p.bid_action_id) p.bids,
          )
          (ground arith)

    offers-requests_part :
        (user : Member) (p : Page)
        → test toggle_completed ≡ false
        → offers test (requests_part to_time user p)
          ≡ any (card_offers test p.bid_action_id) p.bids
            || not (any is_accepted p.bids) && (not p.cancelling && test cancel_request)
    unfolding requests_part
    offers-requests_part user p other =
        simp
          (
            any-append (enables test),
            offers-notice_part p.requests_notice,
            offers-error_part p.requests_error,
            offers-new_bids_part (length (submitted_bids p.bids)),
            offers-active_part user p,
            offers-completed_part user p other,
            offers-cancel_part p,
          )
          refl

    offers-requests_of :
        (user : Option Member) (p : Page)
        → test toggle_completed ≡ false
        → offers test (requests_of to_time user p)
          ≡ has_request user
            && (any (card_offers test p.bid_action_id) p.bids
                || not (any is_accepted p.bids) && (not p.cancelling && test cancel_request))
    unfolding requests_of
    offers-requests_of none p other = refl
    offers-requests_of (some user) p other =
        any-when (enables test) (has_request (some user)) (requests_part to_time user p)
        ∙ ap (has_request (some user) &&◌) (offers-requests_part user p other)

    offers-render_data :
        (code : Option String) (p : Page) (d : Option LandingData)
        → test new_request ≡ false
        → test search_again ≡ false
        → test toggle_completed ≡ false
        → offers test (render_data to_time code p d)
          ≡ is_some d
            && (has_request p.user
                && (any (card_offers test p.bid_action_id) p.bids
                    || not (any is_accepted p.bids) && (not p.cancelling && test cancel_request)))
    unfolding render_data render_loaded
    offers-render_data code p none h k other = refl
    offers-render_data code p (some d) h k other =
        simp
          (
            any-append (enables test),
            any-when (enables test),
            offers-render_variant test d (variant_of code p.user d) h k,
            offers-marketing_of p.user,
            offers-requests_of p.user p other,
          )
          (ground arith)

    -- What the page offers of an action of the section "Requests".
    pub offers-render_home :
        (code : Option String) (p : Page)
        → test new_request ≡ false
        → test search_again ≡ false
        → test toggle_completed ≡ false
        → offers test (render_home to_time code p)
          ≡ is_some (ready_data p)
            && (has_request p.user
                && (any (card_offers test p.bid_action_id) p.bids
                    || not (any is_accepted p.bids) && (not p.cancelling && test cancel_request)))
    unfolding render_home
    offers-render_home code p h k other = offers-render_data code p (ready_data p) h k other
