-- ===== src/Home/Requests.antt =====
-- What the page of app/frontend/pages/Home.jsx lets the owner do with the bids on a request.
use roost_assured.Common.{
  ℕ, String, ◌≡◌, refl, ◌∙◌, Bool, false, not, ◌&&◌, Option, arith, nat_beq, nat_beq_iff,
  number_key, string_key, any,
}
use roost_assured.Common.Lists.{any-cong, any-none}
use roost_assured.Common.View.{offers}
use roost_assured.Api.Laws.{is_some}
use roost_assured.Home.{
  OwnerBid, Page, Decision, accept, reject, is_submitted, is_accepted, has_request,
}
use roost_assured.Home.BidCard.{cancel_request, decide, is_slot}
use roost_assured.Home.BidCard.Controls.{card_offers}
use roost_assured.Home.Render.{ready_data, render_home}
use roost_assured.Home.Render.Controls.{offers-render_home}
use roost_assured.Home.Visits.{is_action}

-- Can this bid, of this number, be decided on, with the decision `slot` marked as under way?
abbrev pub is_open_bid : Option ℕ → ℕ → OwnerBid → Bool
is_open_bid slot i b = nat_beq i b.id && (is_submitted b && (not b.stale && not (is_slot slot i)))

card_offers-decide :
    (i : ℕ) (d : Decision) (slot : Option ℕ) (b : OwnerBid)
    → card_offers (is_action (decide i d)) slot b ≡ is_open_bid slot i b
card_offers-decide i accept slot b = ground (arith, nat_beq_iff i b.id)
card_offers-decide i reject slot b = ground (arith, nat_beq_iff i b.id)

card_offers-cancel :
    (slot : Option ℕ) (b : OwnerBid) → card_offers (is_action cancel_request) slot b ≡ false
card_offers-cancel slot b = ground arith

module _ (to_time : String → String) (code : Option String) (p : Page) where
  -- Once the page is loaded, a user with a request can accept, and as well reject, just the bids that
  -- are submitted, made on the request as it is now, and not the one whose decision is marked as under
  -- way; and can cancel the request just when no bid is accepted and no cancellation is under way.
  pub offers-request_controls :
      (i : ℕ) (d : Decision)
      → (offers (is_action (decide i d)) (render_home to_time code p)
          ≡ is_some (ready_data p)
            && (has_request p.user && any (is_open_bid p.bid_action_id i) p.bids))
        × (offers (is_action cancel_request) (render_home to_time code p)
            ≡ is_some (ready_data p)
              && (has_request p.user && (not (any is_accepted p.bids) && not p.cancelling)))
  offers-request_controls i d = (
    offers-render_home (is_action (decide i d)) to_time code p refl refl refl
        ∙ rw (any-cong _ _ (card_offers-decide i d p.bid_action_id) p.bids) (ground arith),
    offers-render_home (is_action cancel_request) to_time code p refl refl refl
        ∙ rw (any-none _ (card_offers-cancel p.bid_action_id) p.bids) (ground arith),
  )
