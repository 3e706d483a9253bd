-- ===== src/Home/Landing/Controls.antt =====
-- The controls in the first section of the page of app/frontend/pages/Home.jsx.
use roost_assured.Common.{◌≡◌, refl, Bool, false, List, [], ◌∷◌, arith, number_key, string_key}
use roost_assured.Common.Lists.{any-append, any-when, any-flat_map, any-none}
use roost_assured.Common.View.{enables, offers, shown, dollars, child}
use roost_assured.Home.{LandingData, Member, NearbySitter, Signup}
use roost_assured.Home.BidCard.{HomeAction, new_request, search_again}
use roost_assured.Home.Landing.{
  Variant, welcome, on_the_list, zip_live, ask_window, no_sitters, referral, search, render_variant,
  welcome_part, sitters_part, live_part, first,
}

module _ (test : HomeAction → Bool) where
  offers-sitters_part :
      (signup : Signup) (sitters : List NearbySitter)
      → offers test (sitters_part signup sitters) ≡ false
  unfolding sitters_part
  offers-sitters_part signup sitters =
      simp
        (
          any-when (enables test),
          any-flat_map (enables test)
              (λ s. child "SitterShow" s.id ∷ shown s.name ∷ dollars s.price_per_visit ∷ [])
              (first 6 sitters),
          any-none (λ s. false) (λ s. refl) (first 6 sitters),
        )
        (ground arith)

  offers-welcome_part :
      (user : Member) → test new_request ≡ false → offers test (welcome_part user) ≡ false
  unfolding welcome_part
  offers-welcome_part user h = ground arith

  offers-live_part :
      (d : LandingData) → test search_again ≡ false → offers test (live_part d) ≡ false
  unfolding live_part
  offers-live_part d h = ground arith

  -- The section offers a new request or another search, if anything.
  pub offers-render_variant :
      (d : LandingData) (v : Variant)
      → test new_request ≡ false
      → test search_again ≡ false
      → offers test (render_variant d v) ≡ false
  unfolding render_variant
  offers-render_variant d (welcome user) h k = offers-welcome_part user h
  offers-render_variant d (on_the_list signup) h k =
      simp (any-append (enables test), offers-sitters_part signup d.available_sitters) refl
  offers-render_variant d zip_live h k = offers-live_part d k
  offers-render_variant d ask_window h k = ground arith
  offers-render_variant d no_sitters h k = ground arith
  offers-render_variant d referral h k = refl
  offers-render_variant d search h k = refl
