-- ===== src/Home/Loading.antt =====
-- `load` of app/frontend/pages/Home.jsx has no `catch`, and what starts it stands on the page.
use mathlib.Core.List.{foldl}
use roost_assured.Common.{
  String, ◌≡◌, refl, ◌∙◌, inl, inr, true, false, Option, none, some, List, [], ◌∷◌, arith,
  Bool-cases, number_key, string_key,
}
use roost_assured.Common.View.{words}
use roost_assured.Api.{Settled, fulfilled, rejected}
use roost_assured.Home.{
  OwnerBid, job_update, drop_sitter, Decision, Member, Page, load_finish, load_bids_finish,
  cancel_finish, decide_finish, rate_finish, new_page, load_start,
}
use roost_assured.Home.Render.{render_home-loading}
use roost_assured.Home.Visits.{
  Call, get_home, get_bids, send_form, delete_request, post_decision, post_rating, Visit, new_visit,
  set_user, on_page, set_request_open, set_bids, under_way, take_out, answered, cancelled, drawn,
  on_visit, HomeEvent, home_answer, bids_answer, form_answer, cancel_answer, decision_answer,
  rating_answer, clicked, form_sent, rated, request_closed, request_saved, job_changed,
  sitter_blocked, user_changed,
}

-- The page loads, and no request is under way whose answer could end that.
pub record IsStuck (v : Visit) : Type 0 where
  pub loads : v.page.loading ≡ true
  pub home : under_way get_home v.calls ≡ false
  pub form : under_way send_form v.calls ≡ false

under_way-take_out :
    (c d : Call) (calls : List Call)
    → under_way c calls ≡ false
    → under_way c (take_out d calls) ≡ false
unfolding take_out
under_way-take_out c d [] h = refl
under_way-take_out c d (x ∷ calls) h = ground (arith, under_way-take_out c d calls)

on_page-IsStuck :
    (f : Page → Page)
    → ((p : Page) → (f p).loading ≡ p.loading)
    → (v : Visit) → IsStuck v
    → IsStuck (on_page f v)
on_page-IsStuck f keeps v s = record {
  loads = keeps v.page ∙ s.loads;
  home = s.home;
  form = s.form;
}

answered-IsStuck :
    (c : Call) (f : Visit → Visit)
    → ((v : Visit) → IsStuck v → IsStuck (f v))
    → (v : Visit) → IsStuck v
    → IsStuck (answered c f v)
answered-IsStuck c f keeps v s = elim (Bool-cases (under_way c v.calls)) [
  | inl p ↦ rw p (
      keeps (record v { calls = take_out c v.calls })
        record {
          loads = s.loads;
          home = under_way-take_out get_home c v.calls s.home;
          form = under_way-take_out send_form c v.calls s.form;
        })
  | inr p ↦ rw p s
]

set_user-IsStuck : (user : Option Member) (v : Visit) → IsStuck v → IsStuck (set_user user v)
unfolding set_user
set_user-IsStuck none v s = record { loads = s.loads; home = s.home; form = s.form }
set_user-IsStuck (some user) v s = record { loads = s.loads; home = s.home; form = s.form }

-- No handler but `load` sets `loading`.
load_bids_finish-loading :
    (r : Settled (List OwnerBid)) (p : Page) → (load_bids_finish r p).loading ≡ p.loading
unfolding load_bids_finish
load_bids_finish-loading (fulfilled bids) p = refl
load_bids_finish-loading (rejected es) p = refl

cancel_finish-loading : (r : Settled Member) (p : Page) → (cancel_finish r p).loading ≡ p.loading
unfolding cancel_finish
cancel_finish-loading (fulfilled user) p = refl
cancel_finish-loading (rejected es) p = refl

decide_finish-loading :
    (d : Decision) (r : Settled (List OwnerBid)) (p : Page)
    → (decide_finish d r p).loading ≡ p.loading
unfolding decide_finish
decide_finish-loading d (fulfilled bids) p = refl
decide_finish-loading d (rejected es) p = refl

rate_finish-loading :
    (r : Settled (List OwnerBid)) (p : Page) → (rate_finish r p).loading ≡ p.loading
unfolding rate_finish
rate_finish-loading (fulfilled bids) p = refl
rate_finish-loading (rejected es) p = refl

cancelled-IsStuck : (r : Settled Member) (v : Visit) → IsStuck v → IsStuck (cancelled r v)
unfolding cancelled
cancelled-IsStuck (fulfilled user) v s =
    set_user-IsStuck (some user) (on_page (cancel_finish (fulfilled user)) v) (
      on_page-IsStuck (cancel_finish (fulfilled user)) (cancel_finish-loading (fulfilled user)) v s)
cancelled-IsStuck (rejected es) v s =
    on_page-IsStuck (cancel_finish (rejected es)) (cancel_finish-loading (rejected es)) v s

module _ (to_time : String → String) (code : Option String) where
  on_visit-IsStuck : (v : Visit) (e : HomeEvent) → IsStuck v → IsStuck (on_visit to_time code v e)
  unfolding on_visit
  on_visit-IsStuck v (home_answer r) s = rw s.home s
  on_visit-IsStuck v (bids_answer r) s =
      answered-IsStuck get_bids (on_page (load_bids_finish r))
        (on_page-IsStuck (load_bids_finish r) (load_bids_finish-loading r)) v s
  on_visit-IsStuck v (form_answer r) s = rw s.form s
  on_visit-IsStuck v (cancel_answer r) s =
      answered-IsStuck delete_request (cancelled r) (cancelled-IsStuck r) v s
  on_visit-IsStuck v (decision_answer i d r) s =
      answered-IsStuck (post_decision i d) (on_page (decide_finish d r))
        (on_page-IsStuck (decide_finish d r) (decide_finish-loading d r)) v s
  on_visit-IsStuck v (rating_answer i r) s =
      answered-IsStuck (post_rating i) (on_page (rate_finish r))
        (on_page-IsStuck (rate_finish r) (rate_finish-loading r)) v s
  on_visit-IsStuck v (clicked a confirmed) s =
      rw (render_home-loading to_time code v.page s.loads) s
  on_visit-IsStuck v (form_sent name) s = rw (render_home-loading to_time code v.page s.loads) s
  on_visit-IsStuck v (rated i) s = rw (render_home-loading to_time code v.page s.loads) s
  on_visit-IsStuck v request_closed s = on_page-IsStuck (set_request_open false) (λ p. refl) v s
  on_visit-IsStuck v (request_saved user) s =
      on_page-IsStuck (set_request_open false) (λ p. refl) (set_user (some user) v)
        (set_user-IsStuck (some user) v s)
  on_visit-IsStuck v (job_changed i d) s =
      on_page-IsStuck (set_bids (job_update i d)) (λ p. refl) v s
  on_visit-IsStuck v (sitter_blocked i) s =
      on_page-IsStuck (set_bids (drop_sitter i)) (λ p. refl) v s
  on_visit-IsStuck v (user_changed user) s = set_user-IsStuck user v s

  foldl-IsStuck :
      (es : List HomeEvent) (v : Visit) → IsStuck v → IsStuck (foldl (on_visit to_time code) v es)
  foldl-IsStuck [] v s = s
  foldl-IsStuck (e ∷ es) v s = foldl-IsStuck es (on_visit to_time code v e) (on_visit-IsStuck v e s)

  new_visit-IsStuck :
      (user : Option Member) (errors : Option (List String))
      → IsStuck (on_visit to_time code (new_visit user) (home_answer (rejected errors)))
  unfolding on_visit new_visit load_finish take_out new_page load_start
  new_visit-IsStuck none errors = record { loads = refl; home = refl; form = refl }
  new_visit-IsStuck (some user) errors = record { loads = refl; home = refl; form = refl }

  -- If the first GET /home fails, the page shows "Loading…" and nothing else from then on, whatever
  -- is clicked, answered or sent to it, in any order.
  pub failed_load-forever :
      (user : Option Member) (errors : Option (List String)) (es : List HomeEvent)
      → drawn to_time code (
          foldl
            (on_visit to_time code)
            (on_visit to_time code (new_visit user) (home_answer (rejected errors)))
            es)
        ≡ words "Loading…" ∷ []
  failed_load-forever user errors es =
      render_home-loading to_time code _ (foldl-IsStuck es _ (new_visit-IsStuck user errors)).loads
