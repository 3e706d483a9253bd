-- ===== src/Paged/InOrder.antt =====
-- What a list of app/frontend/hooks/usePaginated.js shows in the end, if its queries are answered in
-- the order of asking.
use mathlib.Core.List.{foldl}
use roost_assured.Common.{
  ℕ, String, ◌≡◌, refl, ap, ◌∙◌, Bool, true, Option, none, some, List, [], ◌∷◌, ◌++◌, arith,
  nat_beq, nat_beq_iff, ◌==◌, number_key, string_key, ◌&&◌,
}
use roost_assured.Common.Tests.{if-cases}
use roost_assured.Api.{Settled, fulfilled, rejected}
use roost_assured.Paged.{
  Query, Hook, query_of, is_query, load, mount, reset_page, load_new, run_effects, rerender,
  set_page, reload, answer,
}
use roost_assured.Paged.Laws.{rerender-loaded}
use roost_assured.Paged.Races.{take_out-first}

-- Other filters, another page, the same query once more, and the answer to the query that was asked
-- first of those under way: its rows, or an error.
pub data ListEvent : Type 0 where
  filtered : String → ListEvent
  turned : ℕ → ListEvent
  reloaded : ListEvent
  answered : ListEvent
  failed : Option (List String) → ListEvent

last_of : Query → List Query → Query
last_of q [] = q
last_of q (r ∷ rs) = last_of r rs

last_of-snoc : (q r : Query) (qs : List Query) → last_of q (qs ++ r ∷ []) ≡ r
unfolding last_of
last_of-snoc q r [] = refl
last_of-snoc q r (x ∷ qs) = last_of-snoc x r qs

both : (a b : Bool) → (a && b) ≡ true → (a ≡ true) × (b ≡ true)
both a b h = (ground arith, ground arith)

is_query→≡ : (q r : Query) → is_query q r ≡ true → q ≡ r
is_query→≡ q r h =
    let (keys, pages) = both (q.filter_key == r.filter_key) (nat_beq q.page r.page) h in
    ap (λ k. record { filter_key = k; page = q.page })
      ((string_key.same_iff q.filter_key r.filter_key).0 keys)
    ∙ ap (λ n. record { filter_key = r.filter_key; page = n }) ((nat_beq_iff q.page r.page).0 pages)

module _ {Data : Type 0} (server : Query → Data) where
  abbrev take_answer : (Query → Settled Data) → List Query → Hook Data → Hook Data
  take_answer reply [] h = h
  take_answer reply (q ∷ qs) h = answer q (reply q) h

  -- The filters, and the hook.
  unfoldable pub on_list : String × Hook Data → ListEvent → String × Hook Data
  on_list (f, h) (filtered g) = (g, rerender g h)
  on_list (f, h) (turned n) = (f, set_page f n h)
  on_list (f, h) reloaded = (f, reload f h)
  on_list (f, h) answered = (f, take_answer (λ q. fulfilled (server q)) h.in_flight h)
  on_list (f, h) (failed es) = (f, take_answer (λ q. rejected es) h.in_flight h)

  -- The query for what is shown is the last of those under way; with none under way, it has been
  -- answered, or there is an error.
  IsAwaited : Query → Option Data → Option String → List Query → Type 0
  IsAwaited loaded rows error [] = error ≡ none → rows ≡ some (server loaded)
  IsAwaited loaded rows error (q ∷ qs) = last_of q qs ≡ loaded

  abbrev IsWaiting : Hook Data → Type 0
  IsWaiting h = IsAwaited h.loaded h.data_loaded h.error h.in_flight

  IsAwaited-snoc :
      (q : Query) (rows : Option Data) (error : Option String) (qs : List Query)
      → IsAwaited q rows error (qs ++ q ∷ [])
  unfolding IsAwaited last_of
  IsAwaited-snoc q rows error [] = refl
  IsAwaited-snoc q rows error (r ∷ qs) = last_of-snoc r q qs

  load-IsWaiting : (q : Query) (h : Hook Data) → IsWaiting (load q h)
  unfolding load
  load-IsWaiting q h = IsAwaited-snoc q h.data_loaded none h.in_flight

  reset_page-IsWaiting : (f : String) (h : Hook Data) → IsWaiting h → IsWaiting (reset_page f h)
  unfolding reset_page
  reset_page-IsWaiting f h i =
      if-cases IsWaiting (h.previous_filter_key == f) h _ (λ same. i) (λ other. i)

  load_new-IsWaiting : (q : Query) (h : Hook Data) → IsWaiting h → IsWaiting (load_new q h)
  unfolding load_new
  load_new-IsWaiting q h i =
      if-cases IsWaiting (is_query h.loaded q) h (load q h) (λ same. i) (λ new. load-IsWaiting q h)

  run_effects-IsWaiting : (f : String) (h : Hook Data) → IsWaiting h → IsWaiting (run_effects f h)
  unfolding run_effects
  run_effects-IsWaiting f h i =
      load_new-IsWaiting (query_of f h) (reset_page f h) (reset_page-IsWaiting f h i)

  rerender-IsWaiting : (f : String) (h : Hook Data) → IsWaiting h → IsWaiting (rerender f h)
  unfolding rerender
  rerender-IsWaiting f h i = run_effects-IsWaiting f (run_effects f h) (run_effects-IsWaiting f h i)

  -- Once the oldest query is answered.
  answered-IsAwaited :
      (loaded q : Query) (d : Data) (error : Option String) (qs : List Query)
      → last_of q qs ≡ loaded
      → d ≡ server q
      → IsAwaited loaded (some d) error qs
  unfolding IsAwaited last_of
  answered-IsAwaited loaded q d error [] e s = λ _. ap some (s ∙ ap server e)
  answered-IsAwaited loaded q d error (r ∷ qs) e s = e

  failed-IsAwaited :
      (loaded q : Query) (rows : Option Data) (message : String) (qs : List Query)
      → last_of q qs ≡ loaded
      → IsAwaited loaded rows (some message) qs
  unfolding IsAwaited last_of
  failed-IsAwaited loaded q rows message [] e = λ wrong. ground arith
  failed-IsAwaited loaded q rows message (r ∷ qs) e = e

  -- The query for what is shown was asked, and what the answers in order leave.
  record IsInOrder (s : String × Hook Data) : Type 0 where
    asked : s.1.loaded ≡ query_of s.0 s.1
    waiting : IsWaiting s.1

  rerender-IsInOrder : (f : String) (h : Hook Data) → IsWaiting h → IsInOrder (f, rerender f h)
  rerender-IsInOrder f h i = record {
    asked = is_query→≡ _ _ (rerender-loaded f h).0;
    waiting = rerender-IsWaiting f h i;
  }

  answered-IsInOrder :
      (f : String) (h : Hook Data) (qs : List Query)
      → h.in_flight ≡ qs
      → IsInOrder (f, h)
      → IsInOrder (f, take_answer (λ q. fulfilled (server q)) qs h)
  unfolding answer IsAwaited
  answered-IsInOrder f h [] e i = i
  answered-IsInOrder f h (q ∷ qs) e i = record {
    asked = i.asked;
    waiting =
        rw (e, take_out-first q qs)
          (answered-IsAwaited h.loaded q (server q) h.error qs (rw e at i.waiting) refl);
  }

  failed-IsInOrder :
      (f : String) (h : Hook Data) (es : Option (List String)) (qs : List Query)
      → h.in_flight ≡ qs
      → IsInOrder (f, h)
      → IsInOrder (f, take_answer (λ q. rejected es) qs h)
  unfolding answer IsAwaited
  failed-IsInOrder f h es [] e i = i
  failed-IsInOrder f h es (q ∷ qs) e i = record {
    asked = i.asked;
    waiting =
        rw (e, take_out-first q qs)
          (failed-IsAwaited h.loaded q h.data_loaded _ qs (rw e at i.waiting));
  }

  on_list-IsInOrder :
      (s : String × Hook Data) (e : ListEvent) → IsInOrder s → IsInOrder (on_list s e)
  unfolding on_list set_page reload load
  on_list-IsInOrder (f, h) (filtered g) i = rerender-IsInOrder g h i.waiting
  on_list-IsInOrder (f, h) (turned n) i = rerender-IsInOrder f (record h { page = n }) i.waiting
  on_list-IsInOrder (f, h) reloaded i = record {
    asked = refl;
    waiting = IsAwaited-snoc (query_of f h) h.data_loaded none h.in_flight;
  }
  on_list-IsInOrder (f, h) answered i = answered-IsInOrder f h h.in_flight refl i
  on_list-IsInOrder (f, h) (failed es) i = failed-IsInOrder f h es h.in_flight refl i

  foldl-IsInOrder :
      (es : List ListEvent) (s : String × Hook Data) → IsInOrder s → IsInOrder (foldl on_list s es)
  foldl-IsInOrder [] s i = i
  foldl-IsInOrder (e ∷ es) s i = foldl-IsInOrder es (on_list s e) (on_list-IsInOrder s e i)

  mount-IsInOrder : (f : String) → IsInOrder (f, mount f)
  unfolding mount load IsAwaited last_of
  mount-IsInOrder f = record { asked = refl; waiting = refl }

  -- From the first render on, whatever the changes of the filters and the page, the reloads, the
  -- answers and the errors, each for the query asked first of those under way: once none is under way
  -- and no error is shown, the list holds the server's answer for the filters and the page shown.
  pub in_order_run-shown :
      (f : String) (es : List ListEvent)
      → (foldl on_list (f, mount f) es).1.in_flight ≡ []
      → (foldl on_list (f, mount f) es).1.error ≡ none
      → let (g, h) = foldl on_list (f, mount f) es in h.data_loaded ≡ some (server (query_of g h))
  unfolding IsAwaited
  in_order_run-shown f es idle fine =
      let i = foldl-IsInOrder es (f, mount f) (mount-IsInOrder f) in
      (rw idle at i.waiting) fine ∙ ap (λ q. some (server q)) i.asked
