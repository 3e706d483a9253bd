-- ===== src/Paged.antt =====
-- The lists that the admin pages read page by page: app/frontend/hooks/usePaginated.js and
-- app/frontend/components/Pagination.jsx. Pages are numbered from 1. A query is the key of the
-- filters with the page; the path is fixed.
pub mod Laws
pub mod Races
pub mod InOrder
mod Examples
use roost_assured.Common.{
  ℕ, zero, suc, ◌+◌, ◌-◌, ◌*◌, ◌/◌, ◌%◌, ◌≤◌, ◌<◌, String, ◌≡◌, refl, sym, ap, ◌∙◌, ◌≢◌, ◌↔◌, ◌⊎◌,
  inl, inr, Bool, true, false, not, ◌&&◌, ◌||◌, Option, none, some, List, [], ◌∷◌, ◌++◌, map, arith,
  ltb, leb, nat_beq, if◌then◌else◌, ltb→lt, lt→ltb, nat_beq_iff, Bool-cases, Option-cases,
  Comparable, ◌==◌, number_key, string_key, ==_refl, ==_false, ==_comm, length, All, keep, any,
  every, find, when, length-append, length-keep, keep-append, keep-keep, contains, contains-append,
  contains-keep, first_some, without, find_id, contains-map-without, find_id-without,
  find_id-append, find_id-eq-none, All-keep, All-append,
}
use roost_assured.Common.View.{Node, button, number, words}
use roost_assured.Api.{Settled, fulfilled, rejected, message_or}

pub record Query : Type 0 where
  pub filter_key : String
  pub page : ℕ

-- The state of the hook: `previousFilterKey`, the query that the last `load` was made for, and the
-- queries that are asked and not answered, in the order of asking.
pub record Hook (Data : Type 0) : Type 0 where
  pub page : ℕ
  pub data_loaded : Option Data
  pub error : Option String
  pub previous_filter_key : String
  pub loaded : Query
  pub in_flight : List Query

-- `query` of a render with these filters.
abbrev pub query_of : {Data : Type 0} → String → Hook Data → Query
query_of f h = record { filter_key = f; page = h.page }

abbrev pub is_query : Query → Query → Bool
is_query q r = q.filter_key == r.filter_key && nat_beq q.page r.page

-- Without the first of the queries that is `q`.
unfoldable pub take_out : Query → List Query → List Query
take_out q [] = []
take_out q (r ∷ rs) = let rest = take_out q rs in if is_query r q then rs else r ∷ rest

module _ {Data : Type 0} where
  -- `load` of a render whose query is `q`.
  unfoldable pub load : Query → Hook Data → Hook Data
  load q h = record h { error = none; loaded = q; in_flight = h.in_flight ++ q ∷ [] }

  -- The first render, with its effects.
  unfoldable pub mount : String → Hook Data
  unfolding load
  mount f =
      let q : Query = record { filter_key = f; page = 1 } in
      load q (record {
        page = 1;
        data_loaded = none;
        error = none;
        previous_filter_key = f;
        loaded = q;
        in_flight = [];
      })

  -- The first effect: other filters begin at their first page.
  unfoldable pub reset_page : String → Hook Data → Hook Data
  reset_page f h =
      if h.previous_filter_key == f then h else record h { previous_filter_key = f; page = 1 }

  -- The second effect, of a render whose query is `q`.
  unfoldable pub load_new : Query → Hook Data → Hook Data
  load_new q h = if is_query h.loaded q then h else load q h

  -- A render with the filters `f`, and the render that follows when the first effect turns the page.
  -- Both effects of a render see the page of that render.
  unfoldable pub run_effects : String → Hook Data → Hook Data
  run_effects f h = load_new (query_of f h) (reset_page f h)

  unfoldable pub rerender : String → Hook Data → Hook Data
  rerender f h = run_effects f (run_effects f h)

  -- `setPage(n)`.
  unfoldable pub set_page : String → ℕ → Hook Data → Hook Data
  set_page f n h = rerender f (record h { page = n })

  -- `reload`.
  unfoldable pub reload : String → Hook Data → Hook Data
  reload f h = load (query_of f h) h

  -- The answer to a query.
  unfoldable pub answer : Query → Settled Data → Hook Data → Hook Data
  unfolding take_out
  answer q (fulfilled d) h = record h { data_loaded = some d; in_flight = take_out q h.in_flight }
  answer q (rejected es) h = record h {
    error = some (message_or es "Request failed");
    in_flight = take_out q h.in_flight;
  }

-- `meta`.
pub record Meta : Type 0 where
  pub page : ℕ
  pub total_pages : ℕ
  pub total_count : ℕ
  pub per_page : ℕ

-- `first` and `last`, the numbers of the rows of a page.
unfoldable pub first_row : Meta → ℕ
first_row m = (m.page - 1) * m.per_page + 1

unfoldable pub last_row : Meta → ℕ
last_row m = if ltb m.total_count (m.page * m.per_page) then m.total_count else m.page * m.per_page

-- A click calls `onChange` with a page.
pub data PageAction : Type 0 where
  go_to : ℕ → PageAction

unfoldable pub render_pagination : Option Meta → List (Node PageAction)
unfolding first_row last_row
render_pagination none = []
render_pagination (some m) =
    if leb m.total_pages 1
    then []
    else button "← Previous" (leb m.page 1) (go_to (m.page - 1))
      ∷ number (first_row m)
      ∷ words "–"
      ∷ number (last_row m)
      ∷ words "of"
      ∷ number m.total_count
      ∷ button "Next →" (leb m.total_pages m.page) (go_to (m.page + 1))
      ∷ []
