-- ===== src/Paged/Examples.antt =====
-- The theorems on the admin lists of app/frontend at a list of five pages.
use mathlib.Core.List.{foldl}
use roost_assured.Common.{
  ℕ, ◌+◌, String, ◌≡◌, refl, true, none, some, List, [], ◌∷◌, arith, if◌then◌else◌, ◌==◌,
  number_key, string_key, every,
}
use roost_assured.Paged.{
  Query, Hook, query_of, is_query, rerender, mount, load, run_effects, load_new, reset_page,
  set_page, answer, take_out, Meta, first_row, last_row, render_pagination,
}
use roost_assured.Paged.Laws.{rerender-loaded, leads_inside, render_pagination-rows}
use roost_assured.Paged.InOrder.{
  ListEvent, filtered, turned, answered, failed, on_list, in_order_run-shown,
}
use roost_assured.Paged.Races.{answer_all, rerender-late}

abbrev all_jobs : Query
all_jobs = record { filter_key = ""; page = 5 }

abbrev open_jobs : Query
open_jobs = record { filter_key = "status=open"; page = 5 }

abbrev first_open_jobs : Query
first_open_jobs = record { filter_key = "status=open"; page = 1 }

-- The fifth page is shown; the data is the number of the page.
abbrev hook : List Query → Hook ℕ
hook queries = record {
  page = 5;
  data_loaded = some 5;
  error = none;
  previous_filter_key = "";
  loaded = all_jobs;
  in_flight = queries;
}

abbrev server : Query → ℕ
server q = q.page

rerender-loaded_example :
    (is_query
        (rerender "status=open" (hook [])).loaded
        (query_of "status=open" (rerender "status=open" (hook [])))
      ≡ true)
    × ((rerender "status=open" (hook [])).page
        ≡ (if ◌==◌ {A = String} "" "status=open" then 5 else 1))
rerender-loaded_example = rerender-loaded "status=open" (hook [])

abbrev jobs_meta : Meta
jobs_meta = record { page = 2; total_pages = 3; total_count = 55; per_page = 20 }

render_pagination-rows_example :
    (every (leads_inside 3) (render_pagination (some jobs_meta)) ≡ true)
    × (first_row (record jobs_meta { page = 3 }) ≡ last_row jobs_meta + 1)
render_pagination-rows_example =
    render_pagination-rows jobs_meta (omega arith) (omega arith) (omega arith)

-- An error, other filters, the third page of them, and two answers.
abbrev list_events : List ListEvent
list_events = failed none ∷ filtered "status=open" ∷ turned 3 ∷ answered ∷ answered ∷ []

idle : (foldl (on_list server) ("", mount "") list_events).1.in_flight ≡ []
unfolding on_list mount load rerender run_effects load_new reset_page set_page answer take_out
idle = refl

no_error : (foldl (on_list server) ("", mount "") list_events).1.error ≡ none
unfolding on_list mount load rerender run_effects load_new reset_page set_page answer take_out
no_error = refl

in_order_run-shown_example :
    let (g, h) = foldl (on_list server) ("", mount "") list_events in
    h.data_loaded ≡ some (server (query_of g h))
in_order_run-shown_example = in_order_run-shown server "" list_events idle no_error

-- The page shown in the end.
third_page : (foldl (on_list server) ("", mount "") list_events).1.data_loaded ≡ some 3
unfolding on_list mount load rerender run_effects load_new reset_page set_page answer take_out
third_page = refl

rerender-late_example :
    ((rerender "status=open" (hook [])).in_flight ≡ open_jobs ∷ first_open_jobs ∷ [])
    × ((answer_all server
          (first_open_jobs ∷ open_jobs ∷ [])
          (rerender "status=open" (hook []))).data_loaded
        ≡ some 5)
    × ((answer_all server
          (first_open_jobs ∷ open_jobs ∷ [])
          (rerender "status=open" (hook []))).page
        ≡ 1)
    × ((answer_all server
          (first_open_jobs ∷ open_jobs ∷ [])
          (rerender "status=open" (hook []))).in_flight
        ≡ [])
rerender-late_example = rerender-late server "status=open" (hook []) refl refl refl refl
