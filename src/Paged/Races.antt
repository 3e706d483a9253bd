-- ===== src/Paged/Races.antt =====
-- The order in which the answers to the queries of app/frontend/hooks/usePaginated.js come.
use roost_assured.Common.{
  ℕ, String, ◌≡◌, refl, true, false, some, List, [], ◌∷◌, arith, ◌==◌, number_key, string_key,
  ==_refl,
}
use roost_assured.Api.{fulfilled}
use roost_assured.Paged.{
  Query, Hook, is_query, load, reset_page, load_new, run_effects, rerender, answer, take_out,
}

is_query_refl : (q : Query) → is_query q q ≡ true
is_query_refl q = rw (==_refl q.filter_key) (ground arith)

pub take_out-first : (q : Query) (qs : List Query) → take_out q (q ∷ qs) ≡ qs
unfolding take_out
take_out-first q qs = rw (is_query_refl q) refl

-- The queries of a page left behind and of the first one are told apart.
take_out-two :
    (f : String) (n : ℕ)
    → (n == 1) ≡ false
    → let first : Query = record { filter_key = f; page = 1 } in
      let left : Query = record { filter_key = f; page = n } in
      take_out left (take_out first (left ∷ first ∷ [])) ≡ []
unfolding take_out
take_out-two f n late = simp (==_refl f, late, ==_refl n) refl

-- With other filters on a page that is not the first, two queries are asked.
rerender-two :
    {Data : Type 0} (f : String) (h : Hook Data)
    → (h.previous_filter_key == f) ≡ false
    → (h.loaded.filter_key == f) ≡ false
    → (h.page == 1) ≡ false
    → h.in_flight ≡ []
    → ((rerender f h).in_flight
        ≡ record { filter_key = f; page = h.page } ∷ record { filter_key = f; page = 1 } ∷ [])
      × ((rerender f h).page ≡ 1)
unfolding rerender run_effects load_new load reset_page
rerender-two f h changed other late idle = simp (changed, other, ==_refl f, late, idle) (refl, refl)

module _ {Data : Type 0} (server : Query → Data) where
  -- The server answers these queries, one after the other.
  abbrev pub answer_all : List Query → Hook Data → Hook Data
  answer_all [] h = h
  answer_all (q ∷ qs) h = answer_all qs (answer q (fulfilled (server q)) h)

  -- If the answers do not come in the order of asking: with other filters on a page that is not the first, the query of
  -- the page left behind is asked too, and if it is answered last, its rows are shown, with no query
  -- under way before.
  pub rerender-late :
      (f : String) (h : Hook Data)
      → (h.previous_filter_key == f) ≡ false
      → (h.loaded.filter_key == f) ≡ false
      → (h.page == 1) ≡ false
      → h.in_flight ≡ []
      → let first : Query = record { filter_key = f; page = 1 } in
        let left : Query = record { filter_key = f; page = h.page } in
        let h' = answer_all (first ∷ left ∷ []) (rerender f h) in
        ((rerender f h).in_flight ≡ left ∷ first ∷ [])
        × (h'.data_loaded ≡ some (server left))
        × (h'.page ≡ 1)
        × (h'.in_flight ≡ [])
  unfolding answer
  rerender-late f h changed other late idle =
      let (asked, shown) = rerender-two f h changed other late idle in
      (asked, refl, shown, rw asked (take_out-two f h.page late))
