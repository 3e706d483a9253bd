-- ===== src/Paged/Laws.antt =====
-- The pages of an admin list of app/frontend, and the queries that are asked for them.
use roost_assured.Common.{
  ℕ, ◌+◌, ◌-◌, ◌*◌, ◌≤◌, ◌<◌, String, ◌≡◌, refl, Bool, true, false, ◌&&◌, ◌||◌, some, arith, ltb,
  leb, if◌then◌else◌, ◌==◌, number_key, string_key, ==_refl, every,
}
use roost_assured.Common.View.{Node, button}
use roost_assured.Paged.{
  Hook, query_of, is_query, load, reset_page, load_new, run_effects, rerender, Meta, first_row,
  last_row, PageAction, go_to, render_pagination,
}

-- Whatever the filters and the page have become, once the page is drawn again the last query asked
-- is the one of the filters and the page shown, and other filters begin at their first page.
pub rerender-loaded :
    {Data : Type 0} (f : String) (h : Hook Data)
    → (is_query (rerender f h).loaded (query_of f (rerender f h)) ≡ true)
      × ((rerender f h).page ≡ (if h.previous_filter_key == f then h.page else 1))
unfolding rerender run_effects load_new load reset_page
rerender-loaded f h = ground (arith, ==_refl f)

-- Where an enabled button of the bar leads, there is a page.
abbrev pub leads_inside : ℕ → Node PageAction → Bool
leads_inside total (button label disabled (go_to n)) = disabled || (ltb 0 n && leb n total)
leads_inside total _ = true

-- On a page that exists and has rows after it, the enabled buttons lead to pages that exist, and the rows of the next page follow those of this
-- one, so that no row is left out or shown twice.
pub render_pagination-rows :
    (m : Meta)
    → 1 ≤ m.page
    → m.page ≤ m.total_pages
    → m.page * m.per_page < m.total_count
    → (every (leads_inside m.total_pages) (render_pagination (some m)) ≡ true)
      × (first_row (record m { page = m.page + 1 }) ≡ last_row m + 1)
unfolding render_pagination first_row last_row
render_pagination-rows m h t k =
    let same : m.page + 1 - 1 ≡ m.page = omega arith in
    let full : ltb m.total_count (m.page * m.per_page) ≡ false = ground arith in
    (ground arith, rw (same, full) refl)
