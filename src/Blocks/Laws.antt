-- ===== src/Blocks/Laws.antt =====
-- The menu of app/frontend/components/BlockReportMenu.jsx on a row of the page of job requests.
use roost_assured.Common.{
  ℕ, ◌≡◌, refl, Option, none, some, if◌then◌else◌, ◌==◌, number_key, string_key, [], ◌∷◌,
}
use roost_assured.Common.View.{words}
use roost_assured.Api.{fulfilled}
use roost_assured.JobRequests.Board.{Requests, Board, find_request, blocked, on_event}
use roost_assured.JobRequests.Board.Lookup.{find_request-drop_owner}
use roost_assured.JobRequests.Board.Partition.{handle_blocked_owner-data}
use roost_assured.JobRequests.BidModal.Saving.{found}
use roost_assured.Blocks.{Menu, block_finish, render_menu}

-- What the page does with the call of `onBlocked`, if there is one, in which `selected` was selected
-- at the click on the menu.
abbrev pub told : Option ℕ → Option ℕ → Board → Board
told none selected b = b
told (some owner_id) selected b = on_event b (blocked owner_id selected)

-- Once the server has blocked an owner, the page no longer finds the owner's request, finds all
-- others as before, and the menu is the word Blocked and nothing else, whatever of it was open, if the
-- requests were loaded.
pub block_finish-told :
    {A : Type 0} (owner_id z : ℕ) (selected : Option ℕ) (a : A) (m : Menu) (b : Board)
    (d : Requests)
    → b.data_loaded ≡ some d
    → let (m', out) = block_finish owner_id (fulfilled a) m in
      (found z (told out selected b).data_loaded
        ≡ (if z == owner_id then none else find_request z d))
      × (render_menu owner_id m' ≡ words "Blocked" ∷ [])
unfolding block_finish render_menu on_event
block_finish-told owner_id z selected a m b d e = (
  rw (handle_blocked_owner-data owner_id selected b, e) (find_request-drop_owner owner_id d z),
  refl,
)
