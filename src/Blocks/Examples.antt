-- ===== src/Blocks/Examples.antt =====
-- A sitter blocks the owner of a request with the menu of
-- app/frontend/components/BlockReportMenu.jsx.
use roost_assured.Common.{
  String, ◌≡◌, refl, true, none, some, [], ◌∷◌, nat_beq, if◌then◌else◌, number_key, string_key,
}
use roost_assured.Common.View.{words}
use roost_assured.Api.{fulfilled}
use roost_assured.JobRequests.Records.{JobRequest}
use roost_assured.JobRequests.Board.{Requests, Board, find_request}
use roost_assured.JobRequests.BidModal.Saving.{found}
use roost_assured.Blocks.{new_menu, block_finish, render_menu}
use roost_assured.Blocks.Laws.{told, block_finish-told}

abbrev request : JobRequest
request = record {
  id = 3;
  name = "Grace";
  city = "Salem";
  state = "OR";
  zip_code = "97301";
  flock_size_tier = none;
  sitting_type = none;
  sitting_dates = [];
  distance_miles = none;
  feeder_count = none;
  waterer_count = none;
  feed_location = none;
  water_location = none;
  coop_features = [];
  care_tasks = [];
  other_care_task = none;
  special_requests = none;
  my_bid = none;
}

abbrev requests : Requests
requests = record { travel_radius_miles = 10; job_requests = request ∷ []; passed_requests = [] }

abbrev page : Board
page = record {
  data_loaded = some requests;
  error = none;
  selected_id = some 3;
  show_passed = true;
  passing_id = none;
  jobs = [];
}

block_finish-told_example :
    (found 3
        (told (block_finish {A = String} 3 (fulfilled "") new_menu).1 (some 3) page).data_loaded
      ≡ (if nat_beq 3 3 then none else find_request 3 requests))
    × (render_menu 3 (block_finish {A = String} 3 (fulfilled "") new_menu).0 ≡ words "Blocked" ∷ [])
block_finish-told_example =
    block_finish-told {A = String} 3 3 (some 3) "" new_menu page requests refl
