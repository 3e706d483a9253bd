-- ===== src/JobRequests/Board/Lookup.antt =====
-- The two lists of app/frontend/pages/JobRequests.jsx as a map from the ids of requests.
use roost_assured.Common.{
  ℕ, ◌≡◌, none, some, [], ◌∷◌, ◌++◌, arith, if◌then◌else◌, ◌==◌, number_key, string_key, without,
  find_id-without, find_id-append,
}
use roost_assured.JobRequests.Records.{JobRequest, is_passed}
use roost_assured.JobRequests.Board.{
  Requests, request_id, apply_job_update, drop_owner, find_request,
}

-- `applyJobUpdate` puts the request under its id, whatever stood there, and leaves every other
-- request that the page can find.
pub find_request-apply_job_update :
    (updated : JobRequest) (d : Requests) (z : ℕ)
    → find_request z (apply_job_update updated d)
      ≡ (if z == updated.id then some updated else find_request z d)
unfolding apply_job_update
find_request-apply_job_update u d z =
    let rest = without request_id u.id d.job_requests in
    let rest' = without request_id u.id d.passed_requests in
    let opens = if is_passed u then [] else u ∷ [] in
    let passes = if is_passed u then u ∷ [] else [] in
    ground (
      arith,
      find_id-append request_id (rest ++ opens) (rest' ++ passes) z,
      find_id-append request_id rest opens z,
      find_id-append request_id rest' passes z,
      find_id-append request_id d.job_requests d.passed_requests z,
      find_id-without request_id u.id d.job_requests z,
      find_id-without request_id u.id d.passed_requests z,
    )

-- Blocking an owner takes the owner's request away, and no other.
pub find_request-drop_owner :
    (owner_id : ℕ) (d : Requests) (z : ℕ)
    → find_request z (drop_owner owner_id d) ≡ (if z == owner_id then none else find_request z d)
unfolding drop_owner
find_request-drop_owner i d z = ground (
  arith,
  find_id-append request_id (without request_id i d.job_requests)
      (without request_id i d.passed_requests) z,
  find_id-append request_id d.job_requests d.passed_requests z,
  find_id-without request_id i d.job_requests z,
  find_id-without request_id i d.passed_requests z,
)
