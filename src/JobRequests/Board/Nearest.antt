-- ===== src/JobRequests/Board/Nearest.antt =====
-- The order of the open requests in app/frontend/pages/JobRequests.jsx. The server sends them
-- closest first, and the page says so above the list.
use roost_assured.Common.{
  ℕ, ◌≤◌, ◌<◌, ◌≡◌, inl, inr, Bool, true, false, not, Option, none, some, List, [], ◌∷◌, ◌++◌,
  arith, Bool-cases, ◌==◌, number_key, string_key, All, keep, without, All-keep,
}
use mathlib.Core.List.{append-nil}
use roost_assured.JobRequests.Records.{JobRequest, is_passed}
use roost_assured.JobRequests.Board.{Requests, request_id, apply_job_update, drop_owner}

abbrev tenths : Option ℕ → ℕ
tenths none = 0
tenths (some n) = n

abbrev pub IsNoFarther : JobRequest → JobRequest → Type 0
IsNoFarther x y = tenths x.distance_miles ≤ tenths y.distance_miles

abbrev pub IsClosestFirst : List JobRequest → Type 0
IsClosestFirst [] = Unit
IsClosestFirst (x ∷ xs) = All (IsNoFarther x) xs × IsClosestFirst xs

IsClosestFirst-keep :
    (test : JobRequest → Bool) (xs : List JobRequest)
    → IsClosestFirst xs
    → IsClosestFirst (keep test xs)
IsClosestFirst-keep test [] h = tt
IsClosestFirst-keep test (x ∷ xs) h = elim (Bool-cases (test x)) [
  | inl p ↦ rw p (All-keep (IsNoFarther x) test xs h.0, IsClosestFirst-keep test xs h.1)
  | inr p ↦ rw p (IsClosestFirst-keep test xs h.1)
]

not-IsClosestFirst-append :
    (x y : JobRequest) (xs : List JobRequest)
    → tenths y.distance_miles < tenths x.distance_miles
    → ¬ IsClosestFirst (x ∷ (xs ++ y ∷ []))
not-IsClosestFirst-append x y [] h s = omega arith
not-IsClosestFirst-append x y (z ∷ xs) h s = not-IsClosestFirst-append x y xs h (s.0.1, s.1.1)

-- The request of the lists of which a bid was just saved, the closest of them.
module _ (x y u : JobRequest) (rest : List JobRequest) (d : Requests) where
  -- A bid on the closest of the open requests does not keep them closest first: it moves the
  -- request behind all others, if the next one is farther.
  pub apply_job_update-not-IsClosestFirst :
      d.job_requests ≡ x ∷ y ∷ rest
      → tenths x.distance_miles < tenths y.distance_miles
      → u.id ≡ x.id
      → u.distance_miles ≡ x.distance_miles
      → (y.id == u.id) ≡ false
      → is_passed u ≡ false
      → ¬ IsClosestFirst (apply_job_update u d).job_requests
  unfolding apply_job_update
  apply_job_update-not-IsClosestFirst e far same_id same_distance other p c =
      not-IsClosestFirst-append y u (without request_id u.id rest) (rw same_distance far)
        (rw (p, head_dropped) at c)
    where
      head_dropped : without request_id u.id d.job_requests ≡ y ∷ without request_id u.id rest
      head_dropped = rw e (ground arith)

-- Passing on a request keeps the others in their order, closest first, and so does blocking an
-- owner.
pub apply_job_update-IsClosestFirst :
    (u : JobRequest) (i : ℕ) (d : Requests)
    → is_passed u ≡ true
    → IsClosestFirst d.job_requests
    → IsClosestFirst (apply_job_update u d).job_requests
      × IsClosestFirst (drop_owner i d).job_requests
unfolding apply_job_update drop_owner
apply_job_update-IsClosestFirst u i d p s = (
  rw (p, append-nil) (IsClosestFirst-keep (λ j. not (j.id == u.id)) d.job_requests s),
  IsClosestFirst-keep (λ j. not (j.id == i)) d.job_requests s,
)
