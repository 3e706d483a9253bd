-- ===== src/JobRequests/Board/Partition.antt =====
-- The two lists of app/frontend/pages/JobRequests.jsx stay apart, whatever happens to the page.
use mathlib.Core.Option
use mathlib.Core.List.{foldl, append-nil}
use roost_assured.Common.{
  ℕ, ◌≡◌, refl, ap, inl, inr, Bool, true, false, not, ◌&&◌, Option, none, some, List, [], ◌∷◌, ◌++◌,
  map, arith, if◌then◌else◌, Bool-cases, ◌==◌, number_key, string_key, All, contains,
  contains-append, without, contains-map-without, All-keep, All-append,
}
use roost_assured.Common.Sets.{Distinct, Distinct-snoc}
use roost_assured.Api.{fulfilled, rejected}
use roost_assured.JobRequests.Records.{JobRequest, is_passed}
use roost_assured.JobRequests.Board.{
  Requests, Board, request_id, apply_job_update, drop_owner, PageEvent, requests_answer, on_event,
  new_board, jobs_answer, open_request, close_request, toggle_passed, pass_click, pass_answer,
  bid_saved, blocked, job_changed, handle_blocked_owner,
}

abbrev pub ids : List JobRequest → List ℕ
ids = map request_id

-- Each list holds its own kind of request, no list holds a request twice, and no request is in both.
pub record IsPartition (d : Requests) : Type 0 where
  pub open_kind : All (λ j. is_passed j ≡ false) d.job_requests
  pub passed_kind : All (λ j. is_passed j ≡ true) d.passed_requests
  pub open_ids : Distinct (ids d.job_requests)
  pub passed_ids : Distinct (ids d.passed_requests)
  pub apart :
      (z : ℕ) → contains (ids d.job_requests) z && contains (ids d.passed_requests) z ≡ false

ids-append : (xs ys : List JobRequest) → ids (xs ++ ys) ≡ ids xs ++ ids ys
ids-append [] ys = refl
ids-append (x ∷ xs) ys = ap (x.id ∷◌) (ids-append xs ys)

-- One of the lists after `applyJobUpdate`: it holds the id of the request just when it is its list.
module _ (u : JobRequest) (xs : List JobRequest) where
  contains-placed :
      (here : Bool) (z : ℕ)
      → contains (ids (without request_id u.id xs ++ (if here then u ∷ [] else []))) z
        ≡ (if z == u.id then here else contains (ids xs) z)
  contains-placed here z = ground (
    arith,
    ids-append (without request_id u.id xs) (if here then u ∷ [] else []),
    contains-append (ids (without request_id u.id xs)) (ids (if here then u ∷ [] else [])) z,
    contains-map-without request_id u.id xs z,
  )

Distinct-without :
    (i : ℕ) (xs : List JobRequest) → Distinct (ids xs) → Distinct (ids (without request_id i xs))
Distinct-without i [] h = tt
Distinct-without i (x ∷ xs) h = elim (Bool-cases (x.id == i)) [
  | inl p ↦ rw p (Distinct-without i xs h.1)
  | inr p ↦
      rw p (ground (arith, contains-map-without request_id i xs x.id), Distinct-without i xs h.1)
]

Distinct-placed :
    (u : JobRequest) (xs : List JobRequest) (here : Bool)
    → Distinct (ids xs)
    → Distinct (ids (without request_id u.id xs ++ (if here then u ∷ [] else [])))
Distinct-placed u xs false h = rw append-nil (Distinct-without u.id xs h)
Distinct-placed u xs true h = rw ids-append (
    Distinct-snoc (ids (without request_id u.id xs)) u.id (Distinct-without u.id xs h)
      (ground (arith, contains-map-without request_id u.id xs u.id)))

-- The lists with the request put into one of them, the passed one if `passed`.
placed : JobRequest → Bool → Requests → Requests
placed u passed d = record d {
  job_requests = without request_id u.id d.job_requests ++ (if not passed then u ∷ [] else []);
  passed_requests = without request_id u.id d.passed_requests ++ (if passed then u ∷ [] else []);
}

All-placed :
    (P : JobRequest → Type 0) (u : JobRequest) (xs : List JobRequest) (here : Bool)
    → (here ≡ true → P u)
    → All P xs
    → All P (without request_id u.id xs ++ (if here then u ∷ [] else []))
All-placed P u xs here h a =
    All-append P (without request_id u.id xs) (if here then u ∷ [] else [])
      (All-keep P (λ j. not (j.id == u.id)) xs a) (added here h)
  where
    added : (b : Bool) → (b ≡ true → P u) → All P (if b then u ∷ [] else [])
    added true h = (h refl, tt)
    added false h = tt

placed-IsPartition :
    (u : JobRequest) (d : Requests) → IsPartition d → IsPartition (placed u (is_passed u) d)
unfolding placed
placed-IsPartition u d v = record {
  open_kind =
      All-placed (λ j. is_passed j ≡ false) u d.job_requests (not (is_passed u)) (λ h. ground arith)
        v.open_kind;
  passed_kind =
      All-placed (λ j. is_passed j ≡ true) u d.passed_requests (is_passed u) (λ h. h) v.passed_kind;
  open_ids = Distinct-placed u d.job_requests (not (is_passed u)) v.open_ids;
  passed_ids = Distinct-placed u d.passed_requests (is_passed u) v.passed_ids;
  apart = λ z. ground (
    arith,
    contains-placed u d.job_requests (not (is_passed u)) z,
    contains-placed u d.passed_requests (is_passed u) z,
    v.apart z,
  );
}

apply_job_update-placed :
    (u : JobRequest) (d : Requests) → apply_job_update u d ≡ placed u (is_passed u) d
unfolding apply_job_update placed
apply_job_update-placed u d = elim (Bool-cases (is_passed u)) [ inl p ↦ rw p | inr p ↦ rw p ]

-- `applyJobUpdate` keeps the two lists apart, each with its own kind of request.
pub apply_job_update-IsPartition :
    (u : JobRequest) (d : Requests) → IsPartition d → IsPartition (apply_job_update u d)
apply_job_update-IsPartition u d v = rw apply_job_update-placed (placed-IsPartition u d v)

pub drop_owner-IsPartition : (i : ℕ) (d : Requests) → IsPartition d → IsPartition (drop_owner i d)
unfolding drop_owner
drop_owner-IsPartition i d v = record {
  open_kind = All-keep (λ j. is_passed j ≡ false) (λ j. not (j.id == i)) d.job_requests v.open_kind;
  passed_kind =
      All-keep (λ j. is_passed j ≡ true) (λ j. not (j.id == i)) d.passed_requests v.passed_kind;
  open_ids = Distinct-without i d.job_requests v.open_ids;
  passed_ids = Distinct-without i d.passed_requests v.passed_ids;
  apart = λ z. ground (
    arith,
    contains-map-without request_id i d.job_requests z,
    contains-map-without request_id i d.passed_requests z,
    v.apart z,
  );
}

-- What the page holds, if it has been loaded.
abbrev pub IsPartitioned : Option Requests → Type 0
IsPartitioned none = Unit
IsPartitioned (some d) = IsPartition d

-- The server sends two such lists.
abbrev pub IsServed : PageEvent → Type 0
IsServed (requests_answer (fulfilled d)) = IsPartition d
IsServed _ = Unit

map-IsPartitioned :
    (f : Requests → Requests)
    → ((d : Requests) → IsPartition d → IsPartition (f d))
    → (o : Option Requests) → IsPartitioned o
    → IsPartitioned (Option.map f o)
map-IsPartitioned f keeps none v = tt
map-IsPartitioned f keeps (some d) v = keeps d v

pub handle_blocked_owner-data :
    (i : ℕ) (selected : Option ℕ) (b : Board)
    → (handle_blocked_owner i selected b).data_loaded ≡ Option.map (drop_owner i) b.data_loaded
unfolding handle_blocked_owner
handle_blocked_owner-data i selected b = ground arith

pub on_event-IsPartitioned :
    (b : Board) (e : PageEvent)
    → IsServed e
    → IsPartitioned b.data_loaded
    → IsPartitioned (on_event b e).data_loaded
unfolding on_event
on_event-IsPartitioned b (requests_answer (fulfilled d)) s v = s
on_event-IsPartitioned b (requests_answer (rejected es)) s v = v
on_event-IsPartitioned b (jobs_answer (fulfilled js)) s v = v
on_event-IsPartitioned b (jobs_answer (rejected es)) s v = v
on_event-IsPartitioned b (open_request i) s v = v
on_event-IsPartitioned b close_request s v = v
on_event-IsPartitioned b toggle_passed s v = v
on_event-IsPartitioned b (pass_click job) s v = v
on_event-IsPartitioned b (pass_answer job i (fulfilled bid)) s v =
    map-IsPartitioned _ (apply_job_update-IsPartition (record job { my_bid = some bid }))
      b.data_loaded v
on_event-IsPartitioned b (pass_answer job i (rejected es)) s v = v
on_event-IsPartitioned b (bid_saved job) s v =
    map-IsPartitioned _ (apply_job_update-IsPartition job) b.data_loaded v
on_event-IsPartitioned b (blocked i selected) s v =
    rw handle_blocked_owner-data (map-IsPartitioned _ (drop_owner-IsPartition i) b.data_loaded v)
on_event-IsPartitioned b (job_changed job) s v = v

-- Whatever happens to the page, in any order, the open and the passed requests stay apart, each
-- list holds its own kind and no request twice, if the server sends them so.
pub events-IsPartitioned :
    (es : List PageEvent)
    → All IsServed es
    → IsPartitioned (foldl on_event new_board es).data_loaded
unfolding new_board
events-IsPartitioned es s = go es _ s tt
  where
    go :
        (es : List PageEvent) (b : Board)
        → All IsServed es
        → IsPartitioned b.data_loaded
        → IsPartitioned (foldl on_event b es).data_loaded
    go [] b s v = v
    go (e ∷ es) b s v = go es (on_event b e) s.1 (on_event-IsPartitioned b e s.0 v)
