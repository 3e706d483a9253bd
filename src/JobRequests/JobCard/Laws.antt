-- ===== src/JobRequests/JobCard/Laws.antt =====
-- What the card of app/frontend/pages/JobRequests.jsx lets a sitter do.
use roost_assured.Common.{
  ℕ, ◌+◌, ◌≡◌, refl, ap, ◌↔◌, ◌⊎◌, inl, Bool, true, false, ◌&&◌, ◌||◌, some, List, [], ◌∷◌, map,
  arith, nat_beq, if◌then◌else◌, ◌==◌, number_key, string_key, length, All, any, every, contains,
  find_id,
}
use roost_assured.JobRequests.Records.{JobTask, Job}
use roost_assured.JobRequests.Board.{apply_job_record}
use roost_assured.JobRequests.Board.Render.{active_jobs, completed_jobs}
use roost_assured.JobRequests.JobCard.{
  has_text, all_tasks_done, has_photo, can_complete, completion_blocked_reason, blocked_reason,
}
use roost_assured.Common.Text.{is_empty}

-- Every task of the list is ticked off; one of them has a photo.
abbrev pub IsAllDone : List JobTask → Type 0
IsAllDone ts = All (λ t. t.completed ≡ true) ts

abbrev pub HasPhoto : List JobTask → Type 0
HasPhoto [] = ⊥
HasPhoto (t ∷ ts) = (has_text t.photo_url ≡ true) ⊎ HasPhoto ts

every-IsAllDone : (ts : List JobTask) → (every (λ t. t.completed) ts ≡ true) ↔ IsAllDone ts
every-IsAllDone [] = ground arith
every-IsAllDone (t ∷ ts) = ground (arith, every-IsAllDone ts)

any-HasPhoto : (ts : List JobTask) → (any (λ t. has_text t.photo_url) ts ≡ true) ↔ HasPhoto ts
any-HasPhoto [] = ground arith
any-HasPhoto (t ∷ ts) = ground (arith, any-HasPhoto ts)

tasks_allow :
    (ts : List JobTask)
    → (((nat_beq (length ts) 0 || every (λ t. t.completed) ts)
          && (nat_beq (length ts) 0 || any (λ t. has_text t.photo_url) ts))
        ≡ true)
      ↔ ((ts ≡ []) ⊎ (IsAllDone ts × HasPhoto ts))
tasks_allow [] = (λ _. inl refl, λ _. refl)
tasks_allow (t ∷ ts) = ground (arith, every-IsAllDone (t ∷ ts), any-HasPhoto (t ∷ ts))

-- A sitter can mark a job as completed exactly when it has no checklist, or when every task of it
-- is ticked off and one has a photo.
pub can_complete_lem :
    (job : Job)
    → (can_complete job ≡ true)
      ↔ ((job.job_tasks ≡ []) ⊎ (IsAllDone job.job_tasks × HasPhoto job.job_tasks))
unfolding can_complete all_tasks_done has_photo
can_complete_lem job = tasks_allow job.job_tasks

reason_lem : (done photo : Bool) → (blocked_reason done photo ≡ "") ↔ (done && photo ≡ true)
reason_lem true true = ground arith
reason_lem true false = (λ h. ap is_empty h, λ h. ground arith)
reason_lem false photo = (λ h. ap is_empty h, λ h. ground arith)

-- The list of statuses explains itself: the option for "completed" bears a reason exactly when it
-- cannot be chosen.
pub completion_blocked_reason_lem :
    (job : Job) → (completion_blocked_reason job ≡ "") ↔ (can_complete job ≡ true)
unfolding completion_blocked_reason can_complete all_tasks_done has_photo
completion_blocked_reason_lem job = reason_lem (all_tasks_done job) (has_photo job)

abbrev pub job_id : Job → ℕ
job_id j = j.id

-- An answer of the server about a job changes that job in the list, and neither the other jobs nor
-- the order.
pub apply_job_record-ids :
    (u : Job) (js : List Job) → map job_id (apply_job_record u js) ≡ map job_id js
unfolding apply_job_record
apply_job_record-ids u [] = refl
apply_job_record-ids u (j ∷ js) = ground (arith, apply_job_record-ids u js)

pub find-apply_job_record :
    (u : Job) (js : List Job) (z : ℕ)
    → find_id job_id z (apply_job_record u js)
      ≡ (if z == u.id && contains (map job_id js) z then some u else find_id job_id z js)
unfolding apply_job_record
find-apply_job_record u [] z = ground arith
find-apply_job_record u (j ∷ js) z = ground (arith, find-apply_job_record u js z)

-- Every job of the page stands under one of its two headings.
pub length-active_jobs :
    (js : List Job) → length (active_jobs js) + length (completed_jobs js) ≡ length js
unfolding active_jobs completed_jobs
length-active_jobs [] = refl
length-active_jobs (j ∷ js) = ground (arith, length-active_jobs js)
