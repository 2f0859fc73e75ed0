-- ===== src/Cpp/GrayscaleImage/Limit.antt =====
-- The count of the grayscale jobs that run.
use pi_vision.Base.{
  ℕ, suc, ◌+◌, ◌≤◌, ◌≡◌, refl, subst, ◌≢◌, List, [], ◌∷◌, arith, ltb, ◌==◌, ok, Ends, Ends-bind,
  Bool-cases, ne→==, inl, inr,
}
use pi_vision.Cpp.Events.{
  EventData, new_data_ind, as_new_data_ind, service_available_ind, as_service_available_ind,
  color_image_service_rx, event_grayscale_job_complete_ind, event_service_available_ind, Call,
  execute_job_in_group,
}
use pi_vision.Cpp.GrayscaleImage.{num_jobs_limit, start, handle_event}

-- How many jobs the calls start.
abbrev pub started : List Call → ℕ
started [] = 0
started (execute_job_in_group j g ∷ cs) = suc (started cs)
started (_ ∷ cs) = started cs

-- The component with the jobs that it has started and that have not told their end.
pub data Runs : (num_jobs_ongoing jobs : ℕ) → Type 0 where
  at_start : Runs start.0 0
  job_ends :
      {n jobs : ℕ} (ptr : EventData) {n' : ℕ} {calls : List Call}
      → Runs n (suc jobs)
      → handle_event event_grayscale_job_complete_ind ptr n ≡ ok (n', calls)
      → Runs n' jobs
  other_event :
      {n jobs : ℕ} (event_no : ℕ) (ptr : EventData) {n' : ℕ} {calls : List Call}
      → event_no ≢ event_grayscale_job_complete_ind
      → Runs n jobs
      → handle_event event_no ptr n ≡ ok (n', calls)
      → Runs n' (jobs + started calls)

-- What one event does to the count.
abbrev Counts : ℕ → ℕ × List Call → Type 0
Counts n (n', calls) = (n' ≡ n + started calls) × (n' ≤ num_jobs_limit)

any_data : (ptr : EventData) → Ends (λ _. Unit) Unit (as_new_data_ind ptr)
any_data (new_data_ind t d) = tt
any_data _ = tt

any_service : (ptr : EventData) → Ends (λ _. Unit) Unit (as_service_available_ind ptr)
any_service (service_available_ind n) = tt
any_service _ = tt

handle_event-Counts :
    (event_no : ℕ) (ptr : EventData) (n : ℕ)
    → event_no ≢ event_grayscale_job_complete_ind
    → n ≤ num_jobs_limit
    → Ends (Counts n) Unit (handle_event event_no ptr n)
unfolding handle_event
handle_event-Counts event_no ptr n other few =
    elim (Bool-cases (event_no == color_image_service_rx)) [
      | inl frame ↦
          rw (frame, handle_event)
            (elim (Bool-cases (ltb n num_jobs_limit)) [
              | inl free ↦ rw free (
                  Ends-bind (λ _. Unit) Unit (Counts n) (as_new_data_ind ptr) _ (any_data ptr)
                    λ r _. (ground (arith, free), ground (arith, free)))
              | inr busy ↦ rw busy (omega arith, few)
            ])
      | inr no_frame ↦ elim (Bool-cases (event_no == event_service_available_ind)) [
        | inl available ↦
            rw (no_frame, handle_event, available)
              (Ends-bind (λ _. Unit) Unit (Counts n) (as_service_available_ind ptr) _
                (any_service ptr)
                λ k _. (elim (Bool-cases (k == color_image_service_rx)) [
                  | inl mine ↦ rw mine (omega arith, few)
                  | inr another ↦ rw another (omega arith, few)
                ]))
        | inr neither ↦
            rw
              (
                no_frame,
                handle_event,
                neither,
                ne→== event_no event_grayscale_job_complete_ind other,
              )
              (omega arith, few)
      ]
    ]

handle_event-end :
    (ptr : EventData) (n jobs : ℕ)
    → n ≡ suc jobs
    → n ≤ num_jobs_limit
    → Ends
        (λ (m, calls). (m ≡ jobs) × (m ≤ num_jobs_limit))
        ⊥
        (handle_event event_grayscale_job_complete_ind ptr n)
unfolding handle_event
handle_event-end ptr n jobs same few = (omega arith, omega arith)

-- The number of jobs that the component counts is the number of jobs that run, however the events
-- are ordered, and there are never more than four.
pub Runs-count : {n jobs : ℕ} → Runs n jobs → (n ≡ jobs) × (n ≤ num_jobs_limit)
Runs-count at_start = (refl, omega arith)
Runs-count (job_ends {n} {jobs} ptr {n'} {calls} r e) =
    let (same, few) = Runs-count r in
    let (less, still) =
      subst (Ends (λ (m, calls'). (m ≡ jobs) × (m ≤ num_jobs_limit)) ⊥) e
        (handle_event-end ptr n jobs same few) in
    (less, still)
Runs-count (other_event {n} {jobs} event_no ptr {n'} {calls} other r e) =
    let (same, few) = Runs-count r in
    let (more, still) =
      subst (Ends (Counts n) Unit) e (handle_event-Counts event_no ptr n other few) in
    (omega arith, still)
