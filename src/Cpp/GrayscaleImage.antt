-- ===== src/Cpp/GrayscaleImage.antt =====
-- C++/src/pivision_grayscaleimage.cpp: jobs for the frames of the color image service, four at most at
-- a time.
pub mod Limit
use pi_vision.Base.{ℕ, ◌+◌, ◌-◌, ◌^◌, List, [], ◌∷◌, ltb, ◌==◌, if◌then◌else◌, Run, ok, ◌>>=◌, u32}
use pi_vision.Cpp.Events.{
  EventData, subscribe_service_ind, service_available_ind, as_new_data_ind,
  as_service_available_ind, event_subscribe_service_ind, event_service_available_ind,
  event_service_provided_ind, event_grayscale_job_complete_ind, color_image_service_rx,
  bw_image_service_rx, grayscale_job_thread_id, grayscale_image_job, Call, subscribe_to_event,
  raise_event, execute_job_in_group,
}

-- `numJobsOngoing` is the only state.
abbrev pub num_jobs_limit : ℕ
num_jobs_limit = 4

-- The constructor.
abbrev pub start : ℕ × List Call
start = (
  0,
  subscribe_to_event event_service_available_ind
      ∷ subscribe_to_event event_grayscale_job_complete_ind
      ∷ raise_event event_subscribe_service_ind (subscribe_service_ind color_image_service_rx)
      ∷ [],
)

unfoldable pub handle_event : ℕ → EventData → ℕ → Run (ℕ × List Call)
handle_event event_no ptr num_jobs_ongoing =
    if event_no == color_image_service_rx
    then (if ltb num_jobs_ongoing num_jobs_limit
        then (as_new_data_ind ptr >>= λ (conn_type, contents). ok (
          u32 (num_jobs_ongoing + 1),
          execute_job_in_group (grayscale_image_job conn_type contents) grayscale_job_thread_id
              ∷ [],
        ))
        else ok (num_jobs_ongoing, []))
    else (if event_no == event_service_available_ind
        then (as_service_available_ind ptr >>= λ n. ok (
            if n == color_image_service_rx
            then (
              num_jobs_ongoing,
              subscribe_to_event color_image_service_rx
                  ∷ raise_event event_service_provided_ind
                      (service_available_ind bw_image_service_rx)
                  ∷ [],
            )
            else (num_jobs_ongoing, [])))
        else (if event_no == event_grayscale_job_complete_ind
            then ok (u32 (num_jobs_ongoing + (2 ^ 32 - 1)), [])
            else ok (num_jobs_ongoing, [])))
