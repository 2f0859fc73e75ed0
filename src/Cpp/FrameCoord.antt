-- ===== src/Cpp/FrameCoord.antt =====
-- C++/src/pivision_framecoord.cpp: frames of the camera become frames of the color image service.
use pi_vision.Base.{
  ℕ, ◌+◌, Bool, true, false, List, [], ◌∷◌, ◌==◌, if◌then◌else◌, Run, ok, ◌>>=◌, u32,
}
use pi_vision.Cpp.Events.{
  pivision_server, EventData, nullptr, new_data_ind, subscribe_service_ind, service_available_ind,
  as_new_data_ind, as_service_available_ind, as_service_unavailable_ind, event_stop,
  event_subscribe_service_ind, event_service_available_ind, event_service_unavailable_ind,
  event_service_provided_ind, camera_service_rx, color_image_service_rx, color_image_service_tx,
  Call, subscribe_to_event, raise_event, raise_event_in, notify_execution_finished,
}

abbrev pub shutdown_timeout : ℕ
shutdown_timeout = 0xFF00FF00

pub record FrameCoord : Type 0 where
  pub curr_frame : ℕ
  pub camera_service_available : Bool

-- The constructor.
abbrev pub start : FrameCoord × List Call
start = (
  record { curr_frame = 0; camera_service_available = false },
  subscribe_to_event event_service_available_ind
      ∷ subscribe_to_event event_service_unavailable_ind
      ∷ subscribe_to_event event_stop
      ∷ subscribe_to_event camera_service_rx
      ∷ subscribe_to_event shutdown_timeout
      ∷ raise_event event_subscribe_service_ind (subscribe_service_ind camera_service_rx)
      ∷ [],
)

unfoldable pub handle_event : ℕ → EventData → FrameCoord → Run (FrameCoord × List Call)
handle_event event_no ptr f =
    if event_no == event_service_unavailable_ind
    then (as_service_unavailable_ind ptr >>= λ n.
        ok (f, if n == camera_service_rx then raise_event_in event_stop nullptr 3000 ∷ [] else []))
    else (if event_no == event_service_available_ind
        then (as_service_available_ind ptr >>= λ n. ok (
            if n == camera_service_rx
            then (
              record f { camera_service_available = true },
              raise_event event_service_provided_ind (service_available_ind color_image_service_rx)
                  ∷ [],
            )
            else (f, [])))
        else (if event_no == camera_service_rx
            then (as_new_data_ind ptr >>= λ (conn_type, contents). ok (
              record f { curr_frame = u32 (f.curr_frame + 1) },
              raise_event color_image_service_tx (new_data_ind pivision_server contents) ∷ [],
            ))
            else (if event_no == event_stop
                then ok (f, raise_event_in shutdown_timeout nullptr 3000 ∷ [])
                else (if event_no == shutdown_timeout
                    then ok (f, notify_execution_finished ∷ [])
                    else ok (f, [])))))
