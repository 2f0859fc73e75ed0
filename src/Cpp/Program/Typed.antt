-- ===== src/Cpp/Program/Typed.antt =====
-- The events of the three programs with the data that belongs to them, and the jobs.
use pi_vision.Base.{ℕ, ℤ}
use pi_vision.Cpp.Events.{
  PiVisionData, PiVisionServiceStatus, PiVisionConnectionType, pivision_server, EventData, nullptr,
  connect_to_service_req, connect_to_service_cfm, connect_to_service_rej, service_discovery_timeout,
  connection_status_ind, new_data_ind, subscribe_service_ind, service_available_ind,
  service_unavailable_ind, provide_service_ind, hb_timeout, event_stop,
  event_connect_to_service_req, event_connect_to_service_cfm, event_connect_to_service_rej,
  event_service_status_ind, event_service_discovery_timeout, event_subscribe_service_ind,
  event_service_available_ind, event_service_unavailable_ind, event_service_provided_ind,
  event_provide_service_ind, event_grayscale_job_complete_ind, camera_service_rx,
  color_image_service_rx, color_image_service_tx, bw_image_service_rx, bw_image_service_tx, JobBase,
  grayscale_image_job, connect_service, service_listener, connection, Call, subscribe_to_event,
  unsubscribe_to_event, raise_event, raise_event_in, execute_job_in_group,
  notify_execution_finished, add_exec_group, wait_for_execution_finished,
}
use pi_vision.Cpp.ServiceHandler.{Services}
use pi_vision.Cpp.ServiceHandler.Known.{Known}
use pi_vision.Cpp.FrameCoord.{shutdown_timeout}
use pi_vision.Cpp.Connection.{heartbeat_timeout}

-- The three services of the program.
pub data IsService : ℕ → Type 0 where
  camera : IsService camera_service_rx
  color_image : IsService color_image_service_rx
  bw_image : IsService bw_image_service_rx

-- The numbers with the data that belongs to them, beside a map of the services.
pub data Typed (s : Services) : ℕ → EventData → Type 0 where
  stop_event : Typed s event_stop nullptr
  shutdown_event : Typed s shutdown_timeout nullptr
  complete_event : Typed s event_grayscale_job_complete_ind nullptr
  request_event :
      (n : ℕ)
      → IsService n
      → Known n s
      → Typed s event_connect_to_service_req (connect_to_service_req n)
  confirm_event :
      (n id : ℕ) → Known n s → Typed s event_connect_to_service_cfm (connect_to_service_cfm n id)
  reject_event : (n : ℕ) → Typed s event_connect_to_service_rej (connect_to_service_rej n)
  status_event :
      (status : PiVisionServiceStatus) (n : ℕ) (fd : ℤ)
      → IsService n
      → Known n s
      → Typed s event_service_status_ind (connection_status_ind status n fd)
  timeout_event : (n : ℕ) → Typed s event_service_discovery_timeout (service_discovery_timeout n)
  subscribe_event :
      (n : ℕ) → IsService n → Typed s event_subscribe_service_ind (subscribe_service_ind n)
  available_event : (n : ℕ) → Typed s event_service_available_ind (service_available_ind n)
  provided_event :
      (n : ℕ) → IsService n → Typed s event_service_provided_ind (service_available_ind n)
  unavailable_event : (n : ℕ) → Typed s event_service_unavailable_ind (service_unavailable_ind n)
  provide_event :
      (n : ℕ) → IsService n → Known n s → Typed s event_provide_service_ind (provide_service_ind n)
  data_event :
      (n : ℕ)
      → IsService n
      → (t : PiVisionConnectionType) (d : PiVisionData) → Typed s n (new_data_ind t d)
  color_event : (d : PiVisionData) → Typed s color_image_service_tx (new_data_ind pivision_server d)
  bw_event : (d : PiVisionData) → Typed s bw_image_service_tx (new_data_ind pivision_server d)
  heartbeat_event : (fd : ℤ) → Typed s heartbeat_timeout (hb_timeout fd)

-- The jobs of known services, and calls with such events and jobs.
abbrev pub ValidJob : Services → JobBase → Type 0
ValidJob s (grayscale_image_job t d) = Unit
ValidJob s (connect_service n) = IsService n × Known n s
ValidJob s (service_listener n) = IsService n × Known n s
ValidJob s (connection t n fd) = IsService n × Known n s

abbrev pub Good : Services → Call → Type 0
Good s (raise_event event_no ptr) = Typed s event_no ptr
Good s (raise_event_in event_no ptr milliseconds) = Typed s event_no ptr
Good s (execute_job_in_group job group) = ValidJob s job
Good s _ = Unit

-- A map that has the services of another.
abbrev pub Grows : Services → Services → Type 0
Grows s s' = (n : ℕ) → Known n s → Known n s'

pub Typed-Grows :
    (s s' : Services) (event_no : ℕ) (ptr : EventData)
    → Grows s s'
    → Typed s event_no ptr
    → Typed s' event_no ptr
Typed-Grows s s' event_no ptr g stop_event = stop_event
Typed-Grows s s' event_no ptr g shutdown_event = shutdown_event
Typed-Grows s s' event_no ptr g complete_event = complete_event
Typed-Grows s s' event_no ptr g (request_event n service known) =
    request_event n service (g n known)
Typed-Grows s s' event_no ptr g (confirm_event n id known) = confirm_event n id (g n known)
Typed-Grows s s' event_no ptr g (reject_event n) = reject_event n
Typed-Grows s s' event_no ptr g (status_event status n fd service known) =
    status_event status n fd service (g n known)
Typed-Grows s s' event_no ptr g (timeout_event n) = timeout_event n
Typed-Grows s s' event_no ptr g (subscribe_event n service) = subscribe_event n service
Typed-Grows s s' event_no ptr g (available_event n) = available_event n
Typed-Grows s s' event_no ptr g (provided_event n service) = provided_event n service
Typed-Grows s s' event_no ptr g (unavailable_event n) = unavailable_event n
Typed-Grows s s' event_no ptr g (provide_event n service known) =
    provide_event n service (g n known)
Typed-Grows s s' event_no ptr g (data_event n service t d) = data_event n service t d
Typed-Grows s s' event_no ptr g (color_event d) = color_event d
Typed-Grows s s' event_no ptr g (bw_event d) = bw_event d
Typed-Grows s s' event_no ptr g (heartbeat_event fd) = heartbeat_event fd

pub ValidJob-Grows :
    (s s' : Services) (job : JobBase) → Grows s s' → ValidJob s job → ValidJob s' job
ValidJob-Grows s s' (grayscale_image_job t d) g valid = tt
ValidJob-Grows s s' (connect_service n) g (service, known) = (service, g n known)
ValidJob-Grows s s' (service_listener n) g (service, known) = (service, g n known)
ValidJob-Grows s s' (connection t n fd) g (service, known) = (service, g n known)

pub Good-Grows : (s s' : Services) (c : Call) → Grows s s' → Good s c → Good s' c
Good-Grows s s' (raise_event event_no ptr) g good = Typed-Grows s s' event_no ptr g good
Good-Grows s s' (raise_event_in event_no ptr milliseconds) g good =
    Typed-Grows s s' event_no ptr g good
Good-Grows s s' (execute_job_in_group job group) g good = ValidJob-Grows s s' job g good
Good-Grows s s' (subscribe_to_event event_no) g good = tt
Good-Grows s s' (unsubscribe_to_event event_no) g good = tt
Good-Grows s s' notify_execution_finished g good = tt
Good-Grows s s' (add_exec_group group num_threads) g good = tt
Good-Grows s s' wait_for_execution_finished g good = tt
