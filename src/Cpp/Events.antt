-- ===== src/Cpp/Events.antt =====
-- C++/inc/pivision_events.h, pivision_services.h and pivision_threadmodel.h: byte buffers, the events
-- with their data, and the calls of the job dispatcher that raise and subscribe to them.
pub mod Buffer
use pi_vision.Base.{
  ℕ, ◌+◌, List, [], ◌∷◌, ◌++◌, ltb, leb, if◌then◌else◌, length, get_or, ℤ, Run, ok, fault, u32,
}

-- `PiVisionData`: `buf` is seen as far as it is filled, up to `size`.
pub record PiVisionData : Type 0 where
  pub capacity : ℕ
  pub buf : List ℕ

abbrev pub new_data : ℕ → PiVisionData
new_data capacity = record { capacity = capacity; buf = [] }

abbrev pub get_size : PiVisionData → ℕ
get_size d = length d.buf

-- `Append`: the new size, or 0 where it leaves the buffer as it is; a copy behind the buffer where the
-- sum of the sizes wraps is a fault.
unfoldable pub append : List ℕ → PiVisionData → Run (PiVisionData × ℕ)
append bytes d =
    if leb (u32 (get_size d + length bytes)) d.capacity
    then (if leb (get_size d + length bytes) d.capacity
        then ok (record d { buf = d.buf ++ bytes }, get_size d + length bytes)
        else fault)
    else ok (d, 0)

abbrev pub get_element_at : PiVisionData → ℕ → ℕ
get_element_at d index = if ltb index (get_size d) then get_or d.buf index 0 else 0

pub data PiVisionServiceStatus : Type 0 where
  service_connected service_disconnected service_not_found : PiVisionServiceStatus

pub data PiVisionConnectionType : Type 0 where
  pivision_server pivision_client : PiVisionConnectionType

-- A pointer to an `EventDataBase`: NULL, or an object of one of its classes.
pub data EventData : Type 0 where
  nullptr : EventData
  connect_to_service_req : (service_no : ℕ) → EventData
  connect_to_service_cfm : (service_no service_id : ℕ) → EventData
  connect_to_service_rej : (service_no : ℕ) → EventData
  service_discovery_timeout : (service_no : ℕ) → EventData
  connection_status_ind :
      (status : PiVisionServiceStatus) (service_no : ℕ) (socket_fd : ℤ) → EventData
  new_data_ind : (conn_type : PiVisionConnectionType) (contents : PiVisionData) → EventData
  subscribe_service_ind : (service_no : ℕ) → EventData
  service_available_ind : (service_no : ℕ) → EventData
  service_unavailable_ind : (service_no : ℕ) → EventData
  provide_service_ind : (service_no : ℕ) → EventData
  hb_timeout : (id : ℤ) → EventData

-- The `static_pointer_cast`s, with the fields that are read behind them.
abbrev pub as_connect_to_service_req : EventData → Run ℕ
as_connect_to_service_req (connect_to_service_req n) = ok n
as_connect_to_service_req _ = fault

abbrev pub as_connect_to_service_cfm : EventData → Run (ℕ × ℕ)
as_connect_to_service_cfm (connect_to_service_cfm n i) = ok (n, i)
as_connect_to_service_cfm _ = fault

abbrev pub as_connect_to_service_rej : EventData → Run ℕ
as_connect_to_service_rej (connect_to_service_rej n) = ok n
as_connect_to_service_rej _ = fault

abbrev pub as_service_discovery_timeout : EventData → Run ℕ
as_service_discovery_timeout (service_discovery_timeout n) = ok n
as_service_discovery_timeout _ = fault

abbrev pub as_connection_status_ind : EventData → Run (PiVisionServiceStatus × ℕ × ℤ)
as_connection_status_ind (connection_status_ind s n fd) = ok (s, n, fd)
as_connection_status_ind _ = fault

abbrev pub as_new_data_ind : EventData → Run (PiVisionConnectionType × PiVisionData)
as_new_data_ind (new_data_ind t d) = ok (t, d)
as_new_data_ind _ = fault

abbrev pub as_subscribe_service_ind : EventData → Run ℕ
as_subscribe_service_ind (subscribe_service_ind n) = ok n
as_subscribe_service_ind _ = fault

abbrev pub as_service_available_ind : EventData → Run ℕ
as_service_available_ind (service_available_ind n) = ok n
as_service_available_ind _ = fault

abbrev pub as_service_unavailable_ind : EventData → Run ℕ
as_service_unavailable_ind (service_unavailable_ind n) = ok n
as_service_unavailable_ind _ = fault

abbrev pub as_provide_service_ind : EventData → Run ℕ
as_provide_service_ind (provide_service_ind n) = ok n
as_provide_service_ind _ = fault

abbrev pub as_hb_timeout : EventData → Run ℤ
as_hb_timeout (hb_timeout id) = ok id
as_hb_timeout _ = fault

abbrev pub event_stop : ℕ
event_stop = 0xFFFF0000

abbrev pub event_connect_to_service_req : ℕ
event_connect_to_service_req = 0xFFFF0001

abbrev pub event_connect_to_service_cfm : ℕ
event_connect_to_service_cfm = 0xFFFF0002

abbrev pub event_connect_to_service_rej : ℕ
event_connect_to_service_rej = 0xFFFF0003

abbrev pub event_service_status_ind : ℕ
event_service_status_ind = 0xFFFF0004

abbrev pub event_service_discovery_timeout : ℕ
event_service_discovery_timeout = 0xFFFF0005

abbrev pub event_subscribe_service_ind : ℕ
event_subscribe_service_ind = 0xFFFF0007

abbrev pub event_service_available_ind : ℕ
event_service_available_ind = 0xFFFF0008

abbrev pub event_service_unavailable_ind : ℕ
event_service_unavailable_ind = 0xFFFF0009

abbrev pub event_service_provided_ind : ℕ
event_service_provided_ind = 0xFFFF000A

abbrev pub event_provide_service_ind : ℕ
event_provide_service_ind = 0xFFFF000B

abbrev pub event_grayscale_job_complete_ind : ℕ
event_grayscale_job_complete_ind = 0xFFFF000C

abbrev pub camera_service_rx : ℕ
camera_service_rx = 3070

abbrev pub color_image_service_rx : ℕ
color_image_service_rx = 3390

abbrev pub color_image_service_tx : ℕ
color_image_service_tx = color_image_service_rx + 1

abbrev pub bw_image_service_rx : ℕ
bw_image_service_rx = 3380

abbrev pub bw_image_service_tx : ℕ
bw_image_service_tx = bw_image_service_rx + 1

abbrev pub framecoord_thread_id : ℕ
framecoord_thread_id = 0x10

abbrev pub service_discovery_thread_id : ℕ
service_discovery_thread_id = 0x11

abbrev pub connections_thread_id : ℕ
connections_thread_id = 0x12

abbrev pub service_listener_thread_id : ℕ
service_listener_thread_id = 0x13

abbrev pub grayscale_job_thread_id : ℕ
grayscale_job_thread_id = 0x14

-- The classes of jobs, with what their constructors are given.
pub data JobBase : Type 0 where
  grayscale_image_job : (conn_type : PiVisionConnectionType) (contents : PiVisionData) → JobBase
  connect_service : (service_no : ℕ) → JobBase
  service_listener : (service_no : ℕ) → JobBase
  connection : (conn_type : PiVisionConnectionType) (service_no : ℕ) (socket_fd : ℤ) → JobBase

-- The calls of the job dispatcher, by a component that names itself in a subscription, and by a main.
pub data Call : Type 0 where
  subscribe_to_event : (event_no : ℕ) → Call
  unsubscribe_to_event : (event_no : ℕ) → Call
  raise_event : (event_no : ℕ) → EventData → Call
  raise_event_in : (event_no : ℕ) → EventData → (milliseconds : ℕ) → Call
  execute_job_in_group : JobBase → (group : ℕ) → Call
  notify_execution_finished : Call
  add_exec_group : (group num_threads : ℕ) → Call
  wait_for_execution_finished : Call
