-- ===== src/Cpp/EthTerm.antt =====
-- C++/src/pivision_ethterm.cpp: the jobs of the network, started on events.
use pi_vision.Base.{
  ℕ, List, [], ◌∷◌, ◌==◌, if◌then◌else◌, ℤ, pos, negsuc, ◌-◌, ◌^◌, u32, Run, ok, ◌>>=◌,
}
use pi_vision.Cpp.Events.{
  PiVisionServiceStatus, service_connected, service_disconnected, service_not_found,
  pivision_client, EventData, connect_to_service_cfm, connect_to_service_rej,
  as_connect_to_service_req, as_connection_status_ind, as_provide_service_ind,
  event_connect_to_service_req, event_connect_to_service_cfm, event_connect_to_service_rej,
  event_service_status_ind, event_provide_service_ind, service_discovery_thread_id,
  connections_thread_id, service_listener_thread_id, connect_service, service_listener, connection,
  Call, subscribe_to_event, raise_event, execute_job_in_group,
}

-- The constructor's calls; there is no state.
abbrev pub start : List Call
start =
    subscribe_to_event event_connect_to_service_req
    ∷ subscribe_to_event event_service_status_ind
    ∷ subscribe_to_event event_provide_service_ind
    ∷ []

-- `(uint32_t)statusInd->socketFd`
abbrev pub service_id : ℤ → ℕ
service_id (pos n) = u32 n
service_id (negsuc n) = 2 ^ 32 - 1 - n

-- PIVISION_EVENT_SERVICE_STATUS_IND
unfoldable pub service_status : PiVisionServiceStatus → ℕ → ℤ → List Call
service_status service_disconnected n fd =
    raise_event event_connect_to_service_rej (connect_to_service_rej n) ∷ []
service_status service_not_found n fd =
    raise_event event_connect_to_service_rej (connect_to_service_rej n) ∷ []
service_status service_connected n fd =
    raise_event event_connect_to_service_cfm (connect_to_service_cfm n (service_id fd))
    ∷ execute_job_in_group (connection pivision_client n fd) connections_thread_id
    ∷ []

unfoldable pub handle_event : ℕ → EventData → Run (List Call)
handle_event event_no ptr =
    if event_no == event_provide_service_ind
    then (as_provide_service_ind ptr >>= λ n.
        ok (execute_job_in_group (service_listener n) service_listener_thread_id ∷ []))
    else (if event_no == event_connect_to_service_req
        then (as_connect_to_service_req ptr >>= λ n.
            ok (execute_job_in_group (connect_service n) service_discovery_thread_id ∷ []))
        else (if event_no == event_service_status_ind
            then (as_connection_status_ind ptr >>= λ (status, n, fd).
                ok (service_status status n fd))
            else ok []))
