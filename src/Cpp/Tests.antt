-- ===== src/Cpp/Tests.antt =====
-- Runs of the components of the C++ program.
use mathlib.Core.List.Memᴰ.{head, tail}
use pi_vision.Base.{
  inl, ℕ, ◌-◌, ap, length, ◌≤◌, ◌≡◌, refl, true, false, some, List, [], ◌∷◌, ◌++◌, arith, drop, pos,
  ok, Returns,
}
use pi_vision.Decimal.{decimal}
use pi_vision.Sockets.Streams.{Stream, streams, at_most_three}
use pi_vision.Sockets.Scripted.{Script, scripted, script, peer}
use pi_vision.Cpp.Events.{
  PiVisionData, nullptr, new_data_ind, pivision_server, pivision_client, subscribe_service_ind,
  connect_to_service_cfm, color_image_service_rx, camera_service_rx, event_subscribe_service_ind,
  event_connect_to_service_cfm, EventData, event_service_discovery_timeout,
  service_discovery_timeout,
}
use pi_vision.Cpp.Program.{full, main, begin, Reachable}
use pi_vision.Cpp.Program.Typed.{IsService}
use pi_vision.Cpp.Program.Safe.{AllHandle, Reachable-AllHandle}
use pi_vision.Cpp.Connection.{Env}
use pi_vision.Cpp.GrayscaleImageJob.{extract_image_properties}
use pi_vision.Cpp.GrayscaleImageJob.Gray.{carried}
use pi_vision.Cpp.Connection.{Connection}
use pi_vision.Cpp.Connection.Chunks.{Takes}
use pi_vision.Cpp.Connection.Sessions.{framed}
use pi_vision.Cpp.Pipeline.{Served, serve_frame, serve_frame-Served}
use pi_vision.Cpp.GrayscaleImage as GrayscaleImage
use pi_vision.Cpp.GrayscaleImage.Limit.{Runs, at_start, job_ends, other_event, Runs-count}
use pi_vision.Cpp.ServiceHandler as ServiceHandler
use pi_vision.Cpp.ServiceHandler.Known.{
  service_is_found, service_is_wanted, Reached, asked, handle_event-Reached,
}
use pi_vision.Cpp.ConnectService.{ConnectService, max_num_attempts, service_discover_string}
use pi_vision.Cpp.ConnectService as ConnectService
use pi_vision.Cpp.ServiceListener.{ServiceListener, handle_new_service_discovery_requests}
use pi_vision.Cpp.ServiceListener.Requests.{handle_request-find_service}

-- A frame of two pixels.
abbrev frame : PiVisionData
frame = record { capacity = 10; buf = 2 ∷ 0 ∷ 1 ∷ 0 ∷ 255 ∷ 255 ∷ 255 ∷ 10 ∷ 20 ∷ 60 ∷ [] }

abbrev gray_client : Connection
gray_client = record {
  conn_type = pivision_server;
  service_no = 3380;
  socket_fd = pos 3;
  active = true;
  received_ack = true;
  ack_enabled = true;
  last_heartbeat_received = false;
  is_in_same_process = false;
  sent_pid = false;
}

abbrev no_calls : Env Stream
no_calls = record { world = record { coming = []; written = [] }; calls = [] }

gray_client-Takes : Takes streams (pos 3)
gray_client-Takes = record {
  no_error = λ w. refl;
  progress = λ bytes w h. (at_most_three (length bytes) - 1, ap pos (ground (arith, h)));
}

serve_frame-Served_example :
    Returns
      (Served streams 20 0 gray_client no_calls (framed (carried 0 (drop 4 frame.buf))))
      (serve_frame streams 20 pivision_client frame (0, gray_client, no_calls))
unfolding extract_image_properties
serve_frame-Served_example =
    serve_frame-Served streams 20 gray_client no_calls refl refl gray_client-Takes refl refl 0
      pivision_client frame 2 1 (omega arith) refl (omega arith)
      (omega arith, (omega arith, (omega arith, (omega arith, (omega arith, (omega arith, tt))))))
      refl (omega arith) (omega arith)

-- One job has been started, and has ended.
one_frame : Runs 0 0
unfolding GrayscaleImage.handle_event
one_frame =
    job_ends nullptr
      (other_event color_image_service_rx (new_data_ind pivision_client frame)
        (λ e. absurd (omega (arith, e))) at_start refl)
      refl

Runs-count_example : (◌≡◌ {A = ℕ} 0 0) × (0 ≤ 4)
Runs-count_example = Runs-count one_frame

-- A service has been asked for, and is found.
wanted : Reached ((3390, ServiceHandler.remote_service_disconnected) ∷ []) (3390 ∷ [])
unfolding ServiceHandler.handle_event ServiceHandler.subscribe_service
wanted =
    Reached.event event_subscribe_service_ind (subscribe_service_ind 3390) Reached.at_start
      (service_is_wanted 3390) refl

handle_event-Reached_example :
    Returns
      (λ (s', calls). Reached s' (asked calls ++ (3390 ∷ [])))
      (ServiceHandler.handle_event event_connect_to_service_cfm
        (connect_to_service_cfm 3390 5)
        ((3390, ServiceHandler.remote_service_disconnected) ∷ []))
handle_event-Reached_example =
    handle_event-Reached event_connect_to_service_cfm (connect_to_service_cfm 3390 5) wanted
      (service_is_found 3390 5 (head refl))

abbrev job : ConnectService
job = record {
  service_no = 3390;
  num_attempts = 0;
  service_discovery_socket = pos 3;
  server_address = [];
  service_found = false;
  socket_fd = pos 0;
}

-- The timeouts of two services.
abbrev for_service : ℕ → ℕ × EventData
for_service n = (event_service_discovery_timeout, service_discovery_timeout n)

abbrev timeouts : List (ℕ × EventData)
timeouts =
    for_service 3390
    ∷ for_service 3380
    ∷ for_service 3390
    ∷ for_service 3390
    ∷ for_service 3390
    ∷ for_service 3390
    ∷ []

abbrev listener : ServiceListener
listener = record {
  service_no = 3390;
  active = true;
  service_discovery_socket = pos 3;
  server_socket = pos 3;
  addr = peer;
  own_ip_address = 57 ∷ 46 ∷ 57 ∷ [];
}

abbrev asked_world : Script
asked_world = record (script []) { requests = service_discover_string 3390 ∷ [] }

handle_request-find_service_example :
    handle_new_service_discovery_requests (scripted (λ m n. some n)) 1 listener asked_world
    ≡ ok (listener, record (script []) { written = 57 ∷ 46 ∷ 57 ∷ [] })
unfolding decimal
handle_request-find_service_example =
    handle_request-find_service (scripted (λ m n. some n)) 0 listener 3390 peer asked_world
      (script []) (omega arith) refl

-- The request for the camera, which the frame coordinator raises at the start.
Reachable-AllHandle_example :
    AllHandle streams
      (begin full)
      event_subscribe_service_ind
      (subscribe_service_ind camera_service_rx)
      20
      gray_client
      job
      no_calls.world
unfolding main
Reachable-AllHandle_example =
    Reachable-AllHandle streams event_subscribe_service_ind
      (subscribe_service_ind camera_service_rx) 20 gray_client job no_calls.world IsService.bw_image
      (Reachable.at_start full)
      (inl (
        tail (
          tail (
            tail (
              tail (
                tail (
                  tail (
                    tail (
                      tail (
                        tail (
                          tail
                            (tail (tail (tail (tail (tail (tail (tail (head refl)))))))))))))))))))
