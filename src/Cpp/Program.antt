-- ===== src/Cpp/Program.antt =====
-- C++/src/main: the three programs, and what can happen in them. The dispatcher decides which event is
-- delivered next and which job runs: any event that has been raised can reach any component, at any
-- time and more than once.
pub mod Typed
pub mod Handlers
pub mod Jobs
pub mod Safe
use mathlib.Core.List.{Memᴰ}
use pi_vision.Base.{ℕ, ◌≡◌, ◌⊎◌, List, [], ◌∷◌, ◌++◌, ℤ, minus_one, ok}
use pi_vision.Cpp.Events.{
  PiVisionData, PiVisionServiceStatus, service_disconnected, PiVisionConnectionType,
  pivision_server, EventData, nullptr, connection_status_ind, service_discovery_timeout,
  new_data_ind, hb_timeout, event_service_status_ind, event_service_discovery_timeout,
  event_grayscale_job_complete_ind, bw_image_service_tx, framecoord_thread_id,
  service_discovery_thread_id, connections_thread_id, service_listener_thread_id,
  grayscale_job_thread_id, JobBase, grayscale_image_job, connect_service, service_listener,
  connection, Call, raise_event, raise_event_in, execute_job_in_group, add_exec_group,
  wait_for_execution_finished,
}
use pi_vision.Cpp.EthTerm as EthTerm
use pi_vision.Cpp.ServiceHandler.{Services}
use pi_vision.Cpp.ServiceHandler as ServiceHandler
use pi_vision.Cpp.FrameCoord.{FrameCoord}
use pi_vision.Cpp.FrameCoord as FrameCoord
use pi_vision.Cpp.GrayscaleImage as GrayscaleImage
use pi_vision.Sockets.{Sockets}
use pi_vision.Cpp.Connection.{Connection, Env}
use pi_vision.Cpp.Connection as Connection
use pi_vision.Cpp.ConnectService.{ConnectService}
use pi_vision.Cpp.ConnectService as ConnectService
use pi_vision.Cpp.ServiceListener.{ServiceListener}
use pi_vision.Cpp.ServiceListener as ServiceListener
use pi_vision.Cpp.GrayscaleImageJob as GrayscaleImageJob

pub data Main : Type 0 where
  full bw color : Main

abbrev pub exec_groups : ℕ → List Call
exec_groups grayscale_threads =
    add_exec_group framecoord_thread_id 0
    ∷ add_exec_group service_discovery_thread_id 5
    ∷ add_exec_group connections_thread_id 10
    ∷ add_exec_group service_listener_thread_id 10
    ∷ add_exec_group grayscale_job_thread_id grayscale_threads
    ∷ []

-- main() of src/main/full, src/main/bw and src/main/color, up to the wait: the components are made in
-- their order. The drop of the dispatcher follows it.
abbrev full_main : List Call
full_main =
    exec_groups 4
    ++ (EthTerm.start
        ++ (ServiceHandler.start
            ++ (FrameCoord.start.1
                ++ (GrayscaleImage.start.1 ++ (wait_for_execution_finished ∷ [])))))

abbrev bw_main : List Call
bw_main =
    exec_groups 1
    ++ (EthTerm.start
        ++ (ServiceHandler.start ++ (GrayscaleImage.start.1 ++ (wait_for_execution_finished ∷ []))))

abbrev color_main : List Call
color_main =
    exec_groups 1
    ++ (EthTerm.start
        ++ (ServiceHandler.start ++ (FrameCoord.start.1 ++ (wait_for_execution_finished ∷ []))))

unfoldable pub main : Main → List Call
main full = full_main
main bw = bw_main
main color = color_main

-- The components' states, and all calls of the dispatcher so far.
pub record Program : Type 0 where
  pub services : Services
  pub frame_coord : FrameCoord
  pub num_jobs_ongoing : ℕ
  pub calls : List Call

-- The events that have been raised.
abbrev pub Raised : Program → ℕ → EventData → Type 0
Raised p event_no ptr =
    Memᴰ (raise_event event_no ptr) p.calls
    ⊎ ((milliseconds : ℕ) × Memᴰ (raise_event_in event_no ptr milliseconds) p.calls)

-- The jobs that have been given to the dispatcher.
abbrev pub Started : Program → JobBase → Type 0
Started p job = (group : ℕ) × Memᴰ (execute_job_in_group job group) p.calls

abbrev pub calling : List Call → Program → Program
calling calls p = record p { calls = p.calls ++ calls }

abbrev pub begin : Main → Program
begin m = record {
  services = [];
  frame_coord = FrameCoord.start.0;
  num_jobs_ongoing = GrayscaleImage.start.0;
  calls = main m;
}

-- What a component, a connection or a listener does with an event, and what the jobs do. Each step is
-- a function of the code, from any state of its object and any world.
module _ (os : Sockets) where
  open os use {World}

  -- No calls yet.
  abbrev pub fresh : World → Env World
  fresh w = record { world = w; calls = [] }

  pub data Step (p : Program) : Program → Type 0 where
    services_handle :
        (event_no : ℕ) (ptr : EventData) (s : Services) (calls : List Call)
        → Raised p event_no ptr
        → ServiceHandler.handle_event event_no ptr p.services ≡ ok (s, calls)
        → Step p (calling calls (record p { services = s }))
    terminal_handles :
        (event_no : ℕ) (ptr : EventData) (calls : List Call)
        → Raised p event_no ptr
        → EthTerm.handle_event event_no ptr ≡ ok calls
        → Step p (calling calls p)
    coordinator_handles :
        (event_no : ℕ) (ptr : EventData) (f : FrameCoord) (calls : List Call)
        → Raised p event_no ptr
        → FrameCoord.handle_event event_no ptr p.frame_coord ≡ ok (f, calls)
        → Step p (calling calls (record p { frame_coord = f }))
    grayscale_handles :
        (event_no : ℕ) (ptr : EventData) (n : ℕ) (calls : List Call)
        → Raised p event_no ptr
        → GrayscaleImage.handle_event event_no ptr p.num_jobs_ongoing ≡ ok (n, calls)
        → Step p (calling calls (record p { num_jobs_ongoing = n }))
    search_tries :
        (c : ConnectService) (w : World)
        → Started p (connect_service c.service_no)
        → Step p (calling (ConnectService.after_attempt os c (fresh w)).1.calls p)
    search_tells :
        (c : ConnectService) (w : World)
        → Started p (connect_service c.service_no)
        → Step p (calling (ConnectService.tell_status os c (fresh w)).1.calls p)
    image_is_made :
        (t : PiVisionConnectionType) (d : PiVisionData) (calls : List Call)
        → Started p (grayscale_image_job t d)
        → GrayscaleImageJob.execute d ≡ ok calls
        → Step p (calling calls p)
    connection_is_made :
        (t : PiVisionConnectionType) (n : ℕ) (fd : ℤ) (w : World)
        → Started p (connection t n fd)
        → Step p (calling (Connection.start t n fd (fresh w)).1.calls p)
    connection_receives :
        (t : PiVisionConnectionType) (n : ℕ) (fd : ℤ) (fuel : ℕ) (c c' : Connection) (w : World)
        (e' : Env World)
        → Started p (connection t n fd)
        → c.service_no ≡ n
        → Connection.receive_message os fuel c (fresh w) ≡ ok (c', e')
        → Step p (calling e'.calls p)
    connection_ends :
        (t : PiVisionConnectionType) (n : ℕ) (fd : ℤ) (fuel rounds : ℕ) (c c' : Connection)
        (w : World) (e' : Env World)
        → Started p (connection t n fd)
        → c.service_no ≡ n
        → Connection.execute os fuel rounds c (fresh w) ≡ ok (c', e')
        → Step p (calling e'.calls p)
    connection_handles :
        (t : PiVisionConnectionType) (n : ℕ) (fd : ℤ) (event_no : ℕ) (ptr : EventData) (fuel : ℕ)
        (c c' : Connection) (w : World) (e' : Env World)
        → Raised p event_no ptr
        → Started p (connection t n fd)
        → c.service_no ≡ n
        → Connection.handle_event os fuel event_no ptr c (fresh w) ≡ ok (c', e')
        → Step p (calling e'.calls p)
    listener_accepts :
        (l : ServiceListener) (w : World)
        → Started p (service_listener l.service_no)
        → Step p (calling (ServiceListener.handle_new_connections os l (fresh w)).calls p)

  pub data Reachable : Program → Type 0 where
    at_start : (m : Main) → Reachable (begin m)
    after : {p : Program} (p' : Program) → Reachable p → Step p p' → Reachable p'
