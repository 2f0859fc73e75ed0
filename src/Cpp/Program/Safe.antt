-- ===== src/Cpp/Program/Safe.antt =====
-- Every event reaches its handlers with the data that they cast it to.
use mathlib.Core.List.{Memᴰ}
use mathlib.Core.List.Memᴰ.{head, tail}
use pi_vision.Base.{
  ℕ, List, [], ◌∷◌, ◌++◌, All, All-append, Returns, Returns-mono, Halts, Halts-mono, Keeps, refl, ℤ,
  inl, inr, sym, subst,
}
use pi_vision.Cpp.Events.{
  PiVisionConnectionType, connect_service, EventData, camera_service_rx, color_image_service_rx,
  JobBase, service_listener, connection, Call, raise_event, raise_event_in, execute_job_in_group,
  wait_for_execution_finished,
}
use pi_vision.Cpp.EthTerm as EthTerm
use pi_vision.Cpp.ServiceHandler.{
  Services, find, assign, local_service, remote_service_disconnected, provide, service_provided,
  subscribe_service, connect_cfm, to_int32,
}
use pi_vision.Cpp.ServiceHandler as ServiceHandler
use pi_vision.Cpp.FrameCoord.{FrameCoord, shutdown_timeout}
use pi_vision.Cpp.FrameCoord as FrameCoord
use pi_vision.Cpp.GrayscaleImage.{num_jobs_limit}
use pi_vision.Cpp.GrayscaleImage as GrayscaleImage
use pi_vision.Cpp.Connection.{Connection, Env}
use pi_vision.Cpp.Connection as Connection
use pi_vision.Cpp.Connection.Raises.{Kept, start-Kept}
use pi_vision.Cpp.Connection.Reception.{receive_message-Kept, execute-Kept}
use pi_vision.Cpp.ConnectService.{ConnectService}
use pi_vision.Cpp.ConnectService as ConnectService
use pi_vision.Sockets.{Sockets}
use pi_vision.Cpp.Program.{
  Main, full, bw, color, exec_groups, main, Program, Raised, Started, calling, fresh, Step,
  services_handle, terminal_handles, coordinator_handles, grayscale_handles, search_tries,
  search_tells, image_is_made, connection_is_made, connection_receives, connection_ends,
  connection_handles, listener_accepts, at_start, after, Reachable,
}
use pi_vision.Cpp.Program.Jobs.{
  search-Returns, calls-Good, image-Good, search_tries-Good, search_tells-Good,
  listener_accepts-Good, connection-Kept,
}
use pi_vision.Cpp.Program.Handlers.{
  Handled, services-Handled, terminal-Good, coordinator-Good, grayscale-Good,
}
use pi_vision.Cpp.Program.Typed.{
  IsService, camera, color_image, Typed, subscribe_event, ValidJob, Good, Grows, Good-Grows,
}

-- What is raised, and started, by good calls.
looked_up :
    (s : Services) (c : Call) (calls : List Call) → All (Good s) calls → Memᴰ c calls → Good s c
looked_up s c [] all m = elim m [ ]
looked_up s c (x ∷ calls) (here, all) (head same) = subst (Good s) (sym same) here
looked_up s c (x ∷ calls) (here, all) (tail later) = looked_up s c calls all later

All-Grows :
    (s s' : Services) (calls : List Call) → Grows s s' → All (Good s) calls → All (Good s') calls
All-Grows s s' [] g all = tt
All-Grows s s' (c ∷ calls) g (good, all) = (Good-Grows s s' c g good, All-Grows s s' calls g all)

abbrev AllGood : Program → Type 0
AllGood p = All (Good p.services) p.calls

Raised-Typed :
    (p : Program) (event_no : ℕ) (ptr : EventData)
    → AllGood p
    → Raised p event_no ptr
    → Typed p.services event_no ptr
Raised-Typed p event_no ptr all (inl m) =
    looked_up p.services (raise_event event_no ptr) p.calls all m
Raised-Typed p event_no ptr all (inr (ms, m)) =
    looked_up p.services (raise_event_in event_no ptr ms) p.calls all m

Started-ValidJob :
    (p : Program) (job : JobBase) → AllGood p → Started p job → ValidJob p.services job
Started-ValidJob p job all (group, m) =
    looked_up p.services (execute_job_in_group job group) p.calls all m

groups-Good : (n : ℕ) → All (Good []) (exec_groups n)
groups-Good n = (tt, (tt, (tt, (tt, (tt, tt)))))

terminal_start-Good : All (Good []) EthTerm.start
terminal_start-Good = (tt, (tt, (tt, tt)))

services_start-Good : All (Good []) ServiceHandler.start
services_start-Good = (tt, (tt, (tt, (tt, tt))))

coordinator_start-Good : All (Good []) FrameCoord.start.1
coordinator_start-Good =
    (tt, (tt, (tt, (tt, (tt, (subscribe_event camera_service_rx camera, tt))))))

grayscale_start-Good : All (Good []) GrayscaleImage.start.1
grayscale_start-Good = (tt, (tt, (subscribe_event color_image_service_rx color_image, tt)))

wait-Good : All (Good []) (wait_for_execution_finished ∷ [])
wait-Good = (tt, tt)

-- The groups, the terminal and the services, which all three programs begin with.
begun-Good :
    (n : ℕ) (more : List Call)
    → All (Good []) more
    → All (Good []) (exec_groups n ++ (EthTerm.start ++ (ServiceHandler.start ++ more)))
begun-Good n more good =
    All-append (Good []) (exec_groups n) (EthTerm.start ++ (ServiceHandler.start ++ more))
      (groups-Good n)
      (All-append (Good []) EthTerm.start (ServiceHandler.start ++ more) terminal_start-Good
        (All-append (Good []) ServiceHandler.start more services_start-Good good))

main-Good : (m : Main) → All (Good []) (main m)
unfolding main
main-Good full =
    begun-Good 4
      (FrameCoord.start.1 ++ (GrayscaleImage.start.1 ++ (wait_for_execution_finished ∷ [])))
      (All-append (Good []) FrameCoord.start.1
        (GrayscaleImage.start.1 ++ (wait_for_execution_finished ∷ [])) coordinator_start-Good
        (All-append (Good []) GrayscaleImage.start.1 (wait_for_execution_finished ∷ [])
          grayscale_start-Good wait-Good))
main-Good bw = begun-Good 1 (GrayscaleImage.start.1 ++ (wait_for_execution_finished ∷ [])) (
    All-append (Good []) GrayscaleImage.start.1 (wait_for_execution_finished ∷ [])
      grayscale_start-Good wait-Good)
main-Good color = begun-Good 1 (FrameCoord.start.1 ++ (wait_for_execution_finished ∷ [])) (
    All-append (Good []) FrameCoord.start.1 (wait_for_execution_finished ∷ [])
      coordinator_start-Good wait-Good)

-- What a job of a known service tells.
job_calls-Good :
    {W : Type 0} (p : Program) (t : PiVisionConnectionType) (n : ℕ) (fd : ℤ) (c : Connection)
    (e : Env W)
    → AllGood p
    → Started p (connection t n fd)
    → Kept n (c, e)
    → AllGood (calling e.calls p)
job_calls-Good p t n fd c e all started (own, fine) =
    let (service, known) = Started-ValidJob p (connection t n fd) all started in
    All-append (Good p.services) p.calls e.calls all
      (calls-Good p.services n e.calls service known fine)

module _ (os : Sockets) where
  open os use {World}

  Step-AllGood : {p p' : Program} → AllGood p → Step os p p' → AllGood p'
  Step-AllGood {p} all (services_handle event_no ptr s calls raised e) =
      let (g, good) =
        subst (Returns (Handled p.services)) e
          (services-Handled p.services event_no ptr (Raised-Typed p event_no ptr all raised)) in
      All-append (Good s) p.calls calls (All-Grows p.services s p.calls g all) good
  Step-AllGood {p} all (terminal_handles event_no ptr calls raised e) =
      All-append (Good p.services) p.calls calls all (
        subst (Returns (All (Good p.services))) e
          (terminal-Good p.services event_no ptr (Raised-Typed p event_no ptr all raised)))
  Step-AllGood {p} all (coordinator_handles event_no ptr f calls raised e) =
      All-append (Good p.services) p.calls calls all (
        subst (Returns (λ (f', cs). All (Good p.services) cs)) e (
          coordinator-Good p.services event_no ptr p.frame_coord
            (Raised-Typed p event_no ptr all raised)))
  Step-AllGood {p} all (grayscale_handles event_no ptr n calls raised e) =
      All-append (Good p.services) p.calls calls all (
        subst (Returns (λ (n', cs). All (Good p.services) cs)) e (
          grayscale-Good p.services event_no ptr p.num_jobs_ongoing
            (Raised-Typed p event_no ptr all raised)))
  Step-AllGood {p} all (search_tries c w started) =
      All-append (Good p.services) p.calls _ all (search_tries-Good os p.services c w)
  Step-AllGood {p} all (search_tells c w started) =
      let (service, known) = Started-ValidJob p (connect_service c.service_no) all started in
      All-append (Good p.services) p.calls _ all (search_tells-Good os p.services c w service known)
  Step-AllGood {p} all (image_is_made t d calls started e) =
      All-append (Good p.services) p.calls calls all
        (subst (Keeps (All (Good p.services))) e (image-Good p.services d))
  Step-AllGood {p} all (connection_is_made t n fd w started) =
      job_calls-Good p t n fd (Connection.start t n fd (fresh os w)).0
        (Connection.start t n fd (fresh os w)).1 all started (start-Kept n t fd w)
  Step-AllGood {p} all (connection_receives t n fd fuel c c' w e' started own e) =
      job_calls-Good p t n fd c' e' all started
        (subst (Keeps (Kept n)) e (receive_message-Kept os n fuel c (fresh os w) (own, tt)))
  Step-AllGood {p} all (connection_ends t n fd fuel rounds c c' w e' started own e) =
      job_calls-Good p t n fd c' e' all started
        (subst (Keeps (Kept n)) e (execute-Kept os n fuel rounds c (fresh os w) (own, tt)))
  Step-AllGood {p} all
        (connection_handles t n fd event_no ptr fuel c c' w e' raised started own e) =
      let (service, known) = Started-ValidJob p (connection t n fd) all started in
      job_calls-Good p t n fd c' e' all started (
        subst (Halts (Kept n) ⊥ Unit) e (
          connection-Kept os p.services n event_no fuel ptr c w service own
            (Raised-Typed p event_no ptr all raised)))
  Step-AllGood {p} all (listener_accepts l w started) =
      let (service, known) = Started-ValidJob p (service_listener l.service_no) all started in
      All-append (Good p.services) p.calls _ all
        (listener_accepts-Good os p.services l w service known)

  Reachable-AllGood : {p : Program} → Reachable os p → AllGood p
  Reachable-AllGood (at_start m) = main-Good m
  Reachable-AllGood (after p' r s) = Step-AllGood (Reachable-AllGood r) s

  -- The handlers of the four components return for an event, and so does that of a search; that of a
  -- connection has no fault.
  abbrev pub AllHandle : Program → ℕ → EventData → ℕ → Connection → ConnectService → World → Type 0
  AllHandle p event_no ptr fuel c search w =
      Returns (λ r. Unit) (ServiceHandler.handle_event event_no ptr p.services)
      × Returns (λ r. Unit) (EthTerm.handle_event event_no ptr)
      × Returns (λ r. Unit) (FrameCoord.handle_event event_no ptr p.frame_coord)
      × Returns (λ r. Unit) (GrayscaleImage.handle_event event_no ptr p.num_jobs_ongoing)
      × Returns (λ r. Unit) (ConnectService.handle_event event_no ptr search)
      × Halts (λ r. Unit) ⊥ Unit (Connection.handle_event os fuel event_no ptr c (fresh os w))

  -- In each of the three programs, in whatever order the dispatcher delivers the events and runs the
  -- jobs, whose events are those that their code raises, every event that has been raised is handled
  -- by the service handler, the terminal, the frame coordinator, the grayscale image and any search,
  -- and without a fault by any connection of one of the three services: no event comes with data that
  -- a handler casts to another class, none with a NULL that it reads, and no confirmation for a
  -- service that the service handler does not know.
  pub Reachable-AllHandle :
      {p : Program} (event_no : ℕ) (ptr : EventData) (fuel : ℕ) (c : Connection)
      (search : ConnectService) (w : World)
      → IsService c.service_no
      → Reachable os p
      → Raised p event_no ptr
      → AllHandle p event_no ptr fuel c search w
  Reachable-AllHandle {p} event_no ptr fuel c search w service r raised =
      let typed = Raised-Typed p event_no ptr (Reachable-AllGood r) raised in
      (
        Returns-mono (Handled p.services) (λ _. Unit) _ (λ _ _. tt)
            (services-Handled p.services event_no ptr typed),
        Returns-mono (All (Good p.services)) (λ _. Unit) _ (λ _ _. tt)
            (terminal-Good p.services event_no ptr typed),
        Returns-mono _ (λ _. Unit) _ (λ _ _. tt)
            (coordinator-Good p.services event_no ptr p.frame_coord typed),
        Returns-mono _ (λ _. Unit) _ (λ _ _. tt)
            (grayscale-Good p.services event_no ptr p.num_jobs_ongoing typed),
        search-Returns p.services event_no ptr search typed,
        Halts-mono (Kept c.service_no) (λ _. Unit) ⊥ ⊥ Unit Unit _ (λ _ _. tt) (λ x. x) (λ x. x)
            (connection-Kept os p.services c.service_no event_no fuel ptr c w service refl typed),
      )
