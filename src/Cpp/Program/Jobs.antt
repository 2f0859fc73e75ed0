-- ===== src/Cpp/Program/Jobs.antt =====
-- What the jobs of the three programs raise.
use pi_vision.Base.{
  ℕ, ◌+◌, ◌*◌, ◌^◌, ◌<◌, ◌≡◌, refl, List, [], ◌∷◌, arith, ltb, drop, u32, All, All-append, Keeps,
  Keeps-bind, Keeps-if, Bool-cases, inl, inr, sym, subst, Halts, Returns, ok, fault, ◌>>=◌,
  minus_one, if_true, if_false, ap, ◌∙◌,
}
use pi_vision.Sockets.{Sockets, so_rcvtimeo}
use pi_vision.Cpp.Events.{
  PiVisionData, new_data, pivision_server, EventData, new_data_ind, nullptr, service_disconnected,
  service_not_found, bw_image_service_tx, event_grayscale_job_complete_ind, Call, raise_event,
  raise_event_in, execute_job_in_group, subscribe_to_event, unsubscribe_to_event,
  notify_execution_finished, add_exec_group, wait_for_execution_finished,
}
use pi_vision.Cpp.Connection.{Connection, Env, tx_event, heartbeat_timeout}
use pi_vision.Cpp.Connection as Connection
use pi_vision.Cpp.Connection.Raises.{
  Told, data_event, end_event, heartbeat_event, Fine, IsData, IsBeat, Kept, start-Kept,
  handle_event-Kept,
}
use pi_vision.Cpp.ConnectService.{ConnectService, connect_status, connect_to_server}
use pi_vision.Cpp.ConnectService as ConnectService
use pi_vision.Cpp.ServiceListener.{ServiceListener}
use pi_vision.Cpp.ServiceListener as ServiceListener
use pi_vision.Cpp.GrayscaleImageJob.{extract_image_properties, pixel_loop}
use pi_vision.Cpp.GrayscaleImageJob as GrayscaleImageJob
use pi_vision.Cpp.ServiceHandler.{Services}
use pi_vision.Cpp.ServiceHandler.Known.{Known}
use pi_vision.Cpp.Program.{fresh}
use pi_vision.Cpp.Program.Typed.{IsService, camera, color_image, bw_image, Typed, Good}

small_number : (n : ℕ) → IsService n → n < 10000
small_number _ camera = omega arith
small_number _ color_image = omega arith
small_number _ bw_image = omega arith

-- An event with the number of a service's data has data, and so has a heartbeat.
is_data :
    (s : Services) (n event_no : ℕ) (ptr : EventData)
    → IsService n
    → Typed s event_no ptr
    → event_no ≡ u32 (n + 1)
    → IsData ptr
is_data s n event_no ptr service typed e =
    go event_no ptr typed (omega (arith, e, small_number n service))
  where
    go : (event_no : ℕ) (ptr : EventData) → Typed s event_no ptr → event_no < 10001 → IsData ptr
    go _ _ Typed.stop_event low = absurd (omega arith)
    go _ _ Typed.shutdown_event low = absurd (omega arith)
    go _ _ Typed.complete_event low = absurd (omega arith)
    go _ _ (Typed.request_event n k h) low = absurd (omega arith)
    go _ _ (Typed.confirm_event n id h) low = absurd (omega arith)
    go _ _ (Typed.reject_event n) low = absurd (omega arith)
    go _ _ (Typed.status_event status n fd k h) low = absurd (omega arith)
    go _ _ (Typed.timeout_event n) low = absurd (omega arith)
    go _ _ (Typed.subscribe_event n k) low = absurd (omega arith)
    go _ _ (Typed.available_event n) low = absurd (omega arith)
    go _ _ (Typed.provided_event n k) low = absurd (omega arith)
    go _ _ (Typed.unavailable_event n) low = absurd (omega arith)
    go _ _ (Typed.provide_event n k h) low = absurd (omega arith)
    go _ _ (Typed.data_event n k t d) low = (t, d, refl)
    go _ _ (Typed.color_event d) low = (pivision_server, d, refl)
    go _ _ (Typed.bw_event d) low = (pivision_server, d, refl)
    go _ _ (Typed.heartbeat_event fd) low = absurd (omega arith)

is_beat :
    (s : Services) (event_no : ℕ) (ptr : EventData)
    → Typed s event_no ptr
    → event_no ≡ heartbeat_timeout
    → IsBeat ptr
is_beat s _ _ Typed.stop_event e = absurd (omega (arith, e))
is_beat s _ _ Typed.shutdown_event e = absurd (omega (arith, e))
is_beat s _ _ Typed.complete_event e = absurd (omega (arith, e))
is_beat s _ _ (Typed.request_event n k h) e = absurd (omega (arith, e))
is_beat s _ _ (Typed.confirm_event n id h) e = absurd (omega (arith, e))
is_beat s _ _ (Typed.reject_event n) e = absurd (omega (arith, e))
is_beat s _ _ (Typed.status_event status n fd k h) e = absurd (omega (arith, e))
is_beat s _ _ (Typed.timeout_event n) e = absurd (omega (arith, e))
is_beat s _ _ (Typed.subscribe_event n k) e = absurd (omega (arith, e))
is_beat s _ _ (Typed.available_event n) e = absurd (omega (arith, e))
is_beat s _ _ (Typed.provided_event n k) e = absurd (omega (arith, e))
is_beat s _ _ (Typed.unavailable_event n) e = absurd (omega (arith, e))
is_beat s _ _ (Typed.provide_event n k h) e = absurd (omega (arith, e))
is_beat s _ _ (Typed.data_event n k t d) e = absurd (omega (arith, e, small_number n k))
is_beat s _ _ (Typed.color_event d) e = absurd (omega (arith, e))
is_beat s _ _ (Typed.bw_event d) e = absurd (omega (arith, e))
is_beat s _ _ (Typed.heartbeat_event fd) e = (fd, refl)

-- A search handles every event with its data.
pub search-Returns :
    (s : Services) (event_no : ℕ) (ptr : EventData) (c : ConnectService)
    → Typed s event_no ptr
    → Returns (λ r. Unit {0}) (ConnectService.handle_event event_no ptr c)
unfolding ConnectService.handle_event
search-Returns s _ _ c Typed.stop_event = tt
search-Returns s _ _ c Typed.shutdown_event = tt
search-Returns s _ _ c Typed.complete_event = tt
search-Returns s _ _ c (Typed.request_event n k h) = tt
search-Returns s _ _ c (Typed.confirm_event n id h) = tt
search-Returns s _ _ c (Typed.reject_event n) = tt
search-Returns s _ _ c (Typed.status_event status n fd k h) = tt
search-Returns s _ _ c (Typed.timeout_event n) = tt
search-Returns s _ _ c (Typed.subscribe_event n k) = tt
search-Returns s _ _ c (Typed.available_event n) = tt
search-Returns s _ _ c (Typed.provided_event n k) = tt
search-Returns s _ _ c (Typed.unavailable_event n) = tt
search-Returns s _ _ c (Typed.provide_event n k h) = tt
search-Returns s _ _ c (Typed.data_event _ camera t d) = tt
search-Returns s _ _ c (Typed.data_event _ color_image t d) = tt
search-Returns s _ _ c (Typed.data_event _ bw_image t d) = tt
search-Returns s _ _ c (Typed.color_event d) = tt
search-Returns s _ _ c (Typed.bw_event d) = tt
search-Returns s _ _ c (Typed.heartbeat_event fd) = tt

-- What a connection of a known service tells has its data.
Told-Typed :
    (s : Services) (n event_no : ℕ) (ptr : EventData)
    → IsService n
    → Known n s
    → Told n event_no ptr
    → Typed s event_no ptr
Told-Typed s n _ _ service known (data_event t d) = Typed.data_event n service t d
Told-Typed s n _ _ service known end_event =
    Typed.status_event service_disconnected n minus_one service known
Told-Typed s n _ _ service known (heartbeat_event fd) = Typed.heartbeat_event fd

Fine-Good : (s : Services) (n : ℕ) (c : Call) → IsService n → Known n s → Fine n c → Good s c
Fine-Good s n (raise_event event_no ptr) service known told =
    Told-Typed s n event_no ptr service known told
Fine-Good s n (raise_event_in event_no ptr milliseconds) service known told =
    Told-Typed s n event_no ptr service known told
Fine-Good s n (execute_job_in_group job group) service known told = absurd told
Fine-Good s n (subscribe_to_event event_no) service known told = tt
Fine-Good s n (unsubscribe_to_event event_no) service known told = tt
Fine-Good s n notify_execution_finished service known told = tt
Fine-Good s n (add_exec_group group num_threads) service known told = tt
Fine-Good s n wait_for_execution_finished service known told = tt

pub calls-Good :
    (s : Services) (n : ℕ) (calls : List Call)
    → IsService n
    → Known n s
    → All (Fine n) calls
    → All (Good s) calls
calls-Good s n [] service known all = tt
calls-Good s n (c ∷ calls) service known (fine, all) =
    (Fine-Good s n c service known fine, calls-Good s n calls service known all)

-- A job on an image raises the image and its end.
pub image-Good :
    (s : Services) (d : PiVisionData) → Keeps (All (Good s)) (GrayscaleImageJob.execute d)
unfolding GrayscaleImageJob.execute
image-Good s d =
    let (x, y) = extract_image_properties d in
    let make = pixel_loop (drop 4 d.buf) 0 0 (new_data (x * y)) in
    let told : PiVisionData → List Call = λ image.
      raise_event bw_image_service_tx (new_data_ind pivision_server image)
      ∷ raise_event event_grayscale_job_complete_ind nullptr
      ∷ [] in
    Keeps-if (All (Good s)) (ltb (x * y) (2 ^ 31)) (make >>= λ image. ok (told image)) fault
      (λ fits.
        Keeps-bind (All (Good s)) make (λ image. ok (told image))
          (λ image. (Typed.bw_event image, (Typed.complete_event, tt))))
      (λ over. tt)

module _ (os : Sockets) (s : Services) where
  open os use {World}

  pub search_tries-Good :
      (c : ConnectService) (w : World)
      → All (Good s) (ConnectService.after_attempt os c (fresh os w)).1.calls
  unfolding ConnectService.after_attempt
  search_tries-Good c w = elim (Bool-cases c.service_found) [
    | inl found ↦
        subst (λ (r : ConnectService × Env World). All (Good s) r.1.calls)
          (sym (if_true c.service_found _ _ found)) tt
    | inr lost ↦
        subst (λ (r : ConnectService × Env World). All (Good s) r.1.calls)
          (sym (if_false c.service_found _ _ lost)) (Typed.timeout_event c.service_no, tt)
  ]

  pub search_tells-Good :
      (c : ConnectService) (w : World)
      → IsService c.service_no
      → Known c.service_no s
      → All (Good s) (ConnectService.tell_status os c (fresh os w)).1.calls
  unfolding ConnectService.tell_status
  search_tells-Good c w service known = elim (Bool-cases c.service_found) [
    | inl found ↦
        subst (λ (r : ConnectService × Env World). All (Good s) r.1.calls)
          (sym (if_true c.service_found _ _ found))
          (
            Typed.status_event (connect_status (connect_to_server os c w).0) c.service_no
                (connect_to_server os c w).0 service known,
            tt,
          )
    | inr lost ↦
        subst (λ (r : ConnectService × Env World). All (Good s) r.1.calls)
          (sym (if_false c.service_found _ _ lost))
          (Typed.status_event service_not_found c.service_no minus_one service known, tt)
  ]

  pub listener_accepts-Good :
      (l : ServiceListener) (w : World)
      → IsService l.service_no
      → Known l.service_no s
      → All (Good s) (ServiceListener.handle_new_connections os l (fresh os w)).calls
  unfolding ServiceListener.handle_new_connections
  listener_accepts-Good l w service known =
      let (client, w2) = os.accept l.server_socket (os.readable l.server_socket w).1 in
      let made =
        start-Kept l.service_no pivision_server client
          (os.setsockopt client (so_rcvtimeo 0 500000) w2).1 in
      elim (Bool-cases (os.readable l.server_socket w).0) [
        | inl ready ↦
            subst (λ (r : Env World). All (Good s) r.calls)
              (sym (if_true (os.readable l.server_socket w).0 _ _ ready))
              (All-append (Good s) _ _ (calls-Good s l.service_no _ service known made.1)
                ((service, known), tt))
        | inr idle ↦
            subst (λ (r : Env World). All (Good s) r.calls)
              (sym (if_false (os.readable l.server_socket w).0 _ _ idle)) tt
      ]

  -- A connection handles every event with its data, and raises such events only.
  pub connection-Kept :
      (n event_no fuel : ℕ) (ptr : EventData) (c : Connection) (w : World)
      → IsService n
      → c.service_no ≡ n
      → Typed s event_no ptr
      → Halts (Kept n) ⊥ Unit (Connection.handle_event os fuel event_no ptr c (fresh os w))
  connection-Kept n event_no fuel ptr c w service own typed =
      handle_event-Kept os n fuel event_no ptr c (fresh os w)
        (λ e. is_data s n event_no ptr service typed (e ∙ ap (λ k. u32 (k + 1)) own))
        (λ e. is_beat s event_no ptr typed e) (own, tt)
