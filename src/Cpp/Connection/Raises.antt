-- ===== src/Cpp/Connection/Raises.antt =====
-- Which events a connection raises.
use pi_vision.Base.{
  ℕ, zero, suc, ◌+◌, ◌-◌, ◌≡◌, refl, true, false, List, [], ◌∷◌, ltb, ◌==◌, not, ◌&&◌,
  if◌then◌else◌, length, take, drop, ℤ, pos, negsuc, Run, ok, ◌>>=◌, Halts, Halts-bind, Halts-if,
  ==→eq, Bool-cases, inl, inr, All, All-append, sym, subst, minus_one,
}
use pi_vision.ImageDataTl.{le32}
use pi_vision.Sockets.{Sockets}
use pi_vision.Cpp.Events.{
  PiVisionData, PiVisionConnectionType, pivision_client, EventData, service_disconnected,
  connection_status_ind, new_data_ind, hb_timeout, get_size, event_service_status_ind, event_stop,
  Call, raise_event, raise_event_in, execute_job_in_group, unsubscribe_to_event,
}
use pi_vision.Cpp.Connection.{
  Connection, Env, give_up, next_size, send_chunk, next_send, send_loop, send, max_attempts, start,
  call, tx_event, heartbeat_timeout, heartbeat_periodicity, handle_data, handle_heartbeat,
  handle_event, send_pid, may_send, same_type, same_int, heartbeat_msg_buf, pid_msg_buf,
}

-- What a connection of a service tells: data of the service, its own end, and its heartbeats.
pub data Told (n : ℕ) : ℕ → EventData → Type 0 where
  data_event : (t : PiVisionConnectionType) (d : PiVisionData) → Told n n (new_data_ind t d)
  end_event :
      Told n event_service_status_ind (connection_status_ind service_disconnected n minus_one)
  heartbeat_event : (fd : ℤ) → Told n heartbeat_timeout (hb_timeout fd)

abbrev pub Fine : ℕ → Call → Type 0
Fine n (raise_event event_no ptr) = Told n event_no ptr
Fine n (raise_event_in event_no ptr milliseconds) = Told n event_no ptr
Fine n (execute_job_in_group job group) = ⊥
Fine n _ = Unit

abbrev pub IsData : EventData → Type 0
IsData ptr = (t : PiVisionConnectionType) × (d : PiVisionData) × (ptr ≡ new_data_ind t d)

abbrev pub IsBeat : EventData → Type 0
IsBeat ptr = (fd : ℤ) × (ptr ≡ hb_timeout fd)

module _ {W : Type 0} (n : ℕ) where
  -- A connection of the service, and such calls only.
  abbrev pub Kept : Connection × Env W → Type 0
  Kept (c, e) = (c.service_no ≡ n) × All (Fine n) e.calls

  pub give_up-Kept : (c : Connection) (e : Env W) → Kept (c, e) → Kept (give_up c e)
  give_up-Kept c e (own, fine) =
      (own, All-append (Fine n) e.calls (unsubscribe_to_event (tx_event c) ∷ []) fine (tt, tt))

  pub call-Kept :
      (c : Connection) (e : Env W) (event_no : ℕ) (ptr : EventData)
      → Kept (c, e)
      → Told n event_no ptr
      → Kept (c, call (raise_event event_no ptr) e)
  call-Kept c e event_no ptr (own, fine) told =
      (own, All-append (Fine n) e.calls (raise_event event_no ptr ∷ []) fine (told, tt))

  pub start-Kept :
      (t : PiVisionConnectionType) (fd : ℤ) (w : W)
      → Kept (start t n fd (record { world = w; calls = [] }))
  unfolding start
  start-Kept t fd w = (refl, (tt, (tt, (tt, (heartbeat_event fd, tt)))))

module _ (os : Sockets) (n : ℕ) where
  open os use {World}

  abbrev Sent : Run (Connection × Env World) → Type 0
  Sent r = Halts (Kept n) ⊥ Unit r

  abbrev Chunk : ℤ × ℕ × Connection × Env World → Type 0
  Chunk (sent, attempts, c, e) = Kept n (c, e)

  send_chunk-Kept :
      (attempts : ℕ) (chunk : List ℕ) (c : Connection) (e : Env World)
      → Kept n (c, e)
      → Chunk (send_chunk os attempts chunk c e)
  unfolding send_chunk
  send_chunk-Kept attempts chunk c e h =
      elim (Bool-cases ((os.so_error c.socket_fd e.world).0 == 0)) [
        | inl fine ↦ rw fine h
        | inr lost ↦
            rw lost (give_up-Kept n c (record e { world = (os.so_error c.socket_fd e.world).1 }) h)
      ]

  next_send-Kept :
      (again : ℕ → ℕ → Connection → Env World → Run (Connection × Env World)) (i : ℕ)
      (r : ℤ × ℕ × Connection × Env World)
      → ((attempts m : ℕ) (c : Connection) (e : Env World)
          → Kept n (c, e)
          → Sent (again attempts m c e))
      → Chunk r
      → Sent (next_send os again i r)
  unfolding next_send
  next_send-Kept again i (pos m, attempts, c, e) loop h = loop 0 (i + m) c e h
  next_send-Kept again i (negsuc m, attempts, c, e) loop h =
      elim (Bool-cases (ltb max_attempts attempts)) [
        | inl last ↦ rw (last, Halts) (give_up-Kept n c e h)
        | inr more ↦ rw (more, Halts) (loop attempts i c e h)
      ]

  send_loop-Kept :
      (k attempts i : ℕ) (buf : List ℕ) (c : Connection) (e : Env World)
      → Kept n (c, e)
      → Sent (send_loop os k attempts i buf c e)
  unfolding send_loop
  send_loop-Kept zero attempts i buf c e h = tt
  send_loop-Kept (suc k) attempts i buf c e h = elim (Bool-cases (ltb i (length buf))) [
    | inr last ↦ rw (last, send_loop) h
    | inl more ↦
        rw (more, send_loop)
          (next_send-Kept (λ attempts1 m c1 e1. send_loop os k attempts1 m buf c1 e1) i
            (send_chunk os attempts (take (next_size (length buf - i)) (drop i buf)) c e)
            (λ attempts1 m c1 e1 h1. send_loop-Kept k attempts1 m buf c1 e1 h1)
            (send_chunk-Kept attempts (take (next_size (length buf - i)) (drop i buf)) c e h))
  ]

  pub send-Kept :
      (fuel : ℕ) (d : PiVisionData) (c : Connection) (e : Env World)
      → Kept n (c, e)
      → Sent (send os fuel d c e)
  unfolding send
  send-Kept fuel d c e h =
      Halts-bind (Kept n) ⊥ Unit (Kept n) (send_loop os fuel 0 0 (le32 (get_size d)) c e) _
        (send_loop-Kept fuel 0 0 (le32 (get_size d)) c e h)
        λ (c1, e1) h1. send_loop-Kept fuel 0 0 d.buf c1 e1 h1

  -- An event for the service with data, and a heartbeat with its own, are handled.
  handle_data-Kept :
      (fuel : ℕ) (ptr : EventData) (c : Connection) (e : Env World)
      → IsData ptr
      → Kept n (c, e)
      → Sent (handle_data os fuel ptr c e)
  unfolding handle_data
  handle_data-Kept fuel ptr c e (t, d, same) (own, fine) = rw same (
      Halts-if (Kept n) ⊥ Unit (may_send c)
        (if same_type c.conn_type t
          then (if c.is_in_same_process
              then ok (c, call (raise_event c.service_no (new_data_ind t d)) e)
              else send os fuel d (record c { received_ack = false }) e)
          else ok (c, e))
        (ok (c, e))
        (λ may.
          Halts-if (Kept n) ⊥ Unit (same_type c.conn_type t)
            (if c.is_in_same_process
              then ok (c, call (raise_event c.service_no (new_data_ind t d)) e)
              else send os fuel d (record c { received_ack = false }) e)
            (ok (c, e))
            (λ mine.
              Halts-if (Kept n) ⊥ Unit c.is_in_same_process
                (ok (c, call (raise_event c.service_no (new_data_ind t d)) e))
                (send os fuel d (record c { received_ack = false }) e)
                (λ here.
                  call-Kept n c e c.service_no (new_data_ind t d) (own, fine)
                    (subst (λ k. Told n k (new_data_ind t d)) (sym own) (data_event t d)))
                (λ away. send-Kept fuel d (record c { received_ack = false }) e (own, fine)))
            (λ other. (own, fine)))
        (λ waits. (own, fine)))

  send_pid-Kept :
      (fuel : ℕ) (c : Connection) (e : Env World) → Kept n (c, e) → Sent (send_pid os fuel c e)
  unfolding send_pid
  send_pid-Kept fuel c e h =
      Halts-if (Kept n) ⊥ Unit (not c.sent_pid && same_type c.conn_type pivision_client)
        (send os fuel (pid_msg_buf (os.getpid e.world)) (record c { sent_pid = true }) e)
        (ok (c, e))
        (λ first.
          send-Kept fuel (pid_msg_buf (os.getpid e.world)) (record c { sent_pid = true }) e h)
        (λ again. h)

  handle_heartbeat-Kept :
      (fuel : ℕ) (ptr : EventData) (c : Connection) (e : Env World)
      → IsBeat ptr
      → Kept n (c, e)
      → Sent (handle_heartbeat os fuel ptr c e)
  unfolding handle_heartbeat
  handle_heartbeat-Kept fuel ptr c e (fd, same) h =
      let beats : Run (Connection × Env World) = send_pid os fuel c e >>= λ (c1, e1).
      send os fuel heartbeat_msg_buf c1 e1 >>= λ (c2, e2).
      ok (c2, call (raise_event_in heartbeat_timeout (hb_timeout fd) heartbeat_periodicity) e2) in
      let lasts : Run (Connection × Env World) =
        ok (record c { last_heartbeat_received = true }, e) in
      rw same (
        Halts-if (Kept n) ⊥ Unit (same_int fd c.socket_fd) (if c.active then beats else lasts)
          (ok (c, e))
          (λ own.
            Halts-if (Kept n) ⊥ Unit c.active beats lasts
              (λ active.
                Halts-bind (Kept n) ⊥ Unit (Kept n) (send_pid os fuel c e) _
                  (send_pid-Kept fuel c e h)
                  λ (c1, e1) h1.
                    Halts-bind (Kept n) ⊥ Unit (Kept n) (send os fuel heartbeat_msg_buf c1 e1) _
                      (send-Kept fuel heartbeat_msg_buf c1 e1 h1)
                      λ (c2, e2) (own2, fine2). (
                        own2,
                        All-append (Fine n) e2.calls
                            (raise_event_in heartbeat_timeout (hb_timeout fd) heartbeat_periodicity
                              ∷ [])
                            fine2 (heartbeat_event fd, tt),
                      ))
              (λ last. h))
          (λ other. h))

  -- A connection handles every event whose data are those that it casts them to, and raises such
  -- events of its service only.
  pub handle_event-Kept :
      (fuel event_no : ℕ) (ptr : EventData) (c : Connection) (e : Env World)
      → (event_no ≡ tx_event c → IsData ptr)
      → (event_no ≡ heartbeat_timeout → IsBeat ptr)
      → Kept n (c, e)
      → Sent (handle_event os fuel event_no ptr c e)
  unfolding handle_event
  handle_event-Kept fuel event_no ptr c e is_data is_beat h =
      let ending : Run (Connection × Env World) =
        if event_no == event_stop then ok (give_up c e) else ok (c, e) in
      let beating : Run (Connection × Env World) =
        if event_no == heartbeat_timeout then handle_heartbeat os fuel ptr c e else ending in
      Halts-if (Kept n) ⊥ Unit (event_no == tx_event c) (handle_data os fuel ptr c e) beating
        (λ at_tx. handle_data-Kept fuel ptr c e (is_data (==→eq event_no (tx_event c) at_tx)) h)
        (λ other.
          Halts-if (Kept n) ⊥ Unit (event_no == heartbeat_timeout)
            (handle_heartbeat os fuel ptr c e) ending
            (λ at_beat.
              handle_heartbeat-Kept fuel ptr c e
                (is_beat (==→eq event_no heartbeat_timeout at_beat)) h)
            (λ neither.
              Halts-if (Kept n) ⊥ Unit (event_no == event_stop) (ok (give_up c e)) (ok (c, e))
                (λ stop. give_up-Kept n c e h) (λ none. h)))
