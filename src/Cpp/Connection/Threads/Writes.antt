-- ===== src/Cpp/Connection/Threads/Writes.antt =====
-- What the steps of a connection's two threads write: whole messages.
use mathlib.Core.List.{append_assoc, append-nil}
use pi_vision.Base.{
  ℕ, ◌<◌, ◌≡◌, ◌≢◌, refl, true, false, List, [], ◌∷◌, ◌++◌, ◌⊎◌, inl, inr, arith, not, ◌&&◌, ◌==◌,
  if◌then◌else◌, ok, fault, Returns-mono, Keeps, Keeps-mono, Keeps-if, Keeps-bind, Keeps-bind_if,
  Returns→Keeps, ap, sym, subst, ◌∙◌,
}
use pi_vision.ImageDataTl.{le32}
use pi_vision.Sockets.{Sockets}
use pi_vision.Cpp.Events.{
  PiVisionData, pivision_client, get_size, EventData, new_data_ind, as_hb_timeout, raise_event,
  event_stop,
}
use pi_vision.Cpp.Connection.{
  Connection, Env, call, tx_event, send, is_message, ack_msg_buf, heartbeat_msg_buf, pid_msg_buf,
  may_send, same_type, same_int, number_at, take_message, handle_data, handle_heartbeat, send_pid,
  handle_event, heartbeat_timeout,
}
use pi_vision.Cpp.Connection.Chunks.{Takes, Wrote, send-Wrote}
use pi_vision.Cpp.Connection.Sessions.{framed, all_framed}
use pi_vision.Cpp.Connection.Threads.{Room}

size_ack : (fuel : ℕ) → 8 < fuel → get_size ack_msg_buf < fuel
unfolding ack_msg_buf le32
size_ack fuel room = omega (arith, room)

size_heartbeat : (fuel : ℕ) → 8 < fuel → get_size heartbeat_msg_buf < fuel
unfolding heartbeat_msg_buf le32
size_heartbeat fuel room = omega (arith, room)

size_pid : (fuel own_pid : ℕ) → 8 < fuel → get_size (pid_msg_buf own_pid) < fuel
unfolding pid_msg_buf le32
size_pid fuel own_pid room = omega (arith, room)

module _ (os : Sockets) where
  open os use {World}

  -- Whole messages have been written behind what was there, on the same socket, and the wait for the
  -- acknowledgement is as before.
  abbrev pub Extends : Connection → Env World → Connection × Env World → Type 0
  Extends c e (c', e') =
      (c'.socket_fd ≡ c.socket_fd)
      × (c'.ack_enabled ≡ c.ack_enabled)
      × (c'.received_ack ≡ c.received_ack)
      × ((ms : List (List ℕ)) × (os.stream c.socket_fd e'.world
            ≡ os.stream c.socket_fd e.world ++ all_framed ms))

  Extends-refl : (c : Connection) (e : Env World) → Extends c e (c, e)
  Extends-refl c e = (refl, refl, refl, ([], sym (append-nil (os.stream c.socket_fd e.world))))

  pub all_framed-append :
      (ms ns : List (List ℕ)) → all_framed (ms ++ ns) ≡ all_framed ms ++ all_framed ns
  all_framed-append [] ns = refl
  all_framed-append (m ∷ ms) ns =
      ap (λ s. framed m ++ s) (all_framed-append ms ns)
      ∙ sym (append_assoc (framed m) (all_framed ms) (all_framed ns))

  Extends-trans :
      (c c1 c2 : Connection) (e e1 e2 : Env World)
      → Extends c e (c1, e1)
      → Extends c1 e1 (c2, e2)
      → Extends c e (c2, e2)
  Extends-trans c c1 c2 e e1 e2 (at, on, ack, (ms, st)) (at', on', ack', (ns, st')) = (
    at' ∙ at,
    on' ∙ on,
    ack' ∙ ack,
    (
      ms ++ ns,
      subst (λ fd. os.stream fd e2.world ≡ os.stream fd e1.world ++ all_framed ns) at st'
          ∙ ap (λ s. s ++ all_framed ns) st
          ∙ append_assoc (os.stream c.socket_fd e.world) (all_framed ms) (all_framed ns)
          ∙ ap (λ s. os.stream c.socket_fd e.world ++ s) (sym (all_framed-append ms ns)),
    ),
  )

  send-Extends :
      (fuel : ℕ) (d : PiVisionData) (c : Connection) (e : Env World)
      → Takes os c.socket_fd
      → 8 < fuel
      → get_size d < fuel
      → Keeps (Extends c e) (send os fuel d c e)
  send-Extends fuel d c e t room fits = Returns→Keeps (Extends c e) (send os fuel d c e) (
      Returns-mono (Wrote os c e (framed d.buf)) (Extends c e) _
        (λ (c', e') (same, calls, st). (
          ap (λ k. k.socket_fd) same,
          ap (λ k. k.ack_enabled) same,
          ap (λ k. k.received_ack) same,
          (
            d.buf ∷ [],
            st ∙ ap (λ s. os.stream c.socket_fd e.world ++ s) (sym (append-nil (framed d.buf))),
          ),
        ))
        (send-Wrote os fuel d c e t (omega arith) fits))

  -- A data event is passed over or raised again; or, where no acknowledgement is awaited, its data is
  -- written and the wait begins.
  abbrev pub DataHandled : Connection → Env World → Connection × Env World → Type 0
  DataHandled c e (c', e') =
      ((c' ≡ c) × (os.stream c.socket_fd e'.world ≡ os.stream c.socket_fd e.world))
      ⊎ ((c.received_ack ≡ true)
          × (c'.received_ack ≡ false)
          × (c'.socket_fd ≡ c.socket_fd)
          × (c'.ack_enabled ≡ c.ack_enabled)
          × ((ms : List (List ℕ)) × (os.stream c.socket_fd e'.world
                ≡ os.stream c.socket_fd e.world ++ all_framed ms)))

  pub handle_data-DataHandled :
      (fuel : ℕ) (ptr : EventData) (c : Connection) (e : Env World)
      → Takes os c.socket_fd
      → Room fuel ptr
      → c.ack_enabled ≡ true
      → Keeps (DataHandled c e) (handle_data os fuel ptr c e)
  unfolding handle_data
  handle_data-DataHandled fuel (new_data_ind t d) c e takes room on =
      let Q = DataHandled c e in
      Keeps-if Q (may_send c) _ (ok (c, e))
        (λ free.
          Keeps-if Q (same_type c.conn_type t) _ (ok (c, e))
            (λ same.
              Keeps-if Q c.is_in_same_process _
                (send os fuel d (record c { received_ack = false }) e) (λ here. inl (refl, refl))
                (λ there.
                  Keeps-mono (Extends (record c { received_ack = false }) e) Q
                    (send os fuel d (record c { received_ack = false }) e)
                    (λ (c', e') (at, on', ack, frames). inr (ground arith, ack, at, on', frames))
                    (send-Extends fuel d (record c { received_ack = false }) e takes room.protocol
                      (room.contents t d refl))))
            (λ other. inl (refl, refl)))
        (λ waits. inl (refl, refl))
  handle_data-DataHandled fuel ptr c e takes room on =
      Keeps-if (DataHandled c e) (may_send c) fault (ok (c, e)) (λ free. tt)
        (λ waits. inl (refl, refl))

  -- A message of the protocol is written whole.
  send_pid-Extends :
      (fuel : ℕ) (c : Connection) (e : Env World)
      → Takes os c.socket_fd
      → 8 < fuel
      → Keeps (Extends c e) (send_pid os fuel c e)
  unfolding send_pid
  send_pid-Extends fuel c e takes room =
      Keeps-if (Extends c e) (not c.sent_pid && same_type c.conn_type pivision_client)
        (send os fuel (pid_msg_buf (os.getpid e.world)) (record c { sent_pid = true }) e)
        (ok (c, e))
        (λ first.
          send-Extends fuel (pid_msg_buf (os.getpid e.world)) (record c { sent_pid = true }) e takes
            room (size_pid fuel (os.getpid e.world) room))
        (λ known. Extends-refl c e)

  handle_heartbeat-Extends :
      (fuel : ℕ) (ptr : EventData) (c : Connection) (e : Env World)
      → Takes os c.socket_fd
      → 8 < fuel
      → Keeps (Extends c e) (handle_heartbeat os fuel ptr c e)
  unfolding handle_heartbeat
  handle_heartbeat-Extends fuel ptr c e takes room =
      Keeps-bind (Extends c e) (as_hb_timeout ptr) _ λ id.
        Keeps-if (Extends c e) (same_int id c.socket_fd) _ (ok (c, e))
          (λ own.
            Keeps-if (Extends c e) c.active _ (ok (record c { last_heartbeat_received = true }, e))
              (λ on.
                Keeps-bind_if (Extends c e) (Extends c e) (send_pid os fuel c e) _
                  (send_pid-Extends fuel c e takes room)
                  λ (c1, e1) first.
                    Keeps-bind_if (Extends c1 e1) (Extends c e)
                      (send os fuel heartbeat_msg_buf c1 e1) _
                      (send-Extends fuel heartbeat_msg_buf c1 e1
                        (subst (Takes os) (sym first.0) takes) room (size_heartbeat fuel room))
                      λ (c2, e2) second. Extends-trans c c1 c2 e e1 e2 first second)
              (λ off. Extends-refl c e))
          (λ other. Extends-refl c e)

  pub other-Extends :
      (fuel event_no : ℕ) (ptr : EventData) (c : Connection) (e : Env World)
      → Takes os c.socket_fd
      → 8 < fuel
      → event_no ≢ tx_event c
      → Keeps (Extends c e) (handle_event os fuel event_no ptr c e)
  unfolding handle_event
  other-Extends fuel event_no ptr c e takes room other =
      Keeps-if (Extends c e) (event_no == tx_event c) (handle_data os fuel ptr c e) _
        (λ same. absurd (other (ground (arith, same))))
        λ differs.
          Keeps-if (Extends c e) (event_no == heartbeat_timeout) (handle_heartbeat os fuel ptr c e)
            _ (λ beat. handle_heartbeat-Extends fuel ptr c e takes room)
            λ no_beat.
              Keeps-if (Extends c e) (event_no == event_stop) _ (ok (c, e))
                (λ stop. Extends-refl c e) (λ unknown. Extends-refl c e)

  -- The acknowledgement ends the wait.
  abbrev pub Acked : Connection → Env World → Connection × Env World → Type 0
  Acked c e (c', e') = (c' ≡ record c { received_ack = true; ack_enabled = true }) × (e' ≡ e)

  pub ack-Acked :
      (fuel n : ℕ) (d : PiVisionData) (c : Connection) (e : Env World)
      → is_message n ack_msg_buf d ≡ true
      → Keeps (Acked c e) (take_message os fuel n d c e)
  unfolding take_message
  ack-Acked fuel n d c e ack = rw (ack, Keeps) (refl, refl)

  -- Any other message leaves the wait, and is answered with whole messages.
  pub take_message-Extends :
      (fuel n : ℕ) (d : PiVisionData) (c : Connection) (e : Env World)
      → Takes os c.socket_fd
      → 8 < fuel
      → is_message n ack_msg_buf d ≡ false
      → Keeps (Extends c e) (take_message os fuel n d c e)
  unfolding take_message
  take_message-Extends fuel n d c e takes room no_ack =
      let is_heartbeat = is_message n heartbeat_msg_buf d in
      let is_pid = is_message n (pid_msg_buf (os.getpid e.world)) d in
      let e1 = call (raise_event c.service_no (new_data_ind c.conn_type d)) e in
      rw (no_ack, Keeps)
        (Keeps-if (Extends c e) (not is_heartbeat && not is_pid)
          (if c.ack_enabled then send os fuel ack_msg_buf c e1 else ok (c, e1))
          (if is_pid
            then ok (record c { is_in_same_process = number_at 4 d == os.getpid e.world }, e)
            else ok (c, e))
          (λ ordinary.
            Keeps-if (Extends c e) c.ack_enabled (send os fuel ack_msg_buf c e1) (ok (c, e1))
              (λ on. send-Extends fuel ack_msg_buf c e1 takes room (size_ack fuel room))
              (λ off. Extends-refl c e))
          (λ special.
            Keeps-if (Extends c e) is_pid
              (ok (record c { is_in_same_process = number_at 4 d == os.getpid e.world }, e))
              (ok (c, e)) (λ pid. Extends-refl c e) (λ beat. Extends-refl c e)))
