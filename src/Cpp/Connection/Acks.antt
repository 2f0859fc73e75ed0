-- ===== src/Cpp/Connection/Acks.antt =====
-- One data message at a time: the next one waits for the acknowledgement. And the heartbeat.
use mathlib.Core.List.{append_assoc, append-nil}
use pi_vision.Base.{
  ℕ, ◌<◌, ◌≡◌, ◌≢◌, refl, Bool, true, false, List, [], ◌∷◌, ◌++◌, arith, not, ◌||◌, ◌&&◌, ◌==◌,
  eq→==, ne→==, if_true, if_false, ap₂, if◌then◌else◌, Run, ok, Returns, Returns→ok, Returns-mono,
  ◌>>=◌, ap, sym, subst, ◌∙◌, ℤ, pos, negsuc,
}
use pi_vision.ImageDataTl.{le32}
use pi_vision.Sockets.{Sockets}
use pi_vision.Cpp.Events.{
  PiVisionData, PiVisionConnectionType, pivision_server, pivision_client, get_size, EventData,
  new_data_ind, hb_timeout, raise_event_in,
}
use pi_vision.Cpp.Connection.{
  Connection, Env, call, tx_event, send, ack_msg_buf, heartbeat_msg_buf, pid_msg_buf, take_message,
  may_send, same_type, same_int, handle_data, handle_heartbeat, send_pid, handle_event,
  heartbeat_timeout, heartbeat_periodicity,
}
use pi_vision.Cpp.Connection.Chunks.{Takes, Wrote, send-Wrote}
use pi_vision.Cpp.Connection.Sessions.{framed}

-- A connection that waits for the acknowledgement of a peer in another process.
abbrev pub Waits : Connection → Type 0
Waits c = (c.received_ack ≡ false) × (c.ack_enabled ≡ true) × (c.is_in_same_process ≡ false)

same_type_refl : (t : PiVisionConnectionType) → same_type t t ≡ true
same_type_refl pivision_server = refl
same_type_refl pivision_client = refl

same_int_refl : (n : ℤ) → same_int n n ≡ true
same_int_refl (pos n) = eq→== n n refl
same_int_refl (negsuc n) = eq→== n n refl

module _ (os : Sockets) where
  open os use {World}

  -- The data events of a service, one after the other.
  pub handle_all : ℕ → List PiVisionData → Connection → Env World → Run (Connection × Env World)
  handle_all fuel [] c e = ok (c, e)
  handle_all fuel (d ∷ ds) c e =
      handle_event os fuel (tx_event c) (new_data_ind c.conn_type d) c e >>= λ (c1, e1).
      handle_all fuel ds c1 e1

  pub handle_event_tx :
      (fuel : ℕ) (ptr : EventData) (c : Connection) (e : Env World)
      → handle_event os fuel (tx_event c) ptr c e ≡ handle_data os fuel ptr c e
  unfolding handle_event
  handle_event_tx fuel ptr c e =
      if_true (tx_event c == tx_event c) _ _ (eq→== (tx_event c) (tx_event c) refl)

  waiting : (c : Connection) → Waits c → may_send c ≡ false
  waiting c (no_ack, on, other) = ap₂ ◌||◌ no_ack (ap₂ ◌||◌ (ap not on) other)

  handle_data-Waits :
      (fuel : ℕ) (ptr : EventData) (c : Connection) (e : Env World)
      → Waits c
      → handle_data os fuel ptr c e ≡ ok (c, e)
  unfolding handle_data
  handle_data-Waits fuel ptr c e w = if_false (may_send c) _ (ok (c, e)) (waiting c w)

  handle_all-Waits :
      (fuel : ℕ) (ds : List PiVisionData) (c : Connection) (e : Env World)
      → Waits c
      → handle_all fuel ds c e ≡ ok (c, e)
  unfolding handle_all
  handle_all-Waits fuel [] c e w = refl
  handle_all-Waits fuel (d ∷ ds) c e w =
      rw
        (
          handle_event_tx fuel (new_data_ind c.conn_type d) c e,
          handle_data-Waits fuel (new_data_ind c.conn_type d) c e w,
        )
        (handle_all-Waits fuel ds c e w)

  pub handle_data-free :
      (fuel : ℕ) (d : PiVisionData) (c : Connection) (e : Env World)
      → may_send c ≡ true
      → c.is_in_same_process ≡ false
      → handle_data os fuel (new_data_ind c.conn_type d) c e
        ≡ send os fuel d (record c { received_ack = false }) e
  unfolding handle_data
  handle_data-free fuel d c e free other =
      if_true (may_send c) _ _ free
      ∙ if_true (same_type c.conn_type c.conn_type) _ _ (same_type_refl c.conn_type)
      ∙ if_false c.is_in_same_process _ _ other

  -- Of a sequence of data events, a connection that may send, to a peer in another process, sends the
  -- first, with its size in front, and passes over the others: it waits for the acknowledgement. The
  -- socket must have no error and take at least one byte with each call, and acknowledgements must be
  -- enabled.
  pub handle_all-first :
      (fuel : ℕ) (d : PiVisionData) (ds : List PiVisionData) (c : Connection) (e : Env World)
      → Takes os c.socket_fd
      → may_send c ≡ true
      → c.is_in_same_process ≡ false
      → c.ack_enabled ≡ true
      → 4 < fuel
      → get_size d < fuel
      → Returns
          (λ (c', e').
            (c' ≡ record c { received_ack = false })
            × (e'.calls ≡ e.calls)
            × (os.stream c.socket_fd e'.world ≡ os.stream c.socket_fd e.world ++ framed d.buf))
          (handle_all fuel (d ∷ ds) c e)
  unfolding handle_all
  handle_all-first fuel d ds c e t free other on four room =
      let w = record c { received_ack = false } in
      let ((c1, e1), sent, (same, calls, st)) =
        Returns→ok (Wrote os w e (framed d.buf)) (send os fuel d w e)
          (send-Wrote os fuel d w e t four room) in
      let one =
        handle_event_tx fuel (new_data_ind c.conn_type d) c e
        ∙ handle_data-free fuel d c e free other
        ∙ sent
        ∙ ap (λ k. ok (k, e1)) same in
      rw (one, handle_all-Waits fuel ds w e1 (refl, on, other)) (refl, calls, st)

  -- The acknowledgement of a peer lets the next data message out, whatever happened to the last one.
  pub take_message-ack :
      (fuel : ℕ) (c : Connection) (e : Env World)
      → take_message os fuel 4 ack_msg_buf c e
        ≡ ok (record c { received_ack = true; ack_enabled = true }, e)
  unfolding take_message ack_msg_buf le32
  take_message-ack fuel c e = refl

  -- The number of its process, which a client sends once, before its first heartbeat.
  abbrev pub announces : Connection → Bool
  announces c = not c.sent_pid && same_type c.conn_type pivision_client

  abbrev pub announced : Connection → Connection
  announced c = if announces c then record c { sent_pid = true } else c

  abbrev pub announcement : Connection → World → List ℕ
  announcement c w = if announces c then framed (pid_msg_buf (os.getpid w)).buf else []

  -- What was written behind what was there, by a connection on the same socket that is still active.
  abbrev Beats : Connection → Env World → List ℕ → Connection × Env World → Type 0
  Beats c e bytes (c', e') =
      (c' ≡ announced c)
      × (c'.socket_fd ≡ c.socket_fd)
      × (e'.calls ≡ e.calls)
      × (os.stream c.socket_fd e'.world ≡ os.stream c.socket_fd e.world ++ bytes)

  send_pid-Beats :
      (fuel : ℕ) (c : Connection) (e : Env World)
      → Takes os c.socket_fd
      → 8 < fuel
      → Returns (Beats c e (announcement c e.world)) (send_pid os fuel c e)
  unfolding send_pid pid_msg_buf le32
  send_pid-Beats fuel c e t room = on_first (announces c)
    where
      on_first :
          (b : Bool)
          → Returns
              (λ (c', e').
                (c' ≡ (if b then record c { sent_pid = true } else c))
                × (c'.socket_fd ≡ c.socket_fd)
                × (e'.calls ≡ e.calls)
                × (os.stream c.socket_fd e'.world
                    ≡ os.stream c.socket_fd e.world
                      ++ (if b then framed (pid_msg_buf (os.getpid e.world)).buf else [])))
              (if b
                then send os fuel (pid_msg_buf (os.getpid e.world)) (record c { sent_pid = true }) e
                else ok (c, e))
      on_first true =
          Returns-mono
            (Wrote os (record c { sent_pid = true }) e
              (framed (pid_msg_buf (os.getpid e.world)).buf))
            _ _ (λ r (same, calls, st). (same, ap (λ k. k.socket_fd) same, calls, st))
            (send-Wrote os fuel (pid_msg_buf (os.getpid e.world)) (record c { sent_pid = true }) e t
              (omega arith) room)
      on_first false = (refl, refl, refl, sym (append-nil (os.stream c.socket_fd e.world)))

  send_heartbeat-Wrote :
      (fuel : ℕ) (c : Connection) (e : Env World)
      → Takes os c.socket_fd
      → 4 < fuel
      → Returns (Wrote os c e (framed heartbeat_msg_buf.buf)) (send os fuel heartbeat_msg_buf c e)
  unfolding heartbeat_msg_buf le32
  send_heartbeat-Wrote fuel c e t four = send-Wrote os fuel heartbeat_msg_buf c e t four four

  handle_heartbeat-sends :
      (fuel : ℕ) (c c1 c2 : Connection) (e e1 e2 : Env World)
      → heartbeat_timeout ≢ tx_event c
      → c.active ≡ true
      → send_pid os fuel c e ≡ ok (c1, e1)
      → send os fuel heartbeat_msg_buf c1 e1 ≡ ok (c2, e2)
      → handle_event os fuel heartbeat_timeout (hb_timeout c.socket_fd) c e
        ≡ ok (
          c2,
          call (raise_event_in heartbeat_timeout (hb_timeout c.socket_fd) heartbeat_periodicity) e2,
        )
  unfolding handle_event handle_heartbeat
  handle_heartbeat-sends fuel c c1 c2 e e1 e2 other active first beat =
      if_false (heartbeat_timeout == tx_event c) _ _ (ne→== heartbeat_timeout (tx_event c) other)
      ∙ if_true (same_int c.socket_fd c.socket_fd) _ _ (same_int_refl c.socket_fd)
      ∙ if_true c.active _ _ active
      ∙ rw (first, beat) refl

  -- At its own timeout, a connection that is active, over a socket that has no error and takes at
  -- least one byte with each call, returns with a heartbeat written, a client's first one behind the
  -- number of its process, and has asked for the next timeout in 200 milliseconds. Its service's
  -- events must have another number than the timeout.
  pub handle_heartbeat-Beats :
      (fuel : ℕ) (c : Connection) (e : Env World)
      → Takes os c.socket_fd
      → heartbeat_timeout ≢ tx_event c
      → c.active ≡ true
      → 8 < fuel
      → Returns
          (λ (c', e').
            (c' ≡ announced c)
            × (e'.calls
                ≡ e.calls
                  ++ (raise_event_in heartbeat_timeout
                        (hb_timeout c.socket_fd)
                        heartbeat_periodicity
                      ∷ []))
            × (os.stream c.socket_fd e'.world
                ≡ os.stream c.socket_fd e.world
                  ++ (announcement c e.world ++ framed heartbeat_msg_buf.buf)))
          (handle_event os fuel heartbeat_timeout (hb_timeout c.socket_fd) c e)
  handle_heartbeat-Beats fuel c e t other active room =
      let ((c1, e1), r1, (same1, at1, calls1, st1)) =
        Returns→ok (Beats c e (announcement c e.world)) (send_pid os fuel c e)
          (send_pid-Beats fuel c e t room) in
      let ((c2, e2), r2, (same2, calls2, st2)) =
        Returns→ok (Wrote os c1 e1 (framed heartbeat_msg_buf.buf))
          (send os fuel heartbeat_msg_buf c1 e1)
          (send_heartbeat-Wrote fuel c1 e1 (subst (Takes os) (sym at1) t) (omega arith)) in
      subst (Returns _) (sym (handle_heartbeat-sends fuel c c1 c2 e e1 e2 other active r1 r2)) (
        same2 ∙ same1,
        ap
            (λ cs.
              cs
              ++ (raise_event_in heartbeat_timeout (hb_timeout c.socket_fd) heartbeat_periodicity
                  ∷ []))
            (calls2 ∙ calls1),
        subst (λ fd. os.stream fd e2.world ≡ os.stream fd e1.world ++ framed heartbeat_msg_buf.buf)
              at1 st2
            ∙ ap (λ s. s ++ framed heartbeat_msg_buf.buf) st1
            ∙ append_assoc (os.stream c.socket_fd e.world) (announcement c e.world)
                (framed heartbeat_msg_buf.buf),
      )
