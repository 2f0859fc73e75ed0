-- ===== src/Cpp/Connection/Reception.antt =====
-- Which events the job of a connection raises.
use pi_vision.Base.{
  ℕ, zero, suc, ◌+◌, ◌-◌, ◌^◌, true, List, [], ◌∷◌, ltb, ◌==◌, not, ◌&&◌, if◌then◌else◌, length,
  Run, ok, Keeps, Keeps-if, Keeps-bind, Keeps-bind_if, Bool-cases, inl, inr, sym, subst, minus_one,
  Halts→Keeps,
}
use pi_vision.Sockets.{Sockets}
use pi_vision.Cpp.Events.{
  PiVisionData, service_disconnected, connection_status_ind, new_data_ind, append, new_data,
  event_service_status_ind, raise_event, unsubscribe_to_event,
}
use pi_vision.Cpp.Connection.{
  Connection, Env, send, max_attempts, receive_chunk, next_receive, receive_loop, receive,
  receive_message, take_message, while_active, execute, call, tx_event, number_at, is_message,
  ack_msg_buf, heartbeat_msg_buf, pid_msg_buf,
}
use pi_vision.Cpp.Connection.Raises.{
  Told, data_event, end_event, Kept, give_up-Kept, call-Kept, send-Kept,
}

module _ (os : Sockets) (n : ℕ) where
  open os use {World}

  -- What `Receive` calls.
  abbrev Got : PiVisionData × Connection × Env World → Type 0
  Got (d, c, e) = Kept n (c, e)

  receive_chunk-Kept :
      (missing : ℕ) (c : Connection) (e : Env World)
      → Kept n (c, e)
      → Kept n ((receive_chunk os missing c e).1, (receive_chunk os missing c e).2)
  unfolding receive_chunk
  receive_chunk-Kept missing c e h = elim (Bool-cases ((os.so_error c.socket_fd e.world).0 == 0)) [
    | inl fine ↦ rw fine h
    | inr lost ↦
        rw lost (give_up-Kept n c (record e { world = (os.so_error c.socket_fd e.world).1 }) h)
  ]

  next_receive-Kept :
      (again : ℕ
        → ℕ
        → PiVisionData
        → Connection
        → Env World
        → Run (PiVisionData × Connection × Env World))
      (attempts i : ℕ) (d : PiVisionData) (bytes : List ℕ) (c : Connection) (e : Env World)
      → Kept n (c, e)
      → ((attempts1 m : ℕ) (d1 : PiVisionData) → Keeps Got (again attempts1 m d1 c e))
      → Keeps Got (next_receive os again attempts i d (bytes, c, e))
  unfolding next_receive
  next_receive-Kept again attempts i d [] c e h loop = elim (Bool-cases c.active) [
    | inr off ↦ rw (off, Keeps) h
    | inl on ↦
        rw (on, Keeps)
          (elim (Bool-cases (ltb max_attempts (attempts + 1))) [
            | inl last ↦ rw (last, Keeps) (give_up-Kept n c e h)
            | inr more ↦ rw (more, Keeps) (loop (attempts + 1) i d)
          ])
  ]
  next_receive-Kept again attempts i d (b ∷ bs) c e h loop =
      elim (Bool-cases (ltb (i + length (b ∷ bs)) (2 ^ 31))) [
        | inl fits ↦
            rw (fits, Keeps)
              (Keeps-bind Got (append (b ∷ bs) d) _ (λ (d', _). loop 0 (i + length (b ∷ bs)) d'))
        | inr over ↦ rw (over, Keeps) tt
      ]

  receive_loop-Kept :
      (k attempts i total : ℕ) (d : PiVisionData) (c : Connection) (e : Env World)
      → Kept n (c, e)
      → Keeps Got (receive_loop os k attempts i total d c e)
  unfolding receive_loop
  receive_loop-Kept zero attempts i total d c e h = tt
  receive_loop-Kept (suc k) attempts i total d c e h = elim (Bool-cases (ltb i total)) [
    | inr all ↦ rw (all, receive_loop) h
    | inl more ↦
        let (bytes, c1, e1) = receive_chunk os (total - i) c e in
        let h1 : Kept n (c1, e1) = receive_chunk-Kept (total - i) c e h in
        rw (more, receive_loop)
          (next_receive-Kept (λ a m d2 c2 e2. receive_loop os k a m total d2 c2 e2) attempts i d
            bytes c1 e1 h1 (λ a m d1. receive_loop-Kept k a m total d1 c1 e1 h1))
  ]

  receive-Kept :
      (fuel total : ℕ) (d : PiVisionData) (c : Connection) (e : Env World)
      → Kept n (c, e)
      → Keeps Got (receive os fuel total d c e)
  unfolding receive
  receive-Kept fuel total d c e h = receive_loop-Kept fuel 0 0 total d c e h

  take_message-Kept :
      (fuel payload_length : ℕ) (d : PiVisionData) (c : Connection) (e : Env World)
      → Kept n (c, e)
      → Keeps (Kept n) (take_message os fuel payload_length d c e)
  unfolding take_message
  take_message-Kept fuel payload_length d c e (own, fine) =
      let h1 : Kept n (c, call (raise_event c.service_no (new_data_ind c.conn_type d)) e) =
        call-Kept n c e c.service_no (new_data_ind c.conn_type d) (own, fine)
          (subst (λ k. Told n k (new_data_ind c.conn_type d)) (sym own)
            (data_event c.conn_type d)) in
      let told = call (raise_event c.service_no (new_data_ind c.conn_type d)) e in
      let is_ack = is_message payload_length ack_msg_buf d in
      let is_heartbeat = is_message payload_length heartbeat_msg_buf d in
      let is_pid = is_message payload_length (pid_msg_buf (os.getpid e.world)) d in
      let process : Run (Connection × Env World) =
        if is_pid
        then ok (record c { is_in_same_process = number_at 4 d == os.getpid e.world }, e)
        else ok (c, e) in
      let acks : Run (Connection × Env World) =
        if c.ack_enabled then send os fuel ack_msg_buf c told else ok (c, told) in
      let acked : Run (Connection × Env World) =
        ok (record c { received_ack = true; ack_enabled = true }, e) in
      Keeps-if (Kept n) (not is_ack && (not is_heartbeat && not is_pid)) acks
        (if is_ack then acked else process)
        (λ message.
          Keeps-if (Kept n) c.ack_enabled (send os fuel ack_msg_buf c told) (ok (c, told))
            (λ enabled.
              Halts→Keeps (Kept n) ⊥ Unit (send os fuel ack_msg_buf c told)
                (send-Kept os n fuel ack_msg_buf c told h1))
            (λ none. h1))
        (λ control.
          Keeps-if (Kept n) is_ack acked process (λ ack. (own, fine))
            (λ other.
              Keeps-if (Kept n) is_pid
                (ok (record c { is_in_same_process = number_at 4 d == os.getpid e.world }, e))
                (ok (c, e)) (λ pid. (own, fine)) (λ beat. (own, fine))))

  -- The reception of a message raises such events only, and so does the end of the connection.
  pub receive_message-Kept :
      (fuel : ℕ) (c : Connection) (e : Env World)
      → Kept n (c, e)
      → Keeps (Kept n) (receive_message os fuel c e)
  unfolding receive_message
  receive_message-Kept fuel c e h =
      Keeps-bind_if Got (Kept n) (receive os fuel 4 (new_data 4) c e) _
        (receive-Kept fuel 4 (new_data 4) c e h)
        λ (header, c1, e1) h1.
          let size = number_at 0 header in
          Keeps-bind_if Got (Kept n) (receive os fuel size (new_data size) c1 e1) _
            (receive-Kept fuel size (new_data size) c1 e1 h1)
            λ (d, c2, e2) h2.
              Keeps-if (Kept n) (ltb 0 size) (take_message os fuel size d c2 e2) (ok (c2, e2))
                (λ some. take_message-Kept fuel size d c2 e2 h2) (λ none. h2)

  while_active-Kept :
      (fuel rounds : ℕ) (c : Connection) (e : Env World)
      → Kept n (c, e)
      → Keeps (Kept n) (while_active os fuel rounds c e)
  unfolding while_active
  while_active-Kept fuel zero c e h = tt
  while_active-Kept fuel (suc rounds) c e h = elim (Bool-cases c.active) [
    | inr off ↦ rw (off, while_active) h
    | inl on ↦
        rw (on, while_active)
          (Keeps-bind_if (Kept n) (Kept n) (receive_message os fuel c e) _
            (receive_message-Kept fuel c e h) λ (c1, e1) h1. while_active-Kept fuel rounds c1 e1 h1)
  ]

  pub execute-Kept :
      (fuel rounds : ℕ) (c : Connection) (e : Env World)
      → Kept n (c, e)
      → Keeps (Kept n) (execute os fuel rounds c e)
  unfolding execute
  execute-Kept fuel rounds c e h =
      Keeps-bind_if (Kept n) (Kept n) (while_active os fuel rounds c e) _
        (while_active-Kept fuel rounds c e h)
        λ (c1, e1) (own1, fine1).
          call-Kept n c1 (call (unsubscribe_to_event (tx_event c1)) e1) event_service_status_ind
            (connection_status_ind service_disconnected c1.service_no minus_one)
            (own1, (give_up-Kept n c1 e1 (own1, fine1)).1)
            (subst
              (λ k.
                Told n event_service_status_ind
                  (connection_status_ind service_disconnected k minus_one))
              (sym own1) end_event)
