-- ===== src/Cpp/Connection/Tests.antt =====
-- Runs of a connection, over a stream that carries three bytes with each call.
use pi_vision.Base.{
  ℕ, zero, suc, ◌-◌, ◌≤◌, ◌≡◌, refl, true, false, List, [], ◌∷◌, ◌++◌, arith, leb, length, take,
  drop, take_all, drop_all, pos, minus_one, subst, Returns, Bool-cases, inl, inr, ap, sym, ◌∙◌,
}
use pi_vision.ImageDataTl.{le32}
use pi_vision.Sockets.{received}
use pi_vision.Sockets.Streams.{IsPos, Stream, streams, at_most_three}
use pi_vision.Cpp.Events.{new_data, pivision_client, raise_event_in, hb_timeout}
use pi_vision.Cpp.Connection.{
  Connection, Env, start, send, receive, receive_message, take_message, while_active, handle_event,
  heartbeat_timeout, heartbeat_periodicity, ack_msg_buf, heartbeat_msg_buf, pid_msg_buf,
}
use pi_vision.Cpp.Connection.Chunks.{Takes, Wrote, send-Wrote}
use pi_vision.Sockets.{Sockets}
use pi_vision.Cpp.Connection.Fails.{Lost, GaveUp, send_fails}
use pi_vision.Cpp.Connection.Receives.{Collected, receive-Collected}
use pi_vision.Cpp.Connection.Messages.{whole, Gives, receive_message-Whole}
use pi_vision.Cpp.Connection.Sessions.{
  Ordinary, framed, all_framed, Delivered, while_active-messages,
}
use pi_vision.Cpp.Connection.Threads.{Reachable}
use pi_vision.Cpp.Connection.Threads.OneAhead.{Reachable-OneAhead}
use pi_vision.Cpp.Events.{PiVisionData, new_data_ind, get_size, EventData}
use pi_vision.Cpp.Connection.{handle_data, send_loop, send_chunk, next_send}
use pi_vision.Cpp.Connection.Acks.{
  handle_all, handle_all-first, announced, announcement, handle_heartbeat-Beats,
}

abbrev env : List ℕ → Env Stream
env coming = record { world = record { coming = coming; written = [] }; calls = [] }

abbrev client : Connection
client = record {
  conn_type = pivision_client;
  service_no = 3380;
  socket_fd = pos 3;
  active = true;
  received_ack = true;
  ack_enabled = true;
  last_heartbeat_received = false;
  is_in_same_process = false;
  sent_pid = false;
}

client_started : (start pivision_client 3380 (pos 3) (env [])).0 ≡ client
unfolding start
client_started = refl

abbrev some_message : List ℕ
some_message = 1 ∷ 2 ∷ 3 ∷ 4 ∷ 5 ∷ []

taking : Takes streams (pos 3)
taking = record {
  no_error = λ w. refl;
  progress = λ bytes w h. (at_most_three (length bytes) - 1, ap pos (ground (arith, h)));
}

giving : Gives streams (pos 3)
giving = record {
  pending = λ w. w.coming;
  no_error = λ w. refl;
  error_keeps = λ w. refl;
  gives = λ n w room some_left. elim (Bool-cases (leb (at_most_three n) (length w.coming))) [
    | inl all ↦
        let e : at_most_three n ≡ suc (at_most_three n - 1) = ground (arith, room) in
        (
          at_most_three n - 1,
          ground (arith, room),
          ground (arith, room, all),
          ap (λ k. received (take k w.coming)) e,
          ap (λ k. drop k w.coming) e,
        )
    | inr fewer ↦
        let e : length w.coming ≡ suc (length w.coming - 1) = omega (arith, some_left) in
        let few : length w.coming ≤ at_most_three n = ground (arith, fewer) in
        (
          length w.coming - 1,
          ground (arith, room, fewer),
          omega (arith, some_left),
          ap received (
              take_all (at_most_three n) w.coming few
              ∙ sym (take_all (suc (length w.coming - 1)) w.coming (omega (arith, some_left)))),
          drop_all (at_most_three n) w.coming few
              ∙ sym (drop_all (suc (length w.coming - 1)) w.coming (omega (arith, some_left))),
        )
  ];
  send_keeps = λ bytes w. refl;
  recv_stream = λ n w. refl;
}

-- A message is written in several parts.
send-Wrote_example :
    Returns
      (Wrote streams client (env []) (le32 5 ++ some_message))
      (send streams 20 (whole some_message) client (env []))
send-Wrote_example =
    send-Wrote streams 20 (whole some_message) client (env []) taking (omega arith) (omega arith)

-- The peer has gone.
abbrev closed : Sockets
closed = record streams {
  send = λ fd bytes w. (minus_one, w);
  send-le = λ fd bytes w {n} e. absurd (subst IsPos (sym e) tt);
  send_stream = λ fd bytes w {n} e. absurd (subst IsPos (sym e) tt);
  send_failed = λ fd bytes w {n} e. refl;
}

closed-Lost : Lost closed (pos 3)
closed-Lost = record {
  fails = λ bytes w. (0, refl);
  cleared = λ w. refl;
  no_new = λ bytes w none. refl;
}

send_fails_example :
    Returns (GaveUp closed client (env [])) (send closed 13 (whole some_message) client (env []))
send_fails_example =
    send_fails closed 13 (whole some_message) client (env []) closed-Lost (omega arith)

receive-Collected_example :
    Returns (Collected streams 4) (receive streams 60 4 (new_data 4) client (env some_message))
receive-Collected_example =
    receive-Collected streams 60 4 (new_data 4) client (env some_message) refl (omega arith)
      (omega arith)

abbrev behind : List ℕ
behind = 9 ∷ 9 ∷ []

receive_message-Whole_example :
    (e' : Env Stream) × (receive_message streams 20 client
        (env (le32 5 ++ (some_message ++ behind)))
      ≡ take_message streams 20 5 (whole some_message) client e')
    × (e'.calls ≡ [])
    × (e'.world.coming ≡ behind)
    × (e'.world.written ≡ [])
unfolding giving le32
receive_message-Whole_example =
    receive_message-Whole streams client giving 20 some_message behind
      (env (le32 5 ++ (some_message ++ behind))) (omega arith) (omega arith) (omega arith)
      (omega arith) refl

ordinary : Ordinary some_message
unfolding ack_msg_buf heartbeat_msg_buf pid_msg_buf le32
ordinary = record {
  some_bytes = omega arith;
  small = omega arith;
  no_ack = refl;
  no_heartbeat = refl;
  no_pid = refl;
}

abbrev two : List (List ℕ)
two = some_message ∷ some_message ∷ []

while_active-messages_example :
    (e' : Env Stream) × (while_active streams 20 9 client (env (all_framed two ++ behind))
      ≡ while_active streams 20 7 client e')
    × Delivered streams client giving taking two behind (env (all_framed two ++ behind)) e'
unfolding giving
while_active-messages_example =
    while_active-messages streams client giving taking 20 7 two behind
      (env (all_framed two ++ behind)) (ordinary, (ordinary, tt)) (omega arith, (omega arith, tt))
      (omega arith) refl refl refl

handle_all-first_example :
    Returns
      (λ (c', e').
        (c' ≡ record client { received_ack = false })
        × (e'.calls ≡ [])
        × (e'.world.written ≡ [] ++ framed some_message))
      (handle_all streams 20
        (whole some_message ∷ whole behind ∷ whole behind ∷ [])
        client
        (env []))
handle_all-first_example =
    handle_all-first streams 20 (whole some_message) (whole behind ∷ whole behind ∷ []) client
      (env []) taking refl refl refl (omega arith) (omega arith)

handle_heartbeat-Beats_example :
    Returns
      (λ (c', e').
        (c' ≡ announced streams client)
        × (e'.calls
            ≡ []
              ++ (raise_event_in heartbeat_timeout (hb_timeout (pos 3)) heartbeat_periodicity ∷ []))
        × (e'.world.written
            ≡ [] ++ (announcement streams client (env []).world ++ framed heartbeat_msg_buf.buf)))
      (handle_event streams 20 heartbeat_timeout (hb_timeout (pos 3)) client (env []))
handle_heartbeat-Beats_example =
    handle_heartbeat-Beats streams 20 client (env []) taking (λ e. absurd (omega (arith, e))) refl
      (omega arith)

-- One message is written, and its acknowledgement is taken.
abbrev some_data : PiVisionData
some_data = record { capacity = 5; buf = some_message }

abbrev sent_one : Env Stream
sent_one = record (env []) { world = record { coming = []; written = framed some_message } }

abbrev contents_size : EventData → ℕ
contents_size (new_data_ind t d) = get_size d
contents_size _ = 0

one_written :
    Reachable streams client (env []) 1 zero (record client { received_ack = false }) sent_one
unfolding handle_event handle_data le32 send send_loop send_chunk next_send
one_written =
    Reachable.data_written 20 (new_data_ind pivision_client some_data) Reachable.at_start
      (record { protocol = omega arith; contents = λ t d e. omega (arith, ap contents_size e) })
      refl (λ e. omega (arith, ap length e))

one_acked : Reachable streams client (env []) 1 1 client sent_one
unfolding take_message ack_msg_buf le32
one_acked = Reachable.ack_taken 20 4 ack_msg_buf one_written (omega arith) refl refl

Reachable-OneAhead_example :
    (1 ≤ 2) × ((ms : List (List ℕ)) × (sent_one.world.written ≡ [] ++ all_framed ms))
Reachable-OneAhead_example =
    Reachable-OneAhead streams client (env []) taking (λ n w. refl) refl one_acked
