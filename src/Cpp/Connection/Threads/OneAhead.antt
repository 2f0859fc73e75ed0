-- ===== src/Cpp/Connection/Threads/OneAhead.antt =====
-- At most one data message is ahead of the acknowledgements, and only whole messages are written.
use mathlib.Core.List.{append_assoc, append-nil}
use pi_vision.Base.{
  ℕ, suc, ◌+◌, ◌≤◌, ◌≡◌, ◌≢◌, refl, true, List, [], ◌++◌, inl, inr, arith, Run, ok, Keeps, ap, sym,
  subst, ◌∙◌,
}
use pi_vision.Sockets.{Sockets}
use pi_vision.Cpp.Events.{EventData}
use pi_vision.Cpp.Connection.{Connection, Env, tx_event, handle_data, handle_event}
use pi_vision.Cpp.Connection.Chunks.{Takes}
use pi_vision.Cpp.Connection.Sessions.{all_framed}
use pi_vision.Cpp.Connection.Acks.{handle_event_tx}
use pi_vision.Cpp.Connection.Quiet.{Reads, Quiet, receive-Quiet}
use pi_vision.Cpp.Connection.Threads.Writes.{
  all_framed-append, Extends, DataHandled, handle_data-DataHandled, other-Extends, Acked, ack-Acked,
  take_message-Extends,
}
use pi_vision.Cpp.Connection.Threads.{
  Room, Reachable, at_start, data_written, data_passed, other_event, part_received, ack_taken,
  message_taken,
}

module _ (os : Sockets) where
  open os use {World}

  -- What holds between the steps.
  record Bounded (c0 : Connection) (e0 : Env World) (written acked : ℕ) (c : Connection)
      (e : Env World) : Type 0 where
    at : c.socket_fd ≡ c0.socket_fd
    on : c.ack_enabled ≡ true
    ahead : written ≤ acked + 1
    no_wait : c.received_ack ≡ true → written ≤ acked
    frames :
        (ms : List (List ℕ)) × (os.stream c0.socket_fd e.world
          ≡ os.stream c0.socket_fd e0.world ++ all_framed ms)

  module _ (c0 : Connection) (e0 : Env World) where
    -- What whole messages behind the stream keep of its form.
    frames-append :
        (c : Connection) (e e' : Env World) (ms : List (List ℕ))
        → c.socket_fd ≡ c0.socket_fd
        → ((ns : List (List ℕ)) × (os.stream c0.socket_fd e.world
              ≡ os.stream c0.socket_fd e0.world ++ all_framed ns))
        → os.stream c.socket_fd e'.world ≡ os.stream c.socket_fd e.world ++ all_framed ms
        → (ns : List (List ℕ)) × (os.stream c0.socket_fd e'.world
            ≡ os.stream c0.socket_fd e0.world ++ all_framed ns)
    frames-append c e e' ms at (ns, st) more = (
      ns ++ ms,
      subst (λ fd. os.stream fd e'.world ≡ os.stream fd e.world ++ all_framed ms) at more
          ∙ ap (λ s. s ++ all_framed ms) st
          ∙ append_assoc (os.stream c0.socket_fd e0.world) (all_framed ns) (all_framed ms)
          ∙ ap (λ s. os.stream c0.socket_fd e0.world ++ s) (sym (all_framed-append os ns ms)),
    )

    Extends-Bounded :
        (written acked : ℕ) (c c' : Connection) (e e' : Env World)
        → Bounded c0 e0 written acked c e
        → Extends os c e (c', e')
        → Bounded c0 e0 written acked c' e'
    Extends-Bounded written acked c c' e e' b (at, on, ack, (ms, st)) = record {
      at = at ∙ b.at;
      on = on ∙ b.on;
      ahead = b.ahead;
      no_wait = λ got. b.no_wait (sym ack ∙ got);
      frames = frames-append c e e' ms b.at b.frames st;
    }

    -- A data event that leaves the stream.
    passed-Bounded :
        (written acked : ℕ) (c c' : Connection) (e e' : Env World)
        → Bounded c0 e0 written acked c e
        → DataHandled os c e (c', e')
        → os.stream c.socket_fd e'.world ≡ os.stream c.socket_fd e.world
        → Bounded c0 e0 written acked c' e'
    passed-Bounded written acked c c' e e' b (inl (same, st)) quiet =
        Extends-Bounded written acked c c' e e' b (
          ap (λ k. k.socket_fd) same,
          ap (λ k. k.ack_enabled) same,
          ap (λ k. k.received_ack) same,
          ([], st ∙ sym (append-nil (os.stream c.socket_fd e.world))),
        )
    passed-Bounded written acked c c' e e' b (inr (free, wait, at, on, (ms, st))) quiet = record {
      at = at ∙ b.at;
      on = on ∙ b.on;
      ahead = b.ahead;
      no_wait = λ got. cc (wait, got);
      frames = frames-append c e e' ms b.at b.frames st;
    }

    -- A data event that writes.
    written-Bounded :
        (written acked : ℕ) (c c' : Connection) (e e' : Env World)
        → Bounded c0 e0 written acked c e
        → DataHandled os c e (c', e')
        → os.stream c.socket_fd e'.world ≢ os.stream c.socket_fd e.world
        → Bounded c0 e0 (suc written) acked c' e'
    written-Bounded written acked c c' e e' b (inl (same, st)) wrote = absurd (wrote st)
    written-Bounded written acked c c' e e' b (inr (free, wait, at, on, (ms, st))) wrote = record {
      at = at ∙ b.at;
      on = on ∙ b.on;
      ahead = omega (arith, b.no_wait free);
      no_wait = λ got. cc (wait, got);
      frames = frames-append c e e' ms b.at b.frames st;
    }

    Quiet-Bounded :
        (written acked : ℕ) (c c' : Connection) (e e' : Env World)
        → Bounded c0 e0 written acked c e
        → Quiet os c e (c', e')
        → Bounded c0 e0 written acked c' e'
    Quiet-Bounded written acked c c' e e' b ((off, same), st) =
        Extends-Bounded written acked c c' e e' b (
          ap (λ k. k.socket_fd) same,
          ap (λ k. k.ack_enabled) same,
          ap (λ k. k.received_ack) same,
          ([], st ∙ sym (append-nil (os.stream c.socket_fd e.world))),
        )

    Acked-Bounded :
        (written acked : ℕ) (c c' : Connection) (e e' : Env World)
        → Bounded c0 e0 written acked c e
        → Acked os c e (c', e')
        → Bounded c0 e0 written (suc acked) c' e'
    Acked-Bounded written acked c c' e e' b (same, still) = record {
      at = ap (λ k. k.socket_fd) same ∙ b.at;
      on = ap (λ k. k.ack_enabled) same;
      ahead = omega (arith, b.ahead);
      no_wait = λ got. omega (arith, b.ahead);
      frames = (b.frames.0, ap (λ k. os.stream c0.socket_fd k.world) still ∙ b.frames.1);
    }

    module _ (takes : Takes os c0.socket_fd) (reads : Reads os c0.socket_fd)
        (enabled : c0.ack_enabled ≡ true) where
      -- What a step of the code gives, from what all its values satisfy.
      value : {A : Type 0} (P : A → Type 0) (r : Run A) (a : A) → r ≡ ok a → Keeps P r → P a
      value P r a gives h = subst (Keeps P) gives h

      data_event :
          (written acked fuel : ℕ) (ptr : EventData) (c c' : Connection) (e e' : Env World)
          → Bounded c0 e0 written acked c e
          → Room fuel ptr
          → handle_event os fuel (tx_event c) ptr c e ≡ ok (c', e')
          → DataHandled os c e (c', e')
      data_event written acked fuel ptr c c' e e' b room gives =
          value (DataHandled os c e) (handle_data os fuel ptr c e) (c', e')
            (sym (handle_event_tx os fuel ptr c e) ∙ gives)
            (handle_data-DataHandled os fuel ptr c e (subst (Takes os) (sym b.at) takes) room b.on)

      Reachable-Bounded :
          {written acked : ℕ} {c : Connection} {e : Env World}
          → Reachable os c0 e0 written acked c e
          → Bounded c0 e0 written acked c e
      Reachable-Bounded at_start = record {
        at = refl;
        on = enabled;
        ahead = omega arith;
        no_wait = λ got. omega arith;
        frames = ([], sym (append-nil (os.stream c0.socket_fd e0.world)));
      }
      Reachable-Bounded
            (data_written {written} {acked} {c} {c'} {e} {e'} fuel ptr steps room gives wrote) =
          let b = Reachable-Bounded steps in
          written-Bounded written acked c c' e e' b
            (data_event written acked fuel ptr c c' e e' b room gives) wrote
      Reachable-Bounded
            (data_passed {written} {acked} {c} {c'} {e} {e'} fuel ptr steps room gives quiet) =
          let b = Reachable-Bounded steps in
          passed-Bounded written acked c c' e e' b
            (data_event written acked fuel ptr c c' e e' b room gives) quiet
      Reachable-Bounded
            (other_event {written} {acked} {c} {c'} {e} {e'} fuel event_no ptr steps room other
              gives) =
          let b = Reachable-Bounded steps in
          Extends-Bounded written acked c c' e e' b (
            value (Extends os c e) _ (c', e') gives
              (other-Extends os fuel event_no ptr c e (subst (Takes os) (sym b.at) takes)
                room.protocol other))
      Reachable-Bounded
            (part_received {written} {acked} {c} {c'} {e} {e'} fuel total d d' steps gives) =
          let b = Reachable-Bounded steps in
          Quiet-Bounded written acked c c' e e' b (
            value (λ (d1, c1, e1). Quiet os c e (c1, e1)) _ (d', c', e') gives
              (receive-Quiet os fuel total d c e (subst (Reads os) (sym b.at) reads)))
      Reachable-Bounded
            (ack_taken {written} {acked} {c} {c'} {e} {e'} fuel n d steps room ack gives) =
          Acked-Bounded written acked c c' e e' (Reachable-Bounded steps)
            (value (Acked os c e) _ (c', e') gives (ack-Acked os fuel n d c e ack))
      Reachable-Bounded
            (message_taken {written} {acked} {c} {c'} {e} {e'} fuel n d steps room no_ack gives) =
          let b = Reachable-Bounded steps in
          Extends-Bounded written acked c c' e e' b (
            value (Extends os c e) _ (c', e') gives
              (take_message-Extends os fuel n d c e (subst (Takes os) (sym b.at) takes) room
                no_ack))

      -- However the two threads of a connection take turns, the data messages that it has written are
      -- at most one more than the acknowledgements that it has taken, and what it has written to its
      -- socket since the start is a sequence of whole messages, each behind its size. The socket must
      -- have no error and take at least one byte with each call of `send`, `recv` must write nothing to
      -- it, acknowledgements must be enabled at the start, and the loops must have fuel for the
      -- messages of the protocol and the data of the events.
      pub Reachable-OneAhead :
          {written acked : ℕ} {c : Connection} {e : Env World}
          → Reachable os c0 e0 written acked c e
          → (written ≤ acked + 1)
            × ((ms : List (List ℕ)) × (os.stream c0.socket_fd e.world
                  ≡ os.stream c0.socket_fd e0.world ++ all_framed ms))
      Reachable-OneAhead steps = let b = Reachable-Bounded steps in (b.ahead, b.frames)
