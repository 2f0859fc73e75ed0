-- ===== src/Cpp/Connection/Threads.antt =====
-- The two threads of a connection in any order: one handles the events of the dispatcher, the other
-- receives parts of messages and acts on whole ones. A step is a handling of an event, a call of
-- `Receive`, or what follows a whole message in the loop of `Execute`.
mod Writes
pub mod OneAhead
use pi_vision.Base.{ℕ, suc, zero, ◌<◌, ◌≡◌, ◌≢◌, true, false, ok}
use pi_vision.Sockets.{Sockets}
use pi_vision.Cpp.Events.{PiVisionData, PiVisionConnectionType, get_size, EventData, new_data_ind}
use pi_vision.Cpp.Connection.{
  Connection, Env, tx_event, is_message, ack_msg_buf, receive, take_message, handle_event,
}

-- Fuel for the messages of the protocol, and for the data of an event.
pub record Room (fuel : ℕ) (ptr : EventData) : Type 0 where
  pub protocol : 8 < fuel
  pub contents :
      (t : PiVisionConnectionType) (d : PiVisionData) → ptr ≡ new_data_ind t d → get_size d < fuel

module _ (os : Sockets) (c0 : Connection) (e0 : Env os.World) where
  open os use {World}

  -- What steps lead to, with the number of data events that have written to the socket, and of the
  -- acknowledgements that have been taken.
  pub data Reachable : (written acked : ℕ) → Connection → Env World → Type 0 where
    at_start : Reachable zero zero c0 e0
    data_written :
        {written acked : ℕ} {c c' : Connection} {e e' : Env World} (fuel : ℕ) (ptr : EventData)
        → Reachable written acked c e
        → Room fuel ptr
        → handle_event os fuel (tx_event c) ptr c e ≡ ok (c', e')
        → os.stream c.socket_fd e'.world ≢ os.stream c.socket_fd e.world
        → Reachable (suc written) acked c' e'
    data_passed :
        {written acked : ℕ} {c c' : Connection} {e e' : Env World} (fuel : ℕ) (ptr : EventData)
        → Reachable written acked c e
        → Room fuel ptr
        → handle_event os fuel (tx_event c) ptr c e ≡ ok (c', e')
        → os.stream c.socket_fd e'.world ≡ os.stream c.socket_fd e.world
        → Reachable written acked c' e'
    other_event :
        {written acked : ℕ} {c c' : Connection} {e e' : Env World} (fuel event_no : ℕ)
        (ptr : EventData)
        → Reachable written acked c e
        → Room fuel ptr
        → event_no ≢ tx_event c
        → handle_event os fuel event_no ptr c e ≡ ok (c', e')
        → Reachable written acked c' e'
    part_received :
        {written acked : ℕ} {c c' : Connection} {e e' : Env World} (fuel total : ℕ)
        (d d' : PiVisionData)
        → Reachable written acked c e
        → receive os fuel total d c e ≡ ok (d', c', e')
        → Reachable written acked c' e'
    ack_taken :
        {written acked : ℕ} {c c' : Connection} {e e' : Env World} (fuel n : ℕ) (d : PiVisionData)
        → Reachable written acked c e
        → 8 < fuel
        → is_message n ack_msg_buf d ≡ true
        → take_message os fuel n d c e ≡ ok (c', e')
        → Reachable written (suc acked) c' e'
    message_taken :
        {written acked : ℕ} {c c' : Connection} {e e' : Env World} (fuel n : ℕ) (d : PiVisionData)
        → Reachable written acked c e
        → 8 < fuel
        → is_message n ack_msg_buf d ≡ false
        → take_message os fuel n d c e ≡ ok (c', e')
        → Reachable written acked c' e'
