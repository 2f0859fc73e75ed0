-- ===== src/Cpp/Connection.antt =====
-- C++/src/pivision_ethtermconnection.cpp: one connection, which two threads serve: one receives
-- messages, the other handles the dispatcher's events.
pub mod Chunks
pub mod Fails
pub mod Receives
pub mod Messages
pub mod Acks
pub mod Keeps
pub mod Sessions
pub mod Quiet
pub mod Raises
pub mod Reception
pub mod Threads
mod Tests
use pi_vision.Base.{
  ℕ, zero, suc, ◌+◌, ◌*◌, ◌-◌, ◌/◌, ◌%◌, ◌^◌, Bool, true, false, not, ◌&&◌, ◌||◌, List, [], ◌∷◌,
  ◌++◌, ltb, leb, ◌==◌, if◌then◌else◌, length, get_or, take, drop, ℤ, pos, negsuc, Run, ok, fault,
  out_of_fuel, ◌>>=◌, u32,
}
use pi_vision.ImageDataTl.{le32}
use pi_vision.Sockets.{Sockets, Received, failed, received}
use pi_vision.Cpp.Events.{
  PiVisionData, new_data, get_size, append, get_element_at, service_disconnected,
  PiVisionConnectionType, pivision_server, pivision_client, EventData, connection_status_ind,
  new_data_ind, hb_timeout, as_new_data_ind, as_hb_timeout, event_stop, event_service_status_ind,
  Call, subscribe_to_event, unsubscribe_to_event, raise_event, raise_event_in,
}

abbrev pub heartbeat_timeout : ℕ
heartbeat_timeout = 0xBEA1BEA1

abbrev pub heartbeat_periodicity : ℕ
heartbeat_periodicity = 200

abbrev pub max_chunk_size : ℕ
max_chunk_size = 4096

-- MAX_SEND_ATTEMPTS and MAX_RECEIVE_ATTEMPTS
abbrev pub max_attempts : ℕ
max_attempts = 10

-- A buffer that is filled byte by byte with the little-endian bytes of a number.
abbrev pub filled : List ℕ → PiVisionData
filled bytes = record { capacity = length bytes; buf = bytes }

abbrev pub ack_msg : ℕ
ack_msg = 0xDEADBEEF

abbrev pub heartbeat_msg : ℕ
heartbeat_msg = 0xBEA1BEA1

abbrev pub pid_msg : ℕ
pid_msg = 0x61D61D61

unfoldable pub ack_msg_buf : PiVisionData
ack_msg_buf = filled (le32 ack_msg)

unfoldable pub heartbeat_msg_buf : PiVisionData
heartbeat_msg_buf = filled (le32 heartbeat_msg)

unfoldable pub pid_msg_buf : ℕ → PiVisionData
pid_msg_buf own_pid = filled (le32 pid_msg ++ le32 own_pid)

-- The members that are not constant, and the three that the constructor is given.
pub record Connection : Type 0 where
  pub conn_type : PiVisionConnectionType
  pub service_no : ℕ
  pub socket_fd : ℤ
  pub active : Bool
  pub received_ack : Bool
  pub ack_enabled : Bool
  pub last_heartbeat_received : Bool
  pub is_in_same_process : Bool
  pub sent_pid : Bool

-- The world, and the calls of the job dispatcher so far.
pub record Env (W : Type 0) : Type 0 where
  pub world : W
  pub calls : List Call

abbrev pub tx_event : Connection → ℕ
tx_event c = u32 (c.service_no + 1)

abbrev pub call : {W : Type 0} → Call → Env W → Env W
call x e = record e { calls = e.calls ++ (x ∷ []) }

-- `UnsubscribeToEvent(serviceNo + 1, this); active = false;`
abbrev pub give_up : {W : Type 0} → Connection → Env W → Connection × Env W
give_up c e = (record c { active = false }, call (unsubscribe_to_event (tx_event c)) e)

abbrev pub next_size : ℕ → ℕ
next_size missing = if ltb max_chunk_size missing then max_chunk_size else missing

abbrev pub chunk_bytes : Received → List ℕ
chunk_bytes failed = []
chunk_bytes (received bytes) = bytes

-- The constructor.
unfoldable pub start : {W : Type 0} → PiVisionConnectionType → ℕ → ℤ → Env W → Connection × Env W
start conn_type service_no socket_fd e = (
  record {
    conn_type = conn_type;
    service_no = service_no;
    socket_fd = socket_fd;
    active = true;
    received_ack = true;
    ack_enabled = true;
    last_heartbeat_received = false;
    is_in_same_process = false;
    sent_pid = false;
  },
  call (raise_event_in heartbeat_timeout (hb_timeout socket_fd) heartbeat_periodicity) (
      call (subscribe_to_event event_stop) (
        call (subscribe_to_event heartbeat_timeout)
          (call (subscribe_to_event (u32 (service_no + 1))) e))),
)

-- Whether a payload starts with the four bytes of a message.
abbrev pub is_message : ℕ → PiVisionData → PiVisionData → Bool
is_message payload_length message d =
    leb 4 payload_length
    && ((get_element_at d 0 == get_element_at message 0)
        && ((get_element_at d 1 == get_element_at message 1)
            && ((get_element_at d 2 == get_element_at message 2)
                && (get_element_at d 3 == get_element_at message 3))))

-- The number that the bytes from an index on stand for; shifted bytes do not overlap.
abbrev pub number_at : ℕ → PiVisionData → ℕ
number_at i d =
    get_element_at d i
    + 256 * get_element_at d (i + 1)
    + 65536 * get_element_at d (i + 2)
    + 16777216 * get_element_at d (i + 3)

-- if((receivedAck) || (!ackEnabled) || (isInSameProcess))
abbrev pub may_send : Connection → Bool
may_send c = c.received_ack || (not c.ack_enabled || c.is_in_same_process)

abbrev pub same_type : PiVisionConnectionType → PiVisionConnectionType → Bool
same_type pivision_server pivision_server = true
same_type pivision_client pivision_client = true
same_type _ _ = false

abbrev pub same_int : ℤ → ℤ → Bool
same_int (pos m) (pos n) = m == n
same_int (negsuc m) (negsuc n) = m == n
same_int _ _ = false

-- The destructor, which waits for the last heartbeat before its last call.
abbrev pub end : {W : Type 0} → Connection → Env W → Env W
end c e =
    call (unsubscribe_to_event heartbeat_timeout)
      (call (unsubscribe_to_event event_stop) (call (unsubscribe_to_event (tx_event c)) e))

module _ (os : Sockets) where
  open os use {World}

  -- One chunk of `Receive`: nothing where the socket has an error, which ends the connection.
  unfoldable pub receive_chunk : ℕ → Connection → Env World → List ℕ × Connection × Env World
  receive_chunk missing c e =
      let (error, w1) = os.so_error c.socket_fd e.world in
      let (got, w2) = os.recv c.socket_fd (next_size missing) w1 in
      let (c1, e1) = give_up c (record e { world = w1 }) in
      if error == 0 then (chunk_bytes got, c, record e { world = w2 }) else ([], c1, e1)

  -- What follows a chunk: the next, from the first attempt on, or another attempt, or the end.
  -- `numBytesReceived` is an `int32_t`, whose overflow is a fault.
  unfoldable pub next_receive :
      (ℕ → ℕ → PiVisionData → Connection → Env World → Run (PiVisionData × Connection × Env World))
      → ℕ
      → ℕ
      → PiVisionData
      → List ℕ × Connection × Env World
      → Run (PiVisionData × Connection × Env World)
  next_receive again attempts n d ([], c, e) = elim (c.active) [
    | false ↦ ok (d, c, e)
    | true ↦ elim (ltb max_attempts (attempts + 1)) [
      | true ↦ (let (c1, e1) = give_up c e in ok (d, c1, e1))
      | false ↦ again (attempts + 1) n d c e
    ]
  ]
  next_receive again attempts n d (b ∷ bs, c, e) = elim (ltb (n + length (b ∷ bs)) (2 ^ 31)) [
    | true ↦ append (b ∷ bs) d >>= λ (d', _). again 0 (n + length (b ∷ bs)) d' c e
    | false ↦ fault
  ]

  -- `Receive(numBytesToGet, dataBuf)`, with the attempts and the bytes so far.
  pub receive_loop :
      ℕ
      → (attempts received_bytes num_bytes_to_get : ℕ) → PiVisionData
      → Connection
      → Env World
      → Run (PiVisionData × Connection × Env World)
  unfolding next_receive
  receive_loop zero attempts n total d c e = out_of_fuel
  receive_loop (suc k) attempts n total d c e = elim (ltb n total) [
    | false ↦ ok (d, c, e)
    | true ↦
        next_receive (λ attempts1 m d1 c1 e1. receive_loop k attempts1 m total d1 c1 e1) attempts n
          d (receive_chunk (total - n) c e)
  ]

  pub receive :
      ℕ → ℕ → PiVisionData → Connection → Env World → Run (PiVisionData × Connection × Env World)
  receive fuel num_bytes_to_get d c e = receive_loop fuel 0 0 num_bytes_to_get d c e

  -- One chunk of `SendPayload`: the bytes that were taken, or `none`, and the attempts.
  unfoldable pub send_chunk :
      (attempts : ℕ) → List ℕ → Connection → Env World → ℤ × ℕ × Connection × Env World
  send_chunk attempts chunk c e =
      let (error, w1) = os.so_error c.socket_fd e.world in
      let (sent, w2) = os.send c.socket_fd chunk w1 in
      let (c1, e1) = give_up c (record e { world = w1 }) in
      if error == 0
      then (sent, attempts + 1, c, record e { world = w2 })
      else (negsuc 0, attempts, c1, e1)

  -- What follows a chunk: the next, from the first attempt on, or another attempt, or the end.
  unfoldable pub next_send :
      (ℕ → ℕ → Connection → Env World → Run (Connection × Env World))
      → ℕ
      → ℤ × ℕ × Connection × Env World
      → Run (Connection × Env World)
  next_send again n (pos m, attempts, c, e) = again 0 (n + m) c e
  next_send again n (negsuc m, attempts, c, e) = elim (ltb max_attempts attempts) [
    | true ↦ ok (give_up c e)
    | false ↦ again attempts n c e
  ]

  -- `SendPayload(dataBuf)`, with the attempts and the bytes so far.
  pub send_loop :
      ℕ → (attempts sent : ℕ) → List ℕ → Connection → Env World → Run (Connection × Env World)
  unfolding next_send
  send_loop zero attempts n buf c e = out_of_fuel
  send_loop (suc k) attempts n buf c e = elim (ltb n (length buf)) [
    | false ↦ ok (c, e)
    | true ↦
        next_send (λ attempts1 m c1 e1. send_loop k attempts1 m buf c1 e1) n
          (send_chunk attempts (take (next_size (length buf - n)) (drop n buf)) c e)
  ]

  abbrev pub send_payload : ℕ → List ℕ → Connection → Env World → Run (Connection × Env World)
  send_payload fuel buf c e = send_loop fuel 0 0 buf c e

  abbrev pub send_header : ℕ → PiVisionData → Connection → Env World → Run (Connection × Env World)
  send_header fuel d c e = send_payload fuel (le32 (get_size d)) c e

  -- The mutex makes `Send` one step.
  pub send : ℕ → PiVisionData → Connection → Env World → Run (Connection × Env World)
  send fuel d c e = send_header fuel d c e >>= λ (c1, e1). send_payload fuel d.buf c1 e1

  -- if((!isAck) && (!isHeartbeat) && (!isPid)) … else if … else …
  unfoldable pub take_message :
      ℕ → ℕ → PiVisionData → Connection → Env World → Run (Connection × Env World)
  take_message fuel payload_length d c e =
      let is_ack = is_message payload_length ack_msg_buf d in
      let is_heartbeat = is_message payload_length heartbeat_msg_buf d in
      let is_pid = is_message payload_length (pid_msg_buf (os.getpid e.world)) d in
      let e1 = call (raise_event c.service_no (new_data_ind c.conn_type d)) e in
      if not is_ack && (not is_heartbeat && not is_pid)
      then (if c.ack_enabled then send fuel ack_msg_buf c e1 else ok (c, e1))
      else (if is_ack
          then ok (record c { received_ack = true; ack_enabled = true }, e)
          else (if is_pid
              then ok (record c { is_in_same_process = number_at 4 d == os.getpid e.world }, e)
              else ok (c, e)))

  -- The body of the loop of `Execute`.
  unfoldable pub receive_message : ℕ → Connection → Env World → Run (Connection × Env World)
  receive_message fuel c e = receive fuel 4 (new_data 4) c e >>= λ (header, c1, e1).
      (let payload_length = number_at 0 header in
        receive fuel payload_length (new_data payload_length) c1 e1 >>= λ (d, c2, e2).
        if ltb 0 payload_length then take_message fuel payload_length d c2 e2 else ok (c2, e2))

  pub while_active : ℕ → ℕ → Connection → Env World → Run (Connection × Env World)
  while_active fuel zero c e = out_of_fuel
  while_active fuel (suc rounds) c e = elim (c.active) [
    | false ↦ ok (c, e)
    | true ↦ receive_message fuel c e >>= λ (c1, e1). while_active fuel rounds c1 e1
  ]

  unfoldable pub execute : ℕ → ℕ → Connection → Env World → Run (Connection × Env World)
  execute fuel rounds c e = while_active fuel rounds c e >>= λ (c1, e1).
      (let e2 =
          call
            (raise_event event_service_status_ind
              (connection_status_ind service_disconnected c1.service_no (negsuc 0)))
            (call (unsubscribe_to_event (tx_event c1)) e1) in
        ok (c1, record e2 { world = os.close c1.socket_fd e2.world }))

  -- if(serviceNo + 1u == eventNo)
  unfoldable pub handle_data : ℕ → EventData → Connection → Env World → Run (Connection × Env World)
  handle_data fuel ptr c e =
      if may_send c
      then (as_new_data_ind ptr >>= λ (conn_type, contents).
          if same_type c.conn_type conn_type
          then (if c.is_in_same_process
              then ok (c, call (raise_event c.service_no ptr) e)
              else send fuel contents (record c { received_ack = false }) e)
          else ok (c, e))
      else ok (c, e)

  -- if(!sentPid && (connType == PIVISION_CLIENT))
  unfoldable pub send_pid : ℕ → Connection → Env World → Run (Connection × Env World)
  send_pid fuel c e =
      if not c.sent_pid && same_type c.conn_type pivision_client
      then send fuel (pid_msg_buf (os.getpid e.world)) (record c { sent_pid = true }) e
      else ok (c, e)

  -- if(HEARTBEAT_TIMEOUT == eventNo)
  unfoldable pub handle_heartbeat :
      ℕ → EventData → Connection → Env World → Run (Connection × Env World)
  handle_heartbeat fuel ptr c e = as_hb_timeout ptr >>= λ id.
      if same_int id c.socket_fd
      then (if c.active
          then (send_pid fuel c e >>= λ (c1, e1). send fuel heartbeat_msg_buf c1 e1 >>= λ (c2, e2).
              ok (c2, call (raise_event_in heartbeat_timeout ptr heartbeat_periodicity) e2))
          else ok (record c { last_heartbeat_received = true }, e))
      else ok (c, e)

  unfoldable pub handle_event :
      ℕ → ℕ → EventData → Connection → Env World → Run (Connection × Env World)
  handle_event fuel event_no ptr c e =
      if event_no == tx_event c
      then handle_data fuel ptr c e
      else (if event_no == heartbeat_timeout
          then handle_heartbeat fuel ptr c e
          else (if event_no == event_stop then ok (give_up c e) else ok (c, e)))
