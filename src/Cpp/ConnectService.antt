-- ===== src/Cpp/ConnectService.antt =====
-- C++/src/pivision_ethtermconnectservice.cpp: the job that looks for a service and connects to it. A
-- wait for the condition variable is the handling of the events that are delivered during it.
pub mod Attempts
use pi_vision.Base.{
  ℕ, zero, suc, ◌+◌, Bool, true, false, Option, none, some, List, [], ◌∷◌, ◌++◌, ltb, ◌==◌,
  if◌then◌else◌, length, ℤ, pos, negsuc, is_minus_one, is_negative, minus_one, Run, ok, exit, fault,
  out_of_fuel, ◌>>=◌, u16,
}
use pi_vision.Constants.{text, ip_address_length}
use pi_vision.Decimal.{decimal, c_string}
use pi_vision.Sockets.{
  SockaddrIn, Sockets, Received, failed, received, so_rcvtimeo, af_inet, sock_dgram,
}
use pi_vision.Client.{connect_first}
use pi_vision.Cpp.Events.{
  PiVisionServiceStatus, service_connected, service_disconnected, service_not_found, EventData,
  service_discovery_timeout, connection_status_ind, as_service_discovery_timeout,
  event_service_discovery_timeout, event_service_status_ind, Call, subscribe_to_event,
  unsubscribe_to_event, raise_event, raise_event_in,
}
use pi_vision.Cpp.Connection.{Env, call}

-- The members that are not constant, and the service's number.
pub record ConnectService : Type 0 where
  pub service_no : ℕ
  pub num_attempts : ℕ
  pub service_discovery_socket : ℤ
  pub server_address : List ℕ
  pub service_found : Bool
  pub socket_fd : ℤ

abbrev pub service_discovery_header : List ℕ
service_discovery_header = text "WHERE_IS_"

-- What `FindService` sends, and where: the port is a `uint16_t`.
abbrev pub service_discover_string : ℕ → List ℕ
service_discover_string service_no = service_discovery_header ++ decimal service_no

abbrev pub multicast_address : ℕ → SockaddrIn
multicast_address service_no = record { sin_addr = 0xe0010101; sin_port = u16 service_no }

abbrev pub max_num_attempts : ℕ
max_num_attempts = 5

-- What `FindService` does with an answer: the NUL goes behind it, into an array of 16 bytes.
unfoldable pub take_answer : Received → ConnectService → Run ConnectService
take_answer failed c = ok c
take_answer (received bytes) c =
    if length bytes == 0
    then ok c
    else (if ltb (length bytes) ip_address_length
        then ok (record c { server_address = c_string bytes; service_found = true })
        else fault)

-- How the end of `Execute` tells what became of the connection, with the descriptor or -1.
abbrev pub connect_status : ℤ → PiVisionServiceStatus
connect_status fd = if is_minus_one fd then service_disconnected else service_connected

-- Whether an event notifies the condition variable.
unfoldable pub handle_event : ℕ → EventData → ConnectService → Run Bool
handle_event event_no ptr c =
    if event_no == event_service_discovery_timeout
    then (as_service_discovery_timeout ptr >>= λ n. ok (n == c.service_no))
    else ok false

-- `timeoutNotification.wait`: events are delivered to the object until one notifies. The job is blocked
-- where none does.
pub wait : ConnectService → List (ℕ × EventData) → Run (List (ℕ × EventData))
wait c [] = out_of_fuel
wait c ((event_no, ptr) ∷ more) = handle_event event_no ptr c >>= λ notified. elim notified [
  | true ↦ ok more
  | false ↦ wait c more
]

-- The wait behind an attempt that has found nothing.
unfoldable pub wait_behind : ConnectService → List (ℕ × EventData) → Run (List (ℕ × EventData))
wait_behind c deliveries = if c.service_found then ok deliveries else wait c deliveries

module _ (os : Sockets) where
  open os use {World}

  -- The constructor, and the destructor.
  unfoldable pub start : ℕ → Env World → ConnectService × Env World
  start service_no e =
      let (fd, w1) = os.socket af_inet sock_dgram 0 e.world in
      let (_, w2) = os.setsockopt fd (so_rcvtimeo 1 0) w1 in
      (
        record {
          service_no = service_no;
          num_attempts = 0;
          service_discovery_socket = fd;
          server_address = [];
          service_found = false;
          socket_fd = pos 0;
        },
        call (subscribe_to_event event_service_discovery_timeout) (record e { world = w2 }),
      )

  abbrev pub end : Env World → Env World
  end e = call (unsubscribe_to_event event_service_discovery_timeout) e

  unfoldable pub find_service : ConnectService → World → Run (ConnectService × World)
  find_service c w =
      let (sent, w1) =
        os.sendto c.service_discovery_socket (service_discover_string c.service_no)
          (multicast_address c.service_no) w in
      let (answer, w2) = os.recv c.service_discovery_socket ip_address_length w1 in
      if is_negative sent then exit 1 else take_answer answer c >>= λ c'. ok (c', w2)

  unfoldable pub connect_to_server : ConnectService → World → ℤ × World
  connect_to_server c w =
      let (found, w1) = os.getaddrinfo c.server_address (decimal c.service_no) w in
      elim found [ none ↦ (minus_one, w1) | some servinfo ↦ connect_first os servinfo w1 ]

  -- What follows an attempt: another, behind a timeout of 500 milliseconds, or the end of the loop.
  unfoldable pub after_attempt : ConnectService → Env World → ConnectService × Env World
  after_attempt c e =
      if c.service_found then (record c { num_attempts = max_num_attempts }, e) else (
        record c { num_attempts = c.num_attempts + 1 },
        call
            (raise_event_in event_service_discovery_timeout (service_discovery_timeout c.service_no)
              500)
            e,
      )

  -- while(numAttempts < maxNumAttempts), with the events that are delivered during its waits
  pub find_loop :
      ℕ → ConnectService → List (ℕ × EventData) → Env World → Run (ConnectService × Env World)
  find_loop zero c deliveries e = out_of_fuel
  find_loop (suc k) c deliveries e = elim (ltb c.num_attempts max_num_attempts) [
    | false ↦ ok (c, e)
    | true ↦ find_service c e.world >>= λ (c1, w1). wait_behind c1 deliveries >>= λ left.
        find_loop k (after_attempt c1 (record e { world = w1 })).0 left
          (after_attempt c1 (record e { world = w1 })).1
  ]

  -- The end of `Execute`: the connection, and the event that tells the status.
  unfoldable pub tell_status : ConnectService → Env World → ConnectService × Env World
  tell_status c e =
      let (fd, w1) = connect_to_server c e.world in
      if c.service_found
      then (
        record c { socket_fd = fd },
        call
            (raise_event event_service_status_ind
              (connection_status_ind (connect_status fd) c.service_no fd))
            (record e { world = w1 }),
      )
      else (
        c,
        call
            (raise_event event_service_status_ind
              (connection_status_ind service_not_found c.service_no minus_one))
            e,
      )

  unfoldable pub execute :
      ℕ → ConnectService → List (ℕ × EventData) → Env World → Run (ConnectService × Env World)
  execute fuel c deliveries e =
      find_loop fuel (record c { service_found = false }) deliveries e >>= λ (c1, e1).
      ok (tell_status c1 e1)
