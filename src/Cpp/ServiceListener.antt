-- ===== src/Cpp/ServiceListener.antt =====
-- C++/src/pivision_ethtermservicelistener.cpp: the job that makes one service known to the network: it
-- answers requests for its address, and hands new connections to jobs of their own.
pub mod Requests
use pi_vision.Base.{
  ℕ, zero, suc, Bool, true, false, Option, none, some, List, [], ◌∷◌, ◌++◌, ltb, leb, ◌==◌, ◌&&◌,
  if◌then◌else◌, length, take, drop, ℤ, pos, is_minus_one, is_negative, minus_one, Run, ok, exit,
  fault, out_of_fuel, ◌>>=◌, u16,
}
use pi_vision.Constants.{text, multicast_group}
use pi_vision.Decimal.{decimal, atoi}
use pi_vision.Sockets.{
  SockaddrIn, Sockets, so_reuseaddr, so_rcvtimeo, ip_add_membership, af_inet, sock_dgram,
}
use pi_vision.Server.{header_length, message_buf_size}
use pi_vision.Server.Setup.{same_text, find_own_address, bind_first}
use pi_vision.Cpp.Events.{
  pivision_server, connection, connections_thread_id, event_stop, Call, subscribe_to_event,
  unsubscribe_to_event, execute_job_in_group,
}
use pi_vision.Cpp.Connection.{Env, call}
use pi_vision.Cpp.Connection as Connection

pub record ServiceListener : Type 0 where
  pub service_no : ℕ
  pub active : Bool
  pub service_discovery_socket : ℤ
  pub server_socket : ℤ
  pub addr : SockaddrIn
  pub own_ip_address : List ℕ

abbrev pub header : List ℕ
header = text "WHERE_IS_"

-- `sprintf(portNoStr, "%d", serviceNo)` into six bytes; the minus sign of a number from 2 ^ 31 on only
-- makes it longer.
abbrev pub port_no_str : ℕ → Run (List ℕ)
port_no_str service_no =
    if leb (length (decimal service_no)) 5 then ok (decimal service_no) else fault

-- 0 == memcmp(header, messageBuf, sizeof(header) - 1u)
abbrev pub is_service_request : List ℕ → Bool
is_service_request bytes = same_text header (take header_length bytes)

-- `HandleEvent`
unfoldable pub handle_event : ℕ → ServiceListener → ServiceListener
handle_event event_no l = if event_no == event_stop then record l { active = false } else l

-- The events of another thread that are handled before a round.
pub handle_events : List ℕ → ServiceListener → ServiceListener
handle_events [] l = l
handle_events (event_no ∷ more) l = handle_events more (handle_event event_no l)

module _ (os : Sockets) where
  open os use {World}

  -- The constructor; what is in the arrays before anything is written to them is not known.
  unfoldable pub start :
      (own_ip_address : List ℕ) (addr : SockaddrIn)
      → ℕ
      → Env World
      → Run (ServiceListener × Env World)
  start own_ip_address addr service_no e =
      find_own_address (os.getifaddrs e.world) own_ip_address >>= λ own. ok (
        record {
          service_no = service_no;
          active = true;
          service_discovery_socket = minus_one;
          server_socket = minus_one;
          addr = addr;
          own_ip_address = own;
        },
        call (subscribe_to_event event_stop) e,
      )

  abbrev pub end : Env World → Env World
  end e = call (unsubscribe_to_event event_stop) e

  unfoldable pub initiate_service_discovery_socket :
      ServiceListener → World → Run (ServiceListener × World)
  initiate_service_discovery_socket l w =
      let (fd, w1) = os.socket af_inet sock_dgram 0 w in
      let (reuse, w2) = os.setsockopt fd so_reuseaddr w1 in
      let addr : SockaddrIn = record { sin_addr = 0; sin_port = u16 l.service_no } in
      let (bound, w3) = os.bind fd addr w2 in
      let (member, w4) = os.setsockopt fd (ip_add_membership multicast_group) w3 in
      let (_, w5) = os.setsockopt fd (so_rcvtimeo 0 1) w4 in
      if is_negative reuse
      then exit 1
      else (if is_negative bound
          then exit 1
          else (if Connection.same_int member (pos 0)
              then ok (record l { service_discovery_socket = fd; addr = addr }, w5)
              else exit 1))

  -- The end of `initiateServerSocketFd`.
  unfoldable pub listen_on : ℤ → World → Run World
  listen_on fd w =
      let (listening, w1) = os.listen fd 10 w in
      if is_minus_one listening then exit 1 else ok (os.setsockopt fd (so_rcvtimeo 0 500000) w1).1

  unfoldable pub initiate_server_socket_fd : ServiceListener → World → Run (ServiceListener × World)
  initiate_server_socket_fd l w = port_no_str l.service_no >>= λ port.
      (let (found, w1) = os.getaddrinfo [] port w in
        elim found [
          | none ↦ exit 1
          | some servinfo ↦ bind_first os servinfo l.server_socket w1 >>= λ (bound, fd, w2).
              if bound
              then (listen_on fd w2 >>= λ w3. ok (record l { server_socket = fd }, w3))
              else exit 1
        ])

  -- The answer to a request for a port: to its sender, where the port is the service's.
  abbrev pub answer : ServiceListener → ℕ → SockaddrIn → World → World
  answer l port_no sender w =
      if l.service_no == port_no
      then (os.sendto l.service_discovery_socket l.own_ip_address sender w).1
      else w

  -- What follows `recvfrom`: `messageBuf[bytesReceived] = '\\0'` is behind the buffer where the message
  -- fills it, and in front of it where there is none, as after every timeout; other data is followed
  -- by another call.
  unfoldable pub take_request :
      (ServiceListener → World → Run (ServiceListener × World))
      → ServiceListener
      → Option (List ℕ × SockaddrIn) × World
      → Run (ServiceListener × World)
  take_request again l (none, w) = fault
  take_request again l (some (bytes, sender), w) =
      if ltb (length bytes) message_buf_size
      then (if ltb header_length (length bytes)
          then (if is_service_request bytes
              then ok (
                record l { addr = sender },
                answer l (atoi (drop header_length bytes ++ (0 ∷ []))) sender w,
              )
              else again (record l { addr = sender }) w)
          else ok (record l { addr = sender }, w))
      else fault

  pub handle_new_service_discovery_requests :
      ℕ → ServiceListener → World → Run (ServiceListener × World)
  unfolding take_request
  handle_new_service_discovery_requests zero l w = out_of_fuel
  handle_new_service_discovery_requests (suc k) l w =
      take_request (λ l' w'. handle_new_service_discovery_requests k l' w') l
        (os.recvfrom l.service_discovery_socket message_buf_size w)

  -- A connection is handed to a job of its own, also where `accept` has failed.
  unfoldable pub handle_new_connections : ServiceListener → Env World → Env World
  handle_new_connections l e =
      let (ready, w1) = os.readable l.server_socket e.world in
      let (client, w2) = os.accept l.server_socket w1 in
      let (_, w3) = os.setsockopt client (so_rcvtimeo 0 500000) w2 in
      let (c, e1) =
        Connection.start pivision_server l.service_no client (record e { world = w3 }) in
      if ready
      then call
          (execute_job_in_group (connection pivision_server l.service_no client)
            connections_thread_id)
          e1
      else record e { world = w1 }

  -- while(active), for as many rounds as there are lists of events that another thread handles
  -- before them
  pub while_active :
      ℕ → List (List ℕ) → ServiceListener → Env World → Run (ServiceListener × Env World)
  while_active fuel [] l e = out_of_fuel
  while_active fuel (events ∷ more) l e = elim ((handle_events events l).active) [
    | false ↦ ok (handle_events events l, e)
    | true ↦
        handle_new_service_discovery_requests fuel (handle_events events l) e.world >>= λ (l1, w1).
        while_active fuel more l1 (handle_new_connections l1 (record e { world = w1 }))
  ]

  unfoldable pub execute :
      ℕ → List (List ℕ) → ServiceListener → Env World → Run (ServiceListener × Env World)
  execute fuel rounds l e = initiate_service_discovery_socket l e.world >>= λ (l1, w1).
      initiate_server_socket_fd l1 w1 >>= λ (l2, w2).
      while_active fuel rounds l2 (record e { world = w2 })
