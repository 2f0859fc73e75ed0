-- ===== src/Server.antt =====
-- C/src/PiVisServer.c and C/inc/PiVisServer.h: the published services, their sockets, and what is
-- sent to and received from the connected client of each.
pub mod Setup
pub mod Send
pub mod Poll
pub mod Pass
pub mod Discovery
mod Tests
use pi_vision.Base.{
  ℕ, zero, suc, ◌+◌, ◌≡◌, refl, Bool, true, false, Option, none, some, List, [], ◌∷◌, ◌++◌, arith,
  ltb, ◌==◌, if◌then◌else◌, length, take, drop, ℤ, pos, negsuc, minus_one, Run, ok, fault,
  out_of_fuel, ◌>>=◌, blit, slice,
}
use pi_vision.Constants.{invalid_32_bit_int, ip_address_length}
use pi_vision.Chain.{Ptr, null, Store, Link, write, load, for_each}
use pi_vision.Decimal.{atoi}
use pi_vision.Sockets.{SockaddrIn, Sockets, so_rcvtimeo, Received, failed, received}

-- `PiVisServerContext`, with the fields of its `serverContext`
pub record ServerContext : Type 0 where
  pub served_port_no : ℕ
  pub service_discovery_port_no : ℕ
  pub connected : ℕ
  pub server_socket : ℤ
  pub service_discovery_socket : ℤ
  pub client_socket : ℤ
  pub next : Ptr

-- What is seen of a context is all of it but its `next`.
abbrev pub context_link : Link ServerContext ServerContext
context_link = record {
  next = λ c. c.next;
  set_next = λ p c. record c { next = p };
  view = λ c. record c { next = null };
  next-set_next = λ p c. refl;
  view-set_next = λ p c. refl;
}

-- The statics of the file, and the contexts that the services own.
pub record Server : Type 0 where
  pub contexts : Store ServerContext
  pub connections : Ptr
  pub own_ip_address : List ℕ
  pub addr : SockaddrIn

-- strlen("WHERE_IS_")
abbrev pub header_length : ℕ
header_length = 9

-- sizeof(messageBuf)
abbrev pub message_buf_size : ℕ
message_buf_size = 50

-- if(-1 < sendResponse) { sentBytes += sendResponse; }
abbrev pub sent_after : ℤ → ℕ → ℕ
sent_after (pos n) sent = sent + n
sent_after (negsuc n) sent = sent

module _ (os : Sockets) where
  open os use {World}

  -- The body of the loop of `handleNewConnections`.
  unfoldable pub accept_connection : ServerContext → World → Run (ServerContext × World)
  accept_connection c w =
      let (ready, w1) = os.readable c.server_socket w in
      let (client, w2) = os.accept c.server_socket w1 in
      let (_, w3) = os.setsockopt client (so_rcvtimeo 0 1) w2 in
      if ready then ok (record c { client_socket = client; connected = 1 }, w3) else ok (c, w1)

  unfoldable pub handle_new_connections : ℕ → Server → World → Run (Server × World)
  handle_new_connections fuel s w =
      for_each context_link accept_connection fuel s.contexts s.connections w >>= λ (contexts, w').
      ok (record s { contexts = contexts }, w')

  -- What is done with a request: the NUL behind it, the port number behind the header, the answer.
  unfoldable pub answer_request : List ℕ → ServerContext → List ℕ → SockaddrIn → World → Run World
  answer_request own_ip_address c bytes addr w =
      if ltb header_length (length bytes)
      then (if ltb (length bytes) message_buf_size
          then (if c.served_port_no == atoi (drop header_length bytes ++ (0 ∷ []))
              then ok (os.sendto c.service_discovery_socket own_ip_address addr w).1
              else ok w)
          else fault)
      else ok w

  -- The body of the loop of `handleNewServiceDiscoveryRequests`; `recvfrom` stores the sender.
  unfoldable pub serve_discovery :
      List ℕ → ServerContext → SockaddrIn × World → Run (ServerContext × (SockaddrIn × World))
  serve_discovery own_ip_address c (addr, w) =
      let (request, w1) = os.recvfrom c.service_discovery_socket message_buf_size w in
      if c.connected == 0
      then elim request [
        | none ↦ ok (c, (addr, w1))
        | some (bytes, sender) ↦
            answer_request own_ip_address c bytes sender w1 >>= λ w2. ok (c, (sender, w2))
      ]
      else ok (c, (addr, w))

  unfoldable pub handle_new_service_discovery_requests : ℕ → Server → World → Run (Server × World)
  handle_new_service_discovery_requests fuel s w =
      for_each context_link (serve_discovery s.own_ip_address) fuel s.contexts s.connections
        (s.addr, w)
      >>= λ (contexts, (addr, w')). ok (record s { contexts = contexts; addr = addr }, w')

  unfoldable pub run : ℕ → Server → World → Run (Server × World)
  run fuel s w = handle_new_service_discovery_requests fuel s w >>= λ (s', w').
      handle_new_connections fuel s' w'

  -- while(sentBytes < (int)size), with fuel for so many calls of `send`
  pub send_loop : ℕ → ℤ → List ℕ → ℕ → World → Run World
  send_loop zero fd buf sent_bytes w = out_of_fuel
  send_loop (suc k) fd buf sent_bytes w =
      let (response, w') = os.send fd buf w in
      let rest = send_loop k fd buf (sent_after response sent_bytes) w' in
      if ltb sent_bytes (length buf) then rest else ok w

  -- `SERVER_send(context, buf, size)`: -1 where no client has connected, or else 0. The size stands
  -- for itself as an `int`: no caller sends more than an image.
  unfoldable pub send : ℕ → Ptr → List ℕ → ℕ → Server → World → Run (ℤ × World)
  send fuel p buf size s w = load s.contexts p >>= λ c.
      if c.connected == 0
      then ok (minus_one, w)
      else (slice 0 size buf >>= λ bytes.
          send_loop fuel c.client_socket bytes 0 w >>= λ w'. ok (pos 0, w'))

  -- `SERVER_receive(context, buf, bufSize)`: -1 where no client has connected, or what `recv` does.
  unfoldable pub receive : Ptr → ℕ → Server → World → Run (Received × World)
  receive p buf_size s w = load s.contexts p >>= λ c.
      if c.connected == 0 then ok (failed, w) else ok (os.recv c.client_socket buf_size w)
