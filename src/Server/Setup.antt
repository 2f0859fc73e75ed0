-- ===== src/Server/Setup.antt =====
-- The set-up half of C/src/PiVisServer.c: the host's own address, the two sockets of a service, and
-- its publication.
pub mod Published
pub mod Address
use pi_vision.Base.{
  ℕ, Bool, true, false, Option, none, some, List, [], ◌∷◌, ◌++◌, ◌==◌, ◌&&◌, if◌then◌else◌, ℤ,
  is_minus_one, is_negative, ltb, length, Run, ok, exit, ◌>>=◌, blit,
}
use pi_vision.Constants.{text, invalid_32_bit_int, multicast_group, ip_address_length}
use pi_vision.Chain.{Ptr, null, write, load, append}
use pi_vision.Decimal.{decimal, c_string}
use pi_vision.Sockets.{
  SockaddrIn, Addrinfo, Sockets, so_reuseaddr, so_rcvtimeo, ip_add_membership, af_inet, sock_dgram,
}
use pi_vision.Server.{ServerContext, context_link, Server}

abbrev pub loopback : List ℕ
loopback = text "127.0.0.1"

unfoldable pub same_text : List ℕ → List ℕ → Bool
same_text [] [] = true
same_text (x ∷ xs) (y ∷ ys) = x == y && same_text xs ys
same_text _ _ = false

-- `inet_ntop` into an array of 16 bytes: a text that does not fit with its NUL is not written.
unfoldable pub inet_ntop : List ℕ → List ℕ → Run (List ℕ)
inet_ntop a address =
    if ltb (length a) ip_address_length then blit 0 (a ++ (0 ∷ [])) address else ok address

-- The walk over the interfaces: each IPv4 address is written, and the first that is not the
-- loopback's ends the search.
unfoldable pub find_own_address : List (Option (List ℕ)) → List ℕ → Run (List ℕ)
find_own_address [] address = ok address
find_own_address (none ∷ more) address = find_own_address more address
find_own_address (some a ∷ more) address = inet_ntop a address >>= λ address'.
    elim (same_text loopback (c_string address')) [
      | true ↦ find_own_address more address'
      | false ↦ ok address'
    ]

module _ (os : Sockets) where
  open os use {World}

  unfoldable pub init : Server → World → Run Server
  init s w = find_own_address (os.getifaddrs w) s.own_ip_address >>= λ address.
      ok (record s { connections = null; own_ip_address = address })

  -- The loop over the results of `getaddrinfo`: the first that gives a socket and can be bound.
  pub bind_first : List Addrinfo → ℤ → World → Run (Bool × ℤ × World)
  bind_first [] server_socket w = ok (false, server_socket, w)
  bind_first (p ∷ more) server_socket w =
      let (fd, w1) = os.socket p.ai_family p.ai_socktype p.ai_protocol w in
      let (reuse, w2) = os.setsockopt fd so_reuseaddr w1 in
      let (bound, w3) = os.bind fd p.ai_addr w2 in
      elim (is_minus_one fd) [
        | true ↦ bind_first more fd w1
        | false ↦ elim (is_minus_one reuse) [
          | true ↦ exit 1
          | false ↦ elim (is_minus_one bound) [
            | true ↦ bind_first more fd (os.close fd w3)
            | false ↦ ok (true, fd, w3)
          ]
        ]
      ]

  listen_on : ℤ → World → Run (ℤ × World)
  listen_on fd w =
      let (listening, w1) = os.listen fd 10 w in
      if is_minus_one listening
      then exit 1
      else ok (fd, (os.setsockopt fd (so_rcvtimeo 0 1000) w1).1)

  unfoldable pub initiate_server_socket_fd : ServerContext → World → Run (ServerContext × World)
  unfolding listen_on
  initiate_server_socket_fd c w =
      let (found, w1) = os.getaddrinfo [] (decimal c.served_port_no) w in
      elim found [
        | none ↦ exit 1
        | some servinfo ↦ bind_first servinfo c.server_socket w1 >>= λ (bound, fd, w2).
            if bound
            then (listen_on fd w2 >>= λ (fd', w3). ok (record c { server_socket = fd' }, w3))
            else exit 1
      ]

  unfoldable pub initiate_service_discovery_socket :
      ServerContext → World → Run (ServerContext × SockaddrIn × World)
  initiate_service_discovery_socket c w =
      let (fd, w1) = os.socket af_inet sock_dgram 0 w in
      let (reuse, w2) = os.setsockopt fd so_reuseaddr w1 in
      let addr : SockaddrIn = record { sin_addr = 0; sin_port = c.service_discovery_port_no } in
      let (bound, w3) = os.bind fd addr w2 in
      let (_, w4) = os.setsockopt fd (ip_add_membership multicast_group) w3 in
      let (_, w5) = os.setsockopt fd (so_rcvtimeo 0 1) w4 in
      if is_negative reuse
      then exit 1
      else (if is_negative bound
          then exit 1
          else ok (record c { service_discovery_socket = fd }, addr, w5))

  -- `SERVER_publishService`: the service is put behind the others before its sockets are made.
  unfoldable pub publish_service : ℕ → Ptr → Server → World → Run (Server × World)
  publish_service fuel p s w = load s.contexts p >>= λ c.
      let fresh = record c { next = null; connected = 0; client_socket = invalid_32_bit_int } in
      append context_link fuel (write s.contexts p fresh) s.connections p >>= λ (head, contexts).
      load contexts p >>= λ c1. initiate_service_discovery_socket c1 w >>= λ (c2, addr, w1).
      initiate_server_socket_fd c2 w1 >>= λ (c3, w2).
      ok (record s { contexts = write contexts p c3; connections = head; addr = addr }, w2)
