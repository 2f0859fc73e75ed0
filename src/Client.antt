-- ===== src/Client.antt =====
-- C/src/PiVisClient.c: the client that finds the camera server, connects to it and collects frames.
-- `size` is COLOR_IMAGE_SIZE.
pub mod Answer
pub mod Bounds
pub mod Contents
pub mod Frames
mod Tests
use pi_vision.Base.{
  ℕ, ◌+◌, ◌-◌, ◌^◌, Bool, true, false, Option, none, some, List, [], ◌∷◌, ◌++◌, ltb, ◌==◌,
  if◌then◌else◌, length, replicate, get_elem?, ℤ, minus_one, is_minus_one, is_negative, Run, ok,
  exit, fault, ◌>>=◌, blit, slice, u32,
}
use pi_vision.Constants.{
  text, camera_buf_header_size, ip_address_length, discover_color_service,
  discover_color_service_message,
}
use pi_vision.Decimal.{c_string}
use pi_vision.Sockets.{
  SockaddrIn, Addrinfo, Sockets, Received, failed, received, so_rcvtimeo, af_inet, sock_dgram,
}

-- The functions of the table `state`.
pub data StateFunc : Type 0 where
  run_service_discovery run_disconnected run_connecting run_connected run_processing_frame :
      StateFunc

abbrev pub state_table : List StateFunc
state_table =
    StateFunc.run_service_discovery ∷ StateFunc.run_disconnected ∷ StateFunc.run_connecting
    ∷ StateFunc.run_connected ∷ StateFunc.run_processing_frame ∷ []

-- The statics of the file.
pub record Client : Type 0 where
  pub server_address : List ℕ
  pub curr_state : ℕ
  pub socket_fd : ℤ
  pub service_discovery_socket : ℤ
  pub cam_buf_header : List ℕ
  pub buffer : List ℕ
  pub buffer_index : ℕ
  pub header_index : ℕ

-- The multicast group 224.1.1.1 and the port of the discovery service.
abbrev pub discovery_address : SockaddrIn
discovery_address = record { sin_addr = 0xe0010101; sin_port = discover_color_service }

-- The end of `stateConnected`: a full buffer, of `size` bytes, is a frame.
abbrev pub finish_frame : ℕ → Client → Client
finish_frame size c =
    if c.buffer_index == size
    then record c { curr_state = u32 (c.curr_state + 1); buffer_index = 0; header_index = 0 }
    else c

-- What `serviceDiscovery` does with the answer: the text and a NUL behind it go to `serverAddress`.
unfoldable pub take_answer : Client → Received → Run Client
take_answer c failed = ok c
take_answer c (received bytes) =
    if length bytes == 0
    then ok c
    else (blit 0 bytes c.server_address >>= λ address.
        blit (length bytes) (0 ∷ []) address >>= λ address'.
        ok (record c { server_address = address'; curr_state = u32 (c.curr_state + 1) }))

module _ (os : Sockets) where
  open os use {World}

  -- The loop over the results of `getaddrinfo`: the first that gives a socket and connects.
  pub connect_first : List Addrinfo → World → ℤ × World
  connect_first [] w = (minus_one, w)
  connect_first (p ∷ more) w =
      let (sockfd, w1) = os.socket p.ai_family p.ai_socktype p.ai_protocol w in
      let (connected, w2) = os.connect sockfd p.ai_addr w1 in
      elim (is_minus_one sockfd) [
        | true ↦ connect_first more w1
        | false ↦ elim (is_minus_one connected) [
          | true ↦ connect_first more (os.close sockfd w2)
          | false ↦ (sockfd, w2)
        ]
      ]

  unfoldable pub connect_to_server : List ℕ → List ℕ → World → ℤ × World
  connect_to_server address port_no w =
      let (found, w1) = os.getaddrinfo (c_string address) port_no w in
      elim found [ none ↦ (minus_one, w1) | some servinfo ↦ connect_first servinfo w1 ]

  -- The message is sent with its NUL; the answer, and the world behind it.
  abbrev pub ask : Client → World → ℤ × Received × World
  ask c w =
      let (sent, w1) =
        os.sendto c.service_discovery_socket (discover_color_service_message ++ (0 ∷ []))
          discovery_address w in
      let (answer, w2) = os.recv c.service_discovery_socket ip_address_length w1 in
      (sent, answer, w2)

  unfoldable pub service_discovery : Client → World → Run (Client × World)
  service_discovery c w =
      let (sent, answer, w1) = ask c w in
      if is_negative sent then exit 1 else take_answer c answer >>= λ c'. ok (c', w1)

  unfoldable pub state_disconnected : Client → World → Run (Client × World)
  state_disconnected c w = ok (record c { curr_state = u32 (c.curr_state + 1) }, w)

  unfoldable pub state_connecting : Client → World → Run (Client × World)
  state_connecting c w =
      let (fd, w1) = connect_to_server c.server_address (text "3070") w in
      if is_minus_one fd
      then ok (record c { socket_fd = fd }, w1)
      else ok (record c { socket_fd = fd; curr_state = u32 (c.curr_state + 1) }, w1)

  -- The header half of `stateConnected`: each call asks for a whole header.
  unfoldable pub receive_header : Client → World → Run (Client × World)
  receive_header c w =
      let (got, w1) = os.recv c.socket_fd camera_buf_header_size w in
      elim got [
        | failed ↦ ok (c, w1)
        | received bytes ↦ blit c.header_index bytes c.cam_buf_header >>= λ header. ok (
          record c { cam_buf_header = header; header_index = u32 (c.header_index + length bytes) },
          w1,
        )
      ]

  module _ (size : ℕ) where
    -- The other half: the pixels that are missing.
    unfoldable pub receive_pixels : Client → World → Run (Client × World)
    receive_pixels c w =
        let (got, w1) = os.recv c.socket_fd (size - c.buffer_index) w in
        elim got [
          | failed ↦
              ok (finish_frame size (record c { curr_state = 0; buffer = replicate size 0 }), w1)
          | received bytes ↦ blit c.buffer_index bytes c.buffer >>= λ buffer. ok (
            finish_frame size
                (record c { buffer = buffer; buffer_index = u32 (c.buffer_index + length bytes) }),
            w1,
          )
        ]

    unfoldable pub state_connected : Client → World → Run (Client × World)
    state_connected c w =
        if ltb c.header_index camera_buf_header_size then receive_header c w else receive_pixels c w

    unfoldable pub processing_frame : Client → World → Run (Client × World)
    processing_frame c w =
        if c.buffer_index == size
        then ok (record c { buffer_index = 0; curr_state = u32 (c.curr_state + (2 ^ 32 - 1)) }, w)
        else ok (c, w)

    abbrev pub call_state : StateFunc → Client → World → Run (Client × World)
    call_state StateFunc.run_service_discovery = service_discovery
    call_state StateFunc.run_disconnected = state_disconnected
    call_state StateFunc.run_connecting = state_connecting
    call_state StateFunc.run_connected = state_connected
    call_state StateFunc.run_processing_frame = processing_frame

    -- state[currState].stateFunc();
    unfoldable pub run : Client → World → Run (Client × World)
    run c w = elim (get_elem? state_table c.curr_state) [ none ↦ fault | some f ↦ call_state f c w ]

  unfoldable pub init : Client → World → Client × World
  init c w =
      let (fd, w1) = os.socket af_inet sock_dgram 0 w in
      let (_, w2) = os.setsockopt fd (so_rcvtimeo 1 0) w1 in
      (
        record c { service_discovery_socket = fd; server_address = replicate ip_address_length 0 },
        w2,
      )

-- `CLIENT_receive(buf, bufSize)`: what it copies to `buf`; its result is how many bytes that is.
unfoldable pub receive : ℕ → Client → Run (List ℕ × Client)
receive buf_size c =
    if c.curr_state == 4
    then (slice c.buffer_index buf_size c.buffer >>= λ bytes.
        ok (bytes, record c { buffer_index = u32 (c.buffer_index + buf_size) }))
    else ok ([], c)
