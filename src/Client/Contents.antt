-- ===== src/Client/Contents.antt =====
-- What holds of all bytes that the sockets give holds of all pixels of the client's buffer.
use pi_vision.Base.{
  ℕ, ◌+◌, ◌-◌, ◌≡◌, refl, inl, inr, none, some, List, All, All-replicate, replicate, u32, ltb, ◌==◌,
  length, get_elem?, ℤ, is_minus_one, is_negative, fault, Keeps, Keeps-bind, Keeps-bind_if,
  Keeps-blit, Keeps-slice, Bool-cases, blit, slice,
}
use pi_vision.Constants.{text, camera_buf_header_size}
use pi_vision.Sockets.{Sockets, Received, failed, received}
use pi_vision.Client.{
  Client, StateFunc, state_table, service_discovery, state_disconnected, state_connecting,
  receive_header, receive_pixels, state_connected, processing_frame, call_state, run, finish_frame,
  take_answer, connect_to_server, ask, receive,
}

-- Whatever `recv` stores has the property.
abbrev pub Gives : Sockets → (ℕ → Type 0) → Type 0
Gives os P =
    (fd : ℤ) (n : ℕ) (w : os.World) (bytes : List ℕ)
    → (os.recv fd n w).0 ≡ received bytes
    → All P bytes

-- `CLIENT_receive` hands on what is in the buffer.
pub receive-Keeps :
    (P : ℕ → Type 0) (size : ℕ) (c : Client)
    → All P c.buffer
    → Keeps (λ (bytes, c'). All P bytes × All P c'.buffer) (receive size c)
unfolding receive
receive-Keeps P size c h = elim (Bool-cases (c.curr_state == 4)) [
  | inl waits ↦ rw waits (
      Keeps-bind_if (All P) (λ (bytes, c'). All P bytes × All P c'.buffer)
        (slice c.buffer_index size c.buffer) _ (Keeps-slice P c.buffer_index size c.buffer h)
        (λ bytes hb. (hb, h)))
  | inr empty ↦ rw empty (tt, h)
]

module _ (os : Sockets) (P : ℕ → Type 0) (gives : Gives os P) (zeros : P 0) (size : ℕ) where
  open os use {World}

  abbrev Kept : Client × World → Type 0
  Kept (c, w) = All P c.buffer

  finish_frame-All : (c : Client) → All P c.buffer → All P (finish_frame size c).buffer
  finish_frame-All c h = elim (Bool-cases (c.buffer_index == size)) [
    | inl full ↦ rw full h
    | inr part ↦ rw part h
  ]

  receive_pixels-Keeps :
      (c : Client) (w : World) → All P c.buffer → Keeps Kept (receive_pixels os size c w)
  unfolding receive_pixels
  receive_pixels-Keeps c w h = go (os.recv c.socket_fd (size - c.buffer_index) w).0 refl
    where
      go :
          (r : Received)
          → (os.recv c.socket_fd (size - c.buffer_index) w).0 ≡ r
          → Keeps Kept (receive_pixels os size c w)
      go failed e =
          rw (e, receive_pixels)
            (finish_frame-All (record c { curr_state = 0; buffer = replicate size 0 })
              (All-replicate P size 0 zeros))
      go (received bytes) e =
          rw (e, receive_pixels)
            (Keeps-bind_if (All P) Kept (blit c.buffer_index bytes c.buffer) _
              (Keeps-blit P c.buffer_index bytes c.buffer
                (gives c.socket_fd (size - c.buffer_index) w bytes e) h)
              (λ buffer hb.
                finish_frame-All
                  (record c { buffer = buffer; buffer_index = u32 (c.buffer_index + length bytes) })
                  hb))

  receive_header-Keeps :
      (c : Client) (w : World) → All P c.buffer → Keeps Kept (receive_header os c w)
  unfolding receive_header
  receive_header-Keeps c w h = go (os.recv c.socket_fd camera_buf_header_size w).0 refl
    where
      go :
          (r : Received)
          → (os.recv c.socket_fd camera_buf_header_size w).0 ≡ r
          → Keeps Kept (receive_header os c w)
      go failed e = rw (e, receive_header) h
      go (received bytes) e =
          rw (e, receive_header)
            (Keeps-bind Kept (blit c.header_index bytes c.cam_buf_header) _ (λ header. h))

  take_answer-Keeps :
      (c : Client) (r : Received) → All P c.buffer → Keeps (λ c'. All P c'.buffer) (take_answer c r)
  unfolding take_answer
  take_answer-Keeps c failed h = h
  take_answer-Keeps c (received bytes) h = elim (Bool-cases (length bytes == 0)) [
    | inl empty ↦ rw empty h
    | inr some_bytes ↦ rw some_bytes (
        Keeps-bind (λ c'. All P c'.buffer) (blit 0 bytes c.server_address) _
          (λ address.
            Keeps-bind (λ c'. All P c'.buffer) (blit (length bytes) _ address) _ (λ a. h)))
  ]

  call_state-Keeps :
      (f : StateFunc) (c : Client) (w : World)
      → All P c.buffer
      → Keeps Kept (call_state os size f c w)
  unfolding service_discovery state_disconnected state_connecting state_connected processing_frame
  call_state-Keeps StateFunc.run_service_discovery c w h =
      elim (Bool-cases (is_negative (ask os c w).0)) [
        | inl lost ↦ rw lost tt
        | inr sent ↦ rw sent (
            Keeps-bind_if (λ c'. All P c'.buffer) Kept (take_answer c (ask os c w).1) _
              (take_answer-Keeps c (ask os c w).1 h) (λ c' h'. h'))
      ]
  call_state-Keeps StateFunc.run_disconnected c w h = h
  call_state-Keeps StateFunc.run_connecting c w h =
      elim (Bool-cases (is_minus_one (connect_to_server os c.server_address (text "3070") w).0)) [
        | inl lost ↦ rw lost h
        | inr connected ↦ rw connected h
      ]
  call_state-Keeps StateFunc.run_connected c w h =
      elim (Bool-cases (ltb c.header_index camera_buf_header_size)) [
        | inl more ↦ rw more (receive_header-Keeps c w h)
        | inr whole ↦ rw whole (receive_pixels-Keeps c w h)
      ]
  call_state-Keeps StateFunc.run_processing_frame c w h =
      elim (Bool-cases (c.buffer_index == size)) [ inl full ↦ rw full h | inr part ↦ rw part h ]

  -- A run keeps what holds of all pixels.
  pub run-Keeps : (c : Client) (w : World) → All P c.buffer → Keeps Kept (run os size c w)
  unfolding run
  run-Keeps c w h =
      elim (get_elem? state_table c.curr_state)
        as (λ found. Keeps Kept (elim found [ none ↦ fault | some f ↦ call_state os size f c w ])) [
          | none ↦ tt
          | some f ↦ call_state-Keeps f c w h
        ]
