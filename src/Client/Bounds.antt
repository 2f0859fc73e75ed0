-- ===== src/Client/Bounds.antt =====
-- The bounds of the client's arrays.
use pi_vision.Base.{
  ℕ, ◌+◌, ◌-◌, ◌^◌, ◌≤◌, ◌<◌, ◌≡◌, refl, ◌≢◌, ◌⊎◌, inl, inr, none, some, List, [], ◌∷◌, arith, ltb,
  ◌==◌, length, length-replicate, get_elem?, Run, ok, fault, Ends, Ends-mono, zero, suc, Ends-bind,
  ◌>>=◌, blit, patch, blit-ok, blit-fault, length-patch, Bool-cases, u32, ◌∙◌, ne→==, is_negative,
}
use native.Mathlib.Decide.{dec_le}
use pi_vision.Constants.{camera_buf_header_size, ip_address_length}
use pi_vision.Sockets.{Sockets, Received, failed, received}
use pi_vision.Client.{
  Client, state_table, service_discovery, state_disconnected, state_connecting, receive_header,
  receive_pixels, state_connected, processing_frame, call_state, run, finish_frame, take_answer,
  ask,
}

-- The sizes of the arrays, and where the indices may stand. In state 4 the whole buffer is waiting
-- or has been read.
pub record IsValid (size : ℕ) (c : Client) : Type 0 where
  pub state : c.curr_state ≤ 4
  pub header : length c.cam_buf_header ≡ camera_buf_header_size
  pub pixels : length c.buffer ≡ size
  pub address : length c.server_address ≡ ip_address_length
  pub header_at : c.header_index ≤ camera_buf_header_size
  pub pixels_at : c.buffer_index ≤ size
  pub waiting : c.curr_state ≢ 4 → c.buffer_index < size
  pub complete : c.curr_state ≡ 4 → (c.buffer_index ≡ 0) ⊎ (c.buffer_index ≡ size)

-- As it is after each step: a frame that is complete has not been read.
abbrev pub IsCurrent : ℕ → Client → Type 0
IsCurrent size c = IsValid size c × (c.curr_state ≡ 4 → c.buffer_index ≡ 0)

take_answer-Ends :
    (size : ℕ) (c : Client)
    → IsValid size c
    → c.curr_state ≡ 0
    → (r : Received)
    → Ends
        (IsCurrent size)
        ((bytes : List ℕ) × (r ≡ received bytes) × (ip_address_length ≤ length bytes))
        (take_answer c r)
unfolding take_answer
take_answer-Ends size c v start failed = (v, ground arith)
take_answer-Ends size c v start (received bytes) = elim (Bool-cases (length bytes == 0)) [
  | inl empty ↦ rw empty (v, ground arith)
  | inr some_bytes ↦ rw some_bytes (store (dec_le ip_address_length (length bytes)))
]
  where
    open v use {address}

    stored : List ℕ
    stored = patch 0 bytes c.server_address

    Goal : Type 0
    Goal =
        Ends (IsCurrent size)
          ((xs : List ℕ) × (received bytes ≡ received xs) × (ip_address_length ≤ length xs))
          (blit 0 bytes c.server_address >>= λ address.
            blit (length bytes) (0 ∷ []) address >>= λ address'.
            ok (record c { server_address = address'; curr_state = u32 (c.curr_state + 1) }))

    store_long :
        ip_address_length ≤ length bytes → Dec (length bytes ≤ length c.server_address) → Goal
    store_long long (yes fits) =
        rw
          (
            blit-ok 0 bytes c.server_address (omega arith),
            blit-fault (length bytes) (0 ∷ []) stored
                (omega (arith, length-patch 0 bytes c.server_address (omega arith))),
          )
          (bytes, refl, long)
    store_long long (no over) =
        rw (blit-fault 0 bytes c.server_address (omega arith)) (bytes, refl, long)

    store : Dec (ip_address_length ≤ length bytes) → Goal
    store (yes long) = store_long long (dec_le (length bytes) (length c.server_address))
    store (no short) =
        let kept : length stored ≡ 16 =
          omega (arith, length-patch 0 bytes c.server_address (omega arith)) in
        rw
          (
            blit-ok 0 bytes c.server_address (omega arith),
            blit-ok (length bytes) (0 ∷ []) stored (omega arith),
          )
          (ground (arith, length-patch (length bytes) (0 ∷ []) stored))

module _ (os : Sockets) where
  open os use {World}

  -- An answer to the discovery message that fills `serverAddress`.
  abbrev pub LongAnswer : Client → World → Type 0
  LongAnswer c w =
      (bytes : List ℕ) × ((ask os c w).1 ≡ received bytes) × (ip_address_length ≤ length bytes)

  -- A part of a header is there, and more bytes come than are missing.
  abbrev pub LongHeader : Client → World → Type 0
  LongHeader c w =
      (bytes : List ℕ) × ((os.recv c.socket_fd camera_buf_header_size w).0 ≡ received bytes)
      × (camera_buf_header_size < c.header_index + length bytes)

  module _ (size : ℕ) (pos : 0 < size) (small : size < 2 ^ 31) where
    receive_header-Ends :
        (c : Client) (w : World)
        → IsValid size c
        → c.curr_state ≡ 3
        → Ends (λ (c', w'). IsCurrent size c') (LongHeader c w) (receive_header os c w)
    unfolding receive_header
    receive_header-Ends c w v connected = go (os.recv c.socket_fd camera_buf_header_size w).0 refl
      where
        open v use {header}

        go :
            (r : Received)
            → (os.recv c.socket_fd camera_buf_header_size w).0 ≡ r
            → Ends (λ (c', w'). IsCurrent size c') (LongHeader c w) (receive_header os c w)
        go failed e = rw (e, receive_header) (v, ground arith)
        go (received bytes) e =
            elim (dec_le (c.header_index + length bytes) camera_buf_header_size) [
              | yes fits ↦
                  rw
                    (e, receive_header, blit-ok c.header_index bytes c.cam_buf_header (omega arith))
                    (ground (arith, length-patch c.header_index bytes c.cam_buf_header))
              | no long ↦
                  rw
                    (
                      e,
                      receive_header,
                      blit-fault c.header_index bytes c.cam_buf_header (omega arith),
                    )
                    (bytes, refl, omega arith)
            ]

    finish_frame-IsValid :
        (c : Client)
        → c.curr_state ≡ 3
        → length c.cam_buf_header ≡ camera_buf_header_size
        → length c.buffer ≡ size
        → length c.server_address ≡ ip_address_length
        → c.header_index ≤ camera_buf_header_size
        → c.buffer_index ≤ size
        → IsCurrent size (finish_frame size c)
    finish_frame-IsValid c s h b a hi bi = elim (Bool-cases (c.buffer_index == size)) [
      | inl full ↦ rw full (ground arith)
      | inr part ↦ rw part (ground arith)
    ]

    receive_pixels-Ends :
        (c : Client) (w : World)
        → IsValid size c
        → c.curr_state ≡ 3
        → Ends (λ (c', w'). IsCurrent size c') ⊥ (receive_pixels os size c w)
    unfolding receive_pixels
    receive_pixels-Ends c w v connected = go (os.recv c.socket_fd (size - c.buffer_index) w).0 refl
      where
        go :
            (r : Received)
            → (os.recv c.socket_fd (size - c.buffer_index) w).0 ≡ r
            → Ends (λ (c', w'). IsCurrent size c') ⊥ (receive_pixels os size c w)
        go failed e =
            rw (e, receive_pixels, ne→== c.buffer_index size (λ f. omega arith))
              (ground (arith, length-replicate {A = ℕ} size 0))
        go (received bytes) e =
            let fits : c.buffer_index + length bytes ≤ length c.buffer =
              omega (arith, os.recv-le c.socket_fd (size - c.buffer_index) w e) in
            rw (e, receive_pixels, blit-ok c.buffer_index bytes c.buffer fits)
              (finish_frame-IsValid
                (record c {
                  buffer = patch c.buffer_index bytes c.buffer;
                  buffer_index = u32 (c.buffer_index + length bytes);
                })
                connected v.header (length-patch c.buffer_index bytes c.buffer fits ∙ v.pixels)
                v.address v.header_at (omega arith))

    service_discovery-Ends :
        (c : Client) (w : World)
        → IsValid size c
        → c.curr_state ≡ 0
        → Ends (λ (c', w'). IsCurrent size c') (LongAnswer c w) (service_discovery os c w)
    unfolding service_discovery
    service_discovery-Ends c w v start = elim (Bool-cases (is_negative (ask os c w).0)) [
      | inl lost ↦ rw lost refl
      | inr sent ↦ rw sent (
          Ends-bind (IsCurrent size) (LongAnswer c w) (λ (c', w'). IsCurrent size c')
            (take_answer c (ask os c w).1) (λ c'. ok (c', (ask os c w).2))
            (take_answer-Ends size c v start (ask os c w).1) (λ c' v'. v'))
    ]

    state_connecting-Ends :
        (c : Client) (w : World)
        → IsValid size c
        → c.curr_state ≡ 2
        → Ends (λ (c', w'). IsCurrent size c') ⊥ (state_connecting os c w)
    unfolding state_connecting
    state_connecting-Ends c w v start = ground arith

    processing_frame-IsValid :
        (c : Client) (w : World)
        → IsValid size c
        → c.curr_state ≡ 4
        → Ends (λ (c', w'). IsCurrent size c') ⊥ (processing_frame os size c w)
    unfolding processing_frame
    processing_frame-IsValid c w v e = elim (Bool-cases (c.buffer_index == size)) [
      | inl full ↦ rw full (ground arith)
      | inr part ↦ rw part (v, ground arith)
    ]

    -- For frames of at least one and less than 2 ^ 31 bytes: one call of the run function of a
    -- valid client stays within its arrays, keeps it valid, and leaves a complete frame unread,
    -- except where a discovery answer fills `serverAddress` or where more of a header comes than is
    -- missing: only then may it write behind an array. The only other end is `exit(1)`.
    pub run-Ends :
        (c : Client) (w : World)
        → IsValid size c
        → Ends
            (λ (c', w'). IsCurrent size c')
            (((c.curr_state ≡ 0) × LongAnswer c w) ⊎ ((c.curr_state ≡ 3) × LongHeader c w))
            (run os size c w)
    unfolding run state_disconnected state_connected
    run-Ends c w v = go c.curr_state refl
      where
        Goal : Run (Client × World) → Type 0
        Goal =
            Ends (λ (c', w'). IsCurrent size c')
              (((c.curr_state ≡ 0) × LongAnswer c w) ⊎ ((c.curr_state ≡ 3) × LongHeader c w))

        lift :
            (F : Type 0)
            → (F → ((c.curr_state ≡ 0) × LongAnswer c w) ⊎ ((c.curr_state ≡ 3) × LongHeader c w))
            → (r : Run (Client × World)) → Ends (λ (c', w'). IsCurrent size c') F r
            → Goal r
        lift F worse r h =
            Ends-mono (λ (c', w'). IsCurrent size c') (λ (c', w'). IsCurrent size c') F _ r
              (λ a k. k) worse h

        connected : c.curr_state ≡ 3 → Goal (state_connected os size c w)
        connected e = elim (Bool-cases (ltb c.header_index camera_buf_header_size)) [
          | inl more ↦
              rw (more, state_connected)
                (lift (LongHeader c w) (λ h. inr (e, h)) _ (receive_header-Ends c w v e))
          | inr whole ↦
              rw (whole, state_connected) (lift ⊥ (λ h. absurd h) _ (receive_pixels-Ends c w v e))
        ]

        go :
            (n : ℕ)
            → c.curr_state ≡ n
            → Goal (elim (get_elem? state_table n) [
              | none ↦ fault
              | some f ↦ call_state os size f c w
            ])
        go zero e = lift (LongAnswer c w) (λ h. inl (e, h)) _ (service_discovery-Ends c w v e)
        go (suc zero) e = ground arith
        go (suc (suc zero)) e = lift ⊥ (λ h. absurd h) _ (state_connecting-Ends c w v e)
        go (suc (suc (suc zero))) e = connected e
        go (suc (suc (suc (suc zero)))) e =
            lift ⊥ (λ h. absurd h) _ (processing_frame-IsValid c w v e)
        go (suc (suc (suc (suc (suc n))))) e = absurd (omega arith)
