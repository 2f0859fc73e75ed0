-- ===== src/Cpp/Connection/Receives.antt =====
-- What `Receive` collects, and that it ends.
use pi_vision.Base.{
  ℕ, zero, suc, ◌+◌, ◌*◌, ◌-◌, ◌^◌, ◌≤◌, ◌<◌, ◌≡◌, refl, ◌≢◌, true, List, [], ◌∷◌, ◌++◌, arith, ltb,
  length, length-append, Run, Returns, Bool-cases, ltb→lt, lt→ltb, ap, inl, inr, ℤ, ne→==,
}
use native.Mathlib.Decide.{ℕ_discrete}
use pi_vision.Sockets.{Sockets, Received, failed, received}
use pi_vision.Cpp.Events.{PiVisionData}
use pi_vision.Cpp.Events.Buffer.{append-ok}
use pi_vision.Cpp.Connection.{
  Connection, Env, next_size, chunk_bytes, receive_chunk, next_receive, receive_loop, receive,
  max_attempts,
}

module _ (os : Sockets) where
  open os use {World}

  -- The data of a call that has collected so many of the bytes: all of them if the connection is
  -- still active.
  abbrev pub Collected : ℕ → PiVisionData × Connection × Env World → Type 0
  Collected total (d, c, e) =
      (d.capacity ≡ total) × (length d.buf ≤ total) × (c.active ≡ true → length d.buf ≡ total)

  -- A chunk from a socket without and with an error.
  pub receive_chunk_ok :
      (missing : ℕ) (c : Connection) (e : Env World)
      → (os.so_error c.socket_fd e.world).0 ≡ 0
      → receive_chunk os missing c e ≡ (
        chunk_bytes (os.recv c.socket_fd (next_size missing) (os.so_error c.socket_fd e.world).1).0,
        c,
        record e {
          world = (os.recv c.socket_fd (next_size missing) (os.so_error c.socket_fd e.world).1).1;
        },
      )
  unfolding receive_chunk
  receive_chunk_ok missing c e h = rw h refl

  receive_chunk_lost :
      (missing : ℕ) (c : Connection) (e : Env World)
      → (os.so_error c.socket_fd e.world).0 ≢ 0
      → (receive_chunk os missing c e).0 ≡ []
  unfolding receive_chunk
  receive_chunk_lost missing c e h = rw (ne→== (os.so_error c.socket_fd e.world).0 0 h) refl

  -- One chunk holds at most what is missing.
  recv-le :
      (missing : ℕ) (fd : ℤ) (w : World)
      → length (chunk_bytes (os.recv fd (next_size missing) w).0) ≤ missing
  recv-le missing fd w = go (os.recv fd (next_size missing) w).0 refl
    where
      go :
          (r : Received)
          → (os.recv fd (next_size missing) w).0 ≡ r
          → length (chunk_bytes (os.recv fd (next_size missing) w).0) ≤ missing
      go failed h = rw h (omega arith)
      go (received bytes) h =
          let fits : length bytes ≤ next_size missing = os.recv-le fd (next_size missing) w h in
          rw h (ground (arith, fits))

  receive_chunk-le :
      (missing : ℕ) (c : Connection) (e : Env World)
      → length (receive_chunk os missing c e).0 ≤ missing
  receive_chunk-le missing c e = elim (ℕ_discrete (os.so_error c.socket_fd e.world).0 0) [
    | yes fine ↦
        rw (receive_chunk_ok missing c e fine)
          (recv-le missing c.socket_fd (os.so_error c.socket_fd e.world).1)
    | no lost ↦ rw (receive_chunk_lost missing c e lost) (omega arith)
  ]

  -- What is still to be done: the bytes that are missing, with eleven attempts each, and the attempts
  -- that are left.
  abbrev Left : (k attempts n total : ℕ) → Type 0
  Left k attempts n total =
      (attempts ≤ max_attempts) × (11 * (total - n) + (max_attempts - attempts) < k)

  -- A loop that collects from wherever it is started.
  abbrev Collects :
      ℕ
      → ℕ
      → (ℕ
          → ℕ
          → PiVisionData
          → Connection
          → Env World
          → Run (PiVisionData × Connection × Env World))
      → Type 0
  Collects k total again =
      (attempts n : ℕ) (d : PiVisionData) (c : Connection) (e : Env World)
      → length d.buf ≡ n
      → n ≤ total
      → d.capacity ≡ total
      → Left k attempts n total
      → Returns (Collected total) (again attempts n d c e)

  next_receive-Collected :
      (k total attempts n : ℕ)
      (again : ℕ
        → ℕ
        → PiVisionData
        → Connection
        → Env World
        → Run (PiVisionData × Connection × Env World))
      (d : PiVisionData) (r : List ℕ × Connection × Env World)
      → Collects k total again
      → total < 2 ^ 31
      → length d.buf ≡ n
      → n < total
      → d.capacity ≡ total
      → length r.0 ≤ total - n
      → Left (suc k) attempts n total
      → Returns (Collected total) (next_receive os again attempts n d r)
  unfolding next_receive
  next_receive-Collected k total attempts n again d ([], c, e) loop small len more room fits
        (few, left) =
      elim (Bool-cases (c.active)) [
        | inr off ↦ rw off (room, omega arith, λ on. absurd (ground (arith, off)))
        | inl on ↦ rw on (elim (Bool-cases (ltb max_attempts (attempts + 1))) [
          | inl last ↦ rw last (room, omega arith, λ on'. absurd (ground arith))
          | inr other ↦ rw other (loop (attempts + 1) n d c e len (omega arith) room (ground arith))
        ])
      ]
  next_receive-Collected k total attempts n again d (b ∷ bs, c, e) loop small len more room fits
        (few, left) =
      rw
        (
          lt→ltb (n + length (b ∷ bs)) (2 ^ 31) (omega arith),
          next_receive,
          append-ok (b ∷ bs) d (omega arith) (omega arith),
        )
        (loop 0 (n + length (b ∷ bs)) (record d { buf = d.buf ++ (b ∷ bs) }) c e
          (omega (arith, length-append d.buf (b ∷ bs))) (omega arith) room (omega arith))

  receive_loop-Collected :
      (k total : ℕ)
      → total < 2 ^ 31
      → Collects k total (λ attempts n d c e. receive_loop os k attempts n total d c e)
  unfolding receive_loop
  receive_loop-Collected zero total small attempts n d c e len le room (few, left) =
      absurd (omega arith)
  receive_loop-Collected (suc k) total small attempts n d c e len le room left =
      elim (Bool-cases (ltb n total)) [
        | inl more ↦
            rw (more, receive_loop)
              (next_receive-Collected k total attempts n
                (λ attempts1 m d1 c1 e1. receive_loop os k attempts1 m total d1 c1 e1) d
                (receive_chunk os (total - n) c e) (receive_loop-Collected k total small) small len
                (ltb→lt n total more) room (receive_chunk-le (total - n) c e) left)
        | inr all ↦ rw (all, receive_loop) (room, omega arith, λ on. ground arith)
      ]

  -- `Receive` of fewer than 2 ^ 31 bytes into a new buffer always ends, whatever the socket does,
  -- within eleven attempts for each byte and eleven more. It never writes behind the buffer, and the
  -- buffer is full if the connection is still active.
  pub receive-Collected :
      (fuel total : ℕ) (d : PiVisionData) (c : Connection) (e : Env World)
      → d ≡ record { capacity = total; buf = [] }
      → total < 2 ^ 31
      → 11 * total + 10 < fuel
      → Returns (Collected total) (receive os fuel total d c e)
  unfolding receive
  receive-Collected fuel total d c e new small enough =
      receive_loop-Collected fuel total small 0 0 d c e (ap (λ k. length k.buf) new) (omega arith)
        (ap (λ k. k.capacity) new) (omega arith, omega arith)
