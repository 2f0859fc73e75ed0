-- ===== src/Cpp/Connection/Keeps.antt =====
-- What the calls of `Send` keep of the world.
use pi_vision.Base.{
  ℕ, zero, suc, ◌+◌, ◌-◌, ◌≡◌, refl, List, ltb, ◌==◌, length, take, drop, ℤ, pos, negsuc, Run,
  Keeps, Keeps-bind_if, Bool-cases, inl, inr,
}
use pi_vision.ImageDataTl.{le32}
use pi_vision.Sockets.{Sockets}
use pi_vision.Cpp.Events.{PiVisionData, get_size}
use pi_vision.Cpp.Connection.{
  Connection, Env, next_size, send_chunk, next_send, send_loop, send, max_attempts,
}

module _ (os : Sockets) where
  open os use {World}

  -- What the calls of `Send` keep of the world.
  module _ (fd : ℤ) (Kept : World → Type 0)
      (error_keeps : (w : World) → Kept w → Kept (os.so_error fd w).1)
      (send_keeps : (bytes : List ℕ) (w : World) → Kept w → Kept (os.send fd bytes w).1) where
    -- A connection on the socket, in such a world.
    abbrev pub On : Connection × Env World → Type 0
    On (c, e) = (c.socket_fd ≡ fd) × Kept e.world

    abbrev OnChunk : ℤ × ℕ × Connection × Env World → Type 0
    OnChunk (sent, attempts, c, e) = On (c, e)

    send_chunk-On :
        (attempts : ℕ) (chunk : List ℕ) (c : Connection) (e : Env World)
        → On (c, e)
        → OnChunk (send_chunk os attempts chunk c e)
    unfolding send_chunk
    send_chunk-On attempts chunk c e (at, kept) =
        rw at (elim (Bool-cases ((os.so_error fd e.world).0 == 0)) [
          | inl fine ↦ rw fine (refl, send_keeps chunk _ (error_keeps e.world kept))
          | inr lost ↦ rw lost (refl, error_keeps e.world kept)
        ])

    next_send-On :
        (again : ℕ → ℕ → Connection → Env World → Run (Connection × Env World)) (n : ℕ)
        (r : ℤ × ℕ × Connection × Env World)
        → ((attempts m : ℕ) (c : Connection) (e : Env World)
            → On (c, e)
            → Keeps On (again attempts m c e))
        → OnChunk r
        → Keeps On (next_send os again n r)
    unfolding next_send
    next_send-On again n (pos m, attempts, c, e) loop h = loop 0 (n + m) c e h
    next_send-On again n (negsuc m, attempts, c, e) loop h =
        elim (Bool-cases (ltb max_attempts attempts)) [
          | inl last ↦ rw (last, Keeps) h
          | inr more ↦ rw (more, Keeps) (loop attempts n c e h)
        ]

    send_loop-On :
        (k attempts n : ℕ) (buf : List ℕ) (c : Connection) (e : Env World)
        → On (c, e)
        → Keeps On (send_loop os k attempts n buf c e)
    unfolding send_loop
    send_loop-On zero attempts n buf c e h = tt
    send_loop-On (suc k) attempts n buf c e h = elim (Bool-cases (ltb n (length buf))) [
      | inr last ↦ rw (last, send_loop) h
      | inl more ↦
          rw (more, send_loop)
            (next_send-On (λ attempts1 m c1 e1. send_loop os k attempts1 m buf c1 e1) n
              (send_chunk os attempts (take (next_size (length buf - n)) (drop n buf)) c e)
              (λ attempts1 m c1 e1 h1. send_loop-On k attempts1 m buf c1 e1 h1)
              (send_chunk-On attempts (take (next_size (length buf - n)) (drop n buf)) c e h))
    ]

    pub send-On :
        (fuel : ℕ) (d : PiVisionData) (c : Connection) (e : Env World)
        → On (c, e)
        → Keeps On (send os fuel d c e)
    unfolding send
    send-On fuel d c e h =
        Keeps-bind_if On On (send_loop os fuel 0 0 (le32 (get_size d)) c e) _
          (send_loop-On fuel 0 0 (le32 (get_size d)) c e h)
          λ (c1, e1) h1. send_loop-On fuel 0 0 d.buf c1 e1 h1
