-- ===== src/Cpp/Connection/Chunks.antt =====
-- What `SendPayload` and `Send` write.
use mathlib.Core.List.{append_assoc, append-nil}
use pi_vision.Base.{
  ℕ, zero, suc, ◌+◌, ◌-◌, ◌≤◌, ◌<◌, ◌≡◌, refl, List, ◌++◌, arith, ltb, length, take, drop,
  length-take, length-drop, take-take, append-take-drop, drop-drop, drop_all, ℤ, pos, negsuc, Run,
  Returns, Returns-bind, Returns-mono, Bool-cases, ltb→lt, le→ltb, ap, sym, subst, ◌∙◌, inl, inr,
}
use pi_vision.ImageDataTl.{le32}
use pi_vision.ImageDataTl.Frame.{length-le32}
use pi_vision.Sockets.{Sockets}
use pi_vision.Cpp.Events.{PiVisionData, get_size}
use pi_vision.Cpp.Connection.{
  Connection, Env, next_size, send_chunk, next_send, send_loop, send, max_attempts,
}

module _ (os : Sockets) where
  open os use {World}

  -- The socket has no error, and takes at least one byte of a buffer that is not empty.
  pub record Takes (fd : ℤ) : Type 0 where
    pub no_error : (w : World) → (os.so_error fd w).0 ≡ 0
    pub progress :
        (bytes : List ℕ) (w : World)
        → 0 < length bytes
        → (n : ℕ) × ((os.send fd bytes w).0 ≡ pos (suc n))

  -- What has been written behind what was there, by a connection that stays as it is.
  abbrev pub Wrote : Connection → Env World → List ℕ → Connection × Env World → Type 0
  Wrote c e bytes (c', e') =
      (c' ≡ c)
      × (e'.calls ≡ e.calls)
      × (os.stream c.socket_fd e'.world ≡ os.stream c.socket_fd e.world ++ bytes)

  -- The world behind a chunk, and how much of the chunk has been taken.
  abbrev after_chunk : Connection → Env World → List ℕ → World
  after_chunk c e chunk = (os.send c.socket_fd chunk (os.so_error c.socket_fd e.world).1).1

  send_chunk-Takes :
      (attempts : ℕ) (chunk : List ℕ) (c : Connection) (e : Env World)
      → Takes c.socket_fd
      → send_chunk os attempts chunk c e ≡ (
        (os.send c.socket_fd chunk (os.so_error c.socket_fd e.world).1).0,
        attempts + 1,
        c,
        record e { world = after_chunk c e chunk },
      )
  unfolding send_chunk
  send_chunk-Takes attempts chunk c e t = rw (t.no_error e.world) refl

  -- Chunks one behind the other are the buffer.
  chunk_behind :
      (n m s : ℕ) (buf : List ℕ)
      → m ≤ s
      → take m (take s (drop n buf)) ++ drop (n + m) buf ≡ drop n buf
  chunk_behind n m s buf h =
      rw (take-take m s (drop n buf) h, ← drop-drop m n buf) (append-take-drop m (drop n buf))

  Wrote-chunk :
      (n m s : ℕ) (buf : List ℕ) (c : Connection) (e : Env World) (r : Connection × Env World)
      → (os.send c.socket_fd (take s (drop n buf)) (os.so_error c.socket_fd e.world).1).0 ≡ pos m
      → Wrote c (record e { world = after_chunk c e (take s (drop n buf)) }) (drop (n + m) buf) r
      → Wrote c e (drop n buf) r
  Wrote-chunk n m s buf c e (c', e') sent (same, calls, wrote) =
      let chunk = take s (drop n buf) in
      let w1 = (os.so_error c.socket_fd e.world).1 in
      let fits : m ≤ length chunk = os.send-le c.socket_fd chunk w1 sent in
      let small : m ≤ s = omega (arith, length-take s (drop n buf)) in
      (
        same,
        calls,
        wrote
            ∙ ap (λ t. t ++ drop (n + m) buf)
                (os.send_stream c.socket_fd chunk w1 sent
                  ∙ ap (λ t. t ++ take m chunk) (os.so_error_stream c.socket_fd e.world))
            ∙ append_assoc (os.stream c.socket_fd e.world) (take m chunk) (drop (n + m) buf)
            ∙ ap (λ t. os.stream c.socket_fd e.world ++ t) (chunk_behind n m s buf small),
      )

  pub next_send_pos :
      (again : ℕ → ℕ → Connection → Env World → Run (Connection × Env World)) (n m attempts : ℕ)
      (c : Connection) (e : Env World)
      → next_send os again n (pos m, attempts, c, e) ≡ again 0 (n + m) c e
  unfolding next_send
  next_send_pos again n m attempts c e = refl

  next_send_retry :
      (again : ℕ → ℕ → Connection → Env World → Run (Connection × Env World)) (n m attempts : ℕ)
      (c : Connection) (e : Env World)
      → attempts ≤ max_attempts
      → next_send os again n (negsuc m, attempts, c, e) ≡ again attempts n c e
  unfolding next_send
  next_send_retry again n m attempts c e few = rw (le→ltb max_attempts attempts few, next_send) refl

  next_size_pos : (k : ℕ) → 0 < k → (0 < next_size k) × (next_size k ≤ k)
  next_size_pos k h = ground arith

  send_loop-Wrote :
      (k attempts n : ℕ) (buf : List ℕ) (c : Connection) (e : Env World)
      → Takes c.socket_fd
      → length buf - n < k
      → Returns (Wrote c e (drop n buf)) (send_loop os k attempts n buf c e)
  unfolding send_loop
  send_loop-Wrote zero attempts n buf c e t enough = absurd (omega arith)
  send_loop-Wrote (suc k) attempts n buf c e t enough = elim (Bool-cases (ltb n (length buf))) [
    | inl more ↦
        let chunk = take (next_size (length buf - n)) (drop n buf) in
        let missing : n < length buf = ltb→lt n (length buf) more in
        let (low, high) = next_size_pos (length buf - n) (omega arith) in
        let some_bytes : 0 < length chunk =
          omega (arith, length-take (next_size (length buf - n)) (drop n buf), length-drop n buf) in
        let (m, sent) = t.progress chunk (os.so_error c.socket_fd e.world).1 some_bytes in
        rw (more, send_loop, send_chunk-Takes attempts chunk c e t, sent, next_send_pos)
          (Returns-mono
            (Wrote c (record e { world = after_chunk c e chunk }) (drop (n + suc m) buf))
            (Wrote c e (drop n buf)) _
            (λ r. Wrote-chunk n (suc m) (next_size (length buf - n)) buf c e r sent)
            (send_loop-Wrote k 0 (n + suc m) buf c (record e { world = after_chunk c e chunk }) t
              (omega arith)))
    | inr last ↦
        rw (last, send_loop, drop_all n buf (ground arith))
          (refl, refl, sym (append-nil (os.stream c.socket_fd e.world)))
  ]

  -- Over a socket that has no error and takes at least one byte with each call, `Send` ends within one
  -- call for each byte, and has written exactly the size of the message in four bytes and the message,
  -- whatever the sizes of the parts that were taken.
  pub send-Wrote :
      (fuel : ℕ) (d : PiVisionData) (c : Connection) (e : Env World)
      → Takes c.socket_fd
      → 4 < fuel
      → get_size d < fuel
      → Returns (Wrote c e (le32 (get_size d) ++ d.buf)) (send os fuel d c e)
  unfolding send
  send-Wrote fuel d c e t room enough =
      Returns-bind (Wrote c e (le32 (get_size d))) (Wrote c e (le32 (get_size d) ++ d.buf))
        (send_loop os fuel 0 0 (le32 (get_size d)) c e) _
        (send_loop-Wrote fuel 0 0 (le32 (get_size d)) c e t
          (omega (arith, length-le32 (get_size d))))
        λ (c1, e1) (same, calls, wrote).
          subst
            (λ k.
              Returns (Wrote c e (le32 (get_size d) ++ d.buf)) (send_loop os fuel 0 0 d.buf k e1))
            (sym same)
            (Returns-mono (Wrote c e1 d.buf) (Wrote c e (le32 (get_size d) ++ d.buf)) _
              (λ (c2, e2) (same', calls', wrote'). (
                same',
                calls' ∙ calls,
                wrote'
                    ∙ ap (λ s. s ++ d.buf) wrote
                    ∙ append_assoc (os.stream c.socket_fd e.world) (le32 (get_size d)) d.buf,
              ))
              (send_loop-Wrote fuel 0 0 d.buf c e1 t (omega arith)))
