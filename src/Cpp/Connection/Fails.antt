-- ===== src/Cpp/Connection/Fails.antt =====
-- What `Send` does on a connection that is lost.
use pi_vision.Base.{
  ℕ, zero, suc, Bool, true, false, ◌+◌, ◌-◌, ◌≤◌, ◌<◌, ◌≡◌, refl, List, arith, ltb, length, take,
  drop, ◌==◌, ℤ, negsuc, Run, ok, Returns, Returns-bind, Returns-mono, Bool-cases, ltb→lt, lt→ltb,
  sym, subst, ◌∙◌, inl, inr,
}
use pi_vision.ImageDataTl.{le32}
use pi_vision.ImageDataTl.Frame.{length-le32}
use pi_vision.Sockets.{Sockets}
use pi_vision.Cpp.Events.{PiVisionData, get_size}
use pi_vision.Cpp.Connection.{
  Connection, Env, give_up, next_size, send_chunk, next_send, send_loop, send, max_attempts,
}

module _ (os : Sockets) where
  open os use {World}

  -- No byte can be sent any more. Asking for the pending error clears it, and a call of `send` that
  -- fails with an error reports it and leaves none pending.
  pub record Lost (fd : ℤ) : Type 0 where
    pub fails : (bytes : List ℕ) (w : World) → (n : ℕ) × ((os.send fd bytes w).0 ≡ negsuc n)
    pub cleared : (w : World) → (os.so_error fd (os.so_error fd w).1).0 ≡ 0
    pub no_new :
        (bytes : List ℕ) (w : World)
        → (os.so_error fd w).0 ≡ 0
        → (os.so_error fd (os.send fd bytes w).1).0 ≡ 0

  -- The connection is no longer active, and nothing has been written to it.
  abbrev pub GaveUp : Connection → Env World → Connection × Env World → Type 0
  GaveUp c e (c', e') =
      (c' ≡ record c { active = false })
      × (os.stream c.socket_fd e'.world ≡ os.stream c.socket_fd e.world)

  next_send_end :
      (again : ℕ → ℕ → Connection → Env World → Run (Connection × Env World)) (n m attempts : ℕ)
      (c : Connection) (e : Env World)
      → ltb max_attempts attempts ≡ true
      → next_send os again n (negsuc m, attempts, c, e) ≡ ok (give_up c e)
  unfolding next_send
  next_send_end again n m attempts c e over = rw (over, next_send) refl

  next_send_again :
      (again : ℕ → ℕ → Connection → Env World → Run (Connection × Env World)) (n m attempts : ℕ)
      (c : Connection) (e : Env World)
      → ltb max_attempts attempts ≡ false
      → next_send os again n (negsuc m, attempts, c, e) ≡ again attempts n c e
  unfolding next_send
  next_send_again again n m attempts c e few = rw (few, next_send) refl

  -- A pending error gives the connection up, and is no attempt.
  chunk_pending :
      (attempts : ℕ) (chunk : List ℕ) (c : Connection) (e : Env World)
      → ((os.so_error c.socket_fd e.world).0 == 0) ≡ false
      → send_chunk os attempts chunk c e ≡ (
        negsuc 0,
        attempts,
        (give_up c (record e { world = (os.so_error c.socket_fd e.world).1 })).0,
        (give_up c (record e { world = (os.so_error c.socket_fd e.world).1 })).1,
      )
  unfolding send_chunk
  chunk_pending attempts chunk c e pending = rw pending refl

  module _ (c : Connection) (lost : Lost c.socket_fd) (active : Bool) where
    -- The connection, which may have been given up before.
    abbrev given : Connection
    given = record c { active = active }

    -- The world behind a chunk that could not be sent.
    abbrev behind : List ℕ → Env World → World
    behind chunk e = (os.send c.socket_fd chunk (os.so_error c.socket_fd e.world).1).1

    chunk_quiet :
        (attempts : ℕ) (chunk : List ℕ) (e : Env World)
        → (os.so_error c.socket_fd e.world).0 ≡ 0
        → (m : ℕ) × (send_chunk os attempts chunk given e
            ≡ (negsuc m, attempts + 1, given, record e { world = behind chunk e }))
          × (os.stream c.socket_fd (behind chunk e) ≡ os.stream c.socket_fd e.world)
          × ((os.so_error c.socket_fd (behind chunk e)).0 ≡ 0)
    unfolding send_chunk
    chunk_quiet attempts chunk e quiet =
        let w1 = (os.so_error c.socket_fd e.world).1 in
        let (m, sent) = lost.fails chunk w1 in
        (
          m,
          rw (quiet, sent) refl,
          os.send_failed c.socket_fd chunk w1 sent ∙ os.so_error_stream c.socket_fd e.world,
          lost.no_new chunk w1 (lost.cleared e.world),
        )

    -- Without a pending error each attempt is counted, and the eleventh is the last.
    quiet_loop :
        (fuel attempts n : ℕ) (buf : List ℕ) (e : Env World)
        → attempts ≤ max_attempts
        → max_attempts + 1 ≤ attempts + fuel
        → n < length buf
        → (os.so_error c.socket_fd e.world).0 ≡ 0
        → Returns (GaveUp c e) (send_loop os fuel attempts n buf given e)
    unfolding send_loop
    quiet_loop zero attempts n buf e few enough more quiet = absurd (omega arith)
    quiet_loop (suc k) attempts n buf e few enough more quiet =
        let chunk = take (next_size (length buf - n)) (drop n buf) in
        let again : ℕ → ℕ → Connection → Env World → Run (Connection × Env World) =
          λ attempts1 i c1 e1. send_loop os k attempts1 i buf c1 e1 in
        let (m, gives, same, quiet') = chunk_quiet attempts chunk e quiet in
        rw (lt→ltb n (length buf) more, send_loop, gives)
          (elim (Bool-cases (ltb max_attempts (attempts + 1))) [
            | inl over ↦ rw (next_send_end again n m (attempts + 1) given _ over) (refl, same)
            | inr few' ↦ rw (next_send_again again n m (attempts + 1) given _ few') (
                Returns-mono (GaveUp c (record e { world = behind chunk e })) (GaveUp c e) _
                  (λ (c', e') (off, wrote). (off, wrote ∙ same))
                  (quiet_loop k (attempts + 1) n buf (record e { world = behind chunk e })
                    (ground (arith, few')) (omega arith) more quiet'))
          ])

  -- A pending error is read once, and the attempts are counted behind it.
  send_loop-GaveUp :
      (fuel : ℕ) (buf : List ℕ) (c : Connection) (e : Env World)
      → Lost c.socket_fd
      → 12 ≤ fuel
      → 0 < length buf
      → Returns (GaveUp c e) (send_loop os fuel 0 0 buf c e)
  unfolding send_loop
  send_loop-GaveUp zero buf c e lost enough more = absurd (omega arith)
  send_loop-GaveUp (suc k) buf c e lost enough more =
      elim (Bool-cases ((os.so_error c.socket_fd e.world).0 == 0)) [
        | inl quiet ↦
            quiet_loop c lost c.active (suc k) 0 0 buf e (omega arith) (omega arith) more
              (ground (arith, quiet))
        | inr pending ↦
            let e1 = (give_up c (record e { world = (os.so_error c.socket_fd e.world).1 })).1 in
            rw
              (
                lt→ltb 0 (length buf) more,
                send_loop,
                chunk_pending 0 (take (next_size (length buf - 0)) (drop 0 buf)) c e pending,
                next_send_again,
              )
              (Returns-mono (GaveUp c e1) (GaveUp c e) _
                (λ (c', e') (off, wrote). (off, wrote ∙ os.so_error_stream c.socket_fd e.world))
                (quiet_loop c lost false k 0 0 buf e1 (omega arith) (omega arith) more
                  (lost.cleared e.world)))
      ]

  -- Nothing is left to send.
  ended :
      (fuel : ℕ) (buf : List ℕ) (c : Connection) (e e1 : Env World)
      → 12 ≤ fuel
      → ltb 0 (length buf) ≡ false
      → os.stream c.socket_fd e1.world ≡ os.stream c.socket_fd e.world
      → Returns (GaveUp c e) (send_loop os fuel 0 0 buf (record c { active = false }) e1)
  unfolding send_loop
  ended zero buf c e e1 enough empty same = absurd (omega arith)
  ended (suc k) buf c e e1 enough empty same = rw (empty, send_loop) (refl, same)

  -- On a connection that is lost, of which no call of `send` takes a byte, with or without an error
  -- that is pending, `Send` returns within twelve rounds for the size
  -- and twelve for the message, gives the connection up, and has written nothing to it.
  pub send_fails :
      (fuel : ℕ) (d : PiVisionData) (c : Connection) (e : Env World)
      → Lost c.socket_fd
      → 12 ≤ fuel
      → Returns (GaveUp c e) (send os fuel d c e)
  unfolding send
  send_fails fuel d c e lost enough =
      Returns-bind (GaveUp c e) (GaveUp c e) (send_loop os fuel 0 0 (le32 (get_size d)) c e) _
        (send_loop-GaveUp fuel (le32 (get_size d)) c e lost enough
          (omega (arith, length-le32 (get_size d))))
        λ (c1, e1) (off, same).
          subst (λ k. Returns (GaveUp c e) (send_loop os fuel 0 0 d.buf k e1)) (sym off)
            (elim (Bool-cases (ltb 0 (length d.buf))) [
              | inl more ↦
                  Returns-mono (GaveUp (record c { active = false }) e1) (GaveUp c e) _
                    (λ (c2, e2) (off2, same2). (off2, same2 ∙ same))
                    (send_loop-GaveUp fuel d.buf (record c { active = false }) e1 lost enough
                      (ltb→lt 0 (length d.buf) more))
              | inr empty ↦ ended fuel d.buf c e e1 enough empty same
            ])
