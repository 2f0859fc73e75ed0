-- ===== src/Cpp/Connection/Messages.antt =====
-- What `Receive` and the loop of `Execute` make of the bytes that arrive, in whatever pieces.
use pi_vision.Base.{
  ℕ, zero, suc, ◌+◌, ◌-◌, ◌^◌, ◌≤◌, ◌<◌, ◌≡◌, refl, List, [], ◌∷◌, ◌++◌, arith, ltb, length,
  length-take, length-drop, length-append, take, drop, take_sum, drop-drop, take-append,
  drop-append, ℤ, Run, ok, Returns, Returns-mono, Returns→ok, Bool-cases, ltb→lt, lt→ltb, ap, sym,
  subst, ◌∙◌, inl, inr,
}
use pi_vision.ImageDataTl.{le32}
use pi_vision.ImageDataTl.Frame.{length-le32}
use pi_vision.Sockets.{Sockets, received}
use pi_vision.Cpp.Events.{PiVisionData, new_data}
use pi_vision.Cpp.Events.Buffer.{append-ok}
use pi_vision.Cpp.Connection.{
  Connection, Env, next_size, next_receive, receive_loop, receive, number_at, take_message,
  receive_message,
}
use pi_vision.Cpp.Connection.Receives.{receive_chunk_ok}

abbrev pub whole : List ℕ → PiVisionData
whole bytes = record { capacity = length bytes; buf = bytes }

-- The size in front of a message is read back.
number_at-le32 :
    (n : ℕ) (rest : List ℕ)
    → n < 2 ^ 32
    → number_at 0 (record { capacity = 4; buf = take 4 (le32 n ++ rest) }) ≡ n
unfolding le32
number_at-le32 n rest small = omega arith

module _ (os : Sockets) where
  open os use {World}

  -- The socket has no error, and each call of `recv` takes bytes from the front of those that are to
  -- come, one at least while there are any, and writes none; `send` takes none.
  pub record Gives (fd : ℤ) : Type 0 where
    pub pending : World → List ℕ
    pub no_error : (w : World) → (os.so_error fd w).0 ≡ 0
    pub error_keeps : (w : World) → pending (os.so_error fd w).1 ≡ pending w
    pub gives :
        (n : ℕ) (w : World)
        → 0 < n
        → 0 < length (pending w)
        → (m : ℕ) × (suc m ≤ n)
          × (suc m ≤ length (pending w))
          × ((os.recv fd n w).0 ≡ received (take (suc m) (pending w)))
          × (pending (os.recv fd n w).1 ≡ drop (suc m) (pending w))
    pub send_keeps : (bytes : List ℕ) (w : World) → pending (os.send fd bytes w).1 ≡ pending w
    pub recv_stream : (n : ℕ) (w : World) → os.stream fd (os.recv fd n w).1 ≡ os.stream fd w

  next_receive_some :
      (again : ℕ
        → ℕ
        → PiVisionData
        → Connection
        → Env World
        → Run (PiVisionData × Connection × Env World))
      (attempts n : ℕ) (d : PiVisionData) (bytes : List ℕ) (c : Connection) (e : Env World)
      → 0 < length bytes
      → length d.buf ≡ n
      → n + length bytes ≤ d.capacity
      → d.capacity < 2 ^ 31
      → next_receive os again attempts n d (bytes, c, e)
        ≡ again 0 (n + length bytes) (record d { buf = d.buf ++ bytes }) c e
  unfolding next_receive
  next_receive_some again attempts n d [] c e some_bytes len fits small = absurd (omega arith)
  next_receive_some again attempts n d (b ∷ bs) c e some_bytes len fits small =
      rw
        (
          lt→ltb (n + length (b ∷ bs)) (2 ^ 31) (omega arith),
          next_receive,
          append-ok (b ∷ bs) d (omega arith) (omega arith),
        )
        refl

  receive_message-parts :
      (fuel n : ℕ) (c c1 : Connection) (e : Env World) (d1 : PiVisionData) (e1 : Env World)
      (d2 : PiVisionData) (e2 : Env World)
      → receive os fuel 4 (new_data 4) c e ≡ ok (d1, c1, e1)
      → number_at 0 d1 ≡ n
      → 0 < n
      → receive os fuel n (new_data n) c1 e1 ≡ ok (d2, c1, e2)
      → receive_message os fuel c e ≡ take_message os fuel n d2 c1 e2
  unfolding receive_message
  receive_message-parts fuel n c c1 e d1 e1 d2 e2 header size some_bytes body =
      rw (header, size, body, lt→ltb 0 n some_bytes) refl

  module _ (c : Connection) (g : Gives c.socket_fd) where
    open g use {pending}

    -- The first bytes of those to come are in the buffer, and no more of them have been taken; the
    -- connection, the calls and what is written are as before.
    abbrev pub Whole : ℕ → List ℕ → Env World → PiVisionData × Connection × Env World → Type 0
    Whole total bytes e (d', c', e') =
        (d' ≡ record { capacity = total; buf = take total bytes })
        × (c' ≡ c)
        × (e'.calls ≡ e.calls)
        × (pending e'.world ≡ drop total bytes)
        × (os.stream c.socket_fd e'.world ≡ os.stream c.socket_fd e.world)

    receive_loop-Whole :
        (k attempts n total : ℕ) (bytes : List ℕ) (e : Env World)
        → total < 2 ^ 31
        → total ≤ length bytes
        → n ≤ total
        → pending e.world ≡ drop n bytes
        → total - n < k
        → Returns (Whole total bytes e) (
            receive_loop os k attempts n total
              (record { capacity = total; buf = take n bytes })
              c
              e)
    unfolding receive_loop
    receive_loop-Whole zero attempts n total bytes e small enough le left fuel =
        absurd (omega arith)
    receive_loop-Whole (suc k) attempts n total bytes e small enough le left fuel =
        elim (Bool-cases (ltb n total)) [
          | inl more ↦
              let missing : n < total = ltb→lt n total more in
              let w1 = (os.so_error c.socket_fd e.world).1 in
              let left1 : pending w1 ≡ drop n bytes = g.error_keeps e.world ∙ left in
              let behind : length (drop n bytes) ≡ length bytes - n = length-drop n bytes in
              let some_left : 0 < length (pending w1) =
                subst (λ p. 0 < length p) (sym left1) (omega (arith, behind)) in
              let size : next_size (total - n) ≤ total - n = ground arith in
              let (m, fits, there, got, rest) =
                g.gives (next_size (total - n)) w1 (ground (arith, missing)) some_left in
              let there' : suc m ≤ length bytes - n =
                omega (arith, behind, subst (λ p. suc m ≤ length p) left1 there) in
              let chunk = take (suc m) (drop n bytes) in
              let len : length chunk ≡ suc m =
                omega (arith, length-take (suc m) (drop n bytes), behind) in
              let e1 = record e { world = (os.recv c.socket_fd (next_size (total - n)) w1).1 } in
              rw
                (
                  more,
                  receive_loop,
                  receive_chunk_ok os (total - n) c e (g.no_error e.world),
                  got ∙ ap (λ p. received (take (suc m) p)) left1,
                  next_receive_some
                      (λ attempts1 m d1 c1 e1. receive_loop os k attempts1 m total d1 c1 e1)
                      attempts n (record { capacity = total; buf = take n bytes }) chunk c e1
                      (omega (arith, len)) (omega (arith, length-take n bytes)) (omega (arith, len))
                      small,
                  len,
                  ← take_sum n (suc m) bytes,
                )
                (Returns-mono (Whole total bytes e1) (Whole total bytes e) _
                  (λ r (d', c', calls, p, st). (
                    d',
                    c',
                    calls,
                    p,
                    st
                        ∙ g.recv_stream (next_size (total - n)) w1
                        ∙ os.so_error_stream c.socket_fd e.world,
                  ))
                  (receive_loop-Whole k 0 (n + suc m) total bytes e1 small enough (omega arith)
                    (rest ∙ ap (drop (suc m)) left1 ∙ drop-drop (suc m) n bytes) (omega arith)))
          | inr last ↦
              let all : n ≡ total = ground (arith, last) in
              rw (last, receive_loop)
                (
                  ap (λ i. record { capacity = total; buf = take i bytes }) all,
                  refl,
                  refl,
                  left ∙ ap (λ i. drop i bytes) all,
                  refl,
                )
        ]

    receive-Whole :
        (fuel total : ℕ) (bytes : List ℕ) (e : Env World)
        → total < 2 ^ 31
        → total ≤ length bytes
        → pending e.world ≡ bytes
        → total < fuel
        → Returns (Whole total bytes e) (receive os fuel total (new_data total) c e)
    unfolding receive
    receive-Whole fuel total bytes e small enough left room =
        receive_loop-Whole fuel 0 0 total bytes e small enough (omega arith) left (omega arith)

    -- Over a socket without errors that gives at least one byte with each call while there are any, the
    -- bytes that `Send` writes for a message of at least one byte and fewer than 2 ^ 31 are received as
    -- the message, in whatever pieces they arrive: it is what `take_message` is called with, and no
    -- byte behind it has been taken. Fuel for its bytes is enough.
    pub receive_message-Whole :
        (fuel : ℕ) (body rest : List ℕ) (e : Env World)
        → 0 < length body
        → length body < 2 ^ 31
        → 4 < fuel
        → length body < fuel
        → pending e.world ≡ le32 (length body) ++ (body ++ rest)
        → (e' : Env World) × (receive_message os fuel c e
            ≡ take_message os fuel (length body) (whole body) c e')
          × (e'.calls ≡ e.calls)
          × (pending e'.world ≡ rest)
          × (os.stream c.socket_fd e'.world ≡ os.stream c.socket_fd e.world)
    unfolding receive_message
    receive_message-Whole fuel body rest e some_bytes small four room left =
        let bytes = le32 (length body) ++ (body ++ rest) in
        let ((d1, c1, e1), r1, (d1_is, c1_is, calls1, left1, st1)) =
          Returns→ok (Whole 4 bytes e) (receive os fuel 4 (new_data 4) c e) (
            receive-Whole fuel 4 bytes e (omega arith)
              (omega (
                arith,
                length-append (le32 (length body)) (body ++ rest),
                length-le32 (length body),
              ))
              left four) in
        let ((d2, c2, e2), r2, (d2_is, c2_is, calls2, left2, st2)) =
          Returns→ok (Whole (length body) (body ++ rest) e1)
            (receive os fuel (length body) (new_data (length body)) c e1)
            (receive-Whole fuel (length body) (body ++ rest) e1 small
              (omega (arith, length-append body rest))
              (left1
                ∙ drop-append (le32 (length body)) (body ++ rest) 4 (length-le32 (length body)))
              room) in
        let size : number_at 0 d1 ≡ length body =
          ap (number_at 0) d1_is ∙ number_at-le32 (length body) (body ++ rest) (omega arith) in
        (
          e2,
          receive_message-parts fuel (length body) c c e d1 e1 d2 e2
                (r1 ∙ ap (λ k. ok (d1, k, e1)) c1_is) size some_bytes
                (r2 ∙ ap (λ k. ok (d2, k, e2)) c2_is)
              ∙ ap (λ d. take_message os fuel (length body) d c e2)
                  (d2_is
                    ∙ ap (λ b. record { capacity = length body; buf = b })
                        (take-append body rest (length body) refl)),
          calls2 ∙ calls1,
          left2 ∙ drop-append body rest (length body) refl,
          st2 ∙ st1,
        )
