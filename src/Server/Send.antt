-- ===== src/Server/Send.antt =====
-- What `SERVER_send` puts on a client's stream.
use pi_vision.Base.{
  ℕ, zero, suc, ◌+◌, ◌≤◌, ◌<◌, ◌≡◌, refl, ◌≢◌, inl, inr, some, List, [], ◌∷◌, ◌++◌, arith, ltb,
  length, take, All, ℤ, pos, negsuc, minus_one, ok, Halts, Halts-mono, Halts-bind, Returns,
  Bool-cases, ap, ◌∙◌, sym, lt→ltb, ne→==, Returns-bind, take_all, ltb→lt, Returns-mono,
  out_of_fuel, ◌-◌, le→ltb, slice_whole, slice, le→leb, length-take, ◌==◌,
}
use native.Mathlib.Nat.{le_refl}
use pi_vision.Chain.Seg
use mathlib.Core.List.{append_assoc, append-nil}
use pi_vision.Chain.{Ptr, null, load}
use pi_vision.Sockets.{Sockets}
use pi_vision.Server.{ServerContext, context_link, Server, sent_after, send_loop, send}

-- The bytes of calls that took so many from the front of the buffer each.
abbrev pub fronts : List ℕ → List ℕ → List ℕ
fronts buf [] = []
fronts buf (n ∷ ns) = take n buf ++ fronts buf ns

abbrev pub total : List ℕ → ℕ
total [] = 0
total (n ∷ ns) = n + total ns

module _ (os : Sockets) where
  open os use {World}

  -- Every call of `send` on the socket takes at least one byte of what it is given.
  abbrev pub Progress : ℤ → List ℕ → Type 0
  Progress fd buf = (w : World) → (n : ℕ) × ((os.send fd buf w).0 ≡ pos (suc n))

  -- The bytes of the calls that were made, which together took at least what was still to be sent.
  abbrev pub Written : ℤ → List ℕ → ℕ → World → World → Type 0
  Written fd buf sent w w' =
      (ns : List ℕ) × (os.stream fd w' ≡ os.stream fd w ++ fronts buf ns)
      × (length buf ≤ sent + total ns)
      × All (λ n. n ≤ length buf) ns

  Written-cons :
      (fd : ℤ) (buf : List ℕ) (sent n : ℕ) (w : World) {w' : World}
      → (os.send fd buf w).0 ≡ pos n
      → Written fd buf (sent + n) (os.send fd buf w).1 w'
      → Written fd buf sent w w'
  Written-cons fd buf sent n w e (ns, s, enough, fit) = (
    n ∷ ns,
    s
        ∙ ap (λ t. t ++ fronts buf ns) (os.send_stream fd buf w e)
        ∙ append_assoc (os.stream fd w) (take n buf) (fronts buf ns),
    omega arith,
    (os.send-le fd buf w e, fit),
  )

  -- The loop of `SERVER_send` from a number of bytes that counts as sent.
  pub send_loop-Written :
      (k : ℕ) (fd : ℤ) (buf : List ℕ) (sent : ℕ) (w : World)
      → Progress fd buf
      → length buf - sent < k
      → Returns (Written fd buf sent w) (send_loop os k fd buf sent w)
  unfolding send_loop
  send_loop-Written zero fd buf sent w go enough = absurd (omega arith)
  send_loop-Written (suc k) fd buf sent w go enough = elim (Bool-cases (ltb sent (length buf))) [
    | inl more ↦
        let (n, e) = go w in
        rw (more, e)
          (Returns-mono (Written fd buf (sent + suc n) (os.send fd buf w).1) (Written fd buf sent w)
            _ (λ w'. Written-cons fd buf sent (suc n) w e)
            (send_loop-Written k fd buf (sent + suc n) (os.send fd buf w).1 go
              (omega (arith, ltb→lt sent (length buf)))))
    | inr last ↦ rw last ([], sym (append-nil (os.stream fd w)), ground arith, tt)
  ]

  -- From a world on, calls of `send` with a buffer come to one that takes no byte of it.
  pub data Refuses (fd : ℤ) (buf : List ℕ) : World → Type 0 where
    nothing : {w : World} → (os.send fd buf w).0 ≡ pos 0 → Refuses fd buf w
    failing : {w : World} (n : ℕ) → (os.send fd buf w).0 ≡ negsuc n → Refuses fd buf w
    later : {w : World} → Refuses fd buf (os.send fd buf w).1 → Refuses fd buf w

  -- A service has a client whose socket comes to refuse a buffer that is not empty.
  abbrev pub Refused : Ptr → Server → World → Type 0
  Refused p s w =
      (c : ServerContext) × (s.contexts p ≡ some c)
      × (c.connected ≢ 0)
      × (buf : List ℕ) × (0 < length buf)
      × Refuses c.client_socket buf w

  -- The loop of `SERVER_send` has no fault and no exit.
  send_loop-Safe :
      (k : ℕ) (fd : ℤ) (buf : List ℕ) (sent : ℕ) (w : World)
      → Halts (λ w'. Unit {0}) ⊥ Unit (send_loop os k fd buf sent w)
  unfolding send_loop
  send_loop-Safe zero fd buf sent w = tt
  send_loop-Safe (suc k) fd buf sent w = elim (Bool-cases (ltb sent (length buf))) [
    | inl more ↦ rw more (send_loop-Safe k fd buf _ _)
    | inr last ↦ rw last tt
  ]

  -- With fuel for more calls than bytes it ends, unless a call takes no byte.
  pub send_loop-Halts :
      (k : ℕ) (fd : ℤ) (buf : List ℕ) (sent : ℕ) (w : World)
      → length buf - sent < k
      → Halts (λ w'. Unit {0}) ⊥ (Refuses fd buf w) (send_loop os k fd buf sent w)
  unfolding send_loop
  send_loop-Halts zero fd buf sent w enough = absurd (omega arith)
  send_loop-Halts (suc k) fd buf sent w enough = elim (Bool-cases (ltb sent (length buf))) [
    | inr last ↦ rw last tt
    | inl more ↦ rw more (
        answered (os.send fd buf w).0 refl (ltb→lt sent (length buf) more)
          (λ sent' w' enough'. send_loop-Halts k fd buf sent' w' enough'))
  ]
    where
      answered :
          (r : ℤ)
          → (os.send fd buf w).0 ≡ r
          → sent < length buf
          → ((sent' : ℕ) (w' : World)
              → length buf - sent' < k
              → Halts (λ w''. Unit {0}) ⊥ (Refuses fd buf w') (send_loop os k fd buf sent' w'))
          → Halts
              (λ w'. Unit {0})
              ⊥
              (Refuses fd buf w)
              (send_loop os k fd buf (sent_after (os.send fd buf w).0 sent) (os.send fd buf w).1)
      answered (pos zero) e more loop =
          Halts-mono (λ w'. Unit {0}) (λ w'. Unit {0}) ⊥ ⊥ Unit (Refuses fd buf w) _ (λ a h. h)
            (λ h. h) (λ h. nothing e) (send_loop-Safe k fd buf _ _)
      answered (pos (suc n)) e more loop =
          Halts-mono (λ w'. Unit {0}) (λ w'. Unit {0}) ⊥ ⊥ (Refuses fd buf (os.send fd buf w).1)
            (Refuses fd buf w) _ (λ a h. h) (λ h. h) (λ h. later h)
            (loop _ _ (rw e (omega (arith, enough, more))))
      answered (negsuc n) e more loop =
          Halts-mono (λ w'. Unit {0}) (λ w'. Unit {0}) ⊥ ⊥ Unit (Refuses fd buf w) _ (λ a h. h)
            (λ h. h) (λ h. failing n e) (send_loop-Safe k fd buf _ _)

  module _ (p : Ptr) (c : ServerContext) (s : Server) (ne : p ≢ null)
      (at : s.contexts p ≡ some c) where
    found : load s.contexts p ≡ ok c
    found = Seg.load-ok context_link s.contexts p c ne at

    -- To a connected client, whose socket takes at least one byte with each call, and with fuel for
    -- more calls than bytes, `SERVER_send` returns 0; what it has written is a front of the buffer
    -- for each call, together at least as long as the buffer.
    pub send-Written :
        (fuel : ℕ) (buf : List ℕ) (w : World)
        → c.connected ≢ 0
        → Progress c.client_socket buf
        → length buf < fuel
        → Returns
            (λ (r, w'). (r ≡ pos 0) × Written c.client_socket buf 0 w w')
            (send os fuel p buf (length buf) s w)
    unfolding send
    send-Written fuel buf w on go enough =
        rw (found, ne→== c.connected 0 on, slice_whole (length buf) buf refl)
          (Returns-bind (Written c.client_socket buf 0 w) _ _ _
            (send_loop-Written fuel c.client_socket buf 0 w go (omega arith))
            λ w' written. (refl, written))

    -- To a connected client whose socket takes a buffer that is not empty at once, exactly the
    -- buffer is written, and the result is 0.
    pub send_whole :
        (k : ℕ) (buf : List ℕ) (w : World)
        → c.connected ≢ 0
        → (os.send c.client_socket buf w).0 ≡ pos (length buf)
        → 0 < length buf
        → Returns
            (λ (r, w').
              (r ≡ pos 0) × (os.stream c.client_socket w' ≡ os.stream c.client_socket w ++ buf))
            (send os (suc (suc k)) p buf (length buf) s w)
    unfolding send send_loop
    send_whole k buf w on all some_bytes =
        rw
          (
            found,
            ne→== c.connected 0 on,
            slice_whole (length buf) buf refl,
            lt→ltb 0 (length buf) some_bytes,
            all,
            le→ltb (0 + length buf) (length buf) (omega arith),
          )
          (
            refl,
            os.send_stream c.client_socket buf w all
                ∙ ap (λ t. os.stream c.client_socket w ++ t)
                    (take_all (length buf) buf (le_refl (length buf))),
          )

    -- Where the socket of a connected client takes only a part of the buffer at first and then a
    -- whole buffer, the client receives that part twice: each call of `send` starts again at the
    -- front of the buffer.
    pub send_repeats :
        (k n : ℕ) (buf : List ℕ) (w : World)
        → c.connected ≢ 0
        → (os.send c.client_socket buf w).0 ≡ pos n
        → 0 < n
        → n < length buf
        → (os.send c.client_socket buf (os.send c.client_socket buf w).1).0 ≡ pos (length buf)
        → Returns
            (λ (r, w').
              (r ≡ pos 0)
              × (os.stream c.client_socket w' ≡ os.stream c.client_socket w ++ take n buf ++ buf))
            (send os (suc (suc (suc k))) p buf (length buf) s w)
    unfolding send send_loop
    send_repeats k n buf w on part some_bytes short all =
        let w1 = (os.send c.client_socket buf w).1 in
        rw
          (
            found,
            ne→== c.connected 0 on,
            slice_whole (length buf) buf refl,
            lt→ltb 0 (length buf) (omega arith),
            part,
            lt→ltb (0 + n) (length buf) (omega arith),
            all,
            le→ltb (0 + n + length buf) (length buf) (omega arith),
          )
          (
            refl,
            os.send_stream c.client_socket buf w1 all
                ∙ ap (λ t. os.stream c.client_socket w1 ++ t)
                    (take_all (length buf) buf (le_refl (length buf)))
                ∙ ap (λ t. t ++ buf) (os.send_stream c.client_socket buf w part),
          )

    -- A call of `SERVER_send` of a part that has bytes ends, with fuel for more calls than bytes,
    -- unless its service has a client whose socket refuses to take any.
    pub send-Halts :
        (fuel n : ℕ) (buf : List ℕ) (w : World)
        → 0 < n
        → n ≤ length buf
        → n < fuel
        → Halts (λ r. Unit {0}) ⊥ (Refused p s w) (send os fuel p buf n s w)
    unfolding send slice
    send-Halts fuel n buf w some_bytes fits enough = elim (Bool-cases (c.connected == 0)) [
      | inl off ↦ rw (found, off) tt
      | inr on ↦
          rw (found, on, le→leb (0 + n) (length buf) (omega (arith, fits)))
            (Halts-bind (λ w'. Unit {0}) ⊥ (Refused p s w) (λ r. Unit {0}) _ _
              (Halts-mono (λ w'. Unit {0}) (λ w'. Unit {0}) ⊥ ⊥
                (Refuses c.client_socket (take n buf) w) (Refused p s w) _ (λ a h. h) (λ h. h)
                (λ h. (
                  c,
                  at,
                  ground (arith, on),
                  take n buf,
                  omega (arith, length-take n buf, some_bytes, fits),
                  h,
                ))
                (send_loop-Halts fuel c.client_socket (take n buf) 0 w
                  (omega (arith, length-take n buf, enough))))
              λ w' h. tt)
    ]

    -- Without a client nothing is sent, and the result is -1.
    pub send_unconnected :
        (fuel : ℕ) (buf : List ℕ) (size : ℕ) (w : World)
        → c.connected ≡ 0
        → send os fuel p buf size s w ≡ ok (minus_one, w)
    unfolding send
    send_unconnected fuel buf size w off = rw (found, off)

  stuck_loop :
      (k : ℕ) (fd : ℤ) (buf : List ℕ) (w : World)
      → ((w : World) → (n : ℕ) × ((os.send fd buf w).0 ≡ negsuc n))
      → 0 < length buf
      → send_loop os k fd buf 0 w ≡ out_of_fuel
  unfolding send_loop
  stuck_loop zero fd buf w fails some_bytes = refl
  stuck_loop (suc k) fd buf w fails some_bytes =
      let (n, e) = fails w in
      rw (lt→ltb 0 (length buf) some_bytes, e)
        (stuck_loop k fd buf (os.send fd buf w).1 fails some_bytes)

  -- Where every call of `send` to a connected client fails, `SERVER_send` of a buffer that is not
  -- empty does not return, however many calls are allowed.
  pub send_stuck :
      (p : Ptr) (c : ServerContext) (s : Server) (fuel : ℕ) (buf : List ℕ) (w : World)
      → p ≢ null
      → s.contexts p ≡ some c
      → c.connected ≢ 0
      → 0 < length buf
      → ((w : World) → (n : ℕ) × ((os.send c.client_socket buf w).0 ≡ negsuc n))
      → send os fuel p buf (length buf) s w ≡ out_of_fuel
  unfolding send
  send_stuck p c s fuel buf w ne at on some_bytes fails = rw (
    Seg.load-ok context_link s.contexts p c ne at,
    ne→== c.connected 0 on,
    slice_whole (length buf) buf refl,
    stuck_loop fuel c.client_socket buf w fails some_bytes,
  )
