-- ===== src/Cpp/Connection/Quiet.antt =====
-- `Receive` writes nothing and changes no member but `active`.
use pi_vision.Base.{
  ℕ, zero, suc, ◌+◌, ◌-◌, ◌^◌, ◌≡◌, refl, Bool, true, false, List, [], ◌∷◌, ltb, ◌==◌, length, Run,
  ok, fault, ℤ, Keeps, Keeps-bind, Keeps-mono, Bool-cases, inl, inr, ap, sym, subst, ◌∙◌, ◌>>=◌,
}
use pi_vision.Sockets.{Sockets}
use pi_vision.Cpp.Events.{PiVisionData, append}
use pi_vision.Cpp.Connection.{
  Connection, Env, receive_chunk, next_receive, receive_loop, receive, max_attempts, give_up,
  next_size,
}

module _ (os : Sockets) where
  open os use {World}

  -- `recv` on the socket writes nothing to it.
  abbrev pub Reads : ℤ → Type 0
  Reads fd = (n : ℕ) (w : World) → os.stream fd (os.recv fd n w).1 ≡ os.stream fd w

  -- The connection is the same but for `active`, and so is what has been written.
  abbrev pub Quiet : Connection → Env World → Connection × Env World → Type 0
  Quiet c e (c', e') =
      ((b : Bool) × (c' ≡ record c { active = b }))
      × (os.stream c.socket_fd e'.world ≡ os.stream c.socket_fd e.world)

  Quiet-trans :
      (c c1 c2 : Connection) (e e1 e2 : Env World)
      → Quiet c e (c1, e1)
      → Quiet c1 e1 (c2, e2)
      → Quiet c e (c2, e2)
  Quiet-trans c c1 c2 e e1 e2 ((b, same), st) ((b', same'), st') = (
    (b', same' ∙ ap {A = Connection} (λ k. record k { active = b' }) same),
    subst (λ fd. os.stream fd e2.world ≡ os.stream fd e1.world) (ap (λ k. k.socket_fd) same) st'
        ∙ st,
  )

  receive_chunk-Quiet :
      (missing : ℕ) (c : Connection) (e : Env World)
      → Reads c.socket_fd
      → Quiet c e ((receive_chunk os missing c e).1, (receive_chunk os missing c e).2)
  unfolding receive_chunk
  receive_chunk-Quiet missing c e reads =
      elim (Bool-cases ((os.so_error c.socket_fd e.world).0 == 0)) [
        | inl fine ↦ rw fine (
          (c.active, refl),
          reads (next_size missing) (os.so_error c.socket_fd e.world).1
              ∙ os.so_error_stream c.socket_fd e.world,
        )
        | inr lost ↦ rw lost ((false, refl), os.so_error_stream c.socket_fd e.world)
      ]

  abbrev Then : Connection → Env World → PiVisionData × Connection × Env World → Type 0
  Then c e (d, c', e') = Quiet c e (c', e')

  next_receive-Quiet :
      (again : ℕ
        → ℕ
        → PiVisionData
        → Connection
        → Env World
        → Run (PiVisionData × Connection × Env World))
      (attempts n : ℕ) (d : PiVisionData) (bytes : List ℕ) (c c1 : Connection) (e e1 : Env World)
      → Quiet c e (c1, e1)
      → ((attempts1 m : ℕ) (d1 : PiVisionData) → Keeps (Then c e) (again attempts1 m d1 c1 e1))
      → Keeps (Then c e) (next_receive os again attempts n d (bytes, c1, e1))
  unfolding next_receive
  next_receive-Quiet again attempts n d [] c c1 e e1 (same, st) loop =
      elim (c1.active)
        as (λ b. Keeps (Then c e) (elim b [
          | false ↦ ok (d, c1, e1)
          | true ↦ elim (ltb max_attempts (attempts + 1)) [
            | true ↦ (let (c2, e2) = give_up c1 e1 in ok (d, c2, e2))
            | false ↦ again (attempts + 1) n d c1 e1
          ]
        ])) [
          | false ↦ (same, st)
          | true ↦
              elim (ltb max_attempts (attempts + 1))
                as (λ b. Keeps (Then c e) (elim b [
                  | true ↦ (let (c2, e2) = give_up c1 e1 in ok (d, c2, e2))
                  | false ↦ again (attempts + 1) n d c1 e1
                ])) [
                  | true ↦
                      ((false, ap {A = Connection} (λ k. record k { active = false }) same.1), st)
                  | false ↦ loop (attempts + 1) n d
                ]
        ]
  next_receive-Quiet again attempts n d (b ∷ bs) c c1 e e1 quiet loop =
      elim (ltb (n + length (b ∷ bs)) (2 ^ 31))
        as (λ t. Keeps (Then c e) (elim t [
          | true ↦ append (b ∷ bs) d >>= λ (d', _). again 0 (n + length (b ∷ bs)) d' c1 e1
          | false ↦ fault
        ])) [
          | true ↦
              Keeps-bind (Then c e) (append (b ∷ bs) d) _
                (λ (d', _). loop 0 (n + length (b ∷ bs)) d')
          | false ↦ tt
        ]

  receive_loop-Quiet :
      (k attempts n total : ℕ) (d : PiVisionData) (c : Connection) (e : Env World)
      → Reads c.socket_fd
      → Keeps (Then c e) (receive_loop os k attempts n total d c e)
  unfolding receive_loop
  receive_loop-Quiet zero attempts n total d c e reads = tt
  receive_loop-Quiet (suc k) attempts n total d c e reads = elim (Bool-cases (ltb n total)) [
    | inr all ↦ rw (all, receive_loop) ((c.active, refl), refl)
    | inl more ↦
        let (bytes, c1, e1) = receive_chunk os (total - n) c e in
        let quiet : Quiet c e (c1, e1) = receive_chunk-Quiet (total - n) c e reads in
        rw (more, receive_loop)
          (next_receive-Quiet (λ a m d2 c2 e2. receive_loop os k a m total d2 c2 e2) attempts n d
            bytes c c1 e e1 quiet
            (λ a m d1.
              Keeps-mono (Then c1 e1) (Then c e) _
                (λ (d2, c2, e2) q. Quiet-trans c c1 c2 e e1 e2 quiet q)
                (receive_loop-Quiet k a m total d1 c1 e1
                  (subst Reads (sym (ap (λ c'. c'.socket_fd) quiet.0.1)) reads))))
  ]

  pub receive-Quiet :
      (fuel total : ℕ) (d : PiVisionData) (c : Connection) (e : Env World)
      → Reads c.socket_fd
      → Keeps (λ (d', c', e'). Quiet c e (c', e')) (receive os fuel total d c e)
  unfolding receive
  receive-Quiet fuel total d c e reads = receive_loop-Quiet fuel 0 0 total d c e reads
