-- ===== src/Server/Pass.antt =====
-- A call of the server's run function: the requests of all services, and then the connections.
use pi_vision.Base.{
  ℕ, ◌≤◌, ◌<◌, ◌≡◌, refl, inl, inr, none, some, List, ◌==◌, length, Run, ok, exit, fault,
  out_of_fuel, Ends, Ends-bind, Ends-mono, Returns→Ends, ◌>>=◌, Bool-cases, arith, Option, eq→==,
  Returns-mono,
}
use pi_vision.Chain.{null}
use pi_vision.Chain.Each
use pi_vision.Chain.Each.{Agrees, Related, Related-eq, MeetsAlong}
use pi_vision.Sockets.{Sockets, SockaddrIn}
use pi_vision.Server.{
  Server, ServerContext, context_link, message_buf_size, answer_request, serve_discovery,
  handle_new_service_discovery_requests, run,
}
use pi_vision.Server.Poll.{Services, Published, Accepted, handle_new_connections-Accepted}
use pi_vision.Server.Discovery.{serve_discovery_connected}

module _ (os : Sockets) where
  open os use {World}

  -- A request to a service without a client that fills `messageBuf`.
  pub data Requested (c : ServerContext) (t : SockaddrIn × World) : Type 0 where
    long :
        {bytes : List ℕ} {sender : SockaddrIn}
        → c.connected ≡ 0
        → (os.recvfrom c.service_discovery_socket message_buf_size t.1).0 ≡ some (bytes, sender)
        → message_buf_size ≤ length bytes
        → Requested c t

  -- On its way over the services the pass comes to such a request.
  abbrev pub LongRequest : List ℕ → Services → SockaddrIn × World → Type 0
  LongRequest own = MeetsAlong (serve_discovery os own) Requested

  answered :
      {A : Type 0} (P : A → Type 0) (own : List ℕ) (c : ServerContext) (bytes : List ℕ)
      (addr : SockaddrIn) (w : World) (k : World → Run A)
      → ((w' : World) → Ends P (message_buf_size ≤ length bytes) (k w'))
      → Ends P (message_buf_size ≤ length bytes) (answer_request os own c bytes addr w >>= k)
  unfolding answer_request
  answered P own c bytes addr w k h =
      ground (arith, h w, h (os.sendto c.service_discovery_socket own addr w).1)

  request-Ends :
      (own : List ℕ) (c : ServerContext) (addr : SockaddrIn) (w : World)
      (r : Option (List ℕ × SockaddrIn))
      → (os.recvfrom c.service_discovery_socket message_buf_size w).0 ≡ r
      → c.connected ≡ 0
      → Ends (λ (c', t'). c' ≡ c) (Requested c (addr, w)) (serve_discovery os own c (addr, w))
  unfolding serve_discovery
  request-Ends own c addr w none e off = rw (eq→== c.connected 0 off, e, serve_discovery) refl
  request-Ends own c addr w (some (bytes, sender)) e off =
      rw (eq→== c.connected 0 off, e, serve_discovery)
        (Ends-mono (λ (c', t'). c' ≡ c) (λ (c', t'). c' ≡ c) (message_buf_size ≤ length bytes)
          (Requested c (addr, w)) _ (λ a k. k) (λ full. long off e full)
          (answered (λ (c', t'). c' ≡ c) own c bytes sender
            (os.recvfrom c.service_discovery_socket message_buf_size w).1
            (λ w2. ok (c, (sender, w2))) (λ w'. refl)))

  serve_discovery-Ends :
      (own : List ℕ) (c : ServerContext) (addr : SockaddrIn) (w : World)
      → Ends (λ (c', t'). c' ≡ c) (Requested c (addr, w)) (serve_discovery os own c (addr, w))
  serve_discovery-Ends own c addr w = elim (Bool-cases (c.connected == 0)) [
    | inl off ↦ request-Ends own c addr w _ refl (ground arith)
    | inr on ↦ rw (serve_discovery_connected os own c addr w (ground arith)) refl
  ]

  serve_discovery-Agrees :
      (own : List ℕ) (c : ServerContext) (t : SockaddrIn × World)
      → Agrees context_link c
          (serve_discovery os own c t)
          (serve_discovery os own (record c { next = null }) t)
  unfolding serve_discovery answer_request
  serve_discovery-Agrees own c (addr, w) = elim (Bool-cases (c.connected == 0)) [
    | inl off ↦ rw off (read (os.recvfrom c.service_discovery_socket message_buf_size w).0)
    | inr on ↦ rw on (Agrees.updates c refl)
  ]
    where
      w1 : World
      w1 = (os.recvfrom c.service_discovery_socket message_buf_size w).1

      told :
          (sender : SockaddrIn) (r : Run World)
          → Agrees context_link {T = SockaddrIn × World} c
              (r >>= λ w2. ok (c, (sender, w2)))
              (r >>= λ w2. ok (record c { next = null }, (sender, w2)))
      told sender (ok w2) = Agrees.updates c refl
      told sender (exit n) = Agrees.exits
      told sender fault = Agrees.faults
      told sender out_of_fuel = Agrees.runs_out

      read :
          (r : Option (List ℕ × SockaddrIn))
          → Agrees context_link {T = SockaddrIn × World} c
              (elim r [
                | none ↦ ok (c, (addr, w1))
                | some (bytes, sender) ↦
                    answer_request os own c bytes sender w1 >>= λ w2. ok (c, (sender, w2))
              ])
              (elim r [
                | none ↦ ok (record c { next = null }, (addr, w1))
                | some (bytes, sender) ↦
                    answer_request os own (record c { next = null }) bytes sender w1 >>= λ w2.
                    ok (record c { next = null }, (sender, w2))
              ])
      read none = Agrees.updates c refl
      read (some (bytes, sender)) = told sender (answer_request os own c bytes sender w1)

  requests-Ends :
      (fuel : ℕ) (s : Server) (xs : Services) (w : World)
      → Published s xs
      → length xs < fuel
      → Ends
          (λ (s', w'). Published s' xs)
          (LongRequest s.own_ip_address xs (s.addr, w))
          (handle_new_service_discovery_requests os fuel s w)
  unfolding handle_new_service_discovery_requests
  requests-Ends fuel s xs w published enough =
      let F = LongRequest s.own_ip_address xs (s.addr, w) in
      let same = λ (r : Services × (SockaddrIn × World)). Related (λ c c'. c' ≡ c) xs r.0 in
      Ends-bind (Each.Swept context_link s.contexts s.connections xs same) F
        (λ (s', w'). Published s' xs) _ _
        (Each.Matches-Ends context_link same F
          (Each.for_each-each context_link (serve_discovery os s.own_ip_address)
            (serve_discovery os s.own_ip_address) (serve_discovery-Agrees s.own_ip_address) fuel
            (s.addr, w) published enough)
          (Each.each-Ends (λ c c'. c' ≡ c) (serve_discovery os s.own_ip_address) Requested
            (λ c (addr, w'). serve_discovery-Ends s.own_ip_address c addr w') xs (s.addr, w)))
        λ (g, t') (ys, related, seg, kept). rw (Related-eq xs ys related) at seg

  pub run-Accepted :
      (fuel : ℕ) (s : Server) (xs : Services) (w : World)
      → Published s xs
      → length xs < fuel
      → Ends
          (λ (s', w'). (ys : Services) × Related Accepted xs ys × Published s' ys)
          (LongRequest s.own_ip_address xs (s.addr, w))
          (run os fuel s w)
  unfolding run
  run-Accepted fuel s xs w published enough =
      let Q : Server × World → Type 0 =
        λ (s', w'). (ys : Services) × Related Accepted xs ys × Published s' ys in
      let F = LongRequest s.own_ip_address xs (s.addr, w) in
      Ends-bind (λ (s', w'). Published s' xs) F Q _ _ (requests-Ends fuel s xs w published enough)
        λ (s1, w1) published1. Returns→Ends Q F _ (
          Returns-mono
            (λ (s', w').
              ((ys : Services) × Related Accepted xs ys × Published s' ys)
              × (s'.own_ip_address ≡ s1.own_ip_address)
              × (s'.addr ≡ s1.addr))
            Q _ (λ (s', w') (h, _, _). h)
            (handle_new_connections-Accepted os fuel s1 xs w1 published1 enough))
