-- ===== src/Server/Setup/Published.antt =====
-- What the publication of a service does to the list of services.
use pi_vision.Base.{
  ℕ, ◌≤◌, ◌≡◌, refl, ◌≢◌, Bool, true, false, Option, none, some, List, [], ◌∷◌, ◌++◌, arith, ◌∙◌,
  if◌then◌else◌, length, ℤ, minus_one, is_minus_one, is_negative, ok, exit, Ends, Ends-bind,
  Returns→Ends, ◌>>=◌, ap, sym, subst,
}
use pi_vision.Chain.{Ptr, Store, null, write, load, append}
use pi_vision.Chain.Seg
use pi_vision.Chain.Seg.{has}
use pi_vision.Decimal.{decimal}
use pi_vision.Sockets.{SockaddrIn, Addrinfo, Sockets, so_reuseaddr, af_inet, sock_dgram}
use pi_vision.Server.{ServerContext, context_link, Server}
use pi_vision.Server.Poll.{Services, Published}
use pi_vision.Server.Setup.{
  bind_first, listen_on, initiate_server_socket_fd, initiate_service_discovery_socket,
  publish_service,
}

-- A context that has no client yet, with whatever sockets.
abbrev pub fresh : ServerContext → ℤ → ℤ → ServerContext
fresh c server discovery = record c {
  next = null;
  connected = 0;
  client_socket = minus_one;
  server_socket = server;
  service_discovery_socket = discovery;
}

module _ (os : Sockets) where
  open os use {World}

  bind_first-Ends :
      (ps : List Addrinfo) (fd : ℤ) (w : World) → Ends (λ r. Unit) ⊥ (bind_first os ps fd w)
  unfolding bind_first
  bind_first-Ends [] fd w = tt
  bind_first-Ends (p ∷ ps) fd w =
      go (bind_first-Ends ps) (is_minus_one fd1)
        (is_minus_one (os.setsockopt fd1 so_reuseaddr w1).0)
        (is_minus_one (os.bind fd1 p.ai_addr w2).0)
    where
      fd1 : ℤ
      fd1 = (os.socket p.ai_family p.ai_socktype p.ai_protocol w).0

      w1 : World
      w1 = (os.socket p.ai_family p.ai_socktype p.ai_protocol w).1

      w2 : World
      w2 = (os.setsockopt fd1 so_reuseaddr w1).1

      w3 : World
      w3 = (os.bind fd1 p.ai_addr w2).1

      go :
          ((fd : ℤ) (w : World) → Ends (λ r. Unit) ⊥ (bind_first os ps fd w))
          → (lost refused taken : Bool)
          → Ends {A = Bool × ℤ × World}
              (λ r. Unit)
              ⊥
              (elim lost [
                | true ↦ bind_first os ps fd1 w1
                | false ↦ elim refused [
                  | true ↦ exit 1
                  | false ↦ elim taken [
                    | true ↦ bind_first os ps fd1 (os.close fd1 w3)
                    | false ↦ ok (true, fd1, w3)
                  ]
                ]
              ])
      go more true refused taken = more fd1 w1
      go more false true taken = refl
      go more false false true = more fd1 (os.close fd1 w3)
      go more false false false = tt

  listen_on-Ends : (fd : ℤ) (w : World) → Ends (λ r. Unit) ⊥ (listen_on os fd w)
  unfolding listen_on
  listen_on-Ends fd w = ground arith

  discovery-Ends :
      (c : ServerContext) (w : World)
      → Ends
          (λ (c', _, _). (fd : ℤ) × (c' ≡ record c { service_discovery_socket = fd }))
          ⊥
          (initiate_service_discovery_socket os c w)
  unfolding initiate_service_discovery_socket
  discovery-Ends c w =
      let fd1 = (os.socket af_inet sock_dgram 0 w).0 in
      let w1 = (os.socket af_inet sock_dgram 0 w).1 in
      let w2 = (os.setsockopt fd1 so_reuseaddr w1).1 in
      let own : SockaddrIn = record { sin_addr = 0; sin_port = c.service_discovery_port_no } in
      go (is_negative (os.setsockopt fd1 so_reuseaddr w1).0) (is_negative (os.bind fd1 own w2).0)
        fd1 own _
    where
      Made : ServerContext × SockaddrIn × World → Type 0
      Made (c', _, _) = (fd : ℤ) × (c' ≡ record c { service_discovery_socket = fd })

      go :
          (refused taken : Bool) (fd : ℤ) (addr : SockaddrIn) (w' : World)
          → Ends {A = ServerContext × SockaddrIn × World} Made ⊥ (
              if refused
              then exit 1
              else (if taken
                  then exit 1
                  else ok (record c { service_discovery_socket = fd }, addr, w')))
      go true taken fd addr w' = refl
      go false true fd addr w' = refl
      go false false fd addr w' = (fd, refl)

  server-Ends :
      (c : ServerContext) (w : World)
      → Ends
          (λ (c', w'). (fd : ℤ) × (c' ≡ record c { server_socket = fd }))
          ⊥
          (initiate_server_socket_fd os c w)
  unfolding initiate_server_socket_fd
  server-Ends c w = found (os.getaddrinfo [] (decimal c.served_port_no) w).0
    where
      w1 : World
      w1 = (os.getaddrinfo [] (decimal c.served_port_no) w).1

      Made : ServerContext × World → Type 0
      Made (c', w') = (fd : ℤ) × (c' ≡ record c { server_socket = fd })

      bound :
          (r : Bool × ℤ × World)
          → Ends Made ⊥ (
              if r.0
              then (listen_on os r.1 r.2 >>= λ (fd', w3). ok (record c { server_socket = fd' }, w3))
              else exit 1)
      bound (true, fd, w2) =
          Ends-bind (λ r. Unit) ⊥ Made (listen_on os fd w2) _ (listen_on-Ends fd w2)
            (λ (fd', w3) _. (fd', refl))
      bound (false, fd, w2) = refl

      found :
          (o : Option (List Addrinfo))
          → Ends Made ⊥ (elim o [
            | none ↦ exit 1
            | some servinfo ↦ bind_first os servinfo c.server_socket w1 >>= λ (bound, fd, w2).
                if bound
                then (listen_on os fd w2 >>= λ (fd', w3). ok (record c { server_socket = fd' }, w3))
                else exit 1
          ])
      found none = refl
      found (some servinfo) =
          Ends-bind (λ r. Unit) ⊥ Made (bind_first os servinfo c.server_socket w1) _
            (bind_first-Ends servinfo c.server_socket w1) (λ r _. bound r)

  module _ (s : Server) (xs : Services) (p : Ptr) (c : ServerContext) (ne : p ≢ null)
      (new : has p xs ≡ false) where
    -- The services with the new one behind them.
    abbrev Done : Server × World → Type 0
    Done (s', w') =
        ((server : ℤ) × (discovery : ℤ) × Published s' (xs ++ ((p, fresh c server discovery) ∷ [])))
        × (s'.own_ip_address ≡ s.own_ip_address)

    abbrev fresh0 : ServerContext
    fresh0 = record c { next = null; connected = 0; client_socket = minus_one }

    placed :
        (head : Ptr) (g : Store ServerContext) (server discovery : ℤ) (c' : ServerContext)
        → Seg.Seg context_link g head (xs ++ ((p, fresh0) ∷ []))
        → g p ≡ some fresh0
        → c' ≡ fresh c server discovery
        → Seg.Seg context_link (write g p c') head (xs ++ ((p, fresh c server discovery) ∷ []))
    placed head g server discovery c' seg at e =
        subst
          (λ k.
            Seg.Seg context_link (write g p k) head (xs ++ ((p, fresh c server discovery) ∷ [])))
          (sym e)
          (Seg.write_last context_link fresh0 xs fresh0 (fresh c server discovery) seg new at refl)

    -- The second half of the publication: the sockets.
    sockets-Ends :
        (head : Ptr) (g : Store ServerContext) (w : World)
        → Seg.Seg context_link g head (xs ++ ((p, fresh0) ∷ []))
        → g p ≡ some fresh0
        → Ends Done ⊥ (
            load g p >>= λ c1. initiate_service_discovery_socket os c1 w >>= λ (c2, addr, w1).
            initiate_server_socket_fd os c2 w1 >>= λ (c3, w2).
            ok (record s { contexts = write g p c3; connections = head; addr = addr }, w2))
    sockets-Ends head g w seg at = rw (Seg.load-ok context_link g p fresh0 ne at) (
        Ends-bind (λ (c2, _, _). (fd : ℤ) × (c2 ≡ record fresh0 { service_discovery_socket = fd }))
          ⊥ Done (initiate_service_discovery_socket os fresh0 w) _ (discovery-Ends fresh0 w)
          (λ (c2, addr, w1) (fd, e2).
            Ends-bind (λ (c3, w2). (fd' : ℤ) × (c3 ≡ record c2 { server_socket = fd' })) ⊥ Done
              (initiate_server_socket_fd os c2 w1) _ (server-Ends c2 w1)
              (λ (c3, w2) (fd', e3).
                let full : c3 ≡ fresh c fd' fd =
                  e3 ∙ ap {A = ServerContext} (λ k. record k { server_socket = fd' }) e2 in
                ((fd', fd, placed head g fd' fd c3 seg at full), refl))))

  -- The publication of a context that exists and is not yet published puts it behind the others,
  -- with its ports and no client, and keeps those and the own address; with fuel for the services
  -- that are there it ends so or by `exit(1)`.
  pub publish_service-Published :
      (fuel : ℕ) (p : Ptr) (c : ServerContext) (s : Server) (xs : Services) (w : World)
      → Published s xs
      → p ≢ null
      → s.contexts p ≡ some c
      → has p xs ≡ false
      → length xs ≤ fuel
      → Ends
          (λ (s', w').
            ((server : ℤ) × (discovery : ℤ) × Published s'
                (xs ++ ((p, fresh c server discovery) ∷ [])))
            × (s'.own_ip_address ≡ s.own_ip_address))
          ⊥
          (publish_service os fuel p s w)
  unfolding publish_service
  publish_service-Published fuel p c s xs w published ne at new enough =
      let b = fresh0 s xs p c ne new in
      let start = write s.contexts p b in
      rw (Seg.load-ok context_link s.contexts p c ne at) (
        Ends-bind (Seg.Appended context_link start p b xs) ⊥ (Done s xs p c ne new)
          (append context_link fuel start s.connections p) _
          (Returns→Ends (Seg.Appended context_link start p b xs) ⊥
            (append context_link fuel start s.connections p)
            (Seg.append-Seg context_link {h = start} p b ne (ground arith) fuel
              (Seg.frame context_link published (λ a i. ground arith)) refl new enough))
          (λ (head, g) (seg, same).
            sockets-Ends s xs p c ne new head g w seg (same p new ∙ ground arith)))
