-- ===== src/Server/Poll.antt =====
-- One pass of the server over its published services.
use pi_vision.Base.{
  ℕ, ◌<◌, ◌≡◌, refl, ◌⊎◌, inl, inr, List, length, Bool-cases, Returns, Returns-bind, ℤ,
}
use pi_vision.Chain.{Ptr, null}
use pi_vision.Chain.Each
use pi_vision.Chain.Each.{Matches, Agrees, Related}
use pi_vision.Chain.Seg.{Seg}
use pi_vision.Sockets.{Sockets}
use pi_vision.Server.{
  ServerContext, context_link, Server, accept_connection, handle_new_connections,
}

abbrev pub Services : Type 0
Services = List (Ptr × ServerContext)

-- The services that the server serves, in the order of their publication.
abbrev pub Published : Server → Services → Type 0
Published s xs = Seg context_link s.contexts s.connections xs

module _ (os : Sockets) where
  open os use {World}

  accept_connection-Agrees :
      (c : ServerContext) (w : World)
      → Agrees context_link c
          (accept_connection os c w)
          (accept_connection os (record c { next = null }) w)
  unfolding accept_connection
  accept_connection-Agrees c w = elim (Bool-cases (os.readable c.server_socket w).0) [
    | inl ready ↦ rw ready (Agrees.updates _ refl)
    | inr idle ↦ rw idle (Agrees.updates c refl)
  ]

-- The context as it was, or with the accepted client's socket and marked as connected.
abbrev pub Accepted : ServerContext → ServerContext → Type 0
Accepted c c' =
    (c' ≡ c) ⊎ ((client : ℤ) × (c' ≡ record c { client_socket = client; connected = 1 }))

module _ (os : Sockets) where
  open os use {World}

  accept_connection-Accepted :
      (c : ServerContext) (w : World)
      → Returns (λ (c', w'). Accepted c c') (accept_connection os c w)
  unfolding accept_connection
  accept_connection-Accepted c w = elim (Bool-cases (os.readable c.server_socket w).0) [
    | inl ready ↦ rw ready (inr (_, refl))
    | inr idle ↦ rw idle (inl refl)
  ]

  -- With fuel for more than the published services a pass over them ends, and changes a context
  -- only by the client that it accepts: no service is lost or moved, and neither the own address
  -- nor `addr` changes.
  pub handle_new_connections-Accepted :
      (fuel : ℕ) (s : Server) (xs : Services) (w : World)
      → Published s xs
      → length xs < fuel
      → Returns
          (λ (s', w').
            ((ys : Services) × Related Accepted xs ys × Published s' ys)
            × (s'.own_ip_address ≡ s.own_ip_address)
            × (s'.addr ≡ s.addr))
          (handle_new_connections os fuel s w)
  unfolding handle_new_connections
  handle_new_connections-Accepted fuel s xs w published enough =
      Returns-bind
        (Each.Swept context_link s.contexts s.connections xs (λ (ys, w'). Related Accepted xs ys)) _
        _ _
        (Each.Matches-Returns context_link (λ (ys, w'). Related Accepted xs ys)
          (Each.for_each-each context_link (accept_connection os) (accept_connection os)
            (accept_connection-Agrees os) fuel w published enough)
          (Each.each-Related Accepted (accept_connection os) accept_connection-Accepted xs w))
        λ (g, w') (ys, related, seg, kept). ((ys, related, seg), refl, refl)
