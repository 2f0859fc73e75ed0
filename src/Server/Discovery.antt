-- ===== src/Server/Discovery.antt =====
-- How a service answers discovery requests.
use mathlib.Core.List.{append_assoc}
use pi_vision.Base.{
  ℕ, zero, suc, ◌+◌, ◌≤◌, ◌<◌, ◌^◌, ◌≡◌, refl, ◌↔◌, ◌≢◌, List, [], ◌∷◌, ◌++◌, arith, ◌==◌,
  if◌then◌else◌, length, replicate, ok, fault, lt→ltb, length-append, length-replicate, drop-append,
  ap,
}
use pi_vision.Decimal.{decimal, atoi-decimal, length-decimal_pos, length-decimal-le}
use pi_vision.Sockets.{Sockets, SockaddrIn}
use pi_vision.Server.{
  ServerContext, header_length, message_buf_size, answer_request, serve_discovery,
}

abbrev pub nuls : ℕ → List ℕ
nuls k = replicate k 0

nuls-append_one : (k : ℕ) → nuls k ++ (0 ∷ []) ≡ 0 ∷ nuls k
nuls-append_one zero = refl
nuls-append_one (suc k) = ap (λ t. 0 ∷ t) (nuls-append_one k)

length-nuls : (k : ℕ) → length (nuls k) ≡ k
length-nuls k = length-replicate k 0

module _ (os : Sockets) where
  open os use {World}

  -- A request of any nine bytes and a decimal port number below 2 ^ 31, with at most 30 NULs behind
  -- it, is answered with the own address, to its sender, if the port is the one served, and is
  -- passed over if not.
  pub answer_request-port :
      (own_ip_address : List ℕ) (c : ServerContext) (header : List ℕ) (q k : ℕ) (addr : SockaddrIn)
      (w : World)
      → length header ≡ header_length
      → q < 2 ^ 31
      → k ≤ 30
      → answer_request os own_ip_address c (header ++ (decimal q ++ nuls k)) addr w
        ≡ ok (
            if c.served_port_no == q
            then (os.sendto c.service_discovery_socket own_ip_address addr w).1
            else w)
  unfolding answer_request
  answer_request-port own_ip_address c header q k addr w nine small room =
      let len : length (header ++ (decimal q ++ nuls k)) ≡ 9 + length (decimal q) + k = omega (
        arith,
        length-append header (decimal q ++ nuls k),
        length-append (decimal q) (nuls k),
        length-nuls k,
      ) in
      let pos : 0 < length (decimal q) = length-decimal_pos q in
      let few : length (decimal q) ≤ 10 = length-decimal-le 9 q (omega arith) (omega arith) in
      rw
        (
          lt→ltb 9 (length (header ++ (decimal q ++ nuls k))) (omega arith),
          lt→ltb (length (header ++ (decimal q ++ nuls k))) 50 (omega arith),
          drop-append header (decimal q ++ nuls k) 9 nine,
          append_assoc (decimal q) (nuls k) (0 ∷ []),
          nuls-append_one k,
          atoi-decimal q (nuls k) small,
        )
        (ground arith)

  -- A request writes behind `messageBuf` exactly if it fills the buffer.
  pub answer_request_fault :
      (own_ip_address : List ℕ) (c : ServerContext) (bytes : List ℕ) (addr : SockaddrIn) (w : World)
      → (answer_request os own_ip_address c bytes addr w ≡ fault)
        ↔ (message_buf_size ≤ length bytes)
  unfolding answer_request
  answer_request_fault own_ip_address c bytes addr w = ground arith

  -- A service that has a client neither reads nor answers requests, and none changes its context.
  pub serve_discovery_connected :
      (own_ip_address : List ℕ) (c : ServerContext) (addr : SockaddrIn) (w : World)
      → c.connected ≢ 0
      → serve_discovery os own_ip_address c (addr, w) ≡ ok (c, (addr, w))
  unfolding serve_discovery
  serve_discovery_connected own_ip_address c addr w on = ground arith
