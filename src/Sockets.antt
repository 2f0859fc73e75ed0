-- ===== src/Sockets.antt =====
-- The operating system's socket calls, which the program uses and does not implement: each takes the
-- state of the world and gives its result with the new state. The laws are what POSIX documents.
pub mod Scripted
pub mod Streams
use pi_vision.Base.{
  ℕ, ◌≤◌, ◌≡◌, Option, none, some, List, ◌++◌, length, take, ℤ, pos, negsuc, minus_one, Bool,
}

-- `struct sockaddr_in`, of IPv4 addresses
pub record SockaddrIn : Type 0 where
  pub sin_addr : ℕ
  pub sin_port : ℕ

pub record Addrinfo : Type 0 where
  pub ai_family : ℕ
  pub ai_socktype : ℕ
  pub ai_protocol : ℕ
  pub ai_addr : SockaddrIn

pub data SockOpt : Type 0 where
  so_reuseaddr : SockOpt
  so_rcvtimeo : (sec usec : ℕ) → SockOpt
  ip_add_membership : List ℕ → SockOpt

-- `recv`: -1, or the bytes that it stored (none at the end of the stream)
pub data Received : Type 0 where
  failed : Received
  received : List ℕ → Received

abbrev pub af_unspec : ℕ
af_unspec = 0

abbrev pub af_inet : ℕ
af_inet = 2

abbrev pub sock_stream : ℕ
sock_stream = 1

abbrev pub sock_dgram : ℕ
sock_dgram = 2

pub record Sockets : Type 1 where
  pub World : Type 0
  -- The IPv4 addresses of the interfaces in dotted notation; `none` is an interface with another.
  pub getifaddrs : World → List (Option (List ℕ))
  pub getaddrinfo : (node service : List ℕ) → World → Option (List Addrinfo) × World
  pub socket : (domain type protocol : ℕ) → World → ℤ × World
  pub setsockopt : ℤ → SockOpt → World → ℤ × World
  pub bind : ℤ → SockaddrIn → World → ℤ × World
  pub listen : ℤ → ℕ → World → ℤ × World
  pub connect : ℤ → SockaddrIn → World → ℤ × World
  pub close : ℤ → World → World
  -- `select` on one descriptor, and `FD_ISSET`
  pub readable : ℤ → World → Bool × World
  pub accept : ℤ → World → ℤ × World
  pub recv : ℤ → ℕ → World → Received × World
  pub recvfrom : ℤ → ℕ → World → Option (List ℕ × SockaddrIn) × World
  pub send : ℤ → List ℕ → World → ℤ × World
  pub sendto : ℤ → List ℕ → SockaddrIn → World → ℤ × World
  -- `getsockopt` for SO_ERROR: the pending error of a socket, 0 for none
  pub so_error : ℤ → World → ℕ × World
  pub getpid : World → ℕ
  -- What has been written to a stream so far.
  pub stream : ℤ → World → List ℕ
  -- No call stores more bytes than there is room for.
  pub recv-le :
      (fd : ℤ) (n : ℕ) (w : World) {bytes : List ℕ}
      → (recv fd n w).0 ≡ received bytes
      → length bytes ≤ n
  pub recvfrom-le :
      (fd : ℤ) (n : ℕ) (w : World) {bytes : List ℕ} {a : SockaddrIn}
      → (recvfrom fd n w).0 ≡ some (bytes, a)
      → length bytes ≤ n
  -- `send` writes as many bytes from the front as it says, and none when it fails.
  pub send-le :
      (fd : ℤ) (bytes : List ℕ) (w : World) {n : ℕ} → (send fd bytes w).0 ≡ pos n → n ≤ length bytes
  pub send_stream :
      (fd : ℤ) (bytes : List ℕ) (w : World) {n : ℕ}
      → (send fd bytes w).0 ≡ pos n
      → stream fd (send fd bytes w).1 ≡ stream fd w ++ take n bytes
  pub send_failed :
      (fd : ℤ) (bytes : List ℕ) (w : World) {n : ℕ}
      → (send fd bytes w).0 ≡ negsuc n
      → stream fd (send fd bytes w).1 ≡ stream fd w
  -- Asking for the pending error writes nothing.
  pub so_error_stream : (fd : ℤ) (w : World) → stream fd (so_error fd w).1 ≡ stream fd w
