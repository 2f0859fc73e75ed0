-- ===== src/Sockets/Streams.antt =====
-- A concrete operating system for the tests: a stream that carries at most three bytes with each call
-- of `send` and `recv`, without a pending error.
use pi_vision.Base.{
  ℕ, ◌≤◌, refl, true, Option, none, some, List, [], ◌∷◌, ◌++◌, arith, length, take, drop,
  length-take, ℤ, pos, negsuc, ap, leb, if◌then◌else◌, subst,
}
use pi_vision.Sockets.{SockaddrIn, Received, failed, received, Sockets}

pub record Stream : Type 0 where
  pub coming : List ℕ
  pub written : List ℕ

abbrev pub at_most_three : ℕ → ℕ
at_most_three n = if leb n 3 then n else 3

abbrev somewhere : SockaddrIn
somewhere = record { sin_addr = 7; sin_port = 4000 }

abbrev size_of : Received → ℕ
size_of failed = 0
size_of (received bytes) = length bytes

abbrev value_of : ℤ → ℕ
value_of (pos n) = n
value_of (negsuc n) = 0

abbrev size_of_request : Option (List ℕ × SockaddrIn) → ℕ
size_of_request none = 0
size_of_request (some (bytes, a)) = length bytes

abbrev pub IsPos : ℤ → Type 0
IsPos (pos n) = Unit
IsPos (negsuc n) = ⊥

pub at_most_three-le : (n : ℕ) → at_most_three n ≤ n
at_most_three-le n = ground arith

pub part-le : (n : ℕ) (bytes : List ℕ) → length (take (at_most_three n) bytes) ≤ n
part-le n bytes = ground (arith, length-take (at_most_three n) bytes)

abbrev pub streams : Sockets
streams = record {
  World = Stream;
  getifaddrs = λ w. some (57 ∷ 46 ∷ 57 ∷ []) ∷ [];
  getaddrinfo = λ node service w. (
    some (record { ai_family = 2; ai_socktype = 1; ai_protocol = 0; ai_addr = somewhere } ∷ []),
    w,
  );
  socket = λ domain type protocol w. (pos 3, w);
  setsockopt = λ fd opt w. (pos 0, w);
  bind = λ fd a w. (pos 0, w);
  listen = λ fd n w. (pos 0, w);
  connect = λ fd a w. (pos 0, w);
  close = λ fd w. w;
  readable = λ fd w. (true, w);
  accept = λ fd w. (pos 9, w);
  recv = λ fd n w. (
    received (take (at_most_three n) w.coming),
    record w { coming = drop (at_most_three n) w.coming },
  );
  recvfrom = λ fd n w. (some (take n w.coming, somewhere), record w { coming = drop n w.coming });
  send = λ fd bytes w. (
    pos (at_most_three (length bytes)),
    record w { written = w.written ++ take (at_most_three (length bytes)) bytes },
  );
  sendto = λ fd bytes a w. (pos (length bytes), record w { written = w.written ++ bytes });
  so_error = λ fd w. (0, w);
  getpid = λ w. 77;
  stream = λ fd w. w.written;
  so_error_stream = λ fd w. refl;
  recv-le = λ fd n w {bytes} e. subst (λ r. size_of r ≤ n) e (part-le n w.coming);
  recvfrom-le = λ fd n w {bytes} {a} e.
      subst (λ o. size_of_request o ≤ n) e (omega (arith, length-take n w.coming));
  send-le = λ fd bytes w {n} e.
      subst (λ z. value_of z ≤ length bytes) e (at_most_three-le (length bytes));
  send_stream = λ fd bytes w {n} e. ap (λ z. w.written ++ take (value_of z) bytes) e;
  send_failed = λ fd bytes w {n} e. absurd (subst IsPos e tt);
}
