-- ===== src/Sockets/Scripted.antt =====
-- A concrete operating system for the tests: what comes in is a list, and how much a call of `send`
-- takes is a function of the number of calls before it and of the length of its buffer.
use pi_vision.Base.{
  ℕ, suc, ◌≤◌, ◌≡◌, refl, Bool, true, Option, none, some, List, [], ◌∷◌, ◌++◌, arith, length, take,
  length-take, ℤ, pos, negsuc, minus_one, ap, leb, if◌then◌else◌, subst,
}
use pi_vision.Sockets.{SockaddrIn, Received, failed, received, Sockets}

pub record Script : Type 0 where
  pub incoming : List Received
  pub requests : List (List ℕ)
  pub waiting : Bool
  pub calls : ℕ
  pub written : List ℕ
  pub error : ℕ

-- All of an incoming list, with nothing written yet.
abbrev pub script : List Received → Script
script incoming = record {
  incoming = incoming;
  requests = [];
  waiting = true;
  calls = 0;
  written = [];
  error = 0;
}

abbrev pub peer : SockaddrIn
peer = record { sin_addr = 7; sin_port = 4000 }

abbrev pub next_input : ℕ → List Received → Script → Received × Script
next_input n [] w = (failed, w)
next_input n (failed ∷ rest) w = (failed, record w { incoming = rest })
next_input n (received bytes ∷ rest) w = (received (take n bytes), record w { incoming = rest })

abbrev pub next_request : ℕ → List (List ℕ) → Script → Option (List ℕ × SockaddrIn) × Script
next_request n [] w = (none, w)
next_request n (bytes ∷ rest) w = (some (take n bytes, peer), record w { requests = rest })

abbrev pub at_most : ℕ → ℕ → ℕ
at_most n m = if leb n m then n else m

abbrev pub outcome : Option ℕ → List ℕ → Script → ℤ × Script
outcome none bytes w = (minus_one, record w { calls = suc w.calls })
outcome (some n) bytes w = (
  pos (at_most n (length bytes)),
  record w { calls = suc w.calls; written = w.written ++ take (at_most n (length bytes)) bytes },
)

abbrev pub size_of : Received → ℕ
size_of failed = 0
size_of (received bytes) = length bytes

abbrev pub size_of_request : Option (List ℕ × SockaddrIn) → ℕ
size_of_request none = 0
size_of_request (some (bytes, a)) = length bytes

pub next_input-le : (n : ℕ) (rs : List Received) (w : Script) → size_of (next_input n rs w).0 ≤ n
next_input-le n [] w = omega arith
next_input-le n (failed ∷ rest) w = omega arith
next_input-le n (received bytes ∷ rest) w = omega (arith, length-take n bytes)

pub next_request-le :
    (n : ℕ) (rs : List (List ℕ)) (w : Script) → size_of_request (next_request n rs w).0 ≤ n
next_request-le n [] w = omega arith
next_request-le n (bytes ∷ rest) w = omega (arith, length-take n bytes)

pub outcome-le :
    (o : Option ℕ) (bytes : List ℕ) (w : Script) {n : ℕ}
    → (outcome o bytes w).0 ≡ pos n
    → n ≤ length bytes
outcome-le none bytes w e = ground arith
outcome-le (some m) bytes w e = ground arith

pub outcome_stream :
    (o : Option ℕ) (bytes : List ℕ) (w : Script) {n : ℕ}
    → (outcome o bytes w).0 ≡ pos n
    → (outcome o bytes w).1.written ≡ w.written ++ take n bytes
outcome_stream none bytes w e = ground arith
outcome_stream (some m) bytes w e = ap (λ i. w.written ++ take i bytes) (ground arith)

pub outcome_failed :
    (o : Option ℕ) (bytes : List ℕ) (w : Script) {n : ℕ}
    → (outcome o bytes w).0 ≡ negsuc n
    → (outcome o bytes w).1.written ≡ w.written
outcome_failed none bytes w e = refl
outcome_failed (some m) bytes w e = ground arith

abbrev pub scripted : (ℕ → ℕ → Option ℕ) → Sockets
scripted takes = record {
  World = Script;
  getifaddrs = λ w. some (57 ∷ 46 ∷ 57 ∷ []) ∷ [];
  getaddrinfo = λ node service w.
      (some (record { ai_family = 2; ai_socktype = 1; ai_protocol = 0; ai_addr = peer } ∷ []), w);
  socket = λ domain type protocol w. (pos 3, w);
  setsockopt = λ fd opt w. (pos 0, w);
  bind = λ fd a w. (pos 0, w);
  listen = λ fd n w. (pos 0, w);
  connect = λ fd a w. (pos 0, w);
  close = λ fd w. w;
  readable = λ fd w. (w.waiting, w);
  accept = λ fd w. (pos 9, w);
  recv = λ fd n w. next_input n w.incoming w;
  recvfrom = λ fd n w. next_request n w.requests w;
  send = λ fd bytes w. outcome (takes w.calls (length bytes)) bytes w;
  sendto = λ fd bytes a w. (pos (length bytes), record w { written = w.written ++ bytes });
  so_error = λ fd w. (w.error, w);
  getpid = λ w. 77;
  stream = λ fd w. w.written;
  so_error_stream = λ fd w. refl;
  recv-le = λ fd n w {bytes} e. subst (λ r. size_of r ≤ n) e (next_input-le n w.incoming w);
  recvfrom-le =
      λ fd n w {bytes} {a} e. subst (λ r. size_of_request r ≤ n) e (next_request-le n w.requests w);
  send-le = λ fd bytes w {n} e. outcome-le (takes w.calls (length bytes)) bytes w e;
  send_stream = λ fd bytes w {n} e. outcome_stream (takes w.calls (length bytes)) bytes w e;
  send_failed = λ fd bytes w {n} e. outcome_failed (takes w.calls (length bytes)) bytes w e;
}
