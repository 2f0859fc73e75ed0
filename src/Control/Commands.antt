-- ===== src/Control/Commands.antt =====
-- The bounds of the command buffer, and the commands.
use pi_vision.Base.{
  ℕ, ◌+◌, ◌≤◌, ◌≡◌, refl, ◌≢◌, inl, inr, some, List, arith, ◌==◌, length, Run, ok, Returns, ◌>>=◌,
  patch, blit-ok, length-patch, Bool-cases, ◌∙◌,
}
use pi_vision.Chain.{Ptr, null}
use pi_vision.Chain.Seg
use pi_vision.Sockets.{Sockets, Received, failed, received}
use pi_vision.Server
use pi_vision.Server.{Server, ServerContext, context_link}
use pi_vision.Control.{
  Command, start_cam, stop_cam, unknown, command_of, take_command, run, command_buf_len,
}

-- Every command, known or not, leaves the buffer as it was received.
take_command_received :
    (buf bytes : List ℕ)
    → length bytes ≤ length buf
    → take_command buf (received bytes) ≡ ok (patch 0 bytes buf)
unfolding take_command
take_command_received buf bytes h =
    rw (blit-ok 0 bytes buf (omega arith)) (go (command_of (patch 0 bytes buf)))
  where
    go :
        (c : Command)
        → (elim c [
          | start_cam ↦ ok (patch 0 bytes buf)
          | stop_cam ↦ ok (patch 0 bytes buf)
          | unknown ↦ ok (patch 0 bytes buf)
        ])
          ≡ ok (patch 0 bytes buf)
    go start_cam = refl
    go stop_cam = refl
    go unknown = refl

take_command_failed :
    {W : Type 0} (buf : List ℕ)
    → length buf ≡ command_buf_len
    → (w : W)
    → Returns
        (λ (buf', w'). length buf' ≡ command_buf_len)
        (take_command buf failed >>= λ buf'. ok (buf', w))
unfolding take_command
take_command_failed buf len w = len

-- The control service, which exists, polls its client without fault, whatever the client sends, and
-- its buffer keeps its size.
pub run_lem :
    (os : Sockets) (p : Ptr) (c : ServerContext) (buf : List ℕ) (s : Server) (w : os.World)
    → p ≢ null
    → s.contexts p ≡ some c
    → length buf ≡ command_buf_len
    → Returns (λ (buf', w'). length buf' ≡ command_buf_len) (run os p buf s w)
unfolding run Server.receive
run_lem os p c buf s w ne at len =
    rw (Seg.load-ok context_link s.contexts p c ne at) (elim (Bool-cases (c.connected == 0)) [
      | inl off ↦ rw off (take_command_failed buf len w)
      | inr on ↦ rw on (polled (os.recv c.client_socket 256 w).0 refl)
    ])
  where
    Kept : Run (List ℕ × os.World) → Type 0
    Kept = Returns (λ (buf', w'). length buf' ≡ command_buf_len)

    polled :
        (r : Received)
        → (os.recv c.client_socket 256 w).0 ≡ r
        → Kept (
            take_command buf (os.recv c.client_socket 256 w).0 >>= λ buf'.
            ok (buf', (os.recv c.client_socket 256 w).1))
    polled failed e = rw e (take_command_failed buf len (os.recv c.client_socket 256 w).1)
    polled (received bytes) e =
        let fits : 0 + length bytes ≤ length buf =
          omega (arith, os.recv-le c.client_socket 256 w e) in
        rw (e, take_command_received buf bytes (omega arith)) (length-patch 0 bytes buf fits ∙ len)
