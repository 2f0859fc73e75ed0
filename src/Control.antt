-- ===== src/Control.antt =====
-- C/src/PiVisControl.c: the control service. Its commands are received and told apart, and do nothing.
pub mod Commands
mod Tests
use pi_vision.Base.{ℕ, ◌+◌, ◌*◌, List, ◌==◌, if◌then◌else◌, length, get_or, Run, ok, ◌>>=◌, blit}
use pi_vision.Chain.{Ptr}
use pi_vision.Sockets.{Sockets, Received, failed, received}
use pi_vision.Server
use pi_vision.Server.{Server}

abbrev pub control_port_no : ℕ
control_port_no = 4444

abbrev pub control_service_discovery_port_no : ℕ
control_service_discovery_port_no = 4443

abbrev pub command_buf_len : ℕ
command_buf_len = 256

-- The cases of the `switch`.
pub data Command : Type 0 where
  start_cam stop_cam unknown : Command

-- `header->command`, an `unsigned short`, on a little-endian machine.
pub command_of : List ℕ → Command
command_of command_buf =
    let command = get_or command_buf 0 0 + 256 * get_or command_buf 1 0 in
    if command == 0 then start_cam else (if command == 1 then stop_cam else unknown)

-- The static `commandBuf` after a reception, with the case that the `switch` takes; -1 leaves it.
unfoldable pub take_command : List ℕ → Received → Run (List ℕ)
take_command command_buf failed = ok command_buf
take_command command_buf (received bytes) = blit 0 bytes command_buf >>= λ command_buf'.
    elim (command_of command_buf') [
      | start_cam ↦ ok command_buf'
      | stop_cam ↦ ok command_buf'
      | unknown ↦ ok command_buf'
    ]

-- `context` is the address of the file's static `serverContext`.
unfoldable pub run : (os : Sockets) → Ptr → List ℕ → Server → os.World → Run (List ℕ × os.World)
run os context command_buf s w = Server.receive os context command_buf_len s w >>= λ (got, w').
    take_command command_buf got >>= λ command_buf'. ok (command_buf', w')
