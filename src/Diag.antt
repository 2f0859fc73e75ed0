-- ===== src/Diag.antt =====
-- C/src/PiVisDiag.c: the number of dropped frames, told to the client of the diagnosis service.
pub mod Ends
pub mod Report
mod Tests
use pi_vision.Base.{
  ℕ, List, [], ◌∷◌, ◌++◌, ◌==◌, if◌then◌else◌, length, replicate, Run, ok, ◌>>=◌, blit,
}
use pi_vision.Chain.{Ptr, load}
use pi_vision.Decimal.{decimal, c_string}
use pi_vision.Sockets.{Sockets}
use pi_vision.Server
use pi_vision.Server.{Server}

abbrev pub diag_port_no : ℕ
diag_port_no = 3333

abbrev pub diag_service_discovery_port_no : ℕ
diag_service_discovery_port_no = 3334

-- sizeof(toSend)
abbrev pub to_send_size : ℕ
to_send_size = 7

-- `sprintf((char*)toSend, "%u\r\n", droppedFrames)`: the text and its NUL.
unfoldable pub print_report : ℕ → Run (List ℕ)
print_report dropped_frames =
    blit 0 (decimal dropped_frames ++ (13 ∷ 10 ∷ 0 ∷ [])) (replicate to_send_size 0)

-- `context` is the address of the file's static `serverContext`.
unfoldable pub run : (os : Sockets) → ℕ → Ptr → ℕ → Server → os.World → Run os.World
run os fuel context dropped_frames s w = load s.contexts context >>= λ c.
    if c.connected == 0
    then ok w
    else (print_report dropped_frames >>= λ to_send.
        Server.send os fuel context to_send (length (c_string to_send)) s w >>= λ (_, w'). ok w')
