-- ===== src/Cpp/Events/Buffer.antt =====
-- Appending to a buffer that has the room.
use pi_vision.Base.{ℕ, ◌+◌, ◌^◌, ◌≤◌, ◌<◌, ◌≡◌, List, ◌++◌, arith, length, ok}
use pi_vision.Cpp.Events.{PiVisionData, append, get_size}

pub append-ok :
    (bytes : List ℕ) (d : PiVisionData)
    → get_size d + length bytes ≤ d.capacity
    → d.capacity < 2 ^ 32
    → append bytes d ≡ ok (record d { buf = d.buf ++ bytes }, get_size d + length bytes)
unfolding append
append-ok bytes d fits small = ground arith

-- A buffer without the room stays as it is.
pub append-full :
    (bytes : List ℕ) (d : PiVisionData)
    → d.capacity < get_size d + length bytes
    → get_size d + length bytes < 2 ^ 32
    → append bytes d ≡ ok (d, 0)
unfolding append
append-full bytes d full small = ground arith
