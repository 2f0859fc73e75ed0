-- ===== src/Client/Tests.antt =====
-- Tests of the client with frames of six bytes.
use mathlib.Core.List.{flatten}
use pi_vision.Base.{
  List, ℕ, length, ◌<◌, ◌≡◌, refl, ◌⊎◌, inl, inr, some, [], ◌∷◌, arith, replicate, pos, fault,
  Returns, Ends,
}
use pi_vision.Sockets.{Sockets, received}
use pi_vision.Sockets.Scripted.{Script, script, scripted}
use pi_vision.Decimal.{c_string, IsText}
use pi_vision.Client.{take_answer, Client, run}
use pi_vision.Client.Answer.{take_answer_lem}
use pi_vision.Client.Bounds.{IsValid, IsCurrent, LongAnswer, LongHeader, run-Ends}
use pi_vision.Client.Frames.{frame_of_pieces, Holds, runs}

abbrev os : Sockets
os = scripted (λ calls n. some n)

abbrev connected : Client
connected = record {
  server_address = replicate 16 0;
  curr_state = 3;
  socket_fd = pos 3;
  service_discovery_socket = pos 4;
  cam_buf_header = replicate 8 0;
  buffer = replicate 6 0;
  buffer_index = 0;
  header_index = 8;
}

connected-IsValid : IsValid 6 connected
connected-IsValid = record {
  state = omega arith;
  header = refl;
  pixels = refl;
  address = refl;
  header_at = omega arith;
  pixels_at = omega arith;
  waiting = λ _. omega arith;
  complete = λ e. absurd (omega arith);
}

abbrev holding : Client
holding = record connected { curr_state = 4; buffer = 1 ∷ 2 ∷ 3 ∷ 4 ∷ 5 ∷ 6 ∷ []; header_index = 0 }

holding-IsValid : IsValid 6 holding
holding-IsValid = record {
  state = omega arith;
  header = refl;
  pixels = refl;
  address = refl;
  header_at = omega arith;
  pixels_at = omega arith;
  waiting = λ _. omega arith;
  complete = λ e. inl refl;
}

abbrev read_holding : Client
read_holding = record holding { buffer_index = 6 }

read_holding-IsValid : IsValid 6 read_holding
read_holding-IsValid = record {
  state = omega arith;
  header = refl;
  pixels = refl;
  address = refl;
  header_at = omega arith;
  pixels_at = omega arith;
  waiting = λ ne. absurd (ne refl);
  complete = λ e. inr refl;
}

abbrev pieces : Script
pieces = script (received (1 ∷ 2 ∷ 3 ∷ 4 ∷ []) ∷ received (5 ∷ 6 ∷ []) ∷ [])

frame_of_pieces_example :
    Returns
      (λ (c', w''). Holds os (1 ∷ 2 ∷ 3 ∷ 4 ∷ 5 ∷ 6 ∷ []) c' × (w'' ≡ script []))
      (runs os 6 2 connected pieces)
unfolding flatten
frame_of_pieces_example =
    frame_of_pieces os 6 (omega arith) connected ((1 ∷ 2 ∷ 3 ∷ 4 ∷ []) ∷ (5 ∷ 6 ∷ []) ∷ []) pieces
      (script []) connected-IsValid refl refl (refl, omega arith, (refl, omega arith, refl)) refl

run-Ends_example :
    Ends
      (λ (c', w'). IsCurrent 6 c')
      (((connected.curr_state ≡ 0) × LongAnswer os connected pieces)
        ⊎ ((connected.curr_state ≡ 3) × LongHeader os connected pieces))
      (run os 6 connected pieces)
run-Ends_example = run-Ends os 6 (omega arith) (omega arith) connected pieces connected-IsValid

abbrev answer : List ℕ
answer = 49 ∷ 50 ∷ []

take_answer_lem_example :
    (0 < length answer
      → length answer < 16
      → IsText answer
      → Returns
          (λ c'. (c_string c'.server_address ≡ answer) × (c'.curr_state ≡ 4))
          (take_answer connected (received answer)))
    × (length answer ≡ 16 → take_answer connected (received answer) ≡ fault)
take_answer_lem_example = take_answer_lem connected answer refl
