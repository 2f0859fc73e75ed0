-- ===== src/ImageProvider/Tests.antt =====
-- Tests of the image provider with frames of three bytes.
use pi_vision.Base.{refl, inl, [], ◌∷◌, arith, replicate, pos, Returns}
use pi_vision.Client.{Client}
use pi_vision.Client.Bounds.{IsValid, IsCurrent}
use pi_vision.ImageProvider.{ImageProvider, run}
use pi_vision.ImageProvider.Copy.{Took, run-Took}

abbrev client : Client
client = record {
  server_address = replicate 16 0;
  curr_state = 4;
  socket_fd = pos 3;
  service_discovery_socket = pos 4;
  cam_buf_header = replicate 8 0;
  buffer = 1 ∷ 2 ∷ 3 ∷ [];
  buffer_index = 0;
  header_index = 0;
}

client-IsCurrent : IsCurrent 3 client
client-IsCurrent = (
  record {
    state = omega arith;
    header = refl;
    pixels = refl;
    address = refl;
    header_at = omega arith;
    pixels_at = omega arith;
    waiting = λ _. omega arith;
    complete = λ e. inl refl;
  },
  λ _. refl,
)

abbrev empty : ImageProvider
empty = record { rec_buffer = 0 ∷ 0 ∷ 0 ∷ []; rec_buffer_size = 0 }

run-Took_example : Returns (λ (p', c'). Took 3 client p' × IsValid 3 c') (run 3 empty client)
run-Took_example =
    run-Took 3 (omega arith) empty client (record { room = refl; whole = inl refl })
      client-IsCurrent

abbrev full : ImageProvider
full = record { rec_buffer = 1 ∷ 2 ∷ 3 ∷ []; rec_buffer_size = 3 }
