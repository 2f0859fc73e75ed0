-- ===== src/ImageDataTl/Tests.antt =====
-- Tests of the image service, at the address 1, with images of three bytes.
use pi_vision.Base.{
  ℕ, ◌≡◌, refl, none, some, List, [], ◌∷◌, arith, ◌==◌, if◌then◌else◌, take, drop, replicate, pos,
  minus_one, Returns, length-take, ap,
}
use pi_vision.Chain.{null}
use pi_vision.Sockets.{Sockets, received}
use pi_vision.Sockets.Scripted.{size_of, script, peer, scripted}
use pi_vision.Server.{ServerContext, Server}
use pi_vision.ImageDataTl.{ImageDataTl, send_data, wait_for_ack, take_ack, frame_bytes, run, le32}
use pi_vision.ImageDataTl.Frame.{of_le32, frame_bytes_round_trip}
use pi_vision.ImageDataTl.Handshake.{IsValid, take_ack_stale, offer_all}
use pi_vision.ImageDataTl.Exchange.{offer_all-run}

abbrev service : ServerContext
service = record {
  served_port_no = 3380;
  service_discovery_port_no = 3380;
  connected = 1;
  server_socket = pos 4;
  service_discovery_socket = pos 5;
  client_socket = pos 6;
  next = null;
}

abbrev unconnected : ServerContext
unconnected = record service { connected = 0; client_socket = minus_one }

abbrev server_of : ServerContext → Server
server_of c = record {
  contexts = λ p. if p == 1 then some c else none;
  connections = 1;
  own_ip_address = replicate 16 0;
  addr = peer;
}

abbrev fresh : ImageDataTl
fresh = record {
  state = send_data;
  num_dropped_frames = 0;
  num_dropped_frames_ack = 0;
  frame_no = 0;
  ack_buf = replicate 9 0;
}

fresh-IsValid : IsValid fresh
fresh-IsValid = record {
  ack_room = refl;
  frame_byte = omega arith;
  dropped_word = omega arith;
  dropped_ack_word = omega arith;
}

abbrev waiting : ImageDataTl
waiting = record fresh { state = wait_for_ack }

abbrev os : Sockets
os = scripted (λ calls n. some n)

abbrev image : List ℕ
image = 10 ∷ 20 ∷ 30 ∷ []

frame_bytes_round_trip_example :
    Returns (λ frame. (of_le32 (take 4 frame) ≡ 3) × (drop 4 frame ≡ image)) (frame_bytes image 3)
frame_bytes_round_trip_example = frame_bytes_round_trip image (omega arith)

take_ack_stale_example :
    Returns (λ t'. (t'.state ≡ send_data) × (t'.frame_no ≡ 1)) (take_ack waiting (received []))
take_ack_stale_example = take_ack_stale waiting [] refl (omega arith) refl

-- A client that answers with the number of the first frame.
abbrev ack : List ℕ
ack = replicate 9 0

abbrev answering : Sockets
answering = record os {
  recv = λ fd n w. (received (take n ack), w);
  recv-le = λ fd n w {bytes} e. omega (arith, length-take n ack, ap (λ r. size_of r) e);
}

offer_all-run_example :
    Returns
      (λ (t', w').
        (t' ≡ record fresh { state = wait_for_ack; num_dropped_frames = 2 })
        × (w'.written ≡ 3 ∷ 0 ∷ 0 ∷ 0 ∷ image)
        × Returns
            (λ (t'', w''). t'' ≡ record fresh { num_dropped_frames = 2; frame_no = 1 })
            (run answering 1 t' (server_of service) w'))
      (offer_all answering 1 service
        (server_of service)
        (omega arith)
        refl
        7
        (image ∷ image ∷ image ∷ [])
        fresh
        (script []))
unfolding le32
offer_all-run_example =
    offer_all-run answering 1 service (server_of service) (omega arith) refl (omega arith) 5 image
      (image ∷ image ∷ []) ack fresh (script []) fresh-IsValid refl (omega arith) refl refl
      λ w' e. refl
