-- ===== src/ImageDataTl.antt =====
-- C/src/PiVisImageDataTL.c: grayscale images sent to one client, each waiting for the client's
-- acknowledgement of the one before.
pub mod Frame
pub mod Handshake
pub mod Offers
pub mod Exchange
mod Tests
use pi_vision.Base.{
  ℕ, zero, suc, ◌+◌, ◌/◌, ◌%◌, Bool, List, [], ◌∷◌, ◌==◌, if◌then◌else◌, length, take, get_or,
  replicate, ℤ, is_minus_one, Run, ok, ◌>>=◌, blit, slice, u8, u32,
}
use pi_vision.Chain.{Ptr}
use pi_vision.Constants.{gray_port_no, discover_gray_service}
use pi_vision.Sockets.{Sockets, Received, failed, received}
use pi_vision.Server
use pi_vision.Server.{Server}

pub data State : Type 0 where
  send_data wait_for_ack : State

abbrev pub ack_buf_size : ℕ
ack_buf_size = 9

abbrev pub ack_buf_frame_no_offset : ℕ
ack_buf_frame_no_offset = 8

abbrev pub image_size_header_offset : ℕ
image_size_header_offset = 0

abbrev pub buf_header_size : ℕ
buf_header_size = 4

-- The statics of the file but for its server context, which stands in the server's store.
pub record ImageDataTl : Type 0 where
  pub state : State
  pub num_dropped_frames : ℕ
  pub num_dropped_frames_ack : ℕ
  pub frame_no : ℕ
  pub ack_buf : List ℕ

-- The bytes of an `unsigned int` in memory, on the little-endian machines that the program runs on.
unfoldable pub le32 : ℕ → List ℕ
le32 n = (n % 256) ∷ (n / 256 % 256) ∷ (n / 65536 % 256) ∷ (n / 16777216 % 256) ∷ []

-- What `run` does with what it received in `ackBuf`.
unfoldable pub take_ack : ImageDataTl → Received → Run ImageDataTl
take_ack t failed = ok t
take_ack t (received bytes) = blit 0 bytes t.ack_buf >>= λ ack_buf. ok (
    if get_or ack_buf ack_buf_frame_no_offset 0 == t.frame_no
    then record t { ack_buf = ack_buf; state = send_data; frame_no = u8 (t.frame_no + 1) }
    else record t { ack_buf = ack_buf })

-- `bufToSend`: the size in a header, and the image behind it.
unfoldable pub frame_bytes : List ℕ → ℕ → Run (List ℕ)
frame_bytes buf size =
    let tot_size = u32 (buf_header_size + size) in
    blit image_size_header_offset (le32 size) (replicate tot_size 0) >>= λ with_size.
    slice 0 size buf >>= λ image. blit buf_header_size image with_size

-- What becomes of the state when `SERVER_send` has returned `sendStatus`.
unfoldable pub after_send : ImageDataTl → ℤ → ImageDataTl
after_send t send_status =
    if is_minus_one send_status
    then record t { num_dropped_frames_ack = u32 (t.num_dropped_frames_ack + 1) }
    else record t { state = wait_for_ack }

unfoldable pub init : ImageDataTl → ImageDataTl
init t = record t {
  state = send_data;
  num_dropped_frames = 0;
  num_dropped_frames_ack = 0;
  frame_no = 0;
}

unfoldable pub get_num_dropped_frames : ImageDataTl → ℕ
get_num_dropped_frames t = t.num_dropped_frames

-- `context` is the address of the file's static `serverContext`.
module _ (os : Sockets) (context : Ptr) where
  open os use {World}

  unfoldable pub run : ImageDataTl → Server → World → Run (ImageDataTl × World)
  run t s w = Server.receive os context ack_buf_size s w >>= λ (got, w').
      take_ack t got >>= λ t'. ok (t', w')

  -- if(SEND_DATA == state) … else …
  unfoldable pub send_in :
      State → ℕ → List ℕ → ℕ → ImageDataTl → Server → World → Run (ImageDataTl × World)
  send_in send_data fuel buf size t s w = frame_bytes buf size >>= λ buf_to_send.
      Server.send os fuel context buf_to_send (u32 (buf_header_size + size)) s w
      >>= λ (send_status, w'). ok (after_send t send_status, w')
  send_in wait_for_ack fuel buf size t s w =
      ok (record t { num_dropped_frames = u32 (t.num_dropped_frames + 1) }, w)

  unfoldable pub send_grayscale_image :
      ℕ → List ℕ → ℕ → ImageDataTl → Server → World → Run (ImageDataTl × World)
  unfolding send_in
  send_grayscale_image fuel buf size t s w = send_in t.state fuel buf size t s w
