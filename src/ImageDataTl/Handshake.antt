-- ===== src/ImageDataTl/Handshake.antt =====
-- The acknowledgements, and the counts of what was not sent.
use pi_vision.Base.{
  ℕ, ◌+◌, ◌%◌, ◌^◌, ◌≤◌, ◌<◌, ◌≡◌, refl, ◌≢◌, inl, inr, some, List, [], ◌∷◌, arith, ◌==◌,
  if◌then◌else◌, length, get_or, Run, ok, Returns, Returns-bind, ◌>>=◌, patch, blit-ok, blit_whole,
  length-patch, eq→==, get_or-patch, ◌++◌, u32, ap, ◌∙◌, Bool-cases,
}
use pi_vision.Chain.{Ptr, null}
use pi_vision.Chain.Seg
use pi_vision.Sockets.{Sockets, Received, failed, received}
use pi_vision.Server
use pi_vision.Server.{Server, ServerContext, context_link}
use pi_vision.Server.Send.{send_unconnected}
use pi_vision.ImageDataTl.{
  ImageDataTl, State, send_data, wait_for_ack, ack_buf_size, take_ack, le32, after_send, send_in,
  run, send_grayscale_image,
}
use pi_vision.ImageDataTl.Frame.{frame_bytes_lem}

pub record IsValid (t : ImageDataTl) : Type 0 where
  pub ack_room : length t.ack_buf ≡ ack_buf_size
  pub frame_byte : t.frame_no < 2 ^ 8
  pub dropped_word : t.num_dropped_frames < 2 ^ 32
  pub dropped_ack_word : t.num_dropped_frames_ack < 2 ^ 32

-- An acknowledgement of nine bytes is accepted, and the next frame number expected, exactly if its
-- last byte is the number of the frame.
pub take_ack_whole :
    (t : ImageDataTl) (bytes : List ℕ)
    → length t.ack_buf ≡ ack_buf_size
    → length bytes ≡ ack_buf_size
    → take_ack t (received bytes)
      ≡ ok (
          if get_or bytes 8 0 == t.frame_no
          then record t { ack_buf = bytes; state = send_data; frame_no = (t.frame_no + 1) % 256 }
          else record t { ack_buf = bytes })
unfolding take_ack
take_ack_whole t bytes room whole = rw (blit_whole bytes t.ack_buf (omega arith))

-- A message of less than nine bytes, also the empty one at the end of the stream, is accepted as an
-- acknowledgement if the last byte that `ackBuf` has from before is the number of the frame.
pub take_ack_stale :
    (t : ImageDataTl) (bytes : List ℕ)
    → length t.ack_buf ≡ ack_buf_size
    → length bytes < ack_buf_size
    → get_or t.ack_buf 8 0 ≡ t.frame_no
    → Returns
        (λ t'. (t'.state ≡ send_data) × (t'.frame_no ≡ (t.frame_no + 1) % 256))
        (take_ack t (received bytes))
unfolding take_ack
take_ack_stale t bytes room short stale =
    rw
      (
        blit-ok 0 bytes t.ack_buf (omega arith),
        get_or-patch bytes t.ack_buf 8 0 (omega arith) (omega arith),
        eq→== (get_or t.ack_buf 8 0) t.frame_no stale,
      )
      (refl, refl)

take_ack-IsValid :
    (t : ImageDataTl) (r : Received)
    → IsValid t
    → ((bytes : List ℕ) → r ≡ received bytes → length bytes ≤ ack_buf_size)
    → Returns IsValid (take_ack t r)
unfolding take_ack
take_ack-IsValid t failed v fits = v
take_ack-IsValid t (received bytes) v fits =
    let h : 0 + length bytes ≤ length t.ack_buf = omega (arith, fits bytes refl) in
    rw (blit-ok 0 bytes t.ack_buf h)
      (elim (Bool-cases (get_or (patch 0 bytes t.ack_buf) 8 0 == t.frame_no)) [
        | inl hit ↦ rw hit (ground (arith, length-patch 0 bytes t.ack_buf h))
        | inr miss ↦ rw miss (ground (arith, length-patch 0 bytes t.ack_buf h))
      ])

module _ (os : Sockets) (p : Ptr) (c : ServerContext) (s : Server) (ne : p ≢ null)
    (at : s.contexts p ≡ some c) where
  open os use {World}

  -- Polling the client of a service that exists for an acknowledgement never writes behind
  -- `ackBuf`, and keeps a valid state valid.
  pub run-IsValid :
      (t : ImageDataTl) (w : World) → IsValid t → Returns (λ (t', w'). IsValid t') (run os p t s w)
  unfolding run Server.receive take_ack
  run-IsValid t w v =
      rw (Seg.load-ok context_link s.contexts p c ne at) (elim (Bool-cases (c.connected == 0)) [
        | inl off ↦ rw off v
        | inr on ↦ rw on (
            Returns-bind IsValid (λ (t', w'). IsValid t')
              (take_ack t (os.recv c.client_socket 9 w).0)
              (λ t'. ok (t', (os.recv c.client_socket 9 w).1))
              (take_ack-IsValid t (os.recv c.client_socket 9 w).0 v
                (λ bytes e. os.recv-le c.client_socket 9 w e))
              (λ t' v'. v'))
      ])

  -- An image of less than 2 ^ 32 - 4 bytes that is offered to a service without a client is not
  -- sent, and is counted by the state in `numDroppedFramesAck` or `numDroppedFrames`.
  pub send_grayscale_image_dropped :
      (fuel : ℕ) (buf : List ℕ) (t : ImageDataTl) (w : World)
      → c.connected ≡ 0
      → length buf + 4 < 2 ^ 32
      → send_grayscale_image os p fuel buf (length buf) t s w
        ≡ ok (
          elim t.state [
            | send_data ↦ record t {
              num_dropped_frames_ack = (t.num_dropped_frames_ack + 1) % 2 ^ 32;
            }
            | wait_for_ack ↦ record t { num_dropped_frames = (t.num_dropped_frames + 1) % 2 ^ 32 }
          ],
          w,
        )
  unfolding send_grayscale_image after_send
  send_grayscale_image_dropped fuel buf t w off small = go t.state
    where
      go :
          (st : State)
          → send_in os p st fuel buf (length buf) t s w
            ≡ ok (
              elim st [
                | send_data ↦ record t {
                  num_dropped_frames_ack = (t.num_dropped_frames_ack + 1) % 2 ^ 32;
                }
                | wait_for_ack ↦ record t {
                  num_dropped_frames = (t.num_dropped_frames + 1) % 2 ^ 32;
                }
              ],
              w,
            )
      go send_data = rw (
        frame_bytes_lem buf small,
        send_unconnected os p c s ne at fuel (le32 (length buf) ++ buf) (u32 (4 + length buf)) w
            off,
      )
      go wait_for_ack = refl

  -- The images of a list offered one after the other.
  unfoldable pub offer_all : ℕ → List (List ℕ) → ImageDataTl → World → Run (ImageDataTl × World)
  offer_all fuel [] t w = ok (t, w)
  offer_all fuel (i ∷ is) t w =
      send_grayscale_image os p fuel i (length i) t s w >>= λ (t', w'). offer_all fuel is t' w'

  offer-wait_for_ack :
      (fuel : ℕ) (i : List ℕ) (t : ImageDataTl) (w : World)
      → t.state ≡ wait_for_ack
      → send_grayscale_image os p fuel i (length i) t s w
        ≡ ok (record t { num_dropped_frames = u32 (t.num_dropped_frames + 1) }, w)
  unfolding send_grayscale_image
  offer-wait_for_ack fuel i t w waits = ap (λ st. send_in os p st fuel i (length i) t s w) waits

  -- While a frame waits for its acknowledgement, nothing more is sent, however many images are
  -- offered: each is counted as dropped, modulo 2 ^ 32.
  pub offer_all-wait_for_ack :
      (fuel : ℕ) (is : List (List ℕ)) (t : ImageDataTl) (w : World)
      → t.state ≡ wait_for_ack
      → t.num_dropped_frames < 2 ^ 32
      → offer_all fuel is t w
        ≡ ok (record t { num_dropped_frames = (t.num_dropped_frames + length is) % 2 ^ 32 }, w)
  unfolding offer_all
  offer_all-wait_for_ack fuel [] t w waits word =
      ap (λ n. ok (record t { num_dropped_frames = n }, w)) (omega arith)
  offer_all-wait_for_ack fuel (i ∷ is) t w waits word = rw (offer-wait_for_ack fuel i t w waits) (
      offer_all-wait_for_ack fuel is
        (record t { num_dropped_frames = u32 (t.num_dropped_frames + 1) }) w waits (omega arith)
      ∙ ap (λ n. ok (record t { num_dropped_frames = n }, w)) (omega arith))
