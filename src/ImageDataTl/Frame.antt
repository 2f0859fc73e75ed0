-- ===== src/ImageDataTl/Frame.antt =====
-- The format of the frames that are sent.
use pi_vision.Base.{
  ℕ, ◌+◌, ◌*◌, ◌^◌, ◌<◌, ◌≡◌, refl, ◌≢◌, some, List, ◌++◌, arith, length, get_or, take, drop,
  replicate, length-replicate, length-append, drop-append, take-append, pos, ok, suc, Returns,
  Returns-bind, patch, blit-ok, length-patch, patch_behind, slice_whole, u32, ap, ◌∙◌, sym,
}
use mathlib.Core.Path.{subst}
use pi_vision.Chain.{Ptr, null}
use pi_vision.Sockets.{Sockets}
use pi_vision.Server
use pi_vision.Server.{Server, ServerContext}
use pi_vision.Server.Send.{send_whole}
use pi_vision.ImageDataTl.{
  ImageDataTl, send_data, wait_for_ack, le32, frame_bytes, after_send, send_in,
  send_grayscale_image,
}

-- The number that four bytes stand for.
pub of_le32 : List ℕ → ℕ
of_le32 bytes =
    get_or bytes 0 0
    + 256 * get_or bytes 1 0
    + 65536 * get_or bytes 2 0
    + 16777216 * get_or bytes 3 0

pub length-le32 : (n : ℕ) → length (le32 n) ≡ 4
unfolding le32
length-le32 n = refl

pub of_le32-le32 : (n : ℕ) → n < 2 ^ 32 → of_le32 (le32 n) ≡ n
unfolding of_le32 le32
of_le32-le32 n h = omega arith

-- `memset(bufToSend, 0, sizeof(bufToSend))`
abbrev cleared : ℕ → List ℕ
cleared n = replicate n 0

-- A frame is the size in four bytes and then the image: nothing of the cleared buffer is left, and
-- no copy leaves it.
pub frame_bytes_lem :
    (buf : List ℕ)
    → length buf + 4 < 2 ^ 32
    → frame_bytes buf (length buf) ≡ ok (le32 (length buf) ++ buf)
unfolding frame_bytes
frame_bytes_lem buf small =
    rw
      (
        e,
        blit-ok 0 (le32 size) (cleared (4 + size)) (omega (arith, len, four)),
        slice_whole size buf refl,
        blit-ok 4 buf (patch 0 (le32 size) (cleared (4 + size))) (omega (arith, whole, len)),
      )
      (ap ok (patch_behind 4 (le32 size) buf (cleared (4 + size)) four len))
  where
    size : ℕ
    size = length buf

    e : u32 (4 + size) ≡ 4 + size
    e = omega arith

    four : length (le32 size) ≡ 4
    four = length-le32 size

    len : length (cleared (4 + size)) ≡ 4 + size
    len = length-replicate (4 + size) 0

    whole : length (patch 0 (le32 size) (cleared (4 + size))) ≡ length (cleared (4 + size))
    whole = length-patch 0 (le32 size) (cleared (4 + size)) (omega (arith, len, four))

-- A receiver that reads the size from the first four bytes of the frame of an image of less than 2
-- ^ 32 - 4 bytes finds the length of the image, and the image in the bytes behind them.
pub frame_bytes_round_trip :
    (buf : List ℕ)
    → length buf + 4 < 2 ^ 32
    → Returns
        (λ frame. (of_le32 (take 4 frame) ≡ length buf) × (drop 4 frame ≡ buf))
        (frame_bytes buf (length buf))
frame_bytes_round_trip buf small =
    let four = length-le32 (length buf) in
    rw (frame_bytes_lem buf small, take-append (le32 (length buf)) buf 4 four)
      (of_le32-le32 (length buf) (omega arith), drop-append (le32 (length buf)) buf 4 four)

-- To a connected client whose socket takes the frame at once, an image of less than 2 ^ 32 - 4
-- bytes that is offered while none waits for its acknowledgement is sent as its length in four
-- bytes and the image, and then waits for its own acknowledgement; nothing else of the state
-- changes.
pub send_grayscale_image_sent :
    (os : Sockets) (p : Ptr) (k : ℕ) (buf : List ℕ) (t : ImageDataTl) (c : ServerContext)
    (s : Server) (w : os.World)
    → p ≢ null
    → s.contexts p ≡ some c
    → c.connected ≢ 0
    → t.state ≡ send_data
    → length buf + 4 < 2 ^ 32
    → (os.send c.client_socket (le32 (length buf) ++ buf) w).0 ≡ pos (4 + length buf)
    → Returns
        (λ (t', w').
          (t' ≡ record t { state = wait_for_ack })
          × (os.stream c.client_socket w'
              ≡ os.stream c.client_socket w ++ (le32 (length buf) ++ buf)))
        (send_grayscale_image os p (suc (suc k)) buf (length buf) t s w)
unfolding send_grayscale_image after_send
send_grayscale_image_sent os p k buf t c s w ne at on ready small all =
    subst (λ st. Returns Sent (send_in os p st (suc (suc k)) buf (length buf) t s w)) (sym ready)
      (rw (frame_bytes_lem buf small, len)
        (Returns-bind
          (λ (r, w').
            (r ≡ pos 0) × (os.stream c.client_socket w' ≡ os.stream c.client_socket w ++ frame))
          Sent (Server.send os (suc (suc k)) p frame (length frame) s w)
          (λ (r, w'). ok (after_send t r, w'))
          (send_whole os p c s ne at k frame w on (all ∙ ap pos (omega (arith, len)))
            (omega (arith, len)))
          (λ (r, w') (e, written). (rw e, written))))
  where
    frame : List ℕ
    frame = le32 (length buf) ++ buf

    Sent : ImageDataTl × os.World → Type 0
    Sent (t', w') =
        (t' ≡ record t { state = wait_for_ack })
        × (os.stream c.client_socket w' ≡ os.stream c.client_socket w ++ frame)

    len : u32 (4 + length buf) ≡ length frame
    len = omega (arith, length-append (le32 (length buf)) buf, length-le32 (length buf))
