-- ===== src/ImageDataTl/Offers.antt =====
-- An image that is offered, whatever becomes of it.
use pi_vision.Base.{
  ℕ, ◌+◌, ◌^◌, ◌<◌, ◌≡◌, ◌≢◌, inl, inr, some, List, ◌++◌, arith, length, length-append, ℤ,
  is_minus_one, Halts, Halts-bind, u32, Bool-cases,
}
use pi_vision.Chain.{Ptr, null}
use pi_vision.Sockets.{Sockets}
use pi_vision.Server.{Server, ServerContext}
use pi_vision.Server.Send.{Refused, send-Halts}
use pi_vision.ImageDataTl.{
  ImageDataTl, State, send_data, wait_for_ack, le32, after_send, send_in, send_grayscale_image,
}
use pi_vision.ImageDataTl.Frame.{frame_bytes_lem, length-le32}
use pi_vision.ImageDataTl.Handshake.{IsValid}

after_send-IsValid :
    (t : ImageDataTl) (send_status : ℤ) → IsValid t → IsValid (after_send t send_status)
unfolding after_send
after_send-IsValid t r v = elim (Bool-cases (is_minus_one r)) [
  | inl unsent ↦ rw unsent (ground arith)
  | inr sent ↦ rw sent (ground arith)
]

module _ (os : Sockets) (p : Ptr) (c : ServerContext) (s : Server) (ne : p ≢ null)
    (at : s.contexts p ≡ some c) where
  open os use {World}

  -- An image of less than 2 ^ 32 - 4 bytes is offered to a service that exists with an end, and a
  -- valid state stays valid, unless a client's socket refuses to take any byte.
  pub send_grayscale_image-Halts :
      (fuel : ℕ) (buf : List ℕ) (t : ImageDataTl) (w : World)
      → IsValid t
      → length buf + 4 < 2 ^ 32
      → length buf + 4 < fuel
      → Halts
          (λ (t', w'). IsValid t')
          ⊥
          (Refused os p s w)
          (send_grayscale_image os p fuel buf (length buf) t s w)
  unfolding send_grayscale_image
  send_grayscale_image-Halts fuel buf t w v small enough = go t.state
    where
      go :
          (st : State)
          → Halts
              (λ (t', w'). IsValid t')
              ⊥
              (Refused os p s w)
              (send_in os p st fuel buf (length buf) t s w)
      go send_data =
          let size : u32 (4 + length buf) ≡ length (le32 (length buf) ++ buf) =
            omega (arith, length-append (le32 (length buf)) buf, length-le32 (length buf)) in
          rw (frame_bytes_lem buf small, size)
            (Halts-bind (λ r. Unit {0}) ⊥ (Refused os p s w) (λ (t', w'). IsValid t') _ _
              (send-Halts os p c s ne at fuel (length (le32 (length buf) ++ buf))
                (le32 (length buf) ++ buf) w (omega arith) (omega arith) (omega arith))
              λ (r, w') h. after_send-IsValid t r v)
      go wait_for_ack = ground arith
