-- ===== src/ImageProvider/Copy.antt =====
-- A frame that the client holds reaches the caller of `IMGPROVIDER_getPixelData` unchanged.
use pi_vision.Base.{
  ℕ, ◌<◌, ◌^◌, ◌≡◌, refl, ◌≢◌, ◌⊎◌, inl, inr, List, [], arith, ◌==◌, if◌then◌else◌, length, Returns,
  Returns-bind, blit-ok, patch_whole, length-patch, Bool-cases, le→ltb, slice_whole, blit_whole,
  sym,
}
use pi_vision.Client
use pi_vision.Client.{Client}
use pi_vision.Client.Bounds.{IsValid, IsCurrent}
use pi_vision.Client.Frames.{receive_lem}
use pi_vision.ImageProvider.{ImageProvider, run, get_pixel_data}

-- The buffer has its size, and holds nothing or a whole frame.
pub record IsReady (size : ℕ) (p : ImageProvider) : Type 0 where
  pub room : length p.rec_buffer ≡ size
  pub whole : (p.rec_buffer_size ≡ 0) ⊎ (p.rec_buffer_size ≡ size)

-- What the provider holds after it has asked a client.
pub record Took (size : ℕ) (c : Client) (p : ImageProvider) : Type 0 where
  pub ready : IsReady size p
  pub frame : c.curr_state ≡ 4 → (p.rec_buffer_size ≡ size) × (p.rec_buffer ≡ c.buffer)
  pub nothing : c.curr_state ≢ 4 → p.rec_buffer_size ≡ 0

module _ (size : ℕ) (small : size < 2 ^ 31) where
  -- For frames of less than 2 ^ 31 bytes: a provider whose buffer has the size of a frame takes the
  -- frame of a valid client that has just run, if there is one, in full, and holds nothing
  -- otherwise; the client stays valid, and no copy leaves its array.
  pub run-Took :
      (p : ImageProvider) (c : Client)
      → IsReady size p
      → IsCurrent size c
      → Returns (λ (p', c'). Took size c p' × IsValid size c') (run size p c)
  unfolding run
  run-Took p c ready current =
      Returns-bind
        (λ (bytes, c').
          IsValid size c'
          × (bytes ≡ (if c.curr_state == 4 then c.buffer else []))
          × (c.curr_state ≡ 4 → c'.buffer_index ≡ size))
        _ (Client.receive size c) _ (receive_lem size c small current)
        λ (bytes, c') (v, e, _). elim (Bool-cases (c.curr_state == 4)) [
          | inl waits ↦
              let e' : bytes ≡ c.buffer = ground arith in
              let len : length bytes ≡ size = rw e' current.0.pixels in
              rw
                (
                  blit-ok 0 bytes p.rec_buffer (omega arith),
                  patch_whole bytes p.rec_buffer (omega arith),
                )
                (ground arith)
          | inr empty ↦
              let e' : bytes ≡ [] = ground arith in
              rw (e', blit-ok 0 [] p.rec_buffer (omega arith))
                (ground (arith, length-patch 0 [] p.rec_buffer))
        ]

  -- `IMGPROVIDER_getPixelData` for a whole frame of less than 2 ^ 31 bytes copies what the provider
  -- holds, nothing or a frame, and says how much.
  pub get_pixel_data_lem :
      (buf : List ℕ) (p : ImageProvider)
      → length buf ≡ size
      → IsReady size p
      → Returns
          (λ (buf', n).
            (n ≡ p.rec_buffer_size)
            × (buf' ≡ (if p.rec_buffer_size == 0 then buf else p.rec_buffer)))
          (get_pixel_data buf size p)
  unfolding get_pixel_data
  get_pixel_data_lem buf p len ready = elim (Bool-cases (p.rec_buffer_size == 0)) [
    | inl empty ↦ rw empty (ground arith)
    | inr full ↦
        let e : p.rec_buffer_size ≡ size = ground arith in
        rw
          (
            full,
            le→ltb p.rec_buffer_size size (omega arith),
            slice_whole size p.rec_buffer ready.room,
            blit_whole p.rec_buffer buf (omega arith),
          )
          (sym e, refl)
  ]
