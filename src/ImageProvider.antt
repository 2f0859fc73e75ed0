-- ===== src/ImageProvider.antt =====
-- C/src/PiVisImageProvider.c: one frame of the client, kept for the algorithms.
pub mod Contents
pub mod Copy
mod Tests
use pi_vision.Base.{ℕ, List, ltb, ◌==◌, if◌then◌else◌, length, Run, ok, ◌>>=◌, blit, slice, not}
use pi_vision.Client
use pi_vision.Client.{Client}

pub record ImageProvider : Type 0 where
  pub rec_buffer : List ℕ
  pub rec_buffer_size : ℕ

-- `size` is COLOR_IMAGE_SIZE. `CLIENT_receive` copies to the front of `recBuffer`.
unfoldable pub run : ℕ → ImageProvider → Client → Run (ImageProvider × Client)
run size p c = Client.receive size c >>= λ (bytes, c'). blit 0 bytes p.rec_buffer >>= λ rec_buffer.
    ok (record { rec_buffer = rec_buffer; rec_buffer_size = length bytes }, c')

unfoldable pub init : ImageProvider → ImageProvider
init p = record p { rec_buffer_size = 0 }

-- `IMGPROVIDER_getPixelData(buf, bufSize)`: `buf` after the copy, and the number of bytes copied.
unfoldable pub get_pixel_data : List ℕ → ℕ → ImageProvider → Run (List ℕ × ℕ)
get_pixel_data buf buf_size p =
    if p.rec_buffer_size == 0
    then ok (buf, 0)
    else (let bytes_to_copy =
          if ltb p.rec_buffer_size buf_size then p.rec_buffer_size else buf_size in
        slice 0 bytes_to_copy p.rec_buffer >>= λ bytes.
        blit 0 bytes buf >>= λ buf'. ok (buf', bytes_to_copy))
