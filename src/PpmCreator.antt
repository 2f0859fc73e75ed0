-- ===== src/PpmCreator.antt =====
-- C/PPMCreator/PPMCreator.c and C/PPMCreator/PPMCreator.h: a grayscale image as a PPM file.
pub mod Image
pub mod TestImage
mod Tests
use pi_vision.Base.{ℕ, ◌+◌, ◌*◌, List, [], ◌∷◌, ◌++◌, length, Run, ok, ◌>>=◌, blit, slice, u32}
use pi_vision.Constants.{text}
use pi_vision.Decimal.{decimal}

abbrev pub ppm_image_header_max_val : ℕ
ppm_image_header_max_val = 255

abbrev pub ppm_image_max_byte_size : ℕ
ppm_image_max_byte_size = 2048 * 2048 * 3

-- `PPMCREATOR_imageData`
pub record ImageData : Type 0 where
  pub image_byte_size : ℕ
  pub image_data : List ℕ

-- "P6 %u %u %u\n"
unfoldable pub header : ℕ → ℕ → List ℕ
header x_size y_size =
    text "P6 "
    ++ (decimal x_size
        ++ (32 ∷ (decimal y_size ++ (32 ∷ (decimal ppm_image_header_max_val ++ (10 ∷ []))))))

-- One byte behind the others: `imageData[imageByteSize] = b; imageByteSize += 1u;`
unfoldable pub put : ℕ → ImageData → Run ImageData
put b out = blit out.image_byte_size (b ∷ []) out.image_data >>= λ image_data.
    ok (record { image_data = image_data; image_byte_size = u32 (out.image_byte_size + 1) })

-- The loop, over the pixels that it reads.
pub pixel_loop : List ℕ → ImageData → Run ImageData
pixel_loop [] out = ok out
pixel_loop (b ∷ bs) out =
    put b out >>= λ red. put b red >>= λ green. put b green >>= λ blue. pixel_loop bs blue

-- `sprintf` writes the header with its NUL to the front, wherever the bytes before end.
unfoldable pub create_grayscale_image : ℕ → ℕ → List ℕ → ImageData → Run ImageData
create_grayscale_image x_size y_size buf out =
    blit 0 (header x_size y_size ++ (0 ∷ [])) out.image_data >>= λ image_data.
    slice 0 (u32 (x_size * y_size)) buf >>= λ pixels. pixel_loop pixels (record {
      image_data = image_data;
      image_byte_size = u32 (out.image_byte_size + length (header x_size y_size));
    })
