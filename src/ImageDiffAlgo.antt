-- ===== src/ImageDiffAlgo.antt =====
-- C/src/PiVisImageDiffAlgo.c: a grayscale image in which the pixels that have changed since the last
-- frame are white. An image is the list of its bytes.
pub mod Motion
mod Tests
use pi_vision.Base.{ℕ, ◌+◌, ◌-◌, ◌/◌, true, false, List, [], ◌∷◌, ltb, ◌==◌, if◌then◌else◌, u8, u32}

-- The statics of the file.
pub record ImageDiffAlgo : Type 0 where
  pub received_first_image : ℕ
  pub prev_buffer : List ℕ
  pub image_to_send : List ℕ

-- `abs(prevBuffer[bufIndex] - inputData[bufIndex])`
pub abs_diff : ℕ → ℕ → ℕ
abs_diff a b = if ltb a b then b - a else a - b

-- The pixel that is written when the bytes of its three colors have been added up.
pub pixel : ℕ → ℕ → ℕ
pixel diff color_intensity = if ltb 100 diff then 255 else u8 (color_intensity / 3)

-- The loop over the two images, with `colorIndex`, `diff` and `colorIntensity`.
pub diff_loop : List ℕ → List ℕ → ℕ → ℕ → ℕ → List ℕ
diff_loop (p ∷ ps) (b ∷ bs) color_index diff color_intensity = elim (ltb 2 (color_index + 1)) [
  | true ↦ pixel (u32 (diff + abs_diff p b)) (u32 (color_intensity + b)) ∷ diff_loop ps bs 0 0 0
  | false ↦
      diff_loop ps bs (color_index + 1) (u32 (diff + abs_diff p b)) (u32 (color_intensity + b))
]
diff_loop _ _ color_index diff color_intensity = []

-- `IMGDIFFALGO_exec` on the image at `inputData`; the context points at `imageToSend`.
unfoldable pub exec : List ℕ → ImageDiffAlgo → ImageDiffAlgo
unfolding diff_loop
exec input a = record {
  received_first_image = 1;
  prev_buffer = input;
  image_to_send =
      if a.received_first_image == 1 then diff_loop a.prev_buffer input 0 0 0 else a.image_to_send;
}
