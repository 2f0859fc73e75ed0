-- ===== src/Cpp/GrayscaleImageJob.antt =====
-- C++/src/pivision_grayscaleimagejob.cpp: a grayscale image of one frame.
pub mod Gray
use pi_vision.Base.{
  ℕ, ◌+◌, ◌*◌, ◌/◌, ◌^◌, Bool, true, false, List, [], ◌∷◌, ltb, if◌then◌else◌, drop, Run, ok, fault,
  ◌>>=◌, u8, u16,
}
use pi_vision.Cpp.Events.{
  PiVisionData, new_data, append, get_element_at, pivision_server, nullptr, new_data_ind,
  event_grayscale_job_complete_ind, bw_image_service_tx, Call, raise_event,
}

abbrev pub upper_limit : ℕ
upper_limit = 254

abbrev pub lower_limit : ℕ
lower_limit = 1

-- `ExtractImageProperties`: two numbers of two bytes each; the shifted bytes do not overlap.
unfoldable pub extract_image_properties : PiVisionData → ℕ × ℕ
extract_image_properties d =
    (get_element_at d 0 + 256 * get_element_at d 1, get_element_at d 2 + 256 * get_element_at d 3)

-- The two limits.
unfoldable pub limited : ℕ → ℕ
limited c =
    let c1 = if ltb upper_limit c then upper_limit else c in
    if ltb c1 lower_limit then lower_limit else c1

-- The loop over the bytes from the fifth on, with `colorIndex` and `colorIntensity`, which keeps the
-- intensity of a pixel for the next one.
pub pixel_loop : List ℕ → ℕ → ℕ → PiVisionData → Run PiVisionData
pixel_loop [] color_index color_intensity image = ok image
pixel_loop (b ∷ bs) color_index color_intensity image = elim (ltb 2 (u8 (color_index + 1))) [
  | true ↦ append (u8 (limited (u16 (color_intensity + b) / 3)) ∷ []) image >>= λ (image', _).
      pixel_loop bs 0 (limited (u16 (color_intensity + b) / 3)) image'
  | false ↦ pixel_loop bs (u8 (color_index + 1)) (u16 (color_intensity + b)) image
]

-- `Execute`: the product of the sizes is one of two `int`s.
unfoldable pub execute : PiVisionData → Run (List Call)
execute pixel_data =
    let (x_size, y_size) = extract_image_properties pixel_data in
    if ltb (x_size * y_size) (2 ^ 31)
    then (pixel_loop (drop 4 pixel_data.buf) 0 0 (new_data (x_size * y_size)) >>= λ image. ok (
        raise_event bw_image_service_tx (new_data_ind pivision_server image)
        ∷ raise_event event_grayscale_job_complete_ind nullptr
        ∷ []))
    else fault
