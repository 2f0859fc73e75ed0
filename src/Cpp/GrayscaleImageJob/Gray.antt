-- ===== src/Cpp/GrayscaleImageJob/Gray.antt =====
-- What a grayscale job makes of a frame, against the means of its pixels.
use mathlib.Core.List.{append_assoc, append-nil}
use pi_vision.Base.{
  ℕ, zero, suc, ◌+◌, ◌*◌, ◌/◌, ◌-◌, ◌^◌, ◌≤◌, ◌<◌, ◌≡◌, refl, sym, ap, ◌∙◌, Bool-cases, inl, inr,
  List, [], ◌∷◌, ◌++◌, map, arith, All, ltb, length, length-append, take, drop, take_all, lt→ltb,
  if◌then◌else◌, ok, u8, u16,
}
use pi_vision.ImageNormalizerAlgo.Grayscale.{means, IsByte}
use pi_vision.Cpp.Events.{
  PiVisionData, new_data, nullptr, new_data_ind, pivision_server, event_grayscale_job_complete_ind,
  bw_image_service_tx, raise_event,
}
use pi_vision.Cpp.Events.Buffer.{append-ok, append-full}
use pi_vision.Cpp.GrayscaleImageJob.{extract_image_properties, limited, pixel_loop, execute}

-- The value between the two limits that is closest to a number.
abbrev pub clamp : ℕ → ℕ
clamp n = if ltb n 1 then 1 else if ltb 254 n then 254 else n

limited-clamp : (n : ℕ) → limited n ≡ clamp n
unfolding limited
limited-clamp n = ground arith

clamp_mono : (m n : ℕ) → m ≤ n → clamp m ≤ clamp n
clamp_mono m n h = ground arith

-- The pixels of an image that starts behind a pixel of an intensity: the mean of each one's three
-- colors and a third of the intensity before it, cut to the limits.
unfoldable pub carried : ℕ → List ℕ → List ℕ
carried before (r ∷ g ∷ b ∷ rest) =
    clamp ((before + r + g + b) / 3) ∷ carried (clamp ((before + r + g + b) / 3)) rest
carried before _ = []

pub length-carried :
    (n before : ℕ) (bs : List ℕ) → length bs ≡ n * 3 → length (carried before bs) ≡ n
unfolding carried
length-carried zero before [] h = refl
length-carried zero before (b ∷ bs) h = absurd (omega arith)
length-carried (suc n) before [] h = absurd (omega arith)
length-carried (suc n) before (r ∷ []) h = absurd (omega arith)
length-carried (suc n) before (r ∷ g ∷ []) h = absurd (omega arith)
length-carried (suc n) before (r ∷ g ∷ b ∷ rest) h =
    ap suc (length-carried n (clamp ((before + r + g + b) / 3)) rest (omega arith))

-- The intensity of a pixel: no sum wraps, and the byte that is stored is the intensity.
pixel_lem :
    (p r g b : ℕ)
    → IsByte p
    → IsByte r
    → IsByte g
    → IsByte b
    → limited (u16 (u16 (u16 (p + r) + g) + b) / 3) ≡ clamp ((p + r + g + b) / 3)
pixel_lem p r g b hp hr hg hb =
    let sum : u16 (u16 (u16 (p + r) + g) + b) ≡ p + r + g + b = omega arith in
    rw sum (limited-clamp ((p + r + g + b) / 3))

clamp-IsByte : (n : ℕ) → IsByte (clamp n)
clamp-IsByte n = ground arith

u8-clamp : (n : ℕ) → u8 (clamp n) ≡ clamp n
u8-clamp n = let h : IsByte (clamp n) = clamp-IsByte n in omega (arith, h)

-- The image with the pixels that there is room for.
abbrev pub filled_with : List ℕ → PiVisionData → PiVisionData
filled_with pixels image = record image {
  buf = image.buf ++ take (image.capacity - length image.buf) pixels;
}

-- A pixel with, and without, room.
filled_room :
    (x : ℕ) (xs : List ℕ) (image : PiVisionData)
    → length image.buf < image.capacity
    → filled_with xs (record image { buf = image.buf ++ (x ∷ []) }) ≡ filled_with (x ∷ xs) image
filled_room x xs image room =
    ap (λ b. record image { buf = b })
      (append_assoc image.buf (x ∷ []) (take (image.capacity - length (image.buf ++ (x ∷ []))) xs)
        ∙ ap (λ t. image.buf ++ t)
            (ap (λ k. x ∷ take k xs) (omega (arith, length-append image.buf (x ∷ [])))
              ∙ sym
                  (ap (λ k. take k (x ∷ xs)) (one_more (image.capacity) (length image.buf) room))))
  where
    one_more : (m n : ℕ) → n < m → m - n ≡ suc (m - suc n)
    one_more m n h = omega arith

filled_full :
    (xs : List ℕ) (image : PiVisionData)
    → image.capacity ≤ length image.buf
    → filled_with xs image ≡ image
filled_full xs image full =
    ap (λ b. record image { buf = b })
      (ap (λ k. image.buf ++ take k xs) (nothing (image.capacity) (length image.buf) full)
        ∙ append-nil image.buf)
  where
    nothing : (m n : ℕ) → m ≤ n → m - n ≡ 0
    nothing m n h = omega arith

filled_none : (image : PiVisionData) → ok image ≡ ok (filled_with [] image)
filled_none image =
    ap (λ b. ok (record image { buf = b }))
      (sym (
        ap (λ t. image.buf ++ t) (take_all (image.capacity - length image.buf) [] (omega arith))
        ∙ append-nil image.buf))

-- Over a frame's bytes, the loop appends these pixels, as far as the image has room for them.
pub pixel_loop-carried :
    (bs : List ℕ) (before : ℕ) (image : PiVisionData)
    → All IsByte bs
    → IsByte before
    → length image.buf ≤ image.capacity
    → image.capacity < 2 ^ 31
    → pixel_loop bs 0 before image ≡ ok (filled_with (carried before bs) image)
unfolding pixel_loop carried
pixel_loop-carried [] before image h hp le small = filled_none image
pixel_loop-carried (r ∷ []) before image h hp le small = filled_none image
pixel_loop-carried (r ∷ g ∷ []) before image h hp le small = filled_none image
pixel_loop-carried (r ∷ g ∷ b ∷ rest) before image (hr, (hg, (hb, h))) hp le small =
    let v = clamp ((before + r + g + b) / 3) in
    elim (Bool-cases (ltb (length image.buf) image.capacity)) [
      | inl room ↦
          rw
            (
              pixel_lem before r g b hp hr hg hb,
              u8-clamp ((before + r + g + b) / 3),
              append-ok (v ∷ []) image (ground (arith, room)) (omega arith),
            )
            (pixel_loop-carried rest v (record image { buf = image.buf ++ (v ∷ []) }) h
                (clamp-IsByte ((before + r + g + b) / 3))
                (ground (arith, room, length-append image.buf (v ∷ []))) small
              ∙ ap ok (filled_room v (carried v rest) image (ground (arith, room))))
      | inr full ↦
          rw
            (
              pixel_lem before r g b hp hr hg hb,
              u8-clamp ((before + r + g + b) / 3),
              append-full (v ∷ []) image (ground (arith, full)) (omega arith),
            )
            (pixel_loop-carried rest v image h (clamp-IsByte ((before + r + g + b) / 3)) le small
              ∙ ap ok (
                  filled_full (carried v rest) image (ground (arith, full))
                  ∙ sym (filled_full (v ∷ carried v rest) image (ground (arith, full)))))
    ]

-- A frame of x * y whole pixels, as its header says, and fewer than 2 ^ 31, becomes an image in which each pixel is the
-- sum of its colors and of the pixel before it, divided by three and cut to the range from 1 to 254;
-- then the end of the job is told.
pub execute-carried :
    (d : PiVisionData) (x y : ℕ)
    → extract_image_properties d ≡ (x, y)
    → x * y < 2 ^ 31
    → All IsByte (drop 4 d.buf)
    → length (drop 4 d.buf) ≡ x * y * 3
    → execute d
      ≡ ok (
          raise_event bw_image_service_tx (
            new_data_ind pivision_server
              (record { capacity = x * y; buf = carried 0 (drop 4 d.buf) }))
          ∷ raise_event event_grayscale_job_complete_ind nullptr
          ∷ [])
unfolding execute
execute-carried d x y sizes small bytes len =
    rw
      (
        sizes,
        lt→ltb (x * y) (2 ^ 31) small,
        execute,
        pixel_loop-carried (drop 4 d.buf) 0 (new_data (x * y)) bytes (omega arith) (omega arith)
            small,
      )
      (ap
        (λ pixels. ok (
          raise_event bw_image_service_tx
            (new_data_ind pivision_server (record { capacity = x * y; buf = pixels }))
          ∷ raise_event event_grayscale_job_complete_ind nullptr
          ∷ []))
        (take_all (x * y - 0) (carried 0 (drop 4 d.buf))
          (omega (arith, length-carried (x * y) 0 (drop 4 d.buf) len))))

-- Each value of a list is at least the one of another at its place, and they are equally long.
abbrev pub AtLeast : List ℕ → List ℕ → Type 0
AtLeast [] [] = Unit
AtLeast (m ∷ ms) (n ∷ ns) = (n ≤ m) × AtLeast ms ns
AtLeast _ _ = ⊥

-- The carried intensity only brightens: no pixel is darker than the mean of its colors, cut to the
-- limits.
pub carried-AtLeast :
    (before : ℕ) (bs : List ℕ) → AtLeast (carried before bs) (map clamp (means bs))
unfolding carried means
carried-AtLeast before [] = tt
carried-AtLeast before (r ∷ []) = tt
carried-AtLeast before (r ∷ g ∷ []) = tt
carried-AtLeast before (r ∷ g ∷ b ∷ rest) = (
  clamp_mono ((r + g + b) / 3) ((before + r + g + b) / 3) (omega arith),
  carried-AtLeast (clamp ((before + r + g + b) / 3)) rest,
)
