-- ===== src/ImageNormalizerAlgo/Result.antt =====
-- What the algorithm leaves behind, image after image.
use pi_vision.Base.{
  ℕ, ◌-◌, ◌*◌, ◌/◌, ◌^◌, ◌≤◌, ◌<◌, ◌≡◌, refl, ◌⊎◌, inl, inr, List, [], ◌∷◌, arith, map, length, All,
  Run, ok, Ends, Ends-bind, Ends-bind_eq, ◌>>=◌, ◌∙◌, subst, length-map,
}
use pi_vision.ImageNormalizerAlgo.{
  ImageNormalizerAlgo, clamp, clamp_loop, sub32, rescale_loop, stretch_loop, normalizing_factor,
  normalize_image, create_grayscale_image, exec, variance_loop, sqrt, image_filter_low,
  image_filter_high,
}
use pi_vision.ImageNormalizerAlgo.Grayscale.{IsByte, means, grayscale_loop-means, length-means}
use pi_vision.ImageNormalizerAlgo.Levels.{clamp_bounds, clamp_loop-map, average_bounds}
use pi_vision.ImageNormalizerAlgo.Stretch.{
  Within, Leveled, rescale_loop-Leveled, stretch_loop-IsByte,
}

-- The levels as the next image wants them, and an average within the limits of the filter.
pub record IsReset (a : ImageNormalizerAlgo) : Type 0 where
  pub top : a.max_intensity ≡ 0
  pub bottom : a.min_intensity ≡ 255
  pub average : a.average_intensity ≤ image_filter_high

-- A whole image of bytes.
pub record IsImage (pixels : ℕ) (a : ImageNormalizerAlgo) : Type 0 where
  pub size : length a.normalized_image ≡ pixels
  pub bytes : All IsByte a.normalized_image
  pub bright : image_filter_low ≤ a.average_intensity

-- The average and the standard deviation that the algorithm computes for a grayscale image.
abbrev pub average_of : ℕ → ImageNormalizerAlgo → ℕ
average_of pixels a = (clamp_loop a.grayscale_image a.average_intensity).1 / pixels

abbrev pub deviation_of : ℕ → ImageNormalizerAlgo → ℕ
deviation_of pixels a = sqrt (
    variance_loop (average_of pixels a) (clamp_loop a.grayscale_image a.average_intensity).0
      a.grayscale_image 0
    / pixels)

-- The two reasons to divide by zero: no deviation, or one level for all pixels.
abbrev pub Degenerate : ℕ → ImageNormalizerAlgo → Type 0
Degenerate pixels a =
    (deviation_of pixels a ≡ 0)
    ⊎ ((ns : List ℕ) × (g : ℕ) × (rescale_loop (average_of pixels a) (deviation_of pixels a)
            (clamp_loop a.grayscale_image a.average_intensity).0 0 255
          ≡ ok (ns, g, g)))

map-clamp-IsByte : (gs : List ℕ) → All IsByte (map clamp gs)
map-clamp-IsByte [] = tt
map-clamp-IsByte (g ∷ gs) = (omega (arith, clamp_bounds g), map-clamp-IsByte gs)

-- The factor exists where the levels differ.
factor_cases :
    (g l : ℕ) → l ≤ g → g < 256 → Ends (λ f. f ≡ 255 / (g - l)) (g ≡ l) (normalizing_factor g l)
unfolding normalizing_factor
factor_cases g l le byte = let e : sub32 g l ≡ g - l = omega arith in rw e (ground arith)

level_order :
    (least greatest : ℕ) (cs : List ℕ)
    → All (Within least greatest) cs
    → 0 < length cs
    → least ≤ greatest
level_order least greatest [] h some_pixels = absurd (omega arith)
level_order least greatest (c ∷ cs) ((lo, hi), h) some_pixels = omega arith

-- The last two loops, from a filtered image.
module _ (pixels average deviation : ℕ) (ns : List ℕ) (a : ImageNormalizerAlgo) where
  abbrev Flat : Type 0
  Flat =
      (deviation ≡ 0)
      ⊎ ((cs : List ℕ) × (g : ℕ) × (rescale_loop average deviation ns 0 255 ≡ ok (cs, g, g)))

  abbrev after_levels : List ℕ × ℕ × ℕ → Run ImageNormalizerAlgo
  after_levels (scaled, greatest, least) = normalizing_factor greatest least >>= λ factor.
      ok (record a {
        normalized_image = stretch_loop least factor scaled;
        max_intensity = greatest;
        min_intensity = least;
        average_intensity = average;
        standard_deviation = deviation;
      })

  levels-Ends :
      All IsByte ns
      → length ns ≡ pixels
      → 0 < pixels
      → (image_filter_low ≤ average) × (average ≤ image_filter_high)
      → Ends
          (λ b. IsImage pixels b × (b.average_intensity ≤ image_filter_high))
          Flat
          (rescale_loop average deviation ns 0 255 >>= after_levels)
  levels-Ends bytes len some_pixels (lo, hi) =
      Ends-bind_eq (Leveled 0 255 ns) (deviation ≡ 0) _ Flat
        (rescale_loop average deviation ns 0 255) after_levels
        (rescale_loop-Leveled average deviation ns 0 255 bytes (omega arith))
        (λ (cs, g, l) (within, up, down, byte, len') e.
          Ends-bind_eq (λ f. f ≡ 255 / (g - l)) (g ≡ l)
            (λ b. IsImage pixels b × (b.average_intensity ≤ image_filter_high)) Flat
            (normalizing_factor g l) _
            (factor_cases g l (level_order l g cs within (omega arith)) byte)
            (λ f ef _.
              let (image, size) = stretch_loop-IsByte l g cs within byte in
              (record { size = rw ef (size ∙ len' ∙ len); bytes = rw ef image; bright = lo }, hi))
            (λ flat. inr (cs, g, rw flat (rw flat at e))))
        inl

normalize_image-Ends :
    (pixels : ℕ) (a : ImageNormalizerAlgo)
    → IsReset a
    → length a.grayscale_image ≡ pixels
    → image_filter_high < pixels
    → pixels < 2 ^ 24
    → Ends
        (λ b. IsImage pixels b × (b.average_intensity ≤ image_filter_high))
        (Degenerate pixels a)
        (normalize_image pixels a)
unfolding normalize_image
normalize_image-Ends pixels a r len enough few =
    let gs = a.grayscale_image in
    let old = a.average_intensity in
    let (_, lo, hi) = average_bounds gs old r.average (omega arith) (omega arith) in
    let bounds =
      subst
        (λ t.
          (image_filter_low ≤ (clamp_loop gs old).1 / t)
          × ((clamp_loop gs old).1 / t ≤ image_filter_high))
        len (lo, hi) in
    rw (r.top, r.bottom)
      (levels-Ends pixels (average_of pixels a) (deviation_of pixels a) (clamp_loop gs old).0 a
        (rw (clamp_loop-map gs old) (map-clamp-IsByte gs))
        (rw (clamp_loop-map gs old) (length-map gs clamp ∙ len)) (omega arith) bounds)

-- From a reset state and a color image of more than 240 and less than 2 ^ 24 pixels the algorithm
-- makes a grayscale image of bytes, as many as there are pixels, and is reset again; it fails only
-- by a division by zero, for an image with no deviation or with one level.
pub exec-Ends :
    (pixels : ℕ) (input : List ℕ) (a : ImageNormalizerAlgo)
    → IsReset a
    → length input ≡ pixels * 3
    → All IsByte input
    → image_filter_high < pixels
    → pixels < 2 ^ 24
    → Ends
        (λ b. IsImage pixels b × IsReset b)
        (Degenerate pixels (record a { grayscale_image = means input }))
        (exec pixels input a)
unfolding exec create_grayscale_image
exec-Ends pixels input a r len bytes enough few =
    let gray = record a { grayscale_image = means input } in
    rw (grayscale_loop-means input bytes) (
      Ends-bind (λ b. IsImage pixels b × (b.average_intensity ≤ image_filter_high))
        (Degenerate pixels gray) (λ b. IsImage pixels b × IsReset b) (normalize_image pixels gray)
        (λ b. ok (record b { max_intensity = 0; min_intensity = 255 }))
        (normalize_image-Ends pixels gray
          (record { top = r.top; bottom = r.bottom; average = r.average })
          (length-means pixels input len) enough few)
        (λ b (image, average). (
          record { size = image.size; bytes = image.bytes; bright = image.bright },
          record { top = refl; bottom = refl; average = average },
        )))
