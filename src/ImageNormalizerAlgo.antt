-- ===== src/ImageNormalizerAlgo.antt =====
-- C/src/PiVisImageNormalizerAlgo.c: from a color image to a grayscale image with stretched contrast.
-- An image is the list of its bytes; `pixels` is GRAYSCALE_IMAGE_SIZE. A loop that writes its array
-- from the first element to the last gives the list of what it writes.
pub mod Grayscale
pub mod Flat
pub mod Levels
pub mod Result
pub mod Stretch
mod Tests
use pi_vision.Base.{
  ℕ, zero, suc, ◌+◌, ◌-◌, ◌*◌, ◌/◌, ◌%◌, ◌^◌, true, false, List, [], ◌∷◌, ltb, leb, ◌==◌,
  if◌then◌else◌, Run, ok, fault, ◌>>=◌, u8, u32,
}

abbrev pub image_filter_high : ℕ
image_filter_high = 240

abbrev pub image_filter_low : ℕ
image_filter_low = 20

-- The statics of the file.
pub record ImageNormalizerAlgo : Type 0 where
  pub grayscale_image : List ℕ
  pub normalized_image : List ℕ
  pub max_intensity : ℕ
  pub min_intensity : ℕ
  pub average_intensity : ℕ
  pub standard_deviation : ℕ

-- The loop of `createGrayscaleImage`, with `colorIndex` and `colorIntensity`.
pub grayscale_loop : List ℕ → ℕ → ℕ → List ℕ
grayscale_loop [] color_index color_intensity = []
grayscale_loop (b ∷ bs) color_index color_intensity = elim (ltb 2 (color_index + 1)) [
  | true ↦ u8 (u32 (color_intensity + u8 b) / 3) ∷ grayscale_loop bs 0 0
  | false ↦ grayscale_loop bs (color_index + 1) (u32 (color_intensity + u8 b))
]

unfoldable pub create_grayscale_image : List ℕ → ImageNormalizerAlgo → ImageNormalizerAlgo
unfolding grayscale_loop
create_grayscale_image color_image a = record a { grayscale_image = grayscale_loop color_image 0 0 }

-- The filter of the first loop of `normalizeImage`.
pub clamp : ℕ → ℕ
clamp c =
    if ltb image_filter_high c
    then image_filter_high
    else (if ltb c image_filter_low then image_filter_low else c)

-- The first loop: the filtered image, and `averageIntensity` with its pixels added.
pub clamp_loop : List ℕ → ℕ → List ℕ × ℕ
clamp_loop [] average = ([], average)
clamp_loop (g ∷ gs) average =
    let (ns, average') = clamp_loop gs (u32 (average + clamp g)) in (clamp g ∷ ns, average')

-- `unsigned int` subtraction
abbrev pub sub32 : ℕ → ℕ → ℕ
sub32 a b = (a + 2 ^ 32 - b) % 2 ^ 32

-- The second loop: `imageVariance` before its division.
pub variance_loop : ℕ → List ℕ → List ℕ → ℕ → ℕ
variance_loop average (n ∷ ns) (g ∷ gs) variance =
    variance_loop average ns gs (u32 (variance + u32 (sub32 n average * sub32 g average)))
variance_loop average _ _ variance = variance

-- The integer part of the square root: the digit for each power of two below 2 ^ k, behind `r`.
pub sqrt_loop : ℕ → ℕ → ℕ → ℕ
sqrt_loop zero v r = r
sqrt_loop (suc k) v r = sqrt_loop k v (if leb ((r + 2 ^ k) * (r + 2 ^ k)) v then r + 2 ^ k else r)

-- `sqrt` of the C library on an `unsigned int`, converted back to one: 16 binary digits.
unfoldable pub sqrt : ℕ → ℕ
unfolding sqrt_loop
sqrt v = sqrt_loop 16 v 0

abbrev pub maximum : ℕ → ℕ → ℕ
maximum a b = if ltb b a then a else b

abbrev pub minimum : ℕ → ℕ → ℕ
minimum a b = if ltb a b then a else b

-- The intensity that the third loop gives to a pixel; a division by zero is a fault.
pub rescale : ℕ → ℕ → ℕ → Run ℕ
rescale average deviation n =
    if ltb average n
    then (if deviation == 0 then fault else ok (u8 (sub32 n average / deviation)))
    else ok n

-- The third loop: the image, and the least and the greatest intensity so far.
pub rescale_loop : ℕ → ℕ → List ℕ → ℕ → ℕ → Run (List ℕ × ℕ × ℕ)
rescale_loop average deviation [] greatest least = ok ([], greatest, least)
rescale_loop average deviation (n ∷ ns) greatest least = rescale average deviation n >>= λ c.
    rescale_loop average deviation ns (maximum c greatest) (minimum c least)
    >>= λ (cs, greatest', least'). ok (c ∷ cs, greatest', least')

-- The last loop.
pub stretch : ℕ → ℕ → ℕ → ℕ
stretch least factor n = if ltb least n then u8 (u32 (sub32 n least * factor)) else n

pub stretch_loop : ℕ → ℕ → List ℕ → List ℕ
stretch_loop least factor [] = []
stretch_loop least factor (n ∷ ns) = stretch least factor n ∷ stretch_loop least factor ns

-- `255 / (maxIntensity - minIntensity)`
pub normalizing_factor : ℕ → ℕ → Run ℕ
normalizing_factor greatest least =
    if sub32 greatest least == 0 then fault else ok (255 / sub32 greatest least)

-- `average_intensity` is not reset before its pixels are added.
unfoldable pub normalize_image : ℕ → ImageNormalizerAlgo → Run ImageNormalizerAlgo
normalize_image pixels a =
    let (clamped, total) = clamp_loop a.grayscale_image a.average_intensity in
    let average = total / pixels in
    let deviation = sqrt (variance_loop average clamped a.grayscale_image 0 / pixels) in
    rescale_loop average deviation clamped a.max_intensity a.min_intensity
    >>= λ (scaled, greatest, least). normalizing_factor greatest least >>= λ factor. ok (record a {
      normalized_image = stretch_loop least factor scaled;
      max_intensity = greatest;
      min_intensity = least;
      average_intensity = average;
      standard_deviation = deviation;
    })

-- `IMGNORMALGO_exec` on the image at `inputData`; the context points at `normalizedImage` afterwards.
unfoldable pub exec : ℕ → List ℕ → ImageNormalizerAlgo → Run ImageNormalizerAlgo
exec pixels input a = normalize_image pixels (create_grayscale_image input a) >>= λ a'.
    ok (record a' { max_intensity = 0; min_intensity = 255 })
