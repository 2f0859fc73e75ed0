-- ===== src/ImageNormalizerAlgo/Flat.antt =====
-- Images of one intensity.
use pi_vision.Base.{
  ℕ, suc, ◌+◌, ◌*◌, ◌/◌, ◌^◌, ◌≤◌, ◌<◌, ◌≡◌, refl, List, [], ◌∷◌, arith, map, length, All, ap, ◌∙◌,
  ok, fault, ◌>>=◌, le→ltb, eq→==, lt→ltb, subst,
}
use native.Mathlib.Nat.{le_antisymm}
use pi_vision.ImageNormalizerAlgo.{
  ImageNormalizerAlgo, clamp, clamp_loop, sub32, rescale, rescale_loop, normalizing_factor,
  normalize_image, create_grayscale_image, exec,
}
use pi_vision.ImageNormalizerAlgo.Grayscale.{IsByte, means, grayscale_loop-means, length-means}
use pi_vision.ImageNormalizerAlgo.Levels.{
  sum, clamp_bounds, clamp_loop-map, clamp_loop-sum, le-div, div-le_of_lt,
}

-- Every element is `k`.
abbrev pub Uniform : ℕ → List ℕ → Type 0
Uniform k = All (λ n. n ≡ k)

sum-Uniform : (k : ℕ) (ns : List ℕ) → Uniform k ns → sum ns ≡ k * length ns
unfolding sum
sum-Uniform k [] h = omega arith
sum-Uniform k (n ∷ ns) (hn, h) = omega (arith, sum-Uniform k ns h)

map-Uniform : (f : ℕ → ℕ) (k : ℕ) (ns : List ℕ) → Uniform k ns → Uniform (f k) (map f ns)
map-Uniform f k [] h = tt
map-Uniform f k (n ∷ ns) (hn, h) = (ap f hn, map-Uniform f k ns h)

length-map-clamp : (ns : List ℕ) → length (map clamp ns) ≡ length ns
length-map-clamp [] = refl
length-map-clamp (n ∷ ns) = ap suc (length-map-clamp ns)

means-Uniform : (k : ℕ) (bs : List ℕ) → Uniform k bs → Uniform k (means bs)
unfolding means
means-Uniform k [] h = tt
means-Uniform k (r ∷ []) h = tt
means-Uniform k (r ∷ g ∷ []) h = tt
means-Uniform k (r ∷ g ∷ b ∷ rest) (hr, (hg, (hb, h))) = (omega arith, means-Uniform k rest h)

average-Uniform :
    (k old : ℕ) (gs : List ℕ)
    → Uniform k gs
    → old < length gs
    → length gs < 2 ^ 24
    → (clamp_loop gs old).1 / length gs ≡ clamp k
average-Uniform k old gs h small few =
    let s = sum-Uniform (clamp k) (map clamp gs) (map-Uniform clamp k gs h) in
    let e : (clamp_loop gs old).1 ≡ old + clamp k * length gs =
      clamp_loop-sum gs old (omega arith)
      ∙ omega (arith, s, ap (λ t. clamp k * t) (length-map-clamp gs)) in
    rw e (
      le_antisymm
        (div-le_of_lt (clamp k) (old + clamp k * length gs) (length gs) (omega arith) (omega arith))
        (le-div (clamp k) (old + clamp k * length gs) (length gs) (omega arith) (omega arith)))

-- No pixel stands out, so that the loop finds one level.
rescale_loop-Uniform :
    (c deviation : ℕ) (ns : List ℕ) → Uniform c ns → rescale_loop c deviation ns c c ≡ ok (ns, c, c)
unfolding rescale_loop rescale
rescale_loop-Uniform c deviation [] h = refl
rescale_loop-Uniform c deviation (n ∷ ns) (hn, h) =
    rw (
      hn,
      le→ltb c c (omega arith),
      le→ltb c c (omega arith),
      rescale_loop-Uniform c deviation ns h,
    )

levels-Uniform :
    (c deviation : ℕ) (ns : List ℕ)
    → Uniform c ns
    → 0 < length ns
    → (20 ≤ c) × (c ≤ 240)
    → rescale_loop c deviation ns 0 255 ≡ ok (ns, c, c)
unfolding rescale_loop rescale
levels-Uniform c deviation [] h some_pixels b = absurd (omega arith)
levels-Uniform c deviation (n ∷ ns) (hn, h) some_pixels b = rw (
  hn,
  le→ltb c c (omega arith),
  lt→ltb 0 c (omega arith),
  lt→ltb c 255 (omega arith),
  rescale_loop-Uniform c deviation ns h,
)

normalize_image-Uniform :
    (k : ℕ) (a : ImageNormalizerAlgo)
    → Uniform k a.grayscale_image
    → a.max_intensity ≡ 0
    → a.min_intensity ≡ 255
    → a.average_intensity < length a.grayscale_image
    → length a.grayscale_image < 2 ^ 24
    → normalize_image (length a.grayscale_image) a ≡ fault
unfolding normalize_image normalizing_factor
normalize_image-Uniform k a h top bottom old few = rw (
  top,
  bottom,
  average-Uniform k a.average_intensity a.grayscale_image h old few,
  clamp_loop-map a.grayscale_image a.average_intensity,
  levels-Uniform (clamp k) _ (map clamp a.grayscale_image) (map-Uniform clamp k a.grayscale_image h)
      (omega (arith, length-map-clamp a.grayscale_image)) (clamp_bounds k),
  eq→== (sub32 (clamp k) (clamp k)) 0 (omega (arith, clamp_bounds k)),
)

-- From reset levels and an average below the number of pixels, which is less than 2 ^ 24, an image
-- of one intensity makes the algorithm divide by zero.
pub exec-Uniform :
    (k pixels : ℕ) (input : List ℕ) (a : ImageNormalizerAlgo)
    → k < 256
    → Uniform k input
    → length input ≡ pixels * 3
    → a.max_intensity ≡ 0
    → a.min_intensity ≡ 255
    → a.average_intensity < pixels
    → pixels < 2 ^ 24
    → exec pixels input a ≡ fault
unfolding exec create_grayscale_image
exec-Uniform k pixels input a byte h len top bottom old few =
    let e = grayscale_loop-means input (bytes_of input h) in
    let n = length-means pixels input len in
    rw e (
      subst
        (λ t.
          (normalize_image t (record a { grayscale_image = means input }) >>= λ a'.
          ok (record a' { max_intensity = 0; min_intensity = 255 }))
          ≡ fault)
        n
        (rw (
          normalize_image-Uniform k (record a { grayscale_image = means input })
            (means-Uniform k input h) top bottom (omega arith) (omega arith))))
  where
    bytes_of : (bs : List ℕ) → Uniform k bs → All IsByte bs
    bytes_of [] h = tt
    bytes_of (b ∷ bs) (hb, h) = (omega arith, bytes_of bs h)
