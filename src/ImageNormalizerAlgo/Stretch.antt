-- ===== src/ImageNormalizerAlgo/Stretch.antt =====
-- The last loops of `normalizeImage`, and the whole algorithm: its results, and where it divides by
-- zero.
use pi_vision.Base.{
  ℕ, suc, ◌-◌, ◌*◌, ◌/◌, ◌≤◌, ◌<◌, ◌≡◌, refl, List, [], ◌∷◌, arith, length, All, ap, Ends,
  Ends-bind, lt→ltb,
}
use pi_vision.ImageNormalizerAlgo.{
  sub32, rescale, rescale_loop, maximum, minimum, stretch, stretch_loop,
}
use pi_vision.ImageNormalizerAlgo.Grayscale.{IsByte}

abbrev pub Within : ℕ → ℕ → ℕ → Type 0
Within least greatest n = (least ≤ n) × (n ≤ greatest)

-- The image after the third loop lies between the levels that the loop has found, which are bytes.
abbrev pub Leveled : ℕ → ℕ → List ℕ → List ℕ × ℕ × ℕ → Type 0
Leveled greatest least ns (cs, greatest', least') =
    All (Within least' greatest') cs
    × (greatest ≤ greatest')
    × (least' ≤ least)
    × (greatest' < 256)
    × (length cs ≡ length ns)

rescale_bounds :
    (average deviation n : ℕ)
    → n < 256
    → Ends (λ c. c < 256) (deviation ≡ 0) (rescale average deviation n)
unfolding rescale
rescale_bounds average deviation n h = ground arith

-- The third loop faults only where the standard deviation is 0.
pub rescale_loop-Leveled :
    (average deviation : ℕ) (ns : List ℕ) (greatest least : ℕ)
    → All IsByte ns
    → greatest < 256
    → Ends
        (Leveled greatest least ns)
        (deviation ≡ 0)
        (rescale_loop average deviation ns greatest least)
unfolding rescale_loop
rescale_loop-Leveled average deviation [] greatest least h top = omega arith
rescale_loop-Leveled average deviation (n ∷ ns) greatest least (hn, h) top =
    Ends-bind (λ c. c < 256) (deviation ≡ 0) (Leveled greatest least (n ∷ ns))
      (rescale average deviation n) _ (rescale_bounds average deviation n hn)
      λ c small.
        Ends-bind (Leveled (maximum c greatest) (minimum c least) ns) (deviation ≡ 0)
          (Leveled greatest least (n ∷ ns))
          (rescale_loop average deviation ns (maximum c greatest) (minimum c least)) _
          (rescale_loop-Leveled average deviation ns (maximum c greatest) (minimum c least) h
            (ground arith))
          λ (cs, g, l) (within, up, down, byte, len).
            (((ground arith, ground arith), within), ground arith, ground arith, byte, ap suc len)

-- The stretched intensity of a pixel above the least level: the product does not wrap and is a byte.
stretch_product : (d m f : ℕ) → m ≤ d → f ≡ 255 / d → m * f ≤ 255
stretch_product d m f h e = grind arith

pub stretch-eq :
    (least greatest n : ℕ)
    → Within least greatest n
    → least < n
    → greatest < 256
    → stretch least (255 / (greatest - least)) n ≡ (n - least) * (255 / (greatest - least))
unfolding stretch
stretch-eq least greatest n (lo, hi) above byte =
    let e : sub32 n least ≡ n - least = omega arith in
    let p =
      stretch_product (greatest - least) (n - least) (255 / (greatest - least)) (omega arith)
        refl in
    rw (lt→ltb least n above, e) (omega (arith, p))

pub stretch-IsByte :
    (least greatest n : ℕ)
    → Within least greatest n
    → greatest < 256
    → stretch least (255 / (greatest - least)) n < 256
unfolding stretch
stretch-IsByte least greatest n (lo, hi) byte = ground arith

pub stretch_loop-IsByte :
    (least greatest : ℕ) (ns : List ℕ)
    → All (Within least greatest) ns
    → greatest < 256
    → All IsByte (stretch_loop least (255 / (greatest - least)) ns)
      × (length (stretch_loop least (255 / (greatest - least)) ns) ≡ length ns)
unfolding stretch_loop
stretch_loop-IsByte least greatest [] h byte = (tt, refl)
stretch_loop-IsByte least greatest (n ∷ ns) (hn, h) byte =
    let (bytes, len) = stretch_loop-IsByte least greatest ns h byte in
    ((stretch-IsByte least greatest n hn byte, bytes), ap suc len)

-- The contrast is stretched in order: of two pixels between the levels, which are bytes, and above
-- the least one, the darker is not made the brighter.
pub stretch_mono :
    (least greatest m n : ℕ)
    → Within least greatest m
    → Within least greatest n
    → least < m
    → m ≤ n
    → greatest < 256
    → stretch least (255 / (greatest - least)) m ≤ stretch least (255 / (greatest - least)) n
stretch_mono least greatest m n hm hn above le byte =
    rw
      (stretch-eq least greatest m hm above byte, stretch-eq least greatest n hn (omega arith) byte)
      (grind arith)
