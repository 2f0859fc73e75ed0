-- ===== src/ImageNormalizerAlgo/Grayscale.antt =====
-- The grayscale image against its definition: the mean of each pixel's three colors.
use pi_vision.Base.{
  ℕ, zero, suc, ◌+◌, ◌*◌, ◌/◌, ◌<◌, ◌≡◌, refl, List, [], ◌∷◌, arith, length, All, ap, ap₂,
}
use pi_vision.ImageNormalizerAlgo.{grayscale_loop}

-- The mean intensity of each whole pixel of three bytes.
unfoldable pub means : List ℕ → List ℕ
means (r ∷ g ∷ b ∷ rest) = ((r + g + b) / 3) ∷ means rest
means _ = []

abbrev pub IsByte : ℕ → Type 0
IsByte n = n < 256

-- The loop over an image of bytes gives the mean of the three colors of each pixel: no sum wraps
-- and no mean is cut.
pub grayscale_loop-means : (bs : List ℕ) → All IsByte bs → grayscale_loop bs 0 0 ≡ means bs
unfolding grayscale_loop means
grayscale_loop-means [] h = refl
grayscale_loop-means (r ∷ []) h = refl
grayscale_loop-means (r ∷ g ∷ []) h = refl
grayscale_loop-means (r ∷ g ∷ b ∷ rest) (hr, (hg, (hb, h))) =
    ap₂ ◌∷◌ (omega arith) (grayscale_loop-means rest h)

pub length-means : (n : ℕ) (bs : List ℕ) → length bs ≡ n * 3 → length (means bs) ≡ n
unfolding means
length-means zero [] h = refl
length-means zero (b ∷ bs) h = absurd (omega arith)
length-means (suc n) [] h = absurd (omega arith)
length-means (suc n) (r ∷ []) h = absurd (omega arith)
length-means (suc n) (r ∷ g ∷ []) h = absurd (omega arith)
length-means (suc n) (r ∷ g ∷ b ∷ rest) h = ap suc (length-means n rest (omega arith))

pub means-IsByte : (bs : List ℕ) → All IsByte bs → All IsByte (means bs)
unfolding means
means-IsByte [] h = tt
means-IsByte (r ∷ []) h = tt
means-IsByte (r ∷ g ∷ []) h = tt
means-IsByte (r ∷ g ∷ b ∷ rest) (hr, (hg, (hb, h))) = (omega arith, means-IsByte rest h)
