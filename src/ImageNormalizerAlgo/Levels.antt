-- ===== src/ImageNormalizerAlgo/Levels.antt =====
-- The levels that the loops of `normalizeImage` compute: sums that do not wrap, and bounds.
use native.Mathlib.Nat.{pow-suc}
use pi_vision.Base.{
  ℕ, zero, suc, ◌+◌, ◌*◌, ◌/◌, ◌%◌, ◌^◌, ◌≤◌, ◌<◌, ◌≡◌, refl, inl, inr, List, [], ◌∷◌, arith, map,
  length, ap, leb, leb→le, subst, Bool-cases,
}
use pi_vision.ImageNormalizerAlgo.{
  clamp, clamp_loop, image_filter_low, image_filter_high, sqrt_loop, sqrt,
}

unfoldable pub sum : List ℕ → ℕ
sum [] = 0
sum (n ∷ ns) = n + sum ns

pub clamp_bounds : (c : ℕ) → (image_filter_low ≤ clamp c) × (clamp c ≤ image_filter_high)
unfolding clamp
clamp_bounds c = ground arith

pub clamp_loop-map : (gs : List ℕ) (average : ℕ) → (clamp_loop gs average).0 ≡ map clamp gs
unfolding clamp_loop
clamp_loop-map [] average = refl
clamp_loop-map (g ∷ gs) average = ap (λ t. clamp g ∷ t) (clamp_loop-map gs _)

pub sum_bounds :
    (gs : List ℕ) → (20 * length gs ≤ sum (map clamp gs)) × (sum (map clamp gs) ≤ 240 * length gs)
unfolding sum
sum_bounds [] = omega arith
sum_bounds (g ∷ gs) = omega (arith, sum_bounds gs, clamp_bounds g)

-- The sum of the filtered pixels does not wrap for an image of less than 2 ^ 24 pixels.
pub clamp_loop-sum :
    (gs : List ℕ) (average : ℕ)
    → average + 240 * length gs < 2 ^ 32
    → (clamp_loop gs average).1 ≡ average + sum (map clamp gs)
unfolding clamp_loop sum
clamp_loop-sum [] average h = omega arith
clamp_loop-sum (g ∷ gs) average h = omega (
  arith,
  clamp_bounds g,
  clamp_loop-sum gs ((average + clamp g) % 2 ^ 32) (omega (arith, clamp_bounds g)),
)

pub le-div : (c x m : ℕ) → c * m ≤ x → 0 < m → c ≤ x / m
le-div c x m h p = grind arith

pub div-le_of_lt : (c x m : ℕ) → x < c * m + m → 0 < m → x / m ≤ c
div-le_of_lt c x m h p = grind arith

-- For a previous average of at most 240 and an image of more than 240 and less than 2 ^ 24 pixels:
-- the average that is computed is the sum of the filtered pixels and the previous average over the
-- number of pixels, and lies between the limits of the filter.
pub average_bounds :
    (gs : List ℕ) (old : ℕ)
    → old ≤ image_filter_high
    → image_filter_high < length gs
    → length gs < 2 ^ 24
    → ((clamp_loop gs old).1 / length gs ≡ (old + sum (map clamp gs)) / length gs)
      × (image_filter_low ≤ (clamp_loop gs old).1 / length gs)
      × ((clamp_loop gs old).1 / length gs ≤ image_filter_high)
average_bounds gs old small enough few =
    let e = clamp_loop-sum gs old (omega arith) in
    rw e (
      refl,
      le-div 20 _ (length gs) (omega (arith, sum_bounds gs)) (omega arith),
      div-le_of_lt 240 _ (length gs) (omega (arith, sum_bounds gs)) (omega arith),
    )

double_bound : (v r p : ℕ) → v < (r + p * 2) * (r + p * 2) → v < (r + p + p) * (r + p + p)
double_bound v r p h = omega arith

-- The digits that remain keep the root between its bounds.
sqrt_loop_lem :
    (k v r : ℕ)
    → r * r ≤ v
    → v < (r + 2 ^ k) * (r + 2 ^ k)
    → (sqrt_loop k v r * sqrt_loop k v r ≤ v) × (v < suc (sqrt_loop k v r) * suc (sqrt_loop k v r))
unfolding sqrt_loop
sqrt_loop_lem zero v r lo hi = omega arith
sqrt_loop_lem (suc k) v r lo hi = elim (Bool-cases (leb ((r + 2 ^ k) * (r + 2 ^ k)) v)) [
  | inl fits ↦ rw fits (
      sqrt_loop_lem k v (r + 2 ^ k) (leb→le _ _ fits)
        (double_bound v r (2 ^ k) (subst (λ t. v < (r + t) * (r + t)) (pow-suc 2 k) hi)))
  | inr over ↦ rw over (sqrt_loop_lem k v r lo (ground arith))
]

-- The square root of an `unsigned int` is its integer square root: its square is at most the number,
-- and the square of the next number is more.
pub sqrt_lem : (v : ℕ) → v < 2 ^ 32 → (sqrt v * sqrt v ≤ v) × (v < suc (sqrt v) * suc (sqrt v))
unfolding sqrt
sqrt_lem v h = sqrt_loop_lem 16 v 0 (omega arith) (omega arith)
