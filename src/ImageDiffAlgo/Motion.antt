-- ===== src/ImageDiffAlgo/Motion.antt =====
-- The difference image against its definition, pixel by pixel.
use pi_vision.Base.{
  ℕ, ◌+◌, ◌/◌, ◌<◌, ◌≡◌, refl, List, [], ◌∷◌, arith, All, ap, ap₂, ◌∙◌, ◌%◌, ◌^◌, ltb,
  if◌then◌else◌,
}
use pi_vision.ImageDiffAlgo.{ImageDiffAlgo, abs_diff, pixel, diff_loop, exec}
use pi_vision.ImageNormalizerAlgo.Grayscale.{IsByte, means}

-- White where the colors of a pixel differ by more than 100 in all, and else the mean of its colors.
pub motion : List ℕ → List ℕ → List ℕ
motion (r ∷ g ∷ b ∷ ps) (r' ∷ g' ∷ b' ∷ bs) =
    (if ltb 100 (abs_diff r r' + abs_diff g g' + abs_diff b b') then 255 else (r' + g' + b') / 3)
    ∷ motion ps bs
motion _ _ = []

pixel-eq : (d c : ℕ) → c < 768 → pixel d c ≡ (if ltb 100 d then 255 else c / 3)
unfolding pixel
pixel-eq d c h = ground arith

abs_diff-IsByte : (a b : ℕ) → a < 256 → b < 256 → abs_diff a b < 256
unfolding abs_diff
abs_diff-IsByte a b ha hb = ground arith

step :
    (r g b r' g' b' : ℕ)
    → All IsByte (r ∷ g ∷ b ∷ [])
    → All IsByte (r' ∷ g' ∷ b' ∷ [])
    → (((0 + abs_diff r r') % 2 ^ 32 + abs_diff g g') % 2 ^ 32 + abs_diff b b') % 2 ^ 32
      ≡ abs_diff r r' + abs_diff g g' + abs_diff b b'
step r g b r' g' b' (hr, (hg, (hb, _))) (hr', (hg', (hb', _))) =
    omega
      (arith, abs_diff-IsByte r r' hr hr', abs_diff-IsByte g g' hg hg', abs_diff-IsByte b b' hb hb')

-- For two frames of bytes the loop computes the motion image: no sum wraps and no mean is cut.
pub diff_loop-motion :
    (ps bs : List ℕ) → All IsByte ps → All IsByte bs → diff_loop ps bs 0 0 0 ≡ motion ps bs
unfolding diff_loop motion
diff_loop-motion (r ∷ g ∷ b ∷ ps) (r' ∷ g' ∷ b' ∷ bs) (hr, (hg, (hb, hp))) (hr', (hg', (hb', h))) =
    let e = step r g b r' g' b' (hr, (hg, (hb, tt))) (hr', (hg', (hb', tt))) in
    let e' : (((0 + r') % 2 ^ 32 + g') % 2 ^ 32 + b') % 2 ^ 32 ≡ r' + g' + b' = omega arith in
    ap₂ ◌∷◌ (ap₂ pixel e e' ∙ pixel-eq _ (r' + g' + b') (omega arith)) (diff_loop-motion ps bs hp h)
diff_loop-motion [] [] hp h = refl
diff_loop-motion [] (_ ∷ []) hp h = refl
diff_loop-motion [] (_ ∷ _ ∷ []) hp h = refl
diff_loop-motion [] (_ ∷ _ ∷ _ ∷ _) hp h = refl
diff_loop-motion (_ ∷ []) [] hp h = refl
diff_loop-motion (_ ∷ []) (_ ∷ []) hp h = refl
diff_loop-motion (_ ∷ []) (_ ∷ _ ∷ []) hp h = refl
diff_loop-motion (_ ∷ []) (_ ∷ _ ∷ _ ∷ _) hp h = refl
diff_loop-motion (_ ∷ _ ∷ []) [] hp h = refl
diff_loop-motion (_ ∷ _ ∷ []) (_ ∷ []) hp h = refl
diff_loop-motion (_ ∷ _ ∷ []) (_ ∷ _ ∷ []) hp h = refl
diff_loop-motion (_ ∷ _ ∷ []) (_ ∷ _ ∷ _ ∷ _) hp h = refl
diff_loop-motion (_ ∷ _ ∷ _ ∷ _) [] hp h = refl
diff_loop-motion (_ ∷ _ ∷ _ ∷ _) (_ ∷ []) hp h = refl
diff_loop-motion (_ ∷ _ ∷ _ ∷ _) (_ ∷ _ ∷ []) hp h = refl

abs_diff_self : (a : ℕ) → abs_diff a a ≡ 0
unfolding abs_diff
abs_diff_self a = ground arith

motion_self : (bs : List ℕ) → motion bs bs ≡ means bs
unfolding motion means
motion_self [] = refl
motion_self (r ∷ []) = refl
motion_self (r ∷ g ∷ []) = refl
motion_self (r ∷ g ∷ b ∷ rest) =
    rw (abs_diff_self r, abs_diff_self g, abs_diff_self b)
      (ap (λ t. ((r + g + b) / 3) ∷ t) (motion_self rest))

-- For frames of bytes: the first frame after the start leaves the image to send as it was, and of
-- two successive frames the second makes it the motion image of both.
pub exec_twice :
    (a : ImageDiffAlgo) (first second : List ℕ)
    → All IsByte first
    → All IsByte second
    → ((exec first (record a { received_first_image = 0 })).image_to_send ≡ a.image_to_send)
      × ((exec second (exec first a)).image_to_send ≡ motion first second)
unfolding exec
exec_twice a first second hf hs = (refl, diff_loop-motion first second hf hs)

-- A frame of bytes that is the one before it shows no motion: it is sent as its grayscale image.
pub exec_same :
    (a : ImageDiffAlgo) (frame : List ℕ)
    → All IsByte frame
    → (exec frame (exec frame a)).image_to_send ≡ means frame
unfolding exec
exec_same a frame h = diff_loop-motion frame frame h h ∙ motion_self frame
