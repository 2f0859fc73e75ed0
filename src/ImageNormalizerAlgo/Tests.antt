-- ===== src/ImageNormalizerAlgo/Tests.antt =====
-- Tests of the normalizer: on images of 241 pixels, and of its parts.
use pi_vision.Base.{ℕ, ◌≡◌, refl, List, [], ◌∷◌, arith, replicate, All, All-replicate, fault, Ends}
use pi_vision.ImageNormalizerAlgo.{ImageNormalizerAlgo, exec, grayscale_loop}
use pi_vision.ImageNormalizerAlgo.Grayscale.{IsByte, means, grayscale_loop-means}
use pi_vision.ImageNormalizerAlgo.Flat.{exec-Uniform}
use pi_vision.ImageNormalizerAlgo.Result.{IsReset, IsImage, Degenerate, exec-Ends}

abbrev start : ImageNormalizerAlgo
start = record {
  grayscale_image = replicate 241 0;
  normalized_image = replicate 241 0;
  max_intensity = 0;
  min_intensity = 255;
  average_intensity = 0;
  standard_deviation = 0;
}

start-IsReset : IsReset start
start-IsReset = record { top = refl; bottom = refl; average = omega arith }

exec-Uniform_example : exec 241 (replicate 723 90) start ≡ fault
exec-Uniform_example =
    exec-Uniform 90 241 (replicate 723 90) start (omega arith)
      (All-replicate (λ n. n ≡ 90) 723 90 refl) refl refl refl (omega arith) (omega arith)

-- One white pixel, and black ones.
abbrev spot : List ℕ
spot = 255 ∷ 255 ∷ 255 ∷ replicate 720 0

spot-IsByte : All IsByte spot
spot-IsByte = (omega arith, (omega arith, (omega arith, All-replicate IsByte 720 0 (omega arith))))

exec-Ends_example :
    Ends
      (λ b. IsImage 241 b × IsReset b)
      (Degenerate 241 (record start { grayscale_image = means spot }))
      (exec 241 spot start)
exec-Ends_example =
    exec-Ends 241 spot start start-IsReset refl spot-IsByte (omega arith) (omega arith)

grayscale_loop-means_example : grayscale_loop (10 ∷ 20 ∷ 30 ∷ []) 0 0 ≡ means (10 ∷ 20 ∷ 30 ∷ [])
grayscale_loop-means_example =
    grayscale_loop-means (10 ∷ 20 ∷ 30 ∷ []) (omega arith, (omega arith, (omega arith, tt)))
