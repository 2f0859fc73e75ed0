-- ===== src/ImageDiffAlgo/Tests.antt =====
-- Tests of the difference algorithm on frames of one pixel.
use pi_vision.Base.{ℕ, ◌≡◌, List, [], ◌∷◌, arith, All}
use pi_vision.ImageNormalizerAlgo.Grayscale.{IsByte}
use pi_vision.ImageDiffAlgo.{ImageDiffAlgo, exec}
use pi_vision.ImageDiffAlgo.Motion.{motion, exec_twice}

abbrev start : ImageDiffAlgo
start = record { received_first_image = 0; prev_buffer = 0 ∷ 0 ∷ 0 ∷ []; image_to_send = 0 ∷ [] }

abbrev dark : List ℕ
dark = 0 ∷ 5 ∷ 10 ∷ []

abbrev bright : List ℕ
bright = 200 ∷ 5 ∷ 10 ∷ []

dark-IsByte : All IsByte dark
dark-IsByte = (omega arith, (omega arith, (omega arith, tt)))

bright-IsByte : All IsByte bright
bright-IsByte = (omega arith, (omega arith, (omega arith, tt)))

exec_twice_example :
    ((exec dark start).image_to_send ≡ 0 ∷ [])
    × ((exec bright (exec dark start)).image_to_send ≡ motion dark bright)
exec_twice_example = exec_twice start dark bright dark-IsByte bright-IsByte
