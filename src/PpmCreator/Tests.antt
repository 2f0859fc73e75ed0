-- ===== src/PpmCreator/Tests.antt =====
-- A test on an image of two pixels.
use pi_vision.Base.{ℕ, some, ok, List, ◌≡◌, refl, [], ◌∷◌, ◌++◌, arith, length, replicate}
use pi_vision.Decimal.{decimal}
use pi_vision.PpmCreator.{ImageData, header}
use pi_vision.PpmCreator.TestImage.{Files, write_test_image}
use pi_vision.PpmCreator.TestImage.Written.{file_bytes, write_test_image-Written}

abbrev blank : ImageData
blank = record { image_byte_size = 0; image_data = replicate 40 0 }

length-header : length (header 2 1) ≡ 11
unfolding header decimal
length-header = refl

-- A file system that notes what it is told.
abbrev noting : Files
noting = record {
  World = List (List ℕ);
  File = ℕ;
  fopen = λ name mode w. (some 3, w);
  printf = λ string w. w ++ (string ∷ []);
  fwrite = λ bytes file w. w ++ (bytes ∷ []);
  fclose = λ file w. w ++ ([] ∷ []);
}

write_test_image-Written_example :
    write_test_image noting 2 1 (7 ∷ 7 ∷ []) blank [] ≡ ok (header 2 1 ∷ file_bytes 2 1 ∷ [] ∷ [])
write_test_image-Written_example =
    write_test_image-Written noting 2 1 (omega arith) (omega arith) (7 ∷ 7 ∷ []) blank [] refl refl
      (omega arith) (omega (arith, length-header))
