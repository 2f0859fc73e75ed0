-- ===== src/PpmCreator/TestImage.antt =====
-- C/PPMCreator/main.c: a test image that is printed and written to a file.
pub mod Written
use pi_vision.Base.{
  ℕ, true, false, ◌+◌, ◌*◌, ◌%◌, Option, none, some, List, [], ◌∷◌, ◌++◌, ◌==◌, if◌then◌else◌, Run,
  ok, fault, ◌>>=◌, slice, u8, u32,
}
use pi_vision.Constants.{text}
use pi_vision.PpmCreator.{ImageData, create_grayscale_image}

-- The calls of the C library, which the program uses and does not implement. `fwrite` is given the
-- bytes of one object, and `printf` those of a string, without its NUL.
pub record Files : Type 1 where
  pub World : Type 0
  pub File : Type 0
  pub fopen : (name mode : List ℕ) → World → Option File × World
  pub printf : List ℕ → World → World
  pub fwrite : List ℕ → File → World → World
  pub fclose : File → World → World

abbrev pub test_image_file_name : List ℕ
test_image_file_name = text "test_image.ppm"

abbrev pub test_image_x_size : ℕ
test_image_x_size = 800

abbrev pub test_image_y_size : ℕ
test_image_y_size = 600

-- The loop over `testImageData`, from an index on, with the value of the next pixel.
unfoldable pub fill : (x_size index pixel_val : ℕ) → List ℕ → List ℕ
fill x_size index pixel_val [] = []
fill x_size index pixel_val (x ∷ xs) =
    pixel_val
    ∷ fill x_size (index + 1) (if index % x_size == 0 then u8 (pixel_val + 1) else pixel_val) xs

-- What `%s` prints of an array: the bytes in front of its first NUL. Without one it reads behind it.
pub c_string : List ℕ → Run (List ℕ)
c_string [] = fault
c_string (b ∷ bs) = elim (b == 0) [ true ↦ ok [] | false ↦ c_string bs >>= λ rest. ok (b ∷ rest) ]

module _ (files : Files) where
  open files use {World, File}

  -- `fclose(file)` behind the test of `file`: of NULL it is undefined.
  abbrev pub write_file : Option File → ImageData → World → Run World
  write_file none image w = fault
  write_file (some file) image w = slice 0 image.image_byte_size image.image_data >>= λ bytes.
      ok (files.fclose file (files.fwrite bytes file w))

  -- main() for an image of a size, on the two static objects.
  unfoldable pub write_test_image : (x_size y_size : ℕ) → List ℕ → ImageData → World → Run World
  write_test_image x_size y_size test_image_data blank w =
      let (file, w1) = files.fopen test_image_file_name (text "wb") w in
      create_grayscale_image x_size y_size (fill x_size 0 0 test_image_data) blank >>= λ image.
      c_string image.image_data >>= λ string. write_file file image (files.printf string w1)

  abbrev pub main : List ℕ → ImageData → World → Run World
  main test_image_data blank w =
      write_test_image test_image_x_size test_image_y_size test_image_data blank w
