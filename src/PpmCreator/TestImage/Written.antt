-- ===== src/PpmCreator/TestImage/Written.antt =====
-- What the program prints, and what it writes to the file.
use native.Mathlib.Nat.{div-add-mod, div-eq_of_lt, mod-lt, add-div_right, mul-add-div, mul-pos}
use mathlib.Core.List.{append_assoc}
use pi_vision.Base.{
  ℕ, zero, suc, ◌+◌, ◌*◌, ◌-◌, ◌/◌, ◌%◌, ◌^◌, ◌<◌, ◌≤◌, ◌≡◌, refl, Option, none, some, List, [],
  ◌∷◌, ◌++◌, ◌==◌, All, All-append, arith, length, take, drop, length-take, append-take-drop, Run,
  ok, fault, Returns→ok, Bool-cases, inl, inr, ne→==, u8, ap, sym, ◌∙◌, slice,
}
use pi_vision.Constants.{text}
use pi_vision.Decimal.{decimal, IsText, decimal-IsText}
use pi_vision.PpmCreator.{ppm_image_header_max_val, ImageData, header, create_grayscale_image}
use pi_vision.PpmCreator.Image.{triples, create_grayscale_image_lem}
use pi_vision.PpmCreator.TestImage.{
  Files, test_image_file_name, fill, c_string, write_file, write_test_image,
}

-- The pixels of the test image from an index on: the first is 0, and then each value stands for as
-- many pixels as a row has.
unfoldable pub pattern : (x_size index n : ℕ) → List ℕ
pattern x_size index zero = []
pattern x_size index (suc n) = u8 ((index + (x_size - 1)) / x_size) ∷ pattern x_size (index + 1) n

-- The value changes behind the first pixel of a row.
row_starts :
    (x_size index : ℕ)
    → 0 < x_size
    → index % x_size ≡ 0
    → (index + 1 + (x_size - 1)) / x_size ≡ (index + (x_size - 1)) / x_size + 1
row_starts x_size index some_room first =
    let q = index / x_size in
    let e : index + (x_size - 1) ≡ x_size * q + (x_size - 1) =
      omega (arith, div-add-mod index x_size, first) in
    let n : index + 1 + (x_size - 1) ≡ index + x_size = omega (arith, some_room) in
    rw (n, e, add-div_right index some_room, mul-add-div some_room q (x_size - 1))
      (omega (arith, div-eq_of_lt {n = x_size - 1} {m = x_size} (omega (arith, some_room))))

row_goes_on :
    (x_size index : ℕ)
    → 0 < x_size
    → 0 < index % x_size
    → (index + 1 + (x_size - 1)) / x_size ≡ (index + (x_size - 1)) / x_size
row_goes_on x_size index some_room later =
    let q = index / x_size in
    let r = index % x_size in
    let e : index + (x_size - 1) ≡ x_size * q + ((r - 1) + x_size) =
      omega (arith, div-add-mod index x_size, some_room, later) in
    let n : index + 1 + (x_size - 1) ≡ index + x_size = omega (arith, some_room) in
    rw
      (
        n,
        e,
        add-div_right index some_room,
        mul-add-div some_room q (r - 1 + x_size),
        add-div_right (r - 1) some_room,
      )
      (omega (arith, div-eq_of_lt {n = r - 1} {m = x_size} (omega (arith, mod-lt index some_room))))

fill-pattern :
    (x_size : ℕ) (xs : List ℕ) (index pixel_val : ℕ)
    → 0 < x_size
    → pixel_val ≡ u8 ((index + (x_size - 1)) / x_size)
    → fill x_size index pixel_val xs ≡ pattern x_size index (length xs)
unfolding fill pattern
fill-pattern x_size [] index pixel_val some_room e = refl
fill-pattern x_size (x ∷ xs) index pixel_val some_room e = elim (Bool-cases (index % x_size == 0)) [
  | inl first ↦
      rw (first, e)
        (ap (λ l. u8 ((index + (x_size - 1)) / x_size) ∷ l)
          (fill-pattern x_size xs (index + 1) _ some_room
            (rw (row_starts x_size index some_room (ground (arith, first))) (omega arith))))
  | inr later ↦
      rw (later, e)
        (ap (λ l. u8 ((index + (x_size - 1)) / x_size) ∷ l)
          (fill-pattern x_size xs (index + 1) _ some_room
            (rw (row_goes_on x_size index some_room (ground (arith, later))) refl)))
]

length-fill :
    (x_size : ℕ) (xs : List ℕ) (index pixel_val : ℕ)
    → length (fill x_size index pixel_val xs) ≡ length xs
unfolding fill
length-fill x_size [] index pixel_val = refl
length-fill x_size (x ∷ xs) index pixel_val = ap suc (length-fill x_size xs (index + 1) _)

c_string_lem : (cs rest : List ℕ) → IsText cs → c_string (cs ++ (0 ∷ rest)) ≡ ok cs
unfolding c_string
c_string_lem [] rest h = refl
c_string_lem (c ∷ cs) rest (hc, h) =
    rw (ne→== c 0 (λ e. omega arith), c_string) (rw (c_string_lem cs rest h) refl)

header-IsText : (x_size y_size : ℕ) → IsText (header x_size y_size)
unfolding header
header-IsText x_size y_size =
    let P : ℕ → Type 0 = λ c. 0 < c in
    let max = decimal ppm_image_header_max_val ++ (10 ∷ []) in
    let max_ok : All P max =
      All-append P (decimal ppm_image_header_max_val) (10 ∷ [])
        (decimal-IsText ppm_image_header_max_val) (omega arith, tt) in
    let y_ok : All P (decimal y_size ++ (32 ∷ max)) =
      All-append P (decimal y_size) (32 ∷ max) (decimal-IsText y_size) (omega arith, max_ok) in
    let x_ok : All P (decimal x_size ++ (32 ∷ (decimal y_size ++ (32 ∷ max)))) =
      All-append P (decimal x_size) _ (decimal-IsText x_size) (omega arith, y_ok) in
    (omega arith, (omega arith, (omega arith, x_ok)))

first_value : (x_size : ℕ) → 0 < x_size → u8 ((0 + (x_size - 1)) / x_size) ≡ 0
first_value x_size some_room =
    ap (λ n. u8 n) (div-eq_of_lt {n = 0 + (x_size - 1)} {m = x_size} (omega (arith, some_room)))

-- The first pixel is 0.
first_pixel :
    (x_size n : ℕ)
    → 0 < x_size
    → 0 < n
    → (rest : List ℕ) × (triples (pattern x_size 0 n) ≡ 0 ∷ rest)
unfolding triples pattern
first_pixel x_size zero some_room some_pixels = absurd (omega arith)
first_pixel x_size (suc n) some_room some_pixels =
    let b = u8 ((0 + (x_size - 1)) / x_size) in
    let e : b ≡ 0 = first_value x_size some_room in
    (b ∷ b ∷ triples (pattern x_size 1 n), ap (λ t. t ∷ b ∷ b ∷ triples (pattern x_size 1 n)) e)

-- The bytes of the file.
abbrev pub file_bytes : (x_size y_size : ℕ) → List ℕ
file_bytes x_size y_size = header x_size y_size ++ triples (pattern x_size 0 (x_size * y_size))

slice_front :
    (n : ℕ) (buf bytes : List ℕ) → n ≤ length buf → take n buf ≡ bytes → slice 0 n buf ≡ ok bytes
unfolding slice
slice_front n buf bytes room e = rw e (ground (arith, room))

module _ (files : Files) (x_size y_size : ℕ) (some_columns : 0 < x_size)
    (some_rows : 0 < y_size) where
  open files use {World, File}

  -- What becomes of them.
  abbrev pub written : Option File × World → Run World
  written (none, w) = fault
  written (some file, w) = ok (
      files.fclose file
        (files.fwrite (file_bytes x_size y_size) file (files.printf (header x_size y_size) w)))

  string_of :
      (out : ImageData)
      → take out.image_byte_size out.image_data ≡ file_bytes x_size y_size
      → c_string out.image_data ≡ ok (header x_size y_size)
  string_of out e =
      let h = header x_size y_size in
      let (rest, zero_first) =
        first_pixel x_size (x_size * y_size) some_columns (mul-pos some_columns some_rows) in
      let behind = drop out.image_byte_size out.image_data in
      let whole : out.image_data ≡ h ++ (0 ∷ (rest ++ behind)) =
        sym (append-take-drop out.image_byte_size out.image_data)
        ∙ ap (λ t. t ++ behind) (e ∙ ap (λ t. h ++ t) zero_first)
        ∙ append_assoc h (0 ∷ rest) behind in
      rw whole (c_string_lem h (rest ++ behind) (header-IsText x_size y_size))

  to_file :
      (out : ImageData)
      → out.image_byte_size ≤ length out.image_data
      → take out.image_byte_size out.image_data ≡ file_bytes x_size y_size
      → (r : Option File × World)
      → write_file files r.0 out (files.printf (header x_size y_size) r.1) ≡ written r
  to_file out room e (none, w) = refl
  to_file out room e (some file, w) =
      rw (slice_front out.image_byte_size out.image_data (file_bytes x_size y_size) room e) refl

  -- Where the file opens, what is printed is the header of an image file, and the file is the header
  -- and the three colors of each pixel, whose value at index i is (i + x_size - 1) / x_size modulo
  -- 256, and it is closed; where it does not open, NULL is closed, which is a fault. This holds for
  -- every size that is not empty, into image data of no bytes, with room of less than 2 ^ 32 bytes
  -- for more than the header and three bytes for each pixel.
  pub write_test_image-Written :
      (test_image_data : List ℕ) (blank : ImageData) (w : World)
      → length test_image_data ≡ x_size * y_size
      → blank.image_byte_size ≡ 0
      → length blank.image_data < 2 ^ 32
      → length (header x_size y_size) + 3 * (x_size * y_size) < length blank.image_data
      → write_test_image files x_size y_size test_image_data blank w
        ≡ written (files.fopen test_image_file_name (text "wb") w)
  unfolding write_test_image
  write_test_image-Written test_image_data blank w size fresh small fits =
      let image = fill x_size 0 0 test_image_data in
      let len : length image ≡ x_size * y_size = length-fill x_size test_image_data 0 0 ∙ size in
      let same : image ≡ pattern x_size 0 (x_size * y_size) =
        fill-pattern x_size test_image_data 0 0 some_columns (sym (first_value x_size some_columns))
        ∙ ap (pattern x_size 0) size in
      let (out, gives, (bytes_size, bytes)) =
        Returns→ok _ (create_grayscale_image x_size y_size image blank) (
          create_grayscale_image_lem x_size y_size image blank fresh len small
            (omega (arith, fits, len))) in
      let all : header x_size y_size ++ triples image ≡ file_bytes x_size y_size =
        ap (λ t. header x_size y_size ++ triples t) same in
      rw (gives, string_of out (bytes ∙ all))
        (to_file out
          (omega
            (arith, bytes_size, ap length bytes, length-take out.image_byte_size out.image_data))
          (bytes ∙ all) (files.fopen test_image_file_name (text "wb") w))
