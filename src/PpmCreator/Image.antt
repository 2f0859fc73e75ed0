-- ===== src/PpmCreator/Image.antt =====
-- The file that an image gives.
use mathlib.Core.List.{append_assoc, append-nil}
use pi_vision.Base.{
  ℕ, ◌+◌, ◌*◌, ◌^◌, ◌<◌, ◌≤◌, ◌≡◌, refl, List, [], ◌∷◌, ◌++◌, arith, length, length-append, take,
  take-append, drop, Returns, Returns-bind, Returns-mono, blit-ok, length-patch, take-patch,
  patch_front, slice_whole, u32, ap, ◌∙◌, subst,
}
use pi_vision.PpmCreator.{ImageData, header, put, pixel_loop, create_grayscale_image}

-- Each intensity as a red, a green and a blue byte.
unfoldable pub triples : List ℕ → List ℕ
triples [] = []
triples (b ∷ bs) = b ∷ b ∷ b ∷ triples bs

-- The bytes in front are these, in an array of this size.
abbrev Front : ℕ → List ℕ → ImageData → Type 0
Front room front out =
    (length out.image_data ≡ room)
    × (out.image_byte_size ≡ length front)
    × (take (length front) out.image_data ≡ front)

put-Front :
    (room : ℕ) (front : List ℕ) (b : ℕ) (out : ImageData)
    → room < 2 ^ 32
    → length front < room
    → Front room front out
    → Returns (Front room (front ++ (b ∷ []))) (put b out)
unfolding put
put-Front room front b out small fits (len, size, eq) =
    let e : length (front ++ (b ∷ [])) ≡ length front + 1 = length-append front (b ∷ []) in
    rw (size, blit-ok (length front) (b ∷ []) out.image_data (omega arith), e)
      (
        length-patch (length front) (b ∷ []) out.image_data (omega arith) ∙ len,
        omega arith,
        take-patch (length front) (b ∷ []) out.image_data (omega arith)
            ∙ ap (λ t. t ++ (b ∷ [])) eq,
      )

pixel_loop-Front :
    (room : ℕ) (bs front : List ℕ) (out : ImageData)
    → room < 2 ^ 32
    → length front + 3 * length bs ≤ room
    → Front room front out
    → Returns (Front room (front ++ triples bs)) (pixel_loop bs out)
unfolding pixel_loop triples
pixel_loop-Front room [] front out small fits h = rw (append-nil front) h
pixel_loop-Front room (b ∷ bs) front out small fits h =
    let f1 = front ++ (b ∷ []) in
    let f2 = f1 ++ (b ∷ []) in
    let f3 = f2 ++ (b ∷ []) in
    let e1 : length f1 ≡ length front + 1 = length-append front (b ∷ []) in
    let e2 : length f2 ≡ length f1 + 1 = length-append f1 (b ∷ []) in
    let e3 : length f3 ≡ length f2 + 1 = length-append f2 (b ∷ []) in
    let same : f3 ++ triples bs ≡ front ++ (b ∷ b ∷ b ∷ triples bs) =
      append_assoc f2 (b ∷ []) (triples bs)
      ∙ append_assoc f1 (b ∷ []) (b ∷ triples bs)
      ∙ append_assoc front (b ∷ []) (b ∷ b ∷ triples bs) in
    Returns-bind (Front room f1) _ (put b out) _ (put-Front room front b out small (omega arith) h)
      λ o1 h1.
        Returns-bind (Front room f2) _ (put b o1) _ (put-Front room f1 b o1 small (omega arith) h1)
          λ o2 h2.
            Returns-bind (Front room f3) _ (put b o2) _
              (put-Front room f2 b o2 small (omega arith) h2)
              λ o3 h3.
                subst (λ t. Returns (Front room t) (pixel_loop bs o3)) same
                  (pixel_loop-Front room bs f3 o3 small (omega arith) h3)

-- Into image data of no bytes, with room of less than 2 ^ 32 bytes for more than the header and
-- three bytes for each pixel, an image is written as the header and the three colors of each pixel,
-- and its size is their number.
pub create_grayscale_image_lem :
    (x_size y_size : ℕ) (buf : List ℕ) (out : ImageData)
    → out.image_byte_size ≡ 0
    → length buf ≡ x_size * y_size
    → length out.image_data < 2 ^ 32
    → length (header x_size y_size) + 3 * length buf < length out.image_data
    → Returns
        (λ out'.
          (out'.image_byte_size ≡ length (header x_size y_size ++ triples buf))
          × (take out'.image_byte_size out'.image_data ≡ header x_size y_size ++ triples buf))
        (create_grayscale_image x_size y_size buf out)
unfolding create_grayscale_image
create_grayscale_image_lem x_size y_size buf out fresh size small fits =
    let h = header x_size y_size in
    let room = length out.image_data in
    let line = h ++ (0 ∷ []) in
    let el : length line ≡ length h + 1 = length-append h (0 ∷ []) in
    let n : u32 (x_size * y_size) ≡ length buf = omega arith in
    rw (n, slice_whole (length buf) buf refl, blit-ok 0 line out.image_data (omega arith), fresh)
      (Returns-mono (Front room (h ++ triples buf)) _ (pixel_loop buf _)
        (λ out' (len, s, e). (s, rw s e))
        (pixel_loop-Front room buf h _ small (omega arith) (
          length-patch 0 line out.image_data (omega arith),
          omega arith,
          (rw
              (
                patch_front line out.image_data,
                append_assoc h (0 ∷ []) (drop (0 + length line) out.image_data),
              )
              (take-append h (0 ∷ drop (0 + length line) out.image_data) (length h) refl)),
        )))
