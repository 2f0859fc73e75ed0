-- ===== src/Constants.antt =====
-- C/inc/PiVisConstants.h
use Prim.Native.Char.{code}
use Prim.Native.String.{String}
use pi_vision.Base.{ℕ, ◌*◌, List, [], ◌∷◌, ℤ, minus_one}

-- The bytes of a C string without its NUL.
abbrev pub text : String → List ℕ
text String.[] = []
text (String.◌∷◌ c s) = code c ∷ text s

abbrev pub image_x_size : ℕ
image_x_size = 640

abbrev pub image_y_size : ℕ
image_y_size = 480

abbrev pub camera_buf_header_size : ℕ
camera_buf_header_size = 8

abbrev pub color_image_size : ℕ
color_image_size = image_x_size * image_y_size * 3

abbrev pub grayscale_image_size : ℕ
grayscale_image_size = image_x_size * image_y_size

-- INET_ADDRSTRLEN
abbrev pub ip_address_length : ℕ
ip_address_length = 16

-- 0xFFFFFFFF stored in an `int`
abbrev pub invalid_32_bit_int : ℤ
invalid_32_bit_int = minus_one

abbrev pub gray_port_no : ℕ
gray_port_no = 3380

abbrev pub discover_color_service : ℕ
discover_color_service = 3070

abbrev pub discover_gray_service : ℕ
discover_gray_service = 3380

abbrev pub discover_color_service_message : List ℕ
discover_color_service_message = text "WHERE_IS_3070"

abbrev pub multicast_group : List ℕ
multicast_group = text "224.1.1.1"
