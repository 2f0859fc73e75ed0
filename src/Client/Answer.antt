-- ===== src/Client/Answer.antt =====
-- The answers to the client's discovery message.
use pi_vision.Base.{
  ℕ, ◌+◌, ◌<◌, ◌≡◌, refl, List, [], ◌∷◌, arith, length, take-append, drop, fault, Returns, patch,
  blit-ok, blit-fault, length-patch, patch_lem, patch_front, ne→==, u32,
}
use pi_vision.Constants.{ip_address_length}
use pi_vision.Decimal.{c_string, c_string_lem, IsText}
use pi_vision.Sockets.{received}
use pi_vision.Client.{Client, take_answer}

stored :
    (bytes buf : List ℕ)
    → length bytes < length buf
    → IsText bytes
    → c_string (patch (length bytes) (0 ∷ []) (patch 0 bytes buf)) ≡ bytes
stored bytes buf room text =
    rw
      (
        patch_lem (length bytes) (0 ∷ []) (patch 0 bytes buf),
        patch_front bytes buf,
        take-append bytes (drop (0 + length bytes) buf) (length bytes) refl,
      )
      (c_string_lem bytes _ text)

-- An answer of at least one and less than sixteen bytes, none of them a NUL, becomes the string in
-- `serverAddress`, and the client goes on to the next state; an answer of sixteen bytes has its NUL
-- written behind `serverAddress`.
pub take_answer_lem :
    (c : Client) (bytes : List ℕ)
    → length c.server_address ≡ ip_address_length
    → (0 < length bytes
        → length bytes < ip_address_length
        → IsText bytes
        → Returns
            (λ c'. (c_string c'.server_address ≡ bytes) × (c'.curr_state ≡ u32 (c.curr_state + 1)))
            (take_answer c (received bytes)))
      × (length bytes ≡ ip_address_length → take_answer c (received bytes) ≡ fault)
unfolding take_answer
take_answer_lem c bytes room = (
  λ some_bytes short text.
      rw
        (
          ne→== (length bytes) 0 (λ e. omega arith),
          blit-ok 0 bytes c.server_address (omega arith),
          blit-ok (length bytes) (0 ∷ []) (patch 0 bytes c.server_address)
              (omega (arith, length-patch 0 bytes c.server_address (omega arith))),
        )
        (stored bytes c.server_address (omega arith) text, refl),
  λ long.
      rw
        (
          ne→== (length bytes) 0 (λ e. omega arith),
          blit-ok 0 bytes c.server_address (omega arith),
          blit-fault (length bytes) (0 ∷ []) (patch 0 bytes c.server_address)
              (omega (arith, length-patch 0 bytes c.server_address (omega arith))),
        )
        refl,
)
