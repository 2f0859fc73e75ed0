-- ===== src/Decimal.antt =====
-- C strings, and the conversions of the C library that the program uses: `%u` of `sprintf`, `atoi`.
use native.Mathlib.Nat.{pow-suc, one-le-pow}
use pi_vision.Base.{
  ℕ, zero, suc, ◌+◌, ◌-◌, ◌*◌, ◌/◌, ◌%◌, ◌^◌, ◌≤◌, ◌<◌, ◌≡◌, refl, Bool, ◌&&◌, ◌||◌, List, [], ◌∷◌,
  ◌++◌, arith, ltb, leb, le→ltb, ne→==, All, ◌==◌, if◌then◌else◌, length, u32, ◌∙◌, ap, Bool-cases,
  inl, inr,
}

-- The digits of `n` in front of `acc`, with fuel for so many digits.
pub digits : ℕ → ℕ → List ℕ → List ℕ
digits zero n acc = acc
digits (suc k) n acc =
    let rest = digits k (n / 10) ((48 + n % 10) ∷ acc) in if ltb n 10 then (48 + n) ∷ acc else rest

-- `%u`: an `unsigned int` has at most ten digits.
unfoldable pub decimal : ℕ → List ℕ
unfolding digits
decimal n = digits 10 n []

abbrev is_digit : ℕ → Bool
is_digit c = leb 48 c && leb c 57

abbrev is_space : ℕ → Bool
is_space c = (c == 32) || (leb 9 c && leb c 13)

-- The number that the leading digits stand for, behind what has been read.
pub read_digits : ℕ → List ℕ → ℕ
read_digits acc [] = acc
read_digits acc (c ∷ cs) = if is_digit c then read_digits (acc * 10 + (c - 48)) cs else acc

-- An optional sign, and digits; the bit pattern of the `int`.
signed : List ℕ → ℕ
signed [] = 0
signed (c ∷ cs) =
    if c == 45
    then u32 (2 ^ 32 - u32 (read_digits 0 cs))
    else (if c == 43 then u32 (read_digits 0 cs) else u32 (read_digits 0 (c ∷ cs)))

pub atoi : List ℕ → ℕ
unfolding signed read_digits
atoi [] = 0
atoi (c ∷ cs) = if is_space c then atoi cs else signed (c ∷ cs)

-- The C string at the front of an array.
pub c_string : List ℕ → List ℕ
c_string [] = []
c_string (c ∷ cs) = if c == 0 then [] else c ∷ c_string cs

-- What `digits` writes is read back as the number.
pub read_digits-digits :
    (k n : ℕ) (acc : List ℕ) → n < 10 ^ k → read_digits 0 (digits k n acc) ≡ read_digits n acc
unfolding digits read_digits
read_digits-digits zero n acc h = ap (λ t. read_digits t acc) (omega arith)
read_digits-digits (suc k) n acc h = elim (Bool-cases (ltb n 10)) [
  | inl small ↦ rw small (ground arith)
  | inr large ↦ rw large (
      read_digits-digits k (n / 10) ((48 + n % 10) ∷ acc) (omega (arith, pow-suc 10 k))
      ∙ ground arith)
]

pub length-digits-le :
    (k j n : ℕ) (acc : List ℕ)
    → n < 10 ^ suc j
    → j < k
    → length (digits k n acc) ≤ suc j + length acc
unfolding digits
length-digits-le zero j n acc h g = absurd (omega arith)
length-digits-le (suc k) zero n acc h g = ground arith
length-digits-le (suc k) (suc j) n acc h g =
    ground (arith, length-digits-le k j (n / 10) ((48 + n % 10) ∷ acc), pow-suc 10 (suc j))

length-digits-grows : (k n : ℕ) (acc : List ℕ) → length acc ≤ length (digits k n acc)
unfolding digits
length-digits-grows zero n acc = omega arith
length-digits-grows (suc k) n acc = elim (Bool-cases (ltb n 10)) [
  | inl small ↦ rw small (omega arith)
  | inr large ↦ rw large (omega (arith, length-digits-grows k (n / 10) ((48 + n % 10) ∷ acc)))
]

pub length-digits-ge :
    (k j n : ℕ) (acc : List ℕ) → 10 ^ j ≤ n → j < k → suc j + length acc ≤ length (digits k n acc)
unfolding digits
length-digits-ge zero j n acc h g = absurd (omega arith)
length-digits-ge (suc k) zero n acc h g = elim (Bool-cases (ltb n 10)) [
  | inl small ↦ rw small (omega arith)
  | inr large ↦ rw large (omega (arith, length-digits-grows k (n / 10) ((48 + n % 10) ∷ acc)))
]
length-digits-ge (suc k) (suc j) n acc h g =
    rw (le→ltb n 10 (omega (arith, pow-suc 10 j, one-le-pow j 10 (omega arith)))) (
      omega (
        arith,
        length-digits-ge k j (n / 10) ((48 + n % 10) ∷ acc) (omega (arith, pow-suc 10 j))
            (omega arith),
      ))

digits-append : (k n : ℕ) (acc rest : List ℕ) → digits k n acc ++ rest ≡ digits k n (acc ++ rest)
unfolding digits
digits-append zero n acc rest = refl
digits-append (suc k) n acc rest =
    ground (arith, digits-append k (n / 10) ((48 + n % 10) ∷ acc) rest)

-- A text that `atoi` reads from its first digit on.
abbrev IsPlain : List ℕ → Type 0
IsPlain cs = atoi cs ≡ u32 (read_digits 0 cs)

digit-IsPlain : (d : ℕ) (cs : List ℕ) → d < 10 → IsPlain ((48 + d) ∷ cs)
unfolding atoi
digit-IsPlain d cs h = ground arith

digits-IsPlain : (k n : ℕ) (acc : List ℕ) → IsPlain acc → IsPlain (digits k n acc)
unfolding digits
digits-IsPlain zero n acc h = h
digits-IsPlain (suc k) n acc h = elim (Bool-cases (ltb n 10)) [
  | inl small ↦ rw small (digit-IsPlain n acc (ground arith))
  | inr large ↦
      rw large
        (digits-IsPlain k (n / 10) ((48 + n % 10) ∷ acc) (digit-IsPlain (n % 10) acc (omega arith)))
]

nul-IsPlain : (rest : List ℕ) → IsPlain (0 ∷ rest)
unfolding atoi
nul-IsPlain rest = refl

read_digits_nul : (n : ℕ) (rest : List ℕ) → n < 2 ^ 32 → u32 (read_digits n (0 ∷ rest)) ≡ n
unfolding read_digits
read_digits_nul n rest h = omega arith

-- A printed `int`, with its NUL and what follows, is read back.
pub atoi-decimal : (n : ℕ) (rest : List ℕ) → n < 2 ^ 31 → atoi (decimal n ++ (0 ∷ rest)) ≡ n
unfolding decimal
atoi-decimal n rest h =
    rw
      (
        digits-append 10 n [] (0 ∷ rest),
        digits-IsPlain 10 n (0 ∷ rest) (nul-IsPlain rest),
        read_digits-digits 10 n (0 ∷ rest) (omega arith),
      )
      (read_digits_nul n rest (omega arith))

-- A decimal print has at least one digit, and at most `j` below 10 ^ j.
pub length-decimal_pos : (n : ℕ) → 0 < length (decimal n)
unfolding decimal digits
length-decimal_pos n = elim (Bool-cases (ltb n 10)) [
  | inl small ↦ rw small (omega arith)
  | inr large ↦ rw large (omega (arith, length-digits-grows 9 (n / 10) ((48 + n % 10) ∷ [])))
]

pub length-decimal-le : (j n : ℕ) → n < 10 ^ suc j → j < 10 → length (decimal n) ≤ suc j
unfolding decimal
length-decimal-le j n h g = omega (arith, length-digits-le 10 j n [] h g)

pub length-decimal-ge : (j n : ℕ) → 10 ^ j ≤ n → j < 10 → suc j ≤ length (decimal n)
unfolding decimal
length-decimal-ge j n h g = omega (arith, length-digits-ge 10 j n [] h g)

abbrev pub IsText : List ℕ → Type 0
IsText = All (λ c. 0 < c)

pub c_string_lem : (cs rest : List ℕ) → IsText cs → c_string (cs ++ (0 ∷ rest)) ≡ cs
unfolding c_string
c_string_lem [] rest h = refl
c_string_lem (c ∷ cs) rest (hc, h) = rw (ne→== c 0 (λ e. omega arith), c_string_lem cs rest h)

digits-IsText : (k n : ℕ) (acc : List ℕ) → IsText acc → IsText (digits k n acc)
unfolding digits
digits-IsText zero n acc h = h
digits-IsText (suc k) n acc h = elim (Bool-cases (ltb n 10)) [
  | inl small ↦ rw small (omega arith, h)
  | inr large ↦ rw large (digits-IsText k (n / 10) ((48 + n % 10) ∷ acc) (omega arith, h))
]

pub decimal-IsText : (n : ℕ) → IsText (decimal n)
unfolding decimal
decimal-IsText n = digits-IsText 10 n [] tt
