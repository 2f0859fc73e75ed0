-- ===== src/Base/Runs.antt =====
-- Results of C code that may fail: a value, `exit(code)`, undefined behaviour (a null or dangling
-- pointer, an access out of an array's bounds, a division by zero), or a loop whose fuel ran out.
use Prim.Native.Nat.{ℕ, zero, suc, ◌+◌, ◌≤◌, ◌<◌}
use mathlib.Core.Path.{◌≡◌, refl, ap, ◌∙◌}
use mathlib.Core.List.{List, [], ◌∷◌, ◌++◌, append-nil, append_assoc}
use native.Mathlib.Omega.{arith}
use mathlib.Core.Bool.{Bool, true, false}
use mathlib.Core.Logic.{inl, inr}
use pi_vision.Base.Tests.{leb, if◌then◌else◌, Bool-cases}
use pi_vision.Base.Lists.{
  length, get_or, take, drop, All, All-append, All-take, All-drop, length-append, length-take,
  length-drop, drop_all, take_all, take-append,
}

pub data Run {ℓ} (A : Type ℓ) : Type ℓ where
  ok : A → Run A
  exit : ℕ → Run A
  fault : Run A
  out_of_fuel : Run A

infixl 5 ◌>>=◌
abbrev pub ◌>>=◌ {ℓ κ} : {A : Type ℓ} {B : Type κ} → Run A → (A → Run B) → Run B
ok a >>= f = f a
exit n >>= f = exit n
fault >>= f = fault
out_of_fuel >>= f = out_of_fuel

-- Total correctness: the run ends with a value, of which `P` holds.
abbrev pub Returns {ℓ} : {A : Type ℓ} → (A → Type 0) → Run A → Type 0
Returns P (ok a) = P a
Returns P (exit n) = ⊥
Returns P fault = ⊥
Returns P out_of_fuel = ⊥

pub Returns-bind {ℓ κ} :
    {A : Type ℓ} {B : Type κ} (P : A → Type 0) (Q : B → Type 0) (r : Run A) (k : A → Run B)
    → Returns P r
    → ((a : A) → P a → Returns Q (k a))
    → Returns Q (r >>= k)
Returns-bind P Q (ok a) k h next = next a h
Returns-bind P Q (exit n) k h next = h
Returns-bind P Q fault k h next = h
Returns-bind P Q out_of_fuel k h next = h

pub Returns-mono {ℓ} :
    {A : Type ℓ} (P Q : A → Type 0) (r : Run A) → ((a : A) → P a → Q a) → Returns P r → Returns Q r
Returns-mono P Q (ok a) weaken h = weaken a h
Returns-mono P Q (exit n) weaken h = h
Returns-mono P Q fault weaken h = h
Returns-mono P Q out_of_fuel weaken h = h

pub Returns→ok {ℓ} :
    {A : Type ℓ} (P : A → Type 0) (r : Run A) → Returns P r → (a : A) × (r ≡ ok a) × P a
Returns→ok P (ok a) h = (a, refl, h)
Returns→ok P (exit n) h = absurd h
Returns→ok P fault h = absurd h
Returns→ok P out_of_fuel h = absurd h

-- How a run may end: with a value of which `P` holds, by `exit(1)`, or in a fault under `Q`; its
-- loops end.
abbrev pub Ends {ℓ} : {A : Type ℓ} → (A → Type 0) → Type 0 → Run A → Type 0
Ends P Q (ok a) = P a
Ends P Q (exit n) = n ≡ 1
Ends P Q fault = Q
Ends P Q out_of_fuel = ⊥

pub Ends-bind {ℓ κ} :
    {A : Type ℓ} {B : Type κ} (P : A → Type 0) (F : Type 0) (Q : B → Type 0) (r : Run A)
    (k : A → Run B)
    → Ends P F r
    → ((a : A) → P a → Ends Q F (k a))
    → Ends Q F (r >>= k)
Ends-bind P F Q (ok a) k h next = next a h
Ends-bind P F Q (exit n) k h next = h
Ends-bind P F Q fault k h next = h
Ends-bind P F Q out_of_fuel k h next = h

pub Ends-mono {ℓ} :
    {A : Type ℓ} (P Q : A → Type 0) (F G : Type 0) (r : Run A)
    → ((a : A) → P a → Q a)
    → (F → G)
    → Ends P F r
    → Ends Q G r
Ends-mono P Q F G (ok a) weaken worse h = weaken a h
Ends-mono P Q F G (exit n) weaken worse h = h
Ends-mono P Q F G fault weaken worse h = worse h
Ends-mono P Q F G out_of_fuel weaken worse h = h

-- A step that may use what the run before it has given.
pub Ends-bind_eq {ℓ κ} :
    {A : Type ℓ} {B : Type κ} (P : A → Type 0) (F : Type 0) (Q : B → Type 0) (G : Type 0)
    (r : Run A) (k : A → Run B)
    → Ends P F r
    → ((a : A) → P a → r ≡ ok a → Ends Q G (k a))
    → (F → G)
    → Ends Q G (r >>= k)
Ends-bind_eq P F Q G (ok a) k h next worse = next a h refl
Ends-bind_eq P F Q G (exit n) k h next worse = h
Ends-bind_eq P F Q G fault k h next worse = worse h
Ends-bind_eq P F Q G out_of_fuel k h next worse = h

pub Returns→Ends {ℓ} :
    {A : Type ℓ} (P : A → Type 0) (F : Type 0) (r : Run A) → Returns P r → Ends P F r
Returns→Ends P F (ok a) h = h
Returns→Ends P F (exit n) h = absurd h
Returns→Ends P F fault h = absurd h
Returns→Ends P F out_of_fuel h = h

-- How a run may end, or how it may not: with a value of which `P` holds, by `exit(1)`, in a fault
-- under `Q`, or not within its fuel under `S`.
abbrev pub Halts {ℓ} : {A : Type ℓ} → (A → Type 0) → Type 0 → Type 0 → Run A → Type 0
Halts P Q S (ok a) = P a
Halts P Q S (exit n) = n ≡ 1
Halts P Q S fault = Q
Halts P Q S out_of_fuel = S

pub Ends→Halts {ℓ} :
    {A : Type ℓ} (P : A → Type 0) (F S : Type 0) (r : Run A) → Ends P F r → Halts P F S r
Ends→Halts P F S (ok a) h = h
Ends→Halts P F S (exit n) h = h
Ends→Halts P F S fault h = h
Ends→Halts P F S out_of_fuel h = absurd h

pub Returns→Halts {ℓ} :
    {A : Type ℓ} (P : A → Type 0) (F S : Type 0) (r : Run A) → Returns P r → Halts P F S r
Returns→Halts P F S (ok a) h = h
Returns→Halts P F S (exit n) h = absurd h
Returns→Halts P F S fault h = absurd h
Returns→Halts P F S out_of_fuel h = absurd h

pub Halts-mono {ℓ} :
    {A : Type ℓ} (P Q : A → Type 0) (F G S T : Type 0) (r : Run A)
    → ((a : A) → P a → Q a)
    → (F → G)
    → (S → T)
    → Halts P F S r
    → Halts Q G T r
Halts-mono P Q F G S T (ok a) weaken worse longer h = weaken a h
Halts-mono P Q F G S T (exit n) weaken worse longer h = h
Halts-mono P Q F G S T fault weaken worse longer h = worse h
Halts-mono P Q F G S T out_of_fuel weaken worse longer h = longer h

pub Halts-bind {ℓ κ} :
    {A : Type ℓ} {B : Type κ} (P : A → Type 0) (F S : Type 0) (Q : B → Type 0) (r : Run A)
    (k : A → Run B)
    → Halts P F S r
    → ((a : A) → P a → Halts Q F S (k a))
    → Halts Q F S (r >>= k)
Halts-bind P F S Q (ok a) k h next = next a h
Halts-bind P F S Q (exit n) k h next = h
Halts-bind P F S Q fault k h next = h
Halts-bind P F S Q out_of_fuel k h next = h

-- A step that may use what the run before it has given.
pub Halts-bind_eq {ℓ κ} :
    {A : Type ℓ} {B : Type κ} (P : A → Type 0) (F S : Type 0) (Q : B → Type 0) (G T : Type 0)
    (r : Run A) (k : A → Run B)
    → Halts P F S r
    → ((a : A) → P a → r ≡ ok a → Halts Q G T (k a))
    → (F → G)
    → (S → T)
    → Halts Q G T (r >>= k)
Halts-bind_eq P F S Q G T (ok a) k h next worse longer = next a h refl
Halts-bind_eq P F S Q G T (exit n) k h next worse longer = h
Halts-bind_eq P F S Q G T fault k h next worse longer = worse h
Halts-bind_eq P F S Q G T out_of_fuel k h next worse longer = longer h

pub Halts-if {ℓ} :
    {A : Type ℓ} (P : A → Type 0) (F S : Type 0) (b : Bool) (x y : Run A)
    → (b ≡ true → Halts P F S x)
    → (b ≡ false → Halts P F S y)
    → Halts P F S (if b then x else y)
Halts-if P F S true x y h k = h refl
Halts-if P F S false x y h k = k refl

-- What holds of the value of a run, if it has one.
abbrev pub Keeps {ℓ} : {A : Type ℓ} → (A → Type 0) → Run A → Type 0
Keeps P (ok a) = P a
Keeps P (exit n) = Unit
Keeps P fault = Unit
Keeps P out_of_fuel = Unit

pub Halts→Keeps {ℓ} :
    {A : Type ℓ} (P : A → Type 0) (F S : Type 0) (r : Run A) → Halts P F S r → Keeps P r
Halts→Keeps P F S (ok a) h = h
Halts→Keeps P F S (exit n) h = tt
Halts→Keeps P F S fault h = tt
Halts→Keeps P F S out_of_fuel h = tt

pub Keeps-bind {ℓ κ} :
    {A : Type ℓ} {B : Type κ} (Q : B → Type 0) (r : Run A) (k : A → Run B)
    → ((a : A) → Keeps Q (k a))
    → Keeps Q (r >>= k)
Keeps-bind Q (ok a) k next = next a
Keeps-bind Q (exit n) k next = tt
Keeps-bind Q fault k next = tt
Keeps-bind Q out_of_fuel k next = tt

-- With what is known of the first run's value.
pub Keeps-bind_if {ℓ κ} :
    {A : Type ℓ} {B : Type κ} (P : A → Type 0) (Q : B → Type 0) (r : Run A) (k : A → Run B)
    → Keeps P r
    → ((a : A) → P a → Keeps Q (k a))
    → Keeps Q (r >>= k)
Keeps-bind_if P Q (ok a) k h next = next a h
Keeps-bind_if P Q (exit n) k h next = tt
Keeps-bind_if P Q fault k h next = tt
Keeps-bind_if P Q out_of_fuel k h next = tt

pub Keeps-mono {ℓ} :
    {A : Type ℓ} (P Q : A → Type 0) (r : Run A) → ((a : A) → P a → Q a) → Keeps P r → Keeps Q r
Keeps-mono P Q (ok a) weaken h = weaken a h
Keeps-mono P Q (exit n) weaken h = h
Keeps-mono P Q fault weaken h = h
Keeps-mono P Q out_of_fuel weaken h = h

-- A test in front of two runs.
pub Keeps-if {ℓ} :
    {A : Type ℓ} (P : A → Type 0) (b : Bool) (x y : Run A)
    → (b ≡ true → Keeps P x)
    → (b ≡ false → Keeps P y)
    → Keeps P (if b then x else y)
Keeps-if P true x y h k = h refl
Keeps-if P false x y h k = k refl

pub Returns→Keeps {ℓ} : {A : Type ℓ} (P : A → Type 0) (r : Run A) → Returns P r → Keeps P r
Returns→Keeps P (ok a) h = h
Returns→Keeps P (exit n) h = absurd h
Returns→Keeps P fault h = absurd h
Returns→Keeps P out_of_fuel h = absurd h

pub Returns-Keeps {ℓ} :
    {A : Type ℓ} (P Q : A → Type 0) (r : Run A)
    → Returns P r
    → Keeps Q r
    → Returns (λ a. P a × Q a) r
Returns-Keeps P Q (ok a) h k = (h, k)
Returns-Keeps P Q (exit n) h k = h
Returns-Keeps P Q fault h k = h
Returns-Keeps P Q out_of_fuel h k = h

-- How a run ends, with what holds of its value.
pub Ends-Keeps {ℓ} :
    {A : Type ℓ} (P Q : A → Type 0) (F : Type 0) (r : Run A)
    → Ends P F r
    → Keeps Q r
    → Ends (λ a. P a × Q a) F r
Ends-Keeps P Q F (ok a) h k = (h, k)
Ends-Keeps P Q F (exit n) h k = h
Ends-Keeps P Q F fault h k = h
Ends-Keeps P Q F out_of_fuel h k = h

-- `n` values of an array from an offset on; a fault where it has not so many.
unfoldable pub slice {ℓ} : {A : Type ℓ} → ℕ → ℕ → List A → Run (List A)
slice off n buf = if leb (off + n) (length buf) then ok (take n (drop off buf)) else fault

-- The array `buf` with `bytes` in place of what stood from `off` on.
pub patch {ℓ} : {A : Type ℓ} → ℕ → List A → List A → List A
patch off bytes buf = take off buf ++ (bytes ++ drop (off + length bytes) buf)

-- Values copied into an array from an offset on; a fault where they do not fit.
unfoldable pub blit {ℓ} : {A : Type ℓ} → ℕ → List A → List A → Run (List A)
blit off bytes buf =
    if leb (off + length bytes) (length buf) then ok (patch off bytes buf) else fault

module _ {ℓ} {A : Type ℓ} (off : ℕ) (bytes buf : List A) where
  pub length-patch : off + length bytes ≤ length buf → length (patch off bytes buf) ≡ length buf
  unfolding patch
  length-patch h = omega (
    arith,
    length-append (take off buf) (bytes ++ drop (off + length bytes) buf),
    length-append bytes (drop (off + length bytes) buf),
    length-take off buf,
    length-drop (off + length bytes) buf,
  )

  pub blit-ok : off + length bytes ≤ length buf → blit off bytes buf ≡ ok (patch off bytes buf)
  unfolding blit
  blit-ok h = ground arith

  pub blit-fault : length buf < off + length bytes → blit off bytes buf ≡ fault
  unfolding blit
  blit-fault h = ground arith

  -- The copy behind a front extends that front.
  pub take-patch :
      off + length bytes ≤ length buf
      → take (off + length bytes) (patch off bytes buf) ≡ take off buf ++ bytes
  unfolding patch
  take-patch h = rw (← append_assoc (take off buf) bytes (drop (off + length bytes) buf)) (
      take-append (take off buf ++ bytes) (drop (off + length bytes) buf) (off + length bytes)
        (omega (arith, length-append (take off buf) bytes, length-take off buf)))

-- A copy over the whole array leaves nothing of the old contents.
pub patch_whole {ℓ} :
    {A : Type ℓ} (bytes buf : List A) → length bytes ≡ length buf → patch 0 bytes buf ≡ bytes
unfolding patch
patch_whole bytes buf h = rw (drop_all (0 + length bytes) buf (omega arith)) (append-nil bytes)

-- What a copy leaves of an array.
pub patch_lem {ℓ} :
    {A : Type ℓ} (off : ℕ) (bytes buf : List A)
    → patch off bytes buf ≡ take off buf ++ (bytes ++ drop (off + length bytes) buf)
unfolding patch
patch_lem off bytes buf = refl

-- A copy to the front.
pub patch_front {ℓ} :
    {A : Type ℓ} (bytes buf : List A) → patch 0 bytes buf ≡ bytes ++ drop (0 + length bytes) buf
unfolding patch
patch_front bytes buf = refl

module _ {ℓ κ} {A : Type ℓ} {B : Type κ} where
  pub >>=_cong : (r : Run A) {k k' : A → Run B} → ((a : A) → k a ≡ k' a) → (r >>= k) ≡ (r >>= k')
  >>=_cong (ok a) h = h a
  >>=_cong (exit n) h = refl
  >>=_cong fault h = refl
  >>=_cong out_of_fuel h = refl

  pub >>=_assoc {ι} :
      {C : Type ι} (r : Run A) (k : A → Run B) (m : B → Run C)
      → (r >>= k >>= m) ≡ (r >>= λ a. k a >>= m)
  >>=_assoc (ok a) k m = refl
  >>=_assoc (exit n) k m = refl
  >>=_assoc fault k m = refl
  >>=_assoc out_of_fuel k m = refl

pub slice_whole {ℓ} : {A : Type ℓ} (n : ℕ) (buf : List A) → length buf ≡ n → slice 0 n buf ≡ ok buf
unfolding slice
slice_whole n buf h = rw (take_all n buf (omega arith)) (ground arith)

-- A copy of the whole of an array over another of its size.
pub blit_whole {ℓ} :
    {A : Type ℓ} (bytes buf : List A) → length bytes ≡ length buf → blit 0 bytes buf ≡ ok bytes
blit_whole bytes buf h = blit-ok 0 bytes buf (omega arith) ∙ ap ok (patch_whole bytes buf h)

-- A copy behind a first one that together fill an array.
pub patch_behind {ℓ} :
    {A : Type ℓ} (n : ℕ) (front back buf : List A)
    → length front ≡ n
    → length buf ≡ n + length back
    → patch n back (patch 0 front buf) ≡ front ++ back
unfolding patch
patch_behind n front back buf h e = rw (
  take-append front (drop (0 + length front) buf) n h,
  drop_all (n + length back) (front ++ drop (0 + length front) buf) (
      omega (
        arith,
        length-append front (drop (0 + length front) buf),
        length-drop (0 + length front) buf,
      )),
  append-nil back,
)

get_or-behind :
    (bytes buf : List ℕ) (i d : ℕ)
    → length bytes ≤ i
    → length bytes ≤ length buf
    → get_or (bytes ++ drop (length bytes) buf) i d ≡ get_or buf i d
get_or-behind [] buf i d h fits = refl
get_or-behind (x ∷ bytes) [] i d h fits = absurd (omega arith)
get_or-behind (x ∷ bytes) (y ∷ buf) zero d h fits = absurd (omega arith)
get_or-behind (x ∷ bytes) (y ∷ buf) (suc i) d h fits =
    get_or-behind bytes buf i d (omega arith) (omega arith)

-- A copy to the front leaves what stands behind it.
pub get_or-patch :
    (bytes buf : List ℕ) (i d : ℕ)
    → length bytes ≤ i
    → length bytes ≤ length buf
    → get_or (patch 0 bytes buf) i d ≡ get_or buf i d
unfolding patch
get_or-patch bytes buf i d h fits =
    let e : 0 + length bytes ≡ length bytes = omega arith in
    rw e (get_or-behind bytes buf i d h fits)

-- A copy keeps what holds of all values.
pub All-patch {ℓ} :
    {A : Type ℓ} (P : A → Type 0) (off : ℕ) (bytes buf : List A)
    → All P bytes
    → All P buf
    → All P (patch off bytes buf)
unfolding patch
All-patch P off bytes buf h k =
    All-append P (take off buf) (bytes ++ drop (off + length bytes) buf) (All-take P off buf k)
      (All-append P bytes (drop (off + length bytes) buf) h (All-drop P (off + length bytes) buf k))

pub Keeps-blit {ℓ} :
    {A : Type ℓ} (P : A → Type 0) (off : ℕ) (bytes buf : List A)
    → All P bytes
    → All P buf
    → Keeps (All P) (blit off bytes buf)
unfolding blit
Keeps-blit P off bytes buf h k = elim (Bool-cases (leb (off + length bytes) (length buf))) [
  | inl fits ↦ rw fits (All-patch P off bytes buf h k)
  | inr over ↦ rw over tt
]

pub Keeps-slice {ℓ} :
    {A : Type ℓ} (P : A → Type 0) (off n : ℕ) (buf : List A)
    → All P buf
    → Keeps (All P) (slice off n buf)
unfolding slice
Keeps-slice P off n buf k = elim (Bool-cases (leb (off + n) (length buf))) [
  | inl fits ↦ rw fits (All-take P n (drop off buf) (All-drop P off buf k))
  | inr over ↦ rw over tt
]
