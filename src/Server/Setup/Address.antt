-- ===== src/Server/Setup/Address.antt =====
-- The host's own address is found within its array.
use pi_vision.Base.{
  ℕ, ◌+◌, ◌≤◌, ◌≡◌, ◌≢◌, refl, inl, inr, true, false, Option, none, some, List, [], ◌∷◌, ◌++◌,
  arith, ltb, ltb→lt, length, length-append, patch, length-patch, blit-ok, Run, ok, fault, ◌>>=◌,
  Returns, Returns→ok, Bool-cases, ap, sym, subst, ◌∙◌,
}
use pi_vision.Constants.{ip_address_length}
use pi_vision.Decimal.{c_string}
use pi_vision.Sockets.{Sockets}
use pi_vision.Server.{Server}
use pi_vision.Server.Setup.{inet_ntop, find_own_address, same_text, loopback, init}

-- The array keeps its size.
abbrev Whole : List ℕ → Type 0
Whole a = length a ≡ ip_address_length

inet_ntop-Whole :
    (a address : List ℕ) → Whole address → (b : List ℕ) × (inet_ntop a address ≡ ok b) × Whole b
unfolding inet_ntop
inet_ntop-Whole a address whole = elim (Bool-cases (ltb (length a) ip_address_length)) [
  | inl fits ↦
      let room : 0 + length (a ++ (0 ∷ [])) ≤ length address =
        omega (arith, length-append a (0 ∷ []), whole, ltb→lt (length a) ip_address_length fits) in
      (
        patch 0 (a ++ (0 ∷ [])) address,
        rw fits (blit-ok 0 (a ++ (0 ∷ [])) address room),
        length-patch 0 (a ++ (0 ∷ [])) address room ∙ whole,
      )
  | inr long ↦ (address, rw long refl, whole)
]

find_own_address-Whole :
    (found : List (Option (List ℕ))) (address : List ℕ)
    → Whole address
    → Returns Whole (find_own_address found address)
unfolding find_own_address
find_own_address-Whole [] address whole = whole
find_own_address-Whole (none ∷ more) address whole = find_own_address-Whole more address whole
find_own_address-Whole (some a ∷ more) address whole =
    let (b, gives, whole_b) = inet_ntop-Whole a address whole in
    rw gives (named (find_own_address-Whole more) b whole_b)
  where
    named :
        ((b : List ℕ) → Whole b → Returns Whole (find_own_address more b))
        → (b : List ℕ) → Whole b
        → Returns Whole (elim (same_text loopback (c_string b)) [
          | true ↦ find_own_address more b
          | false ↦ ok b
        ])
    named next b whole_b = elim (Bool-cases (same_text loopback (c_string b))) [
      | inl own ↦ rw own (next b whole_b)
      | inr other ↦ rw other whole_b
    ]

-- An own address in its array is never a fault.
pub init-no_fault :
    (os : Sockets) (s : Server) (w : os.World)
    → length s.own_ip_address ≡ ip_address_length
    → init os s w ≢ fault
unfolding init
init-no_fault os s w whole e =
    let (a, gives, h) =
      Returns→ok Whole (find_own_address (os.getifaddrs w) s.own_ip_address)
        (find_own_address-Whole (os.getifaddrs w) s.own_ip_address whole) in
    ok_not_fault (
      ap (λ r. r >>= λ address. ok (record s { connections = 0; own_ip_address = address }))
        (sym gives)
      ∙ e)
  where
    no_fault : {A : Type 0} → Run A → Type 0
    no_fault fault = ⊥
    no_fault _ = Unit

    ok_not_fault : {A : Type 0} {x : A} → ok x ≡ fault → ⊥
    ok_not_fault e = subst no_fault e tt
