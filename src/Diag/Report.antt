-- ===== src/Diag/Report.antt =====
-- The report's buffer has room for four digits.
use pi_vision.Base.{
  ℕ, ◌+◌, ◌≤◌, ◌<◌, ◌≡◌, List, [], ◌∷◌, ◌++◌, arith, length, length-append, length-patch, replicate,
  fault, Returns, patch, patch_front, drop, blit-ok, blit-fault,
}
use mathlib.Core.List.{append_assoc}
use pi_vision.Decimal.{
  decimal, length-decimal-le, length-decimal-ge, decimal-IsText, c_string, c_string_lem, IsText,
}
use pi_vision.Diag.{print_report}

-- The text of a report with its NUL, and the cleared buffer that it goes to.
abbrev report : ℕ → List ℕ
report n = decimal n ++ (13 ∷ 10 ∷ 0 ∷ [])

abbrev cleared : List ℕ
cleared = replicate 7 0

length-report : (n : ℕ) → length (report n) ≡ length (decimal n) + 3
length-report n = length-append (decimal n) (13 ∷ 10 ∷ 0 ∷ [])

append-IsText : (cs ds : List ℕ) → IsText cs → IsText ds → IsText (cs ++ ds)
append-IsText [] ds h g = g
append-IsText (c ∷ cs) ds (hc, h) g = (hc, append-IsText cs ds h g)

-- What is sent of a report: all in front of its NUL.
sent_report : (n : ℕ) → c_string (patch 0 (report n) cleared) ≡ decimal n ++ (13 ∷ 10 ∷ [])
sent_report n =
    let rest = drop (0 + length (report n)) cleared in
    rw
      (
        patch_front (report n) cleared,
        append_assoc (decimal n) (13 ∷ 10 ∷ 0 ∷ []) rest,
        ← append_assoc (decimal n) (13 ∷ 10 ∷ []) (0 ∷ rest),
      )
      (c_string_lem (decimal n ++ (13 ∷ 10 ∷ [])) rest (
        append-IsText (decimal n) (13 ∷ 10 ∷ []) (decimal-IsText n)
          (omega arith, (omega arith, tt))))

-- What `toSend` holds afterwards, and how much of it is sent.
pub print_report-ok :
    (n : ℕ)
    → n < 10000
    → Returns
        (λ to_send. (length to_send ≡ 7) × (length (c_string to_send) ≡ length (decimal n) + 2))
        (print_report n)
unfolding print_report
print_report-ok n small =
    let fits : 0 + length (report n) ≤ 7 =
      omega (arith, length-report n, length-decimal-le 3 n (omega arith) (omega arith)) in
    rw (blit-ok 0 (report n) cleared fits) (
      length-patch 0 (report n) cleared fits,
      rw (sent_report n) (length-append (decimal n) (13 ∷ 10 ∷ [])),
    )

-- The report of a number of dropped frames fits its buffer if the number has at most four digits,
-- and what is sent of the buffer is then the number, a carriage return and a line feed; from 10000
-- on it is printed behind the buffer.
pub print_report_lem :
    (n : ℕ)
    → (n < 10000
        → Returns (λ to_send. c_string to_send ≡ decimal n ++ (13 ∷ 10 ∷ [])) (print_report n))
      × (10000 ≤ n → print_report n ≡ fault)
unfolding print_report
print_report_lem n = (
  λ small.
      rw
        (blit-ok 0 (report n) cleared
          (omega (arith, length-report n, length-decimal-le 3 n (omega arith) (omega arith))))
        (sent_report n),
  λ large.
      blit-fault 0 (report n) cleared
        (omega (arith, length-report n, length-decimal-ge 4 n (omega arith) (omega arith))),
)
