-- ===== src/Diag/Tests.antt =====
-- A test of the report.
use pi_vision.Base.{◌≤◌, ◌<◌, ◌≡◌, [], ◌∷◌, ◌++◌, fault, Returns}
use pi_vision.Decimal.{decimal, c_string}
use pi_vision.Diag.{print_report}
use pi_vision.Diag.Report.{print_report_lem}

print_report_lem_example :
    (42 < 10000
      → Returns (λ to_send. c_string to_send ≡ decimal 42 ++ (13 ∷ 10 ∷ [])) (print_report 42))
    × (10000 ≤ 42 → print_report 42 ≡ fault)
print_report_lem_example = print_report_lem 42
