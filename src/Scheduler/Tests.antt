-- ===== src/Scheduler/Tests.antt =====
-- Tests of the scheduler on two entries, at the addresses 1 and 2, of which one is registered first.
use pi_vision.Base.{
  ℕ, ◌≡◌, refl, none, some, List, [], ◌∷◌, ◌++◌, arith, ◌==◌, if◌then◌else◌, Run, ok, out_of_fuel,
  Returns,
}
use pi_vision.Chain.{null, Store}
use pi_vision.Chain.Seg.{Seg}
use pi_vision.Scheduler.{Scheduler, SchdRunFuncEntry, register_callback, run}
use pi_vision.Scheduler.Order.{Registered, register_callback-Registered, run-rounds}

abbrev entries : Store (SchdRunFuncEntry ℕ)
entries p =
    if p == 1
    then some (record { run = 70; next = null })
    else (if p == 2 then some (record { run = 80; next = null }) else none)

abbrev one : Scheduler ℕ
one = record { entries = entries; registered_funcs = 1; running = 0 }

one-Registered : Registered one ((1, 70) ∷ [])
one-Registered =
    Seg.cons (record { run = 70; next = null }) (omega arith) refl refl refl refl Seg.nil

-- A run function that writes its name down.
abbrev log : ℕ → List ℕ → Run (List ℕ)
log f st = ok (st ++ (f ∷ []))

register_callback-Registered_example :
    Returns
      (λ s'. Registered s' ((1, 70) ∷ (2, 80) ∷ []) × (s'.running ≡ 0))
      (register_callback 1 2 one)
register_callback-Registered_example =
    register_callback-Registered 1 2 (record { run = 80; next = null }) one ((1, 70) ∷ [])
      one-Registered (omega arith) refl refl (omega arith)

run-rounds_example : run log 5 3 one [] ≡ out_of_fuel
run-rounds_example = run-rounds log 5 3 one ((1, 70) ∷ []) [] one-Registered (omega arith)
