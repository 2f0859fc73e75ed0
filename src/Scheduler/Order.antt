-- ===== src/Scheduler/Order.antt =====
-- What a client of the scheduler relies on: callbacks run in the order of their registration, each
-- once in a round, and the loop never ends by itself.
use pi_vision.Base.{
  ℕ, zero, suc, ◌≤◌, ◌<◌, ◌≡◌, refl, ◌≢◌, false, some, List, [], ◌∷◌, ◌++◌, arith, ◌==◌, length,
  Run, ok, out_of_fuel, Returns, ◌>>=◌, >>=_cong, >>=_assoc, Returns-bind, sym, ◌∙◌,
}
use pi_vision.Chain.{Ptr, null, write}
use pi_vision.Chain.Seg
use pi_vision.Chain.Seg.{Seg, nil, cons, has}
use pi_vision.Scheduler.{
  Scheduler, SchdRunFuncEntry, entry_link, register_callback, run_entries, while_running, run,
}

-- The scheduler holds the entries at these addresses, with these functions, in this order.
abbrev pub Registered : {F : Type 0} → Scheduler F → List (Ptr × F) → Type 0
Registered {F} s xs = Seg (entry_link F) s.entries s.registered_funcs xs

module _ {F : Type 0} where
  -- The functions of a list of entries called one after the other.
  abbrev pub call_all : {S : Type 0} → (F → S → Run S) → List (Ptr × F) → S → Run S
  call_all call [] st = ok st
  call_all call ((_, f) ∷ xs) st = call f st >>= call_all call xs

  -- `n` rounds, each of which calls all.
  abbrev pub rounds : {S : Type 0} → (F → S → Run S) → List (Ptr × F) → ℕ → S → Run S
  rounds call xs zero st = ok st
  rounds call xs (suc n) st = call_all call xs st >>= rounds call xs n

  -- Registering an entry that exists and is not yet registered puts its function behind all others,
  -- and keeps those and `running`; the walk ends within fuel for the entries that are there.
  pub register_callback-Registered :
      (fuel : ℕ) (p : Ptr) (e : SchdRunFuncEntry F) (s : Scheduler F) (xs : List (Ptr × F))
      → Registered s xs
      → p ≢ null
      → s.entries p ≡ some e
      → has p xs ≡ false
      → length xs ≤ fuel
      → Returns
          (λ s'. Registered s' (xs ++ ((p, e.run) ∷ [])) × (s'.running ≡ s.running))
          (register_callback fuel p s)
  unfolding register_callback
  register_callback-Registered fuel p e s xs r ne at new enough =
      rw (Seg.load-ok (entry_link F) s.entries p e ne at) (
        Returns-bind
          (Seg.Appended (entry_link F) (write s.entries p (record e { next = null })) p
            (record e { next = null }) xs)
          _ _ _
          (Seg.append-Seg (entry_link F) p (record e { next = null }) ne (ground arith) fuel
            (Seg.frame (entry_link F) r (λ a i. ground arith)) refl new enough)
          λ r' (seg, same). (seg, refl))

  module _ {S : Type 0} (call : F → S → Run S) where
    -- With fuel for more than the registered callbacks one pass over the list calls each of them
    -- once, in the order of registration, and ends early only where one of them does not return.
    pub run_entries-call_all :
        (fuel : ℕ) (s : Scheduler F) {p : Ptr} (xs : List (Ptr × F)) (st : S)
        → Seg (entry_link F) s.entries p xs
        → length xs < fuel
        → run_entries call fuel s.entries p st ≡ call_all call xs st
    unfolding run_entries
    run_entries-call_all zero s xs st r enough = absurd (omega arith)
    run_entries-call_all (suc k) s xs st nil enough = refl
    run_entries-call_all (suc k) s xs st (cons {p} a ne e nx v out rest) enough =
        let ne' : (p == null) ≡ false = ground arith in
        rw (ne', Seg.load-ok (entry_link F) s.entries p a ne e, ← v)
          (>>=_cong (call a.run st)
            λ st'. rw nx (run_entries-call_all k s _ st' rest (omega arith)))

    while_running-rounds :
        (fuel n : ℕ) (s : Scheduler F) (xs : List (Ptr × F)) (st : S)
        → Registered s xs
        → s.running ≡ 1
        → length xs < fuel
        → while_running call fuel n s st ≡ (rounds call xs n st >>= λ _. out_of_fuel)
    unfolding while_running
    while_running-rounds fuel zero s xs st r on enough = refl
    while_running-rounds fuel (suc n) s xs st r on enough =
        simp (on, run_entries-call_all fuel s xs st r enough)
          (>>=_cong (call_all call xs st) (λ st'. while_running-rounds fuel n s xs st' r on enough)
            ∙ sym (>>=_assoc (call_all call xs st) (rounds call xs n) (λ _. out_of_fuel)))

    -- With callbacks registered, and fuel for more than their number in each pass: however many
    -- rounds are allowed, `SCHED_run` calls all callbacks in order in each of so many rounds and is
    -- not done. It ends only where a function does not return.
    pub run-rounds :
        (fuel n : ℕ) (s : Scheduler F) (xs : List (Ptr × F)) (st : S)
        → Registered s xs
        → length xs < fuel
        → run call fuel n s st ≡ (rounds call xs n st >>= λ _. out_of_fuel)
    unfolding run
    run-rounds fuel n s xs st r enough =
        while_running-rounds fuel n (record s { running = 1 }) xs st r refl enough
