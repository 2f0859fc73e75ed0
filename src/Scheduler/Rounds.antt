-- ===== src/Scheduler/Rounds.antt =====
-- What rounds of callbacks keep. A client of the scheduler says what it needs to call a function,
-- what a call leaves, and under which condition a call may fail or not end; `B` is what the client knows of the
-- functions called so far.
use pi_vision.Base.{
  ℕ, zero, suc, ◌≡◌, List, [], ◌∷◌, Run, ok, Halts, Halts-mono, Halts-bind_eq, subst,
}
use pi_vision.Chain.{Ptr}
use pi_vision.Scheduler.Order.{call_all, rounds}

module _ {F S : Type 0} (call : F → S → Run S) (Hazard : F → S → Type 0) where
  -- One of the calls is made in a state that is a hazard for it.
  pub data Meets : List (Ptr × F) → S → Type 0 where
    here : {p : Ptr} {f : F} {xs : List (Ptr × F)} {st : S} → Hazard f st → Meets ((p, f) ∷ xs) st
    later :
        {p : Ptr} {f : F} {xs : List (Ptr × F)} {st st' : S}
        → call f st ≡ ok st'
        → Meets xs st'
        → Meets ((p, f) ∷ xs) st

  -- One of the rounds does.
  pub data MeetsIn (xs : List (Ptr × F)) : ℕ → S → Type 0 where
    now : {n : ℕ} {st : S} → Meets xs st → MeetsIn xs (suc n) st
    after_round :
        {n : ℕ} {st st' : S}
        → call_all call xs st ≡ ok st'
        → MeetsIn xs n st'
        → MeetsIn xs (suc n) st

-- What is known when all of a list have been called.
abbrev pub after_all : {F B : Type 0} → (F → B → B) → List (Ptr × F) → B → B
after_all after [] b = b
after_all after ((_, f) ∷ xs) b = after_all after xs (after f b)

-- The order of the list meets the needs of each.
abbrev pub InOrder : {F B : Type 0} → (F → B → B) → (F → B → Type 0) → List (Ptr × F) → B → Type 0
InOrder after Needs [] b = Unit
InOrder after Needs ((_, f) ∷ xs) b = Needs f b × InOrder after Needs xs (after f b)

module _ {F S B : Type 0} (call : F → S → Run S) (after : F → B → B) (Needs : F → B → Type 0)
    (Hazard Stuck : F → S → Type 0) (P : B → S → Type 0)
    (step : (f : F) (b : B) (st : S)
      → Needs f b
      → P b st
      → Halts (P (after f b)) (Hazard f st) (Stuck f st) (call f st)) where
  pub call_all-Halts :
      (xs : List (Ptr × F)) (b : B) (st : S)
      → InOrder after Needs xs b
      → P b st
      → Halts
          (P (after_all after xs b))
          (Meets call Hazard xs st)
          (Meets call Stuck xs st)
          (call_all call xs st)
  call_all-Halts [] b st order h = h
  call_all-Halts ((p, f) ∷ xs) b st (need, order) h =
      Halts-bind_eq (P (after f b)) (Hazard f st) (Stuck f st) (P (after_all after xs (after f b)))
        (Meets call Hazard ((p, f) ∷ xs) st) (Meets call Stuck ((p, f) ∷ xs) st) (call f st)
        (call_all call xs) (step f b st need h)
        (λ st' h' e.
          Halts-mono (P (after_all after xs (after f b))) (P (after_all after xs (after f b)))
            (Meets call Hazard xs st') (Meets call Hazard ((p, f) ∷ xs) st)
            (Meets call Stuck xs st') (Meets call Stuck ((p, f) ∷ xs) st) _ (λ a k. k)
            (λ m. later e m) (λ m. later e m) (call_all-Halts xs (after f b) st' order h'))
        (λ m. here m) (λ m. here m)

  -- Where the order holds whatever is known before, every round keeps what the functions need.
  pub rounds-Halts :
      (xs : List (Ptr × F)) (last : B)
      → ((b : B) → InOrder after Needs xs b)
      → ((b : B) → after_all after xs b ≡ last)
      → (n : ℕ) (st : S) → P last st
      → Halts
          (P last)
          (MeetsIn call Hazard xs n st)
          (MeetsIn call Stuck xs n st)
          (rounds call xs n st)
  rounds-Halts xs last order same zero st h = h
  rounds-Halts xs last order same (suc n) st h =
      Halts-bind_eq (P last) (Meets call Hazard xs st) (Meets call Stuck xs st) (P last)
        (MeetsIn call Hazard xs (suc n) st) (MeetsIn call Stuck xs (suc n) st) (call_all call xs st)
        (rounds call xs n)
        (subst
          (λ b.
            Halts (P b) (Meets call Hazard xs st) (Meets call Stuck xs st) (call_all call xs st))
          (same last) (call_all-Halts xs last st (order last) h))
        (λ st' h' e.
          Halts-mono (P last) (P last) (MeetsIn call Hazard xs n st')
            (MeetsIn call Hazard xs (suc n) st) (MeetsIn call Stuck xs n st')
            (MeetsIn call Stuck xs (suc n) st) _ (λ a k. k) (λ m. after_round e m)
            (λ m. after_round e m) (rounds-Halts xs last order same n st' h'))
        (λ m. now m) (λ m. now m)
