-- ===== src/Scheduler.antt =====
-- C/src/PiVisScheduler.c: the list of registered callbacks, and the loop that calls them in turn.
-- `F` names the run functions of the program and `S` is the state that they work on: no run
-- function of the program calls the scheduler, so that state and the scheduler's are apart.
pub mod Order
pub mod Rounds
mod Tests
use pi_vision.Base.{
  ℕ, zero, suc, refl, none, some, ◌==◌, if◌then◌else◌, Run, ok, out_of_fuel, ◌>>=◌,
}
use pi_vision.Chain.{Ptr, null, Store, Link, write, load, append}

pub record SchdRunFuncEntry (F : Type 0) : Type 0 where
  pub run : F
  pub next : Ptr

abbrev pub entry_link : (F : Type 0) → Link (SchdRunFuncEntry F) F
entry_link F = record {
  next = λ e. e.next;
  set_next = λ p e. record e { next = p };
  view = λ e. e.run;
  next-set_next = λ p e. refl;
  view-set_next = λ p e. refl;
}

-- The statics `registeredFuncs` and `running`, and the entries that the callers own.
pub record Scheduler (F : Type 0) : Type 0 where
  pub entries : Store (SchdRunFuncEntry F)
  pub registered_funcs : Ptr
  pub running : ℕ

module _ {F : Type 0} where
  unfoldable pub init : Scheduler F → Scheduler F
  init s = record s { registered_funcs = null; running = 0 }

  -- The entry at `p` is the caller's static `funcEntry`; `fuel` bounds the walk to the last entry.
  unfoldable pub register_callback : ℕ → Ptr → Scheduler F → Run (Scheduler F)
  register_callback fuel p s = load s.entries p >>= λ e.
      append (entry_link F) fuel (write s.entries p (record e { next = null })) s.registered_funcs p
      >>= λ (head, entries). ok (record s { entries = entries; registered_funcs = head })

  -- A module's `funcEntry.run = run; funcEntry.next = 0;` before it registers the entry.
  unfoldable pub set_entry : Ptr → F → Scheduler F → Scheduler F
  set_entry p f s = record s { entries = write s.entries p (record { run = f; next = null }) }

  module _ {S : Type 0} (call : F → S → Run S) where
    -- while(toExecute != 0) { toExecute->run(); toExecute = toExecute->next; }
    pub run_entries : ℕ → Store (SchdRunFuncEntry F) → Ptr → S → Run S
    run_entries zero h to_execute st = out_of_fuel
    run_entries (suc k) h to_execute st =
        if to_execute == null
        then ok st
        else (load h to_execute >>= λ e. call e.run st >>= λ st'. run_entries k h e.next st')

    -- while(1 == running), with fuel for `n` rounds
    pub while_running : ℕ → ℕ → Scheduler F → S → Run S
    while_running fuel zero s st = out_of_fuel
    while_running fuel (suc n) s st =
        if s.running == 1
        then (run_entries fuel s.entries s.registered_funcs st >>= λ st'.
            while_running fuel n s st')
        else ok st

    pub run : ℕ → ℕ → Scheduler F → S → Run S
    run fuel n s st = while_running fuel n (record s { running = 1 }) st
