-- ===== src/Diag/Ends.antt =====
-- How a call of the diagnosis service's run function ends.
use pi_vision.Base.{
  ℕ, ◌≤◌, ◌<◌, ◌≡◌, ◌≢◌, inl, inr, some, arith, ◌==◌, length, ok, Halts, Halts-bind, Halts-mono,
  Returns→Halts, ◌>>=◌, Bool-cases,
}
use native.Mathlib.Decide.{dec_lt}
use pi_vision.Chain.{Ptr, null}
use pi_vision.Chain.Seg
use pi_vision.Decimal.{length-decimal_pos, length-decimal-le, c_string}
use pi_vision.Sockets.{Sockets}
use pi_vision.Server
use pi_vision.Server.{Server, ServerContext, context_link}
use pi_vision.Server.Send.{Refused, send-Halts}
use pi_vision.Diag.{print_report, run}
use pi_vision.Diag.Report.{print_report_lem, print_report-ok}

module _ (os : Sockets) (p : Ptr) (c : ServerContext) (s : Server) (ne : p ≢ null)
    (at : s.contexts p ≡ some c) where
  open os use {World}

  -- With fuel for seven, the diagnosis service, which exists, ends a call of its run function, unless
  -- a client is there and 10000 or more frames have been dropped: only then may it write behind its
  -- buffer; or unless its client's socket refuses to take any byte.
  pub run-Halts :
      (fuel n : ℕ) (w : World)
      → 7 ≤ fuel
      → Halts
          (λ w'. Unit {0})
          ((c.connected ≢ 0) × (10000 ≤ n))
          (Refused os p s w)
          (run os fuel p n s w)
  unfolding run
  run-Halts fuel n w enough =
      rw (Seg.load-ok context_link s.contexts p c ne at) (elim (Bool-cases (c.connected == 0)) [
        | inl off ↦ rw off tt
        | inr on ↦ rw on (told (ground arith) (dec_lt n 10000))
      ])
    where
      F : Type 0
      F = (c.connected ≢ 0) × (10000 ≤ n)

      told :
          c.connected ≢ 0
          → Dec (n < 10000)
          → Halts
              (λ w'. Unit {0})
              F
              (Refused os p s w)
              (print_report n >>= λ to_send.
                Server.send os fuel p to_send (length (c_string to_send)) s w >>= λ (_, w'). ok w')
      told on (yes small) =
          Halts-bind _ F (Refused os p s w) (λ w'. Unit {0}) (print_report n) _
            (Returns→Halts _ F (Refused os p s w) (print_report n) (print_report-ok n small))
            λ to_send (seven, sent).
              Halts-bind (λ r. Unit {0}) F (Refused os p s w) (λ w'. Unit {0}) _ _
                (Halts-mono (λ r. Unit {0}) (λ r. Unit {0}) ⊥ F (Refused os p s w)
                  (Refused os p s w) _ (λ a h. h) (λ h. absurd h) (λ h. h)
                  (send-Halts os p c s ne at fuel (length (c_string to_send)) to_send w
                    (omega (arith, length-decimal_pos n))
                    (omega (arith, length-decimal-le 3 n (omega arith) (omega arith)))
                    (omega (arith, length-decimal-le 3 n (omega arith) (omega arith)))))
                λ r h. tt
      told on (no large) = rw ((print_report_lem n).1 (omega arith)) (on, omega arith)
