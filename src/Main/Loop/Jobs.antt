-- ===== src/Main/Loop/Jobs.antt =====
-- The jobs that the workers execute between the calls of the scheduler, and a call behind them.
use pi_vision.Base.{
  ℕ, zero, suc, ◌+◌, ◌^◌, ◌≤◌, ◌<◌, ◌≡◌, refl, Bool, [], arith, ok, Halts, Halts-bind_eq,
  Halts-mono, Ends→Halts, Ends, Ends-mono, Ends-bind, sym, subst,
}
use pi_vision.Sockets.{Sockets}
use pi_vision.Client.Contents.{Gives}
use pi_vision.ImageNormalizerAlgo.{image_filter_high}
use pi_vision.ImageNormalizerAlgo.Grayscale.{IsByte}
use pi_vision.AlgoCtrl.{ThreadPool, run_job}
use pi_vision.AlgoCtrl.Jobs.{OneJob, normal_job, finished}
use pi_vision.AlgoCtrl.Ends as AlgoEnds
use pi_vision.Main.{RunFunc}
use pi_vision.Main.Loop.{Running, call_run, finish_oldest, work, call}
use pi_vision.Main.Loop.Sound.{
  after, Needs, IsSound, CallHazard, CallStuck, JobHazard, Hazard, Stuck,
}
use pi_vision.Main.Loop.Calls.{call_run-Halts}

module _ (os : Sockets) (threads : ThreadPool) (fuel pixels : ℕ)
    (enough : image_filter_high < pixels) (few : pixels < 2 ^ 24) where
  open os use {World}
  open threads use {Pool}

  -- What holds when no job is left.
  abbrev Idle : Bool → Running Pool World → Type 0
  Idle b x = IsSound os threads pixels b x × (threads.unfinished x.statics.thread_context ≡ [])

  finish_oldest-Ends :
      (b : Bool) (x : Running Pool World)
      → IsSound os threads pixels b x
      → Ends
          (Idle b)
          (JobHazard os threads pixels x)
          (finish_oldest os threads fuel pixels (threads.unfinished x.statics.thread_context) x)
  unfolding finish_oldest
  finish_oldest-Ends b x h = go h.algorithms.one
    where
      pool : Pool
      pool = x.statics.thread_context

      H : Type 0
      H = JobHazard os threads pixels x

      go :
          OneJob threads x.statics.algo_ctrl pool
          → Ends (Idle b) H (finish_oldest os threads fuel pixels (threads.unfinished pool) x)
      go (OneJob.busy r i e u) =
          subst (λ js. Ends (Idle b) H (finish_oldest os threads fuel pixels js x)) (sym u)
            (Ends-bind
              (λ (a, algos). AlgoEnds.IsSound threads pixels a algos (threads.finish_job pool)) H
              (Idle b) (run_job pixels normal_job x.statics.algo_ctrl x.algorithms) _
              (Ends-mono
                (λ (a, algos). AlgoEnds.IsSound threads pixels a algos (threads.finish_job pool))
                (λ (a, algos). AlgoEnds.IsSound threads pixels a algos (threads.finish_job pool)) _
                H _ (λ a k. k) (λ degenerate. (u, degenerate))
                (AlgoEnds.run_job-IsSound threads pixels x.statics.algo_ctrl x.algorithms pool
                  enough few i e u h.algorithms))
              λ (a, algos) sound. (assumption, finished threads pool u))
      go (OneJob.idle r e u) =
          subst (λ js. Ends (Idle b) H (finish_oldest os threads fuel pixels js x)) (sym u) (h, u)

  -- Without a job the workers do nothing.
  work_idle :
      (n : ℕ) (x : Running Pool World)
      → threads.unfinished x.statics.thread_context ≡ []
      → work os threads fuel pixels n x ≡ ok x
  unfolding work finish_oldest
  work_idle zero x u = refl
  work_idle (suc n) x u = rw u (work_idle n x u)

  -- However many jobs the workers execute, they end, unless the waiting one is a hazard.
  work-Ends :
      (n : ℕ) (b : Bool) (x : Running Pool World)
      → IsSound os threads pixels b x
      → Ends
          (IsSound os threads pixels b)
          ((0 < n) × JobHazard os threads pixels x)
          (work os threads fuel pixels n x)
  unfolding work
  work-Ends zero b x h = h
  work-Ends (suc n) b x h =
      let F = (0 < suc n) × JobHazard os threads pixels x in
      Ends-bind (Idle b) F (IsSound os threads pixels b)
        (finish_oldest os threads fuel pixels (threads.unfinished x.statics.thread_context) x) _
        (Ends-mono (Idle b) (Idle b) (JobHazard os threads pixels x) F _ (λ a k. k)
          (λ j. (omega arith, j)) (finish_oldest-Ends b x h))
        λ x' (sound, u). rw (work_idle n x' u) sound

  module _ (gives : Gives os IsByte) (fueled : pixels + 8 ≤ fuel) (jobs : ℕ → ℕ) where
    -- A call behind the jobs that the workers execute before it.
    pub call-Halts :
        (f : RunFunc) (b : Bool) (x : Running Pool World)
        → Needs f b
        → IsSound os threads pixels b x
        → Halts
            (IsSound os threads pixels (after f b))
            (Hazard os threads pixels fuel jobs f x)
            (Stuck os threads pixels fuel jobs f x)
            (call os threads fuel pixels jobs f x)
    unfolding call
    call-Halts f b x need h =
        let x1 = record x { turn = suc x.turn } in
        let h1 : IsSound os threads pixels b x1 = assumption in
        let Sound = IsSound os threads pixels (after f b) in
        let H = Hazard os threads pixels fuel jobs f x in
        let S = Stuck os threads pixels fuel jobs f x in
        Halts-bind_eq (IsSound os threads pixels b)
          ((0 < jobs x.turn) × JobHazard os threads pixels x1) ⊥ Sound H S
          (work os threads fuel pixels (jobs x.turn) x1) (call_run os threads fuel pixels f)
          (Ends→Halts (IsSound os threads pixels b)
            ((0 < jobs x.turn) × JobHazard os threads pixels x1) ⊥ _
            (work-Ends (jobs x.turn) b x1 h1))
          (λ x' h' e.
            Halts-mono Sound Sound (CallHazard os threads pixels f x') H
              (CallStuck os threads pixels f x') S _ (λ a k. k) (λ c. Hazard.in_call e c)
              (λ c. Stuck.in_call e c)
              (call_run-Halts os threads fuel pixels gives enough few fueled f b x' need h'))
          (λ (some_jobs, j). Hazard.in_job some_jobs j) (λ none. absurd none)
