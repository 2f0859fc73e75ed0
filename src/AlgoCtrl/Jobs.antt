-- ===== src/AlgoCtrl/Jobs.antt =====
-- There is never more than one job, whatever the order in which the scheduler and the workers run.
use pi_vision.Base.{
  ℕ, ◌*◌, ◌≡◌, refl, ◌≢◌, inl, inr, List, [], ◌∷◌, ◌++◌, arith, drop, ◌==◌, ok, Bool-cases, subst,
  ap, sym, ◌∙◌, Keeps, Keeps-bind, Keeps-bind_if,
}
use pi_vision.Chain.{Ptr}
use pi_vision.Sockets.{Sockets}
use pi_vision.Server.{Server}
use pi_vision.ImageDataTl.{ImageDataTl}
use pi_vision.ImageNormalizerAlgo
use pi_vision.ImageProvider.{ImageProvider, get_pixel_data}
use pi_vision.AlgoCtrl.{
  AlgoCtrl, Algorithms, PiVisAlgoState, algo_init, algo_running, algo_complete, normal_exec,
  rec_array, Job, ThreadPool, contents, exec_on, run_job, send_output, take_frame, receive_frame,
  run, init,
}

first : Job → List Job → Job
first j [] = j
first j (k ∷ ks) = k

abbrev pub normal_job : Job
normal_job = record { thread_func = normal_exec; args = 0 }

module _ (threads : ThreadPool) where
  open threads use {Pool}

  -- Either the normalizer runs on `recBuffer` in the only job, or there is no job.
  pub data OneJob (a : AlgoCtrl) (pool : Pool) : Type 0 where
    busy :
        a.algorithm0.state ≡ algo_running
        → a.algorithm0.input_data ≡ rec_array
        → a.algorithm0.exec ≡ normal_exec
        → threads.unfinished pool ≡ normal_job ∷ []
        → OneJob a pool
    idle :
        a.algorithm0.state ≢ algo_running
        → a.algorithm0.exec ≡ normal_exec
        → threads.unfinished pool ≡ []
        → OneJob a pool

  -- The program as far as the algorithms go.
  pub record System : Type 0 where
    pub ctrl : AlgoCtrl
    pub algos : Algorithms
    pub pool : Pool

  -- The scheduler's thread calls `run`, with any frame and any state of the image service; or a
  -- worker executes the oldest job.
  pub data Step (os : Sockets) (pixels : ℕ) (x : System) : System → Type 0 where
    by_run :
        (context : Ptr) (fuel : ℕ) (provider : ImageProvider) (t : ImageDataTl) (s : Server)
        (w : os.World) {a : AlgoCtrl} {pool : Pool} {sent : ImageDataTl × os.World}
        → run threads os context fuel pixels x.ctrl x.algos provider x.pool t s w
          ≡ ok ((a, pool), sent)
        → Step os pixels x (record x { ctrl = a; pool = pool })
    by_worker :
        {j : Job} {js : List Job} {a : AlgoCtrl} {algos : Algorithms}
        → threads.unfinished x.pool ≡ j ∷ js
        → run_job pixels j x.ctrl x.algos ≡ ok (a, algos)
        → Step os pixels x (record { ctrl = a; algos = algos; pool = threads.finish_job x.pool })

  -- The systems that steps lead to from the one that `ALGOCTRL_init` leaves.
  pub data Reachable (os : Sockets) (pixels : ℕ) : System → Type 0 where
    start :
        (a : AlgoCtrl) (algos : Algorithms)
        → Reachable os pixels
            (record { ctrl = (init threads a).0; algos = algos; pool = (init threads a).1 })
    next : {x y : System} → Reachable os pixels x → Step os pixels x y → Reachable os pixels y

  start_job-OneJob :
      (a : AlgoCtrl) (pool : Pool)
      → a.algorithm0.exec ≡ normal_exec
      → threads.unfinished pool ≡ []
      → OneJob
          (record a {
            algorithm0 = record a.algorithm0 { state = algo_running; input_data = rec_array };
          })
          (threads.sched_job (record { thread_func = a.algorithm0.exec; args = 0 }) pool)
  start_job-OneJob a pool e none = OneJob.busy refl refl e (
      threads.unfinished-sched_job (record { thread_func = a.algorithm0.exec; args = 0 }) pool
      ∙ ap (λ js. js ++ (record { thread_func = a.algorithm0.exec; args = 0 } ∷ [])) none
      ∙ ap (λ f. record { thread_func = f; args = 0 } ∷ []) e)

  pub take_frame-OneJob :
      (st : PiVisAlgoState) (a : AlgoCtrl) (pool : Pool)
      → a.algorithm0.state ≡ st
      → OneJob a pool
      → OneJob (take_frame threads st a pool).0 (take_frame threads st a pool).1
  unfolding take_frame
  take_frame-OneJob algo_init a pool e (OneJob.busy r i x u) = absurd (ground arith)
  take_frame-OneJob algo_init a pool e (OneJob.idle r x u) = start_job-OneJob a pool x u
  take_frame-OneJob algo_running a pool e h = h
  take_frame-OneJob algo_complete a pool e (OneJob.busy r i x u) = absurd (ground arith)
  take_frame-OneJob algo_complete a pool e (OneJob.idle r x u) = start_job-OneJob a pool x u

  pub with_buffer :
      (a : AlgoCtrl) (pool : Pool) (buf : List ℕ)
      → OneJob a pool
      → OneJob (record a { rec_buffer = buf }) pool
  with_buffer a pool buf (OneJob.busy r i x u) = OneJob.busy r i x u
  with_buffer a pool buf (OneJob.idle r x u) = OneJob.idle r x u

  receive_frame-OneJob :
      (pixels : ℕ) (provider : ImageProvider) (a : AlgoCtrl) (pool : Pool)
      → OneJob a pool
      → Keeps (λ (a', pool'). OneJob a' pool') (receive_frame threads pixels provider a pool)
  unfolding receive_frame
  receive_frame-OneJob pixels provider a pool h =
      Keeps-bind (λ (a', pool'). OneJob a' pool')
        (get_pixel_data a.rec_buffer (pixels * 3) provider) _
        (λ (buf, n). elim (Bool-cases (n == pixels * 3)) [
          | inl whole ↦ rw whole (
              take_frame-OneJob a.algorithm0.state (record a { rec_buffer = buf }) pool refl
                (with_buffer a pool buf h))
          | inr part ↦ rw part (with_buffer a pool buf h)
        ])

  run-OneJob :
      (os : Sockets) (context : Ptr) (fuel pixels : ℕ) (a : AlgoCtrl) (algos : Algorithms)
      (provider : ImageProvider) (pool : Pool) (t : ImageDataTl) (s : Server) (w : os.World)
      → OneJob a pool
      → Keeps
          (λ ((a', pool'), sent). OneJob a' pool')
          (run threads os context fuel pixels a algos provider pool t s w)
  unfolding run
  run-OneJob os context fuel pixels a algos provider pool t s w h =
      Keeps-bind (λ ((a', pool'), sent). OneJob a' pool')
        (send_output os context fuel a.algorithm0.state a algos t s w) _
        (λ sent.
          Keeps-bind_if (λ (a', pool'). OneJob a' pool') (λ ((a', pool'), sent). OneJob a' pool')
            (receive_frame threads pixels provider a pool) _
            (receive_frame-OneJob pixels provider a pool h) (λ received one. one))

  pub finished :
      (pool : Pool)
      → threads.unfinished pool ≡ normal_job ∷ []
      → threads.unfinished (threads.finish_job pool) ≡ []
  finished pool u = threads.unfinished-finish_job pool ∙ ap (drop 1) u

  run_job-OneJob :
      (pixels : ℕ) (a : AlgoCtrl) (algos : Algorithms) (pool : Pool)
      → a.algorithm0.exec ≡ normal_exec
      → threads.unfinished pool ≡ normal_job ∷ []
      → Keeps
          (λ (a', algos'). OneJob a' (threads.finish_job pool))
          (run_job pixels normal_job a algos)
  unfolding run_job exec_on
  run_job-OneJob pixels a algos pool x u =
      Keeps-bind_if (λ (c, algos'). OneJob (record a { algorithm0 = c }) (threads.finish_job pool))
        (λ (a', algos'). OneJob a' (threads.finish_job pool))
        (exec_on pixels normal_exec a.algorithm0 a algos) _
        (Keeps-bind (λ (c, algos'). OneJob (record a { algorithm0 = c }) (threads.finish_job pool))
          (contents a algos a.algorithm0.input_data) _
          (λ input.
            Keeps-bind
              (λ (c, algos'). OneJob (record a { algorithm0 = c }) (threads.finish_job pool))
              (ImageNormalizerAlgo.exec pixels input algos.normalizer) _
              (λ n. OneJob.idle (λ e. ground arith) x (finished pool u))))
        (λ r one. one)

  worker-OneJob :
      (os : Sockets) (pixels : ℕ) (x : System) {j : Job} {js : List Job} {a : AlgoCtrl}
      {algos : Algorithms}
      → OneJob x.ctrl x.pool
      → threads.unfinished x.pool ≡ j ∷ js
      → run_job pixels j x.ctrl x.algos ≡ ok (a, algos)
      → OneJob a (threads.finish_job x.pool)
  unfolding first
  worker-OneJob os pixels x {j} {js} {a} {algos} (OneJob.busy r i n u) e d =
      let is_normal : normal_job ≡ j = ap (first normal_job) (sym u ∙ e) in
      subst (Keeps (λ (a', algos'). OneJob a' (threads.finish_job x.pool)))
        (ap (λ k. run_job pixels k x.ctrl x.algos) is_normal ∙ d)
        (run_job-OneJob pixels x.ctrl x.algos x.pool n u)
  worker-OneJob os pixels x (OneJob.idle r n u) e d = absurd (ground (arith, sym u ∙ e))

  -- However the calls of `run` and the executions of jobs, each one step, follow each other after
  -- the initialization, there is at most one unfinished job: while the algorithm is marked as
  -- running it is the normalizer's, reading `recBuffer`, and otherwise there is none.
  pub Reachable-OneJob :
      (os : Sockets) (pixels : ℕ) {x : System} → Reachable os pixels x → OneJob x.ctrl x.pool
  unfolding init
  Reachable-OneJob os pixels (Reachable.start a algos) =
      OneJob.idle (λ e. ground arith) refl (threads.unfinished-init 2)
  Reachable-OneJob os pixels (Reachable.next {x} r (Step.by_run context fuel provider t s w e)) =
      subst (Keeps (λ ((a', pool'), sent). OneJob a' pool')) e (
        run-OneJob os context fuel pixels x.ctrl x.algos provider x.pool t s w
          (Reachable-OneJob os pixels r))
  Reachable-OneJob os pixels (Reachable.next {x} r (Step.by_worker u e)) =
      worker-OneJob os pixels x (Reachable-OneJob os pixels r) u e
