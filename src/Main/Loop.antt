-- ===== src/Main/Loop.antt =====
-- `SCHED_run();` of C/src/main.c: what the calls `toExecute->run()` of C/src/PiVisScheduler.c do to
-- the statics of all modules, and the jobs that the workers execute between them.
pub mod Sound
pub mod Calls
pub mod Jobs
pub mod Safe
pub mod Start
use pi_vision.Base.{ℕ, zero, suc, ◌*◌, List, [], ◌∷◌, Run, ok, ◌>>=◌}
use pi_vision.Sockets.{Sockets}
use pi_vision.Scheduler as Scheduler
use pi_vision.Server as Server
use pi_vision.Client as Client
use pi_vision.ImageProvider as ImageProvider
use pi_vision.ImageDataTl as ImageDataTl
use pi_vision.ImageDataTl.{get_num_dropped_frames}
use pi_vision.AlgoCtrl.{Algorithms, Job, ThreadPool, run_job}
use pi_vision.AlgoCtrl as AlgoCtrl
use pi_vision.Diag as Diag
use pi_vision.Control as Control
use pi_vision.Main.{
  RunFunc, client_run, server_run, algo_ctrl_run, diag_run, image_provider_run, control_run,
  image_data_tl_run, diag_context, control_context, image_context, PiVision, main,
}

-- The statics, and how many calls have been made.
pub record Running (P W : Type 0) : Type 0 where
  pub statics : PiVision P
  pub algorithms : Algorithms
  pub command_buf : List ℕ
  pub world : W
  pub turn : ℕ

-- `fuel` bounds the walks over the services and the calls of `send`; images have so many pixels.
module _ (os : Sockets) (threads : ThreadPool) (fuel pixels : ℕ) where
  open os use {World}
  open threads use {Pool}

  -- toExecute->run();
  unfoldable pub call_run : RunFunc → Running Pool World → Run (Running Pool World)
  call_run client_run x = Client.run os (pixels * 3) x.statics.client x.world >>= λ (c, w).
      ok (record x { statics = record x.statics { client = c }; world = w })
  call_run server_run x = Server.run os fuel x.statics.server x.world >>= λ (s, w).
      ok (record x { statics = record x.statics { server = s }; world = w })
  call_run algo_ctrl_run x =
      AlgoCtrl.run threads os image_context fuel pixels x.statics.algo_ctrl x.algorithms
        x.statics.image_provider x.statics.thread_context x.statics.image_data_tl x.statics.server
        x.world
      >>= λ ((a, pool), (t, w)). ok (record x {
        statics = record x.statics { algo_ctrl = a; thread_context = pool; image_data_tl = t };
        world = w;
      })
  call_run diag_run x =
      Diag.run os fuel diag_context (get_num_dropped_frames x.statics.image_data_tl)
        x.statics.server x.world
      >>= λ w. ok (record x { world = w })
  call_run image_provider_run x =
      ImageProvider.run (pixels * 3) x.statics.image_provider x.statics.client >>= λ (p, c).
      ok (record x { statics = record x.statics { image_provider = p; client = c } })
  call_run control_run x =
      Control.run os control_context x.command_buf x.statics.server x.world >>= λ (buf, w).
      ok (record x { command_buf = buf; world = w })
  call_run image_data_tl_run x =
      ImageDataTl.run os image_context x.statics.image_data_tl x.statics.server x.world
      >>= λ (t, w). ok (record x { statics = record x.statics { image_data_tl = t }; world = w })

  -- A worker executes the oldest job, if there is one.
  unfoldable pub finish_oldest : List Job → Running Pool World → Run (Running Pool World)
  finish_oldest [] x = ok x
  finish_oldest (j ∷ js) x = run_job pixels j x.statics.algo_ctrl x.algorithms >>= λ (a, algos).
      ok (record x {
        statics = record x.statics {
          algo_ctrl = a;
          thread_context = threads.finish_job x.statics.thread_context;
        };
        algorithms = algos;
      })

  -- The workers execute so many jobs, as far as there are any.
  pub work : ℕ → Running Pool World → Run (Running Pool World)
  work zero x = ok x
  work (suc n) x = finish_oldest (threads.unfinished x.statics.thread_context) x >>= λ x'. work n x'

  -- A call, behind the jobs that the workers execute before it; `jobs` says how many at each turn.
  unfoldable pub call : (jobs : ℕ → ℕ) → RunFunc → Running Pool World → Run (Running Pool World)
  call jobs f x = work (jobs x.turn) (record x { turn = suc x.turn }) >>= λ x'. call_run f x'

  -- main() of C/src/main.c, whose loop has fuel for `n` rounds.
  unfoldable pub main_loop :
      (jobs : ℕ → ℕ) → ℕ → PiVision Pool → Algorithms → List ℕ → World → Run (Running Pool World)
  main_loop jobs n p algos command_buf w = main os threads fuel p w >>= λ (p', w').
      Scheduler.run (call jobs) fuel n p'.scheduler (record {
        statics = p';
        algorithms = algos;
        command_buf = command_buf;
        world = w';
        turn = 0;
      })
