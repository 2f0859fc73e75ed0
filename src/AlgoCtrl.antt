-- ===== src/AlgoCtrl.antt =====
-- C/src/PiVisAlgoCtrl.c and C/inc/PiVisAlgoCtrl.h: frames are handed to an algorithm that a worker
-- of the thread pool executes, and its image to the image service. The end of
-- `IMGNORMALGO_exec` and `IMGDIFFALGO_exec`, which write to the algorithm's context, stands here.
pub mod Ends
pub mod Pipeline
pub mod Jobs
pub mod Frame
mod Tests
use pi_vision.Base.{
  ℕ, ◌*◌, ◌≡◌, List, [], ◌∷◌, ◌++◌, drop, ◌==◌, if◌then◌else◌, Run, ok, fault, ◌>>=◌,
}
use pi_vision.Chain.{Ptr}
use pi_vision.Sockets.{Sockets}
use pi_vision.Server.{Server}
use pi_vision.ImageDataTl.{ImageDataTl, send_grayscale_image}
use pi_vision.ImageDiffAlgo
use pi_vision.ImageDiffAlgo.{ImageDiffAlgo}
use pi_vision.ImageNormalizerAlgo
use pi_vision.ImageNormalizerAlgo.{ImageNormalizerAlgo}
use pi_vision.ImageProvider.{ImageProvider, get_pixel_data}

pub data PiVisAlgoState : Type 0 where
  algo_init algo_running algo_complete : PiVisAlgoState

-- IMGNORMALGO_exec, IMGDIFFALGO_exec
pub data AlgoExecFunc : Type 0 where
  normal_exec diff_exec : AlgoExecFunc

-- What the pointers of a context may point at: NULL, and the static arrays of that name.
pub data Array : Type 0 where
  null_array rec_array normalized_array to_send_array : Array

pub record PiVisAlgoContext : Type 0 where
  pub state : PiVisAlgoState
  pub input_data : Array
  pub output_data : Array
  pub output_data_size : ℕ
  pub exec : AlgoExecFunc

-- `algoControlContext`, whose array has two elements, and `recBuffer`.
pub record AlgoCtrl : Type 0 where
  pub algorithm0 : PiVisAlgoContext
  pub algorithm1 : PiVisAlgoContext
  pub rec_buffer : List ℕ

-- The statics of the two algorithms.
pub record Algorithms : Type 0 where
  pub normalizer : ImageNormalizerAlgo
  pub diff : ImageDiffAlgo

-- What `sched_job` is given: a function, and the context it is called with, by its index.
pub record Job : Type 0 where
  pub thread_func : AlgoExecFunc
  pub args : ℕ

-- The thread pool: a job that is scheduled is unfinished until a worker has executed it.
pub record ThreadPool : Type 1 where
  pub Pool : Type 0
  pub init_thread_pool : ℕ → Pool
  pub sched_job : Job → Pool → Pool
  -- A worker has executed the oldest job.
  pub finish_job : Pool → Pool
  pub unfinished : Pool → List Job
  pub unfinished-init : (n : ℕ) → unfinished (init_thread_pool n) ≡ []
  pub unfinished-sched_job :
      (j : Job) (p : Pool) → unfinished (sched_job j p) ≡ unfinished p ++ (j ∷ [])
  pub unfinished-finish_job : (p : Pool) → unfinished (finish_job p) ≡ drop 1 (unfinished p)

-- The array behind a pointer.
abbrev pub contents : AlgoCtrl → Algorithms → Array → Run (List ℕ)
contents a algos null_array = fault
contents a algos rec_array = ok a.rec_buffer
contents a algos normalized_array = ok algos.normalizer.normalized_image
contents a algos to_send_array = ok algos.diff.image_to_send

-- The function of a job, on a context with images of so many pixels.
unfoldable pub exec_on :
    ℕ
    → AlgoExecFunc
    → PiVisAlgoContext
    → AlgoCtrl
    → Algorithms
    → Run (PiVisAlgoContext × Algorithms)
exec_on pixels normal_exec c a algos = contents a algos c.input_data >>= λ input.
    ImageNormalizerAlgo.exec pixels input algos.normalizer >>= λ normalizer. ok (
      record c { output_data = normalized_array; output_data_size = pixels; state = algo_complete },
      record algos { normalizer = normalizer },
    )
exec_on pixels diff_exec c a algos = contents a algos c.input_data >>= λ input. ok (
  record c { output_data = to_send_array; output_data_size = pixels; state = algo_complete },
  record algos { diff = ImageDiffAlgo.exec input algos.diff },
)

-- A worker's execution of a job.
unfoldable pub run_job : ℕ → Job → AlgoCtrl → Algorithms → Run (AlgoCtrl × Algorithms)
run_job pixels j a algos =
    if j.args == 0
    then (exec_on pixels j.thread_func a.algorithm0 a algos >>= λ (c, algos').
        ok (record a { algorithm0 = c }, algos'))
    else (exec_on pixels j.thread_func a.algorithm1 a algos >>= λ (c, algos').
        ok (record a { algorithm1 = c }, algos'))

-- if(ALGO_COMPLETE == algorithms[0].state)
unfoldable pub send_output :
    (os : Sockets)
    → Ptr
    → ℕ
    → PiVisAlgoState
    → AlgoCtrl
    → Algorithms
    → ImageDataTl
    → Server
    → os.World
    → Run (ImageDataTl × os.World)
send_output os context fuel algo_complete a algos t s w =
    contents a algos a.algorithm0.output_data >>= λ buf.
    send_grayscale_image os context fuel buf a.algorithm0.output_data_size t s w
send_output os context fuel algo_running a algos t s w = ok (t, w)
send_output os context fuel algo_init a algos t s w = ok (t, w)

module _ (threads : ThreadPool) where
  open threads use {Pool}

  abbrev pub start_job : AlgoCtrl → Pool → AlgoCtrl × Pool
  start_job a pool = (
    record a { algorithm0 = record a.algorithm0 { state = algo_running; input_data = rec_array } },
    threads.sched_job (record { thread_func = a.algorithm0.exec; args = 0 }) pool,
  )

  -- if(ALGO_RUNNING != algorithms[0].state) … else …
  unfoldable pub take_frame : PiVisAlgoState → AlgoCtrl → Pool → AlgoCtrl × Pool
  take_frame algo_init a pool = start_job a pool
  take_frame algo_running a pool = (a, pool)
  take_frame algo_complete a pool = start_job a pool

  -- The frame of the image provider, and what becomes of it if it is whole.
  unfoldable pub receive_frame : ℕ → ImageProvider → AlgoCtrl → Pool → Run (AlgoCtrl × Pool)
  receive_frame pixels provider a pool =
      get_pixel_data a.rec_buffer (pixels * 3) provider >>= λ (rec_buffer, n).
      (let a' = record a { rec_buffer = rec_buffer } in
        ok (if n == pixels * 3 then take_frame a'.algorithm0.state a' pool else (a', pool)))

  -- `context` is the address of the server context of the image service.
  unfoldable pub run :
      (os : Sockets)
      → Ptr
      → ℕ
      → ℕ
      → AlgoCtrl
      → Algorithms
      → ImageProvider
      → Pool
      → ImageDataTl
      → Server
      → os.World
      → Run ((AlgoCtrl × Pool) × (ImageDataTl × os.World))
  run os context fuel pixels a algos provider pool t s w =
      send_output os context fuel a.algorithm0.state a algos t s w >>= λ sent.
      receive_frame pixels provider a pool >>= λ received. ok (received, sent)

  unfoldable pub init : AlgoCtrl → AlgoCtrl × Pool
  init a = (
    record a {
      algorithm0 = record a.algorithm0 { state = algo_init; exec = normal_exec };
      algorithm1 = record a.algorithm1 { state = algo_init; exec = diff_exec };
    },
    threads.init_thread_pool 2,
  )
