-- ===== src/AlgoCtrl/Frame.antt =====
-- What one call of `run` does with a frame of the image provider.
use pi_vision.Base.{
  ℕ, ◌*◌, ◌<◌, ◌^◌, ◌≡◌, refl, true, arith, ◌==◌, if◌then◌else◌, length, Run, ok, exit, fault,
  out_of_fuel, Returns, Returns-bind, subst, sym, ap, eq→==,
}
use pi_vision.Chain.{Ptr}
use pi_vision.Sockets.{Sockets}
use pi_vision.Server.{Server}
use pi_vision.ImageDataTl.{ImageDataTl}
use pi_vision.ImageProvider.{ImageProvider, get_pixel_data}
use pi_vision.ImageProvider.Copy.{IsReady, get_pixel_data_lem}
use pi_vision.AlgoCtrl.{
  AlgoCtrl, Algorithms, PiVisAlgoState, algo_init, algo_running, rec_array, ThreadPool, send_output,
  take_frame, receive_frame, run,
}

Returns-eq : {A : Type 0} (x : A) (r : Run A) → Returns (λ a. a ≡ x) r → r ≡ ok x
Returns-eq x (ok a) h = ap ok h
Returns-eq x (exit n) h = absurd h
Returns-eq x fault h = absurd h
Returns-eq x out_of_fuel h = absurd h

module _ (threads : ThreadPool) (os : Sockets) (context : Ptr) (fuel pixels : ℕ) (a : AlgoCtrl)
    (algos : Algorithms) (provider : ImageProvider) (pool : threads.Pool) (t : ImageDataTl)
    (s : Server) (w : os.World) (some_pixels : 0 < pixels) (few : pixels * 3 < 2 ^ 31)
    (room : length a.rec_buffer ≡ pixels * 3) (ready : IsReady (pixels * 3) provider)
    (frame : provider.rec_buffer_size ≡ pixels * 3) where
  open threads use {Pool}

  -- The frame stands in `recBuffer`, and is handed on by the state of the algorithm.
  receive_frame_lem :
      Returns
        (λ r.
          r
          ≡ take_frame threads a.algorithm0.state
              (record a { rec_buffer = provider.rec_buffer })
              pool)
        (receive_frame threads pixels provider a pool)
  unfolding receive_frame
  receive_frame_lem =
      Returns-bind
        (λ (buf', n).
          (n ≡ provider.rec_buffer_size)
          × (buf' ≡ (if provider.rec_buffer_size == 0 then a.rec_buffer else provider.rec_buffer)))
        _ (get_pixel_data a.rec_buffer (pixels * 3) provider) _
        (get_pixel_data_lem (pixels * 3) few a.rec_buffer provider room ready)
        (λ (buf, n) (en, eb).
          let whole : (n == pixels * 3) ≡ true = eq→== n (pixels * 3) (omega arith) in
          let eb' : buf ≡ provider.rec_buffer = ground arith in rw (whole, eb') refl)

  run_in :
      (st : PiVisAlgoState)
      → a.algorithm0.state ≡ st
      → send_output os context fuel st a algos t s w ≡ ok (t, w)
      → run threads os context fuel pixels a algos provider pool t s w
        ≡ ok (take_frame threads st (record a { rec_buffer = provider.rec_buffer }) pool, (t, w))
  unfolding run
  run_in st e quiet =
      let quiet' : send_output os context fuel a.algorithm0.state a algos t s w ≡ ok (t, w) =
        subst (λ st'. send_output os context fuel st' a algos t s w ≡ ok (t, w)) (sym e) quiet in
      rw (quiet', Returns-eq _ (receive_frame threads pixels provider a pool) receive_frame_lem)
        (ap
          (λ st'.
            ok
              (take_frame threads st' (record a { rec_buffer = provider.rec_buffer }) pool, (t, w)))
          e)

  -- A whole frame that comes before the first job is copied to `recBuffer`, the algorithm is marked
  -- as running on it, and its job is scheduled; nothing is sent. Frames have at least one pixel and
  -- less than 2 ^ 31 bytes.
  pub run_starts :
      a.algorithm0.state ≡ algo_init
      → run threads os context fuel pixels a algos provider pool t s w
        ≡ ok (
          (
            record a {
              rec_buffer = provider.rec_buffer;
              algorithm0 = record a.algorithm0 { state = algo_running; input_data = rec_array };
            },
            threads.sched_job (record { thread_func = a.algorithm0.exec; args = 0 }) pool,
          ),
          (t, w),
        )
  unfolding take_frame send_output
  run_starts e = run_in algo_init e refl

  -- A whole frame that comes while the algorithm is marked as running schedules no job, but takes
  -- the place of the frame in `recBuffer`. Frames have at least one pixel and less than 2 ^ 31
  -- bytes.
  pub run_drops :
      a.algorithm0.state ≡ algo_running
      → run threads os context fuel pixels a algos provider pool t s w
        ≡ ok ((record a { rec_buffer = provider.rec_buffer }, pool), (t, w))
  unfolding take_frame send_output
  run_drops e = run_in algo_running e refl
