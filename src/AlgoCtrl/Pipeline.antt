-- ===== src/AlgoCtrl/Pipeline.antt =====
-- The way of a frame: from the job that works on it to the client of the image service.
use pi_vision.Base.{
  ℕ, suc, ◌+◌, ◌*◌, ◌<◌, ◌^◌, ◌≡◌, ◌≢◌, refl, some, List, ◌++◌, arith, length, length-append, ◌∙◌,
  Run, ok, exit, fault, out_of_fuel, pos, Returns, Returns-bind, Returns→Ends, Ends, Ends-bind,
  Ends-Keeps, Keeps, Keeps-bind_if, ◌>>=◌, ap, sym, subst, All,
}
use pi_vision.Chain.{Ptr, null}
use pi_vision.Sockets.{Sockets}
use pi_vision.Server.{Server, ServerContext}
use pi_vision.ImageDataTl.{ImageDataTl, send_data, wait_for_ack, le32, send_grayscale_image}
use mathlib.Core.Path.{subst₂}
use pi_vision.ImageDataTl.Frame.{length-le32, send_grayscale_image_sent}
use pi_vision.ImageNormalizerAlgo as ImageNormalizerAlgo
use pi_vision.ImageNormalizerAlgo.{ImageNormalizerAlgo, image_filter_high}
use pi_vision.ImageNormalizerAlgo.Grayscale.{IsByte, means}
use pi_vision.ImageNormalizerAlgo.Result.{IsReset, IsImage, Degenerate, exec-Ends}
use pi_vision.ImageProvider.{ImageProvider}
use pi_vision.ImageProvider.Copy.{IsReady}
use pi_vision.AlgoCtrl.{
  AlgoCtrl, Algorithms, PiVisAlgoContext, algo_running, algo_complete, rec_array, normalized_array,
  normal_exec, ThreadPool, contents, exec_on, run_job, send_output, receive_frame, run,
}
use pi_vision.AlgoCtrl.Jobs.{OneJob, normal_job}
use pi_vision.AlgoCtrl.Ends.{IsSound, receive_frame-IsSound, run_job-IsSound}

-- The value of a run is the one it gives.
Keeps-value : {A : Type 0} (r : Run A) → Keeps (λ x. r ≡ ok x) r
Keeps-value (ok x) = refl
Keeps-value (exit n) = tt
Keeps-value fault = tt
Keeps-value out_of_fuel = tt

-- The control behind the job.
abbrev pub complete : ℕ → AlgoCtrl → AlgoCtrl
complete pixels a = record a {
  algorithm0 = record a.algorithm0 {
    output_data = normalized_array;
    output_data_size = pixels;
    state = algo_complete;
  };
}

-- What the job leaves.
abbrev Done : ℕ → AlgoCtrl → Algorithms → AlgoCtrl × Algorithms → Type 0
Done pixels a algos (a', algos') =
    (n : ImageNormalizerAlgo) × (ImageNormalizerAlgo.exec pixels a.rec_buffer algos.normalizer
      ≡ ok n)
    × (a' ≡ complete pixels a)
    × (algos' ≡ record algos { normalizer = n })

run_job-Done :
    (pixels : ℕ) (a : AlgoCtrl) (algos : Algorithms)
    → a.algorithm0.input_data ≡ rec_array
    → Keeps (Done pixels a algos) (run_job pixels normal_job a algos)
unfolding run_job exec_on
run_job-Done pixels a algos i =
    let Context : PiVisAlgoContext × Algorithms → Type 0 =
      λ (c, algos'). Done pixels a algos (record a { algorithm0 = c }, algos') in
    let input_lem : Keeps (λ input. input ≡ a.rec_buffer)
        (contents a algos a.algorithm0.input_data) =
      subst (λ r. Keeps (λ input. input ≡ a.rec_buffer) r) (sym (ap (contents a algos) i)) refl in
    Keeps-bind_if Context (Done pixels a algos) (exec_on pixels normal_exec a.algorithm0 a algos) _
      (Keeps-bind_if (λ input. input ≡ a.rec_buffer) Context
        (contents a algos a.algorithm0.input_data) _ input_lem
        λ input e.
          Keeps-bind_if (λ n. ImageNormalizerAlgo.exec pixels a.rec_buffer algos.normalizer ≡ ok n)
            Context (ImageNormalizerAlgo.exec pixels input algos.normalizer) _
            (rw e (Keeps-value (ImageNormalizerAlgo.exec pixels a.rec_buffer algos.normalizer)))
            λ n gives. (n, gives, refl, refl))
      (λ r done. done)

module _ (threads : ThreadPool) (os : Sockets) (p : Ptr) (s : Server) (k pixels : ℕ) where
  open os use {World}
  open threads use {Pool}

  -- The job of a frame, and the next call of `run`, with what the image provider then has.
  abbrev pub frame_out :
      AlgoCtrl
      → Algorithms
      → Pool
      → ImageProvider
      → ImageDataTl
      → World
      → Run ((AlgoCtrl × Pool) × (ImageDataTl × World))
  frame_out a algos pool provider t w = run_job pixels normal_job a algos >>= λ (a1, algos1).
      run threads os p (suc (suc k)) pixels a1 algos1 provider (threads.finish_job pool) t s w

module _ (threads : ThreadPool) (os : Sockets) (c : ServerContext) (pixels : ℕ) where
  open os use {World}
  open threads use {Pool}

  -- The image of the frame has been sent behind its size, and the control is ready for what comes.
  abbrev pub Sent :
      AlgoCtrl
      → Algorithms
      → ImageDataTl
      → World
      → (AlgoCtrl × Pool) × (ImageDataTl × World)
      → Type 0
  Sent a algos t w ((a', pool'), (t', w')) =
      (n : ImageNormalizerAlgo) × (ImageNormalizerAlgo.exec pixels a.rec_buffer algos.normalizer
        ≡ ok n)
      × IsImage pixels n
      × (t' ≡ record t { state = wait_for_ack })
      × (os.stream c.client_socket w'
          ≡ os.stream c.client_socket w ++ (le32 pixels ++ n.normalized_image))
      × IsSound threads pixels a' (record algos { normalizer = n }) pool'

module _ (threads : ThreadPool) (os : Sockets) (p : Ptr) (c : ServerContext) (s : Server)
    (ne : p ≢ null) (at : s.contexts p ≡ some c) (on : c.connected ≢ 0) (k pixels : ℕ)
    (enough : image_filter_high < pixels) (few : pixels < 2 ^ 24) where
  open os use {World}
  open threads use {Pool}

  module _ (a : AlgoCtrl) (algos : Algorithms) (pool : Pool) (provider : ImageProvider)
      (t : ImageDataTl) (w : World) (sound : IsSound threads pixels a algos pool)
      (running : a.algorithm0.state ≡ algo_running) (ready : IsReady (pixels * 3) provider)
      (bytes : All IsByte provider.rec_buffer) (free : t.state ≡ send_data)
      (takes : (buf : List ℕ) → (os.send c.client_socket buf w).0 ≡ pos (length buf)) where
    abbrev F : Type 0
    F = Degenerate pixels (record algos.normalizer { grayscale_image = means a.rec_buffer })

    exec-IsImage :
        (n : ImageNormalizerAlgo)
        → ImageNormalizerAlgo.exec pixels a.rec_buffer algos.normalizer ≡ ok n
        → IsImage pixels n
    exec-IsImage n gives =
        (subst (λ r. Ends (λ b. IsImage pixels b × IsReset b) F r) gives
          (exec-Ends pixels a.rec_buffer algos.normalizer sound.reset sound.room sound.bytes enough
            few)).0

    run-Sent :
        (n : ImageNormalizerAlgo)
        → ImageNormalizerAlgo.exec pixels a.rec_buffer algos.normalizer ≡ ok n
        → IsSound threads pixels
            (complete pixels a)
            (record algos { normalizer = n })
            (threads.finish_job pool)
        → Returns (Sent threads os c pixels a algos t w) (
            run threads os p
              (suc (suc k))
              pixels
              (complete pixels a)
              (record algos { normalizer = n })
              provider
              (threads.finish_job pool)
              t
              s
              w)
    unfolding run send_output
    run-Sent n gives h =
        let image = exec-IsImage n gives in
        let a1 = complete pixels a in
        let algos1 : Algorithms = record algos { normalizer = n } in
        let img = n.normalized_image in
        let len : length (le32 (length img) ++ img) ≡ 4 + length img =
          omega (arith, length-append (le32 (length img)) img, length-le32 (length img)) in
        let fits : length img + 4 < 2 ^ 32 = omega (arith, image.size, few) in
        let Out : ℕ → ImageDataTl × World → Type 0 = λ m (t', w').
          (t' ≡ record t { state = wait_for_ack })
          × (os.stream c.client_socket w' ≡ os.stream c.client_socket w ++ (le32 m ++ img)) in
        Returns-bind (Out pixels) (Sent threads os c pixels a algos t w)
          (send_grayscale_image os p (suc (suc k)) img pixels t s w) _
          (subst (λ m. Returns (Out m) (send_grayscale_image os p (suc (suc k)) img m t s w))
            image.size
            (send_grayscale_image_sent os p k img t c s w ne at on free fits
              (takes (le32 (length img) ++ img) ∙ ap pos len)))
          λ (t', w') (et, written).
            Returns-bind (λ (a', pool'). IsSound threads pixels a' algos1 pool')
              (Sent threads os c pixels a algos t w)
              (receive_frame threads pixels provider a1 (threads.finish_job pool)) _
              (receive_frame-IsSound threads pixels provider a1 algos1 (threads.finish_job pool)
                (omega (arith, few)) ready bytes h)
              λ (a', pool') h'. (n, gives, image, et, written, h')

    -- When the job on a frame has ended and `run` is called next, the normalized image of that very
    -- frame has been sent to the client of the image service behind its size, and the service waits
    -- for its acknowledgement; the state is sound again, whatever the image provider has by then. The
    -- job may instead divide by zero, for one of the two reasons of the normalizer. The state must be
    -- sound, and marked as running, images have more than 240 and fewer than 2^24 pixels, the image
    -- service must not wait for an acknowledgement, and its client must be connected, at a socket that
    -- takes a frame at once.
    pub frame_out-Sent :
        Ends
          (Sent threads os c pixels a algos t w)
          F
          (frame_out threads os p s k pixels a algos pool provider t w)
    frame_out-Sent = go sound.one
      where
        go :
            OneJob threads a pool
            → Ends
                (Sent threads os c pixels a algos t w)
                F
                (frame_out threads os p s k pixels a algos pool provider t w)
        go (OneJob.idle off x u) = absurd (off running)
        go (OneJob.busy r i x u) =
            Ends-bind
              (λ (a1, algos1).
                IsSound threads pixels a1 algos1 (threads.finish_job pool)
                × Done pixels a algos (a1, algos1))
              F (Sent threads os c pixels a algos t w) (run_job pixels normal_job a algos) _
              (Ends-Keeps
                (λ (a1, algos1). IsSound threads pixels a1 algos1 (threads.finish_job pool))
                (Done pixels a algos) F (run_job pixels normal_job a algos)
                (run_job-IsSound threads pixels a algos pool enough few i x u sound)
                (run_job-Done pixels a algos i))
              λ (a1, algos1) (h, (n, gives, ea, eb)).
                rw (ea, eb)
                  (Returns→Ends (Sent threads os c pixels a algos t w) F _ (
                    run-Sent n gives (
                      subst₂ (λ a' al. IsSound threads pixels a' al (threads.finish_job pool)) ea eb
                        h)))
