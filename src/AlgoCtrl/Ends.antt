-- ===== src/AlgoCtrl/Ends.antt =====
-- How a call of `run` ends, and a job.
use pi_vision.Base.{
  ℕ, ◌+◌, ◌*◌, ◌<◌, ◌^◌, ◌≡◌, refl, ◌≢◌, inl, inr, some, List, [], ◌∷◌, arith, Bool, true, false,
  All, ◌==◌, if◌then◌else◌, length, Halts, Halts-bind, Returns→Halts, Returns, Returns-bind, Ends,
  Ends-bind, ◌>>=◌, Bool-cases, ap, sym, subst, ◌∙◌,
}
use pi_vision.Chain.{Ptr, null}
use pi_vision.Sockets.{Sockets}
use pi_vision.Server.{Server, ServerContext}
use pi_vision.ImageDataTl.{ImageDataTl, send_grayscale_image}
use pi_vision.ImageDataTl.Handshake as Handshake
use pi_vision.Server.Send.{Refused}
use pi_vision.ImageDataTl.Offers.{send_grayscale_image-Halts}
use pi_vision.ImageNormalizerAlgo as ImageNormalizerAlgo
use pi_vision.ImageNormalizerAlgo.{image_filter_high}
use pi_vision.ImageNormalizerAlgo.Grayscale.{IsByte, means}
use pi_vision.ImageNormalizerAlgo.Result.{IsReset, IsImage, Degenerate, exec-Ends}
use pi_vision.ImageProvider.{ImageProvider, get_pixel_data}
use pi_vision.ImageProvider.Copy.{IsReady, get_pixel_data_lem}
use pi_vision.AlgoCtrl.{
  AlgoCtrl, Algorithms, PiVisAlgoContext, PiVisAlgoState, algo_init, algo_running, algo_complete,
  rec_array, normalized_array, normal_exec, ThreadPool, contents, exec_on, run_job, send_output,
  take_frame, receive_frame, run,
}
use pi_vision.AlgoCtrl.Jobs.{OneJob, normal_job, take_frame-OneJob, with_buffer, finished}

picked :
    (P : List ℕ → Type 0) (b : Bool) {xs ys buf : List ℕ}
    → buf ≡ (if b then xs else ys)
    → P xs
    → P ys
    → P buf
picked P true e hx hy = subst P (sym e) hx
picked P false e hx hy = subst P (sym e) hy

module _ (threads : ThreadPool) (pixels : ℕ) where
  open threads use {Pool}

  -- At most one job, on a whole frame of bytes; and a whole image where the algorithm is complete.
  pub record IsSound (a : AlgoCtrl) (algos : Algorithms) (pool : Pool) : Type 0 where
    pub one : OneJob threads a pool
    pub room : length a.rec_buffer ≡ pixels * 3
    pub bytes : All IsByte a.rec_buffer
    pub reset : IsReset algos.normalizer
    pub output :
        a.algorithm0.state ≡ algo_complete
        → (a.algorithm0.output_data ≡ normalized_array)
          × (a.algorithm0.output_data_size ≡ pixels)
          × (length algos.normalizer.normalized_image ≡ pixels)

  take_frame-IsSound :
      (st : PiVisAlgoState) (a : AlgoCtrl) (algos : Algorithms) (pool : Pool)
      → a.algorithm0.state ≡ st
      → IsSound a algos pool
      → IsSound (take_frame threads st a pool).0 algos (take_frame threads st a pool).1
  unfolding take_frame
  take_frame-IsSound algo_init a algos pool e h = record {
    one = take_frame-OneJob threads algo_init a pool e h.one;
    room = h.room;
    bytes = h.bytes;
    reset = h.reset;
    output = λ c. absurd (ground arith);
  }
  take_frame-IsSound algo_running a algos pool e h = h
  take_frame-IsSound algo_complete a algos pool e h = record {
    one = take_frame-OneJob threads algo_complete a pool e h.one;
    room = h.room;
    bytes = h.bytes;
    reset = h.reset;
    output = λ c. absurd (ground arith);
  }

  pub receive_frame-IsSound :
      (provider : ImageProvider) (a : AlgoCtrl) (algos : Algorithms) (pool : Pool)
      → pixels * 3 < 2 ^ 31
      → IsReady (pixels * 3) provider
      → All IsByte provider.rec_buffer
      → IsSound a algos pool
      → Returns
          (λ (a', pool'). IsSound a' algos pool')
          (receive_frame threads pixels provider a pool)
  unfolding receive_frame
  receive_frame-IsSound provider a algos pool few ready bytes h =
      Returns-bind
        (λ (buf', n).
          (n ≡ provider.rec_buffer_size)
          × (buf' ≡ (if provider.rec_buffer_size == 0 then a.rec_buffer else provider.rec_buffer)))
        (λ (a', pool'). IsSound a' algos pool') (get_pixel_data a.rec_buffer (pixels * 3) provider)
        _ (get_pixel_data_lem (pixels * 3) few a.rec_buffer provider h.room ready)
        λ (buf, n) (en, eb).
          (let sound : IsSound (record a { rec_buffer = buf }) algos pool = record {
            one = with_buffer threads a pool buf h.one;
            room =
                picked (λ bs. length bs ≡ pixels * 3) (provider.rec_buffer_size == 0) eb h.room
                  ready.room;
            bytes = picked (All IsByte) (provider.rec_buffer_size == 0) eb h.bytes bytes;
            reset = h.reset;
            output = h.output;
          } in
            elim (Bool-cases (n == pixels * 3)) [
              | inl whole ↦ rw whole (
                  take_frame-IsSound a.algorithm0.state (record a { rec_buffer = buf }) algos pool
                    refl sound)
              | inr part ↦ rw part sound
            ])

  module _ (os : Sockets) (p : Ptr) (c : ServerContext) (s : Server) (ne : p ≢ null)
      (at : s.contexts p ≡ some c) (fuel : ℕ) (few : pixels * 3 < 2 ^ 31)
      (enough : pixels + 4 < fuel) where
    open os use {World}

    send_output-Halts :
        (st : PiVisAlgoState) (a : AlgoCtrl) (algos : Algorithms) (pool : Pool) (t : ImageDataTl)
        (w : World)
        → a.algorithm0.state ≡ st
        → IsSound a algos pool
        → Handshake.IsValid t
        → Halts
            (λ (t', w'). Handshake.IsValid t')
            ⊥
            (Refused os p s w)
            (send_output os p fuel st a algos t s w)
    unfolding send_output
    send_output-Halts algo_init a algos pool t w e h v = v
    send_output-Halts algo_running a algos pool t w e h v = v
    send_output-Halts algo_complete a algos pool t w e h v =
        let image = algos.normalizer.normalized_image in
        let (out, size, len) = h.output e in
        subst
          (λ r.
            Halts (λ (t', w'). Handshake.IsValid t') ⊥ (Refused os p s w)
              (r >>= λ buf. send_grayscale_image os p fuel buf a.algorithm0.output_data_size t s w))
          (sym (ap (contents a algos) out))
          (subst
            (λ n.
              Halts (λ (t', w'). Handshake.IsValid t') ⊥ (Refused os p s w)
                (send_grayscale_image os p fuel image n t s w))
            (len ∙ sym size)
            (send_grayscale_image-Halts os p c s ne at fuel image t w v (omega arith)
              (omega arith)))

    -- A call of `run` ends, and neither what it sends nor what it takes leaves its arrays, unless the
    -- socket of the image service's client refuses to take any byte.
    pub run-Halts :
        (provider : ImageProvider) (a : AlgoCtrl) (algos : Algorithms) (pool : Pool)
        (t : ImageDataTl) (w : World)
        → IsReady (pixels * 3) provider
        → All IsByte provider.rec_buffer
        → IsSound a algos pool
        → Handshake.IsValid t
        → Halts
            (λ ((a', pool'), (t', w')). IsSound a' algos pool' × Handshake.IsValid t')
            ⊥
            (Refused os p s w)
            (run threads os p fuel pixels a algos provider pool t s w)
    unfolding run
    run-Halts provider a algos pool t w ready bytes h v =
        let Sound : (AlgoCtrl × Pool) × (ImageDataTl × World) → Type 0 =
          λ ((a', pool'), (t', w')). IsSound a' algos pool' × Handshake.IsValid t' in
        Halts-bind (λ (t', w'). Handshake.IsValid t') ⊥ (Refused os p s w) Sound
          (send_output os p fuel a.algorithm0.state a algos t s w) _
          (send_output-Halts a.algorithm0.state a algos pool t w refl h v)
          λ (t', w') v'. Returns→Halts Sound ⊥ (Refused os p s w) _ (
            Returns-bind (λ (a', pool'). IsSound a' algos pool') Sound
              (receive_frame threads pixels provider a pool) _
              (receive_frame-IsSound provider a algos pool few ready bytes h)
              λ (a', pool') h'. (h', v'))

  -- The only job ends, and leaves a whole image, unless it divides by zero.
  pub run_job-IsSound :
      (a : AlgoCtrl) (algos : Algorithms) (pool : Pool)
      → image_filter_high < pixels
      → pixels < 2 ^ 24
      → a.algorithm0.input_data ≡ rec_array
      → a.algorithm0.exec ≡ normal_exec
      → threads.unfinished pool ≡ normal_job ∷ []
      → IsSound a algos pool
      → Ends
          (λ (a', algos'). IsSound a' algos' (threads.finish_job pool))
          (Degenerate pixels (record algos.normalizer { grayscale_image = means a.rec_buffer }))
          (run_job pixels normal_job a algos)
  unfolding run_job exec_on
  run_job-IsSound a algos pool enough few i x u h =
      let F =
        Degenerate pixels (record algos.normalizer { grayscale_image = means a.rec_buffer }) in
      let Sound : AlgoCtrl × Algorithms → Type 0 =
        λ (a', algos'). IsSound a' algos' (threads.finish_job pool) in
      let Context : PiVisAlgoContext × Algorithms → Type 0 =
        λ (c, algos'). Sound (record a { algorithm0 = c }, algos') in
      let input_lem : Ends (λ input. input ≡ a.rec_buffer) F
          (contents a algos a.algorithm0.input_data) =
        subst (λ r. Ends (λ input. input ≡ a.rec_buffer) F r) (sym (ap (contents a algos) i))
          refl in
      Ends-bind Context F Sound (exec_on pixels normal_exec a.algorithm0 a algos) _
        (Ends-bind (λ input. input ≡ a.rec_buffer) F Context
          (contents a algos a.algorithm0.input_data) _ input_lem
          λ input e.
            Ends-bind (λ n. IsImage pixels n × IsReset n) F Context
              (ImageNormalizerAlgo.exec pixels input algos.normalizer) _
              (subst
                (λ bs.
                  Ends (λ n. IsImage pixels n × IsReset n) F
                    (ImageNormalizerAlgo.exec pixels bs algos.normalizer))
                (sym e)
                (exec-Ends pixels a.rec_buffer algos.normalizer h.reset h.room h.bytes enough few))
              λ n (image, reset). record {
                one = OneJob.idle (λ complete. absurd (ground arith)) x (finished threads pool u);
                room = h.room;
                bytes = h.bytes;
                reset = reset;
                output = λ complete. (refl, refl, image.size);
              })
        (λ r sound. sound)
