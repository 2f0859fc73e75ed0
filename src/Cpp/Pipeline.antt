-- ===== src/Cpp/Pipeline.antt =====
-- The way of a frame through the components of the grayscale image service: a job makes its image,
-- which the connection of a client sends. This is one order of what the dispatcher may do: it
-- executes the job, and then delivers what that raises, in order, to whom it concerns.
use mathlib.Core.Path.{subst₂}
use pi_vision.Base.{
  ℕ, ◌+◌, ◌*◌, ◌^◌, ◌<◌, ◌≡◌, refl, true, false, List, [], ◌∷◌, ◌++◌, arith, ◌==◌, if◌then◌else◌,
  All, length, drop, Run, ok, ◌>>=◌, Returns, Returns-bind, u32, eq→==, ne→==, lt→ltb, ap, sym, ◌∙◌,
}
use pi_vision.Sockets.{Sockets}
use pi_vision.ImageNormalizerAlgo.Grayscale.{IsByte}
use pi_vision.Cpp.Events.{
  PiVisionData, get_size, PiVisionConnectionType, pivision_server, nullptr, new_data_ind,
  event_grayscale_job_complete_ind, color_image_service_rx, bw_image_service_rx,
  bw_image_service_tx, grayscale_image_job, Call, raise_event, execute_job_in_group,
}
use pi_vision.Cpp.GrayscaleImage as GrayscaleImage
use pi_vision.Cpp.GrayscaleImageJob as GrayscaleImageJob
use pi_vision.Cpp.GrayscaleImageJob.{extract_image_properties}
use pi_vision.Cpp.GrayscaleImageJob.Gray.{carried, length-carried, execute-carried}
use pi_vision.Cpp.Connection as Connection
use pi_vision.Cpp.Connection.{Connection, Env, tx_event, may_send, send}
use pi_vision.Cpp.Connection.Chunks.{Takes, Wrote, send-Wrote}
use pi_vision.Cpp.Connection.Acks.{handle_event_tx, handle_data-free}
use pi_vision.Cpp.Connection.Sessions.{framed}

-- What the jobs raise that a handler has started.
unfoldable pub jobs_raise : List Call → Run (List Call)
jobs_raise [] = ok []
jobs_raise (execute_job_in_group (grayscale_image_job t d) group ∷ cs) =
    GrayscaleImageJob.execute d >>= λ calls. jobs_raise cs >>= λ rest. ok (calls ++ rest)
jobs_raise (_ ∷ cs) = jobs_raise cs

module _ (os : Sockets) (fuel : ℕ) where
  open os use {World}

  -- The count of the jobs, and a connection of the grayscale image service.
  abbrev pub Service : Type 0
  Service = ℕ × Connection × Env World

  -- An event goes to the connection if it is data for it to send, and to the component if not.
  unfoldable pub deliver : Call → Service → Run Service
  deliver (raise_event event_no ptr) (n, c, e) =
      if event_no == tx_event c
      then (Connection.handle_event os fuel event_no ptr c e >>= λ (c', e'). ok (n, c', e'))
      else (GrayscaleImage.handle_event event_no ptr n >>= λ (n', calls). ok (n', c, e))
  deliver _ x = ok x

  unfoldable pub deliver_all : List Call → Service → Run Service
  deliver_all [] x = ok x
  deliver_all (call ∷ calls) x = deliver call x >>= λ x'. deliver_all calls x'

  -- A frame of the color image service, its job, and what that raises.
  unfoldable pub serve_frame : PiVisionConnectionType → PiVisionData → Service → Run Service
  serve_frame t d (n, c, e) =
      GrayscaleImage.handle_event color_image_service_rx (new_data_ind t d) n >>= λ (n', calls).
      jobs_raise calls >>= λ raised. deliver_all raised (n', c, e)

  -- The count is as before, and the bytes have been written behind what was there.
  abbrev pub Served : ℕ → Connection → Env World → List ℕ → Service → Type 0
  Served n c e bytes (n', c', e') =
      (n' ≡ n)
      × (c' ≡ record c { received_ack = false })
      × (os.stream c.socket_fd e'.world ≡ os.stream c.socket_fd e.world ++ bytes)

  module _ (c : Connection) (e : Env World) (server : c.conn_type ≡ pivision_server)
      (service : c.service_no ≡ bw_image_service_rx) (takes : Takes os c.socket_fd)
      (free : may_send c ≡ true) (other : c.is_in_same_process ≡ false) where
    tx : tx_event c ≡ bw_image_service_tx
    tx = ap (λ m. u32 (m + 1)) service

    deliver-Served :
        (n : ℕ) (image : PiVisionData)
        → 4 < fuel
        → get_size image < fuel
        → Returns (Served n c e (framed image.buf)) (
            deliver
              (raise_event bw_image_service_tx (new_data_ind pivision_server image))
              (n, c, e))
    unfolding deliver
    deliver-Served n image four room =
        let w = record c { received_ack = false } in
        let sends : Connection.handle_event os fuel bw_image_service_tx
              (new_data_ind pivision_server image) c e
            ≡ send os fuel image w e =
          subst₂
            (λ ev ty.
              Connection.handle_event os fuel ev (new_data_ind ty image) c e
              ≡ send os fuel image w e)
            tx server
            (handle_event_tx os fuel (new_data_ind c.conn_type image) c e
              ∙ handle_data-free os fuel image c e free other) in
        rw (eq→== bw_image_service_tx (tx_event c) (sym tx), sends)
          (Returns-bind (Wrote os w e (framed image.buf)) (Served n c e (framed image.buf))
            (send os fuel image w e) _ (send-Wrote os fuel image w e takes four room)
            λ (c', e') (same, calls, written). (refl, same, written))

    ends :
        (n : ℕ) (e' : Env World)
        → n < 4
        → deliver
            (raise_event event_grayscale_job_complete_ind nullptr)
            (u32 (n + 1), record c { received_ack = false }, e')
          ≡ ok (n, record c { received_ack = false }, e')
    unfolding deliver GrayscaleImage.handle_event
    ends n e' few =
        rw (ne→== event_grayscale_job_complete_ind (tx_event c) (λ same. omega (arith, same, tx)))
          (ap {A = ℕ} (λ m. ok (m, record c { received_ack = false }, e')) (omega (arith, few)))

    -- A frame of the color image service, of x * y whole pixels as its header says and fewer
    -- than 2 ^ 31, becomes an image in which each pixel is the sum of its colors and of the
    -- pixel before it, divided by three and cut to the range from 1 to 254, and is written so
    -- to the client of the grayscale image service, behind its size. The count of the jobs is
    -- as before, and the connection waits for the acknowledgement. There must be fewer than
    -- four jobs before, and the connection must be one of that service's clients that may send,
    -- to another process, over a socket that has no error and takes at least one byte with each
    -- call, with fuel for the bytes.
    pub serve_frame-Served :
        (n : ℕ) (t : PiVisionConnectionType) (d : PiVisionData) (x y : ℕ)
        → n < 4
        → extract_image_properties d ≡ (x, y)
        → x * y < 2 ^ 31
        → All IsByte (drop 4 d.buf)
        → length (drop 4 d.buf) ≡ x * y * 3
        → 4 < fuel
        → x * y < fuel
        → Returns (Served n c e (framed (carried 0 (drop 4 d.buf)))) (serve_frame t d (n, c, e))
    unfolding serve_frame GrayscaleImage.handle_event jobs_raise deliver_all
    serve_frame-Served n t d x y few sizes small bytes len four room =
        let image : PiVisionData = record { capacity = x * y; buf = carried 0 (drop 4 d.buf) } in
        let size : get_size image < fuel =
          omega (arith, room, length-carried (x * y) 0 (drop 4 d.buf) len) in
        rw (lt→ltb n 4 few, execute-carried d x y sizes small bytes len)
          (Returns-bind (Served (u32 (n + 1)) c e (framed image.buf))
            (Served n c e (framed image.buf))
            (deliver (raise_event bw_image_service_tx (new_data_ind pivision_server image))
              (u32 (n + 1), c, e))
            _ (deliver-Served (u32 (n + 1)) image four size)
            λ (n1, c1, e1) (en, ec, written). rw (en, ec, ends n e1 few) (refl, refl, written))
