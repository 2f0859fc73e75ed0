-- ===== src/ImageDataTl/Exchange.antt =====
-- One exchange: a frame that is sent, the images that are offered while it waits, and what the client
-- answers.
use pi_vision.Base.{
  ℕ, suc, ◌+◌, ◌%◌, ◌^◌, ◌<◌, ◌≡◌, refl, ◌≢◌, some, List, ◌∷◌, ◌++◌, ◌==◌, if◌then◌else◌, length,
  get_or, pos, Returns, Returns-bind, ne→==,
}
use pi_vision.Chain.{Ptr, null}
use pi_vision.Chain.Seg
use pi_vision.Sockets.{Sockets, received}
use pi_vision.Server
use pi_vision.Server.{Server, ServerContext, context_link}
use pi_vision.ImageDataTl.{
  ImageDataTl, send_data, wait_for_ack, ack_buf_size, le32, run, send_grayscale_image,
}
use pi_vision.ImageDataTl.Frame.{send_grayscale_image_sent}
use pi_vision.ImageDataTl.Handshake.{IsValid, take_ack_whole, offer_all, offer_all-wait_for_ack}

module _ (os : Sockets) (p : Ptr) (c : ServerContext) (s : Server) (ne : p ≢ null)
    (at : s.contexts p ≡ some c) (on : c.connected ≢ 0) where
  open os use {World}

  -- What is sent for an image.
  abbrev pub frame_of : List ℕ → List ℕ
  frame_of i = le32 (length i) ++ i

  -- The state behind images that were offered, the first of which was sent.
  abbrev pub waiting_behind : List (List ℕ) → ImageDataTl → ImageDataTl
  waiting_behind is t = record t {
    state = wait_for_ack;
    num_dropped_frames = (t.num_dropped_frames + length is) % 2 ^ 32;
  }

  -- The state behind an answer.
  abbrev pub answered : List ℕ → ImageDataTl → ImageDataTl
  answered ack t =
      if get_or ack 8 0 == t.frame_no
      then record t { ack_buf = ack; state = send_data; frame_no = (t.frame_no + 1) % 256 }
      else record t { ack_buf = ack }

  run-answered :
      (ack : List ℕ) (t : ImageDataTl) (w : World)
      → length t.ack_buf ≡ ack_buf_size
      → length ack ≡ ack_buf_size
      → (os.recv c.client_socket ack_buf_size w).0 ≡ received ack
      → Returns (λ (t', w'). t' ≡ answered ack t) (run os p t s w)
  unfolding run Server.receive
  run-answered ack t w room whole comes =
      rw
        (
          Seg.load-ok context_link s.contexts p c ne at,
          ne→== c.connected 0 on,
          comes,
          take_ack_whole t ack room whole,
        )
        refl

  -- The service is ready for a frame and has a connected client, whose socket takes a frame at once.
  -- Of images offered one after the other the first is sent, behind its size in four bytes, and
  -- nothing more; the others are counted as dropped, modulo 2 ^ 32. If the client, which has got the
  -- frame, then answers with nine bytes, the next `run` leaves the wait exactly if the last of them is
  -- the number of the frame, and the number is advanced modulo 256; it goes on to wait otherwise.
  pub offer_all-run :
      (k : ℕ) (i : List ℕ) (is : List (List ℕ)) (ack : List ℕ) (t : ImageDataTl) (w : World)
      → IsValid t
      → t.state ≡ send_data
      → length i + 4 < 2 ^ 32
      → (os.send c.client_socket (frame_of i) w).0 ≡ pos (4 + length i)
      → length ack ≡ ack_buf_size
      → ((w' : World)
          → os.stream c.client_socket w' ≡ os.stream c.client_socket w ++ frame_of i
          → (os.recv c.client_socket ack_buf_size w').0 ≡ received ack)
      → Returns
          (λ (t', w').
            (t' ≡ waiting_behind is t)
            × (os.stream c.client_socket w' ≡ os.stream c.client_socket w ++ frame_of i)
            × Returns (λ (t'', w''). t'' ≡ answered ack (waiting_behind is t)) (run os p t' s w'))
          (offer_all os p c s ne at (suc (suc k)) (i ∷ is) t w)
  unfolding offer_all
  offer_all-run k i is ack t w v ready small all whole comes =
      Returns-bind
        (λ (t', w').
          (t' ≡ record t { state = wait_for_ack })
          × (os.stream c.client_socket w' ≡ os.stream c.client_socket w ++ frame_of i))
        (λ (t', w').
          (t' ≡ waiting_behind is t)
          × (os.stream c.client_socket w' ≡ os.stream c.client_socket w ++ frame_of i)
          × Returns (λ (t'', w''). t'' ≡ answered ack (waiting_behind is t)) (run os p t' s w'))
        (send_grayscale_image os p (suc (suc k)) i (length i) t s w) _
        (send_grayscale_image_sent os p k i t c s w ne at on ready small all)
        λ (t1, w1) (e, written).
          rw
            (
              e,
              offer_all-wait_for_ack os p c s ne at (suc (suc k)) is
                  (record t { state = wait_for_ack }) w1 refl v.dropped_word,
            )
            (
              refl,
              written,
              run-answered ack (waiting_behind is t) w1 v.ack_room whole (comes w1 written),
            )
