-- ===== src/Main/Loop/Start.antt =====
-- The statics behind the initializations, when the scheduler starts.
use pi_vision.Base.{
  ℕ, ◌*◌, ◌<◌, ◌≡◌, refl, false, List, All, arith, length, length-replicate, inl, Keeps, Keeps-bind,
  sym, subst,
}
use pi_vision.Constants.{camera_buf_header_size, ip_address_length}
use pi_vision.Sockets.{Sockets}
use pi_vision.Scheduler as Scheduler
use pi_vision.Server.Setup as Setup
use pi_vision.Client as Client
use pi_vision.Client.Bounds as Bounds
use pi_vision.ImageProvider.Copy as Copy
use pi_vision.ImageDataTl.Handshake as Handshake
use pi_vision.AlgoCtrl.Ends as AlgoEnds
use mathlib.Core.Path.{subst₂}
use pi_vision.ImageProvider as ImageProvider
use pi_vision.ImageDataTl.{ack_buf_size}
use pi_vision.ImageDataTl as ImageDataTl
use pi_vision.ImageNormalizerAlgo.Grayscale.{IsByte}
use pi_vision.ImageNormalizerAlgo.Result.{IsReset}
use pi_vision.AlgoCtrl.{Algorithms, ThreadPool}
use pi_vision.AlgoCtrl as AlgoCtrl
use pi_vision.AlgoCtrl.Jobs.{OneJob}
use pi_vision.Control.{command_buf_len}
use pi_vision.Main.{
  PiVision, main, register, client_entry, server_entry, algo_ctrl_entry, image_provider_entry,
  client_run, server_run, algo_ctrl_run, image_provider_run, diag_init, ctrl_init,
  image_data_tl_init,
}
use pi_vision.Main.Ready.{Services3}
use pi_vision.Main.Loop.{Running}
use pi_vision.Main.Loop.Sound.{IsSound}

-- The statics as the program is loaded: the arrays in their sizes, zero or any other bytes in those
-- of pixels, and the values that the files give.
pub record IsLoaded {P : Type 0} (pixels : ℕ) (p : PiVision P) (algos : Algorithms)
    (command_buf : List ℕ) : Type 0 where
  pub own : length p.server.own_ip_address ≡ ip_address_length
  pub state : p.client.curr_state ≡ 0
  pub header_index : p.client.header_index ≡ 0
  pub buffer_index : p.client.buffer_index ≡ 0
  pub header : length p.client.cam_buf_header ≡ camera_buf_header_size
  pub buffer : length p.client.buffer ≡ pixels * 3
  pub buffer_bytes : All IsByte p.client.buffer
  pub provided : length p.image_provider.rec_buffer ≡ pixels * 3
  pub provided_bytes : All IsByte p.image_provider.rec_buffer
  pub ack_room : length p.image_data_tl.ack_buf ≡ ack_buf_size
  pub received : length p.algo_ctrl.rec_buffer ≡ pixels * 3
  pub received_bytes : All IsByte p.algo_ctrl.rec_buffer
  pub reset : IsReset algos.normalizer
  pub commands : length command_buf ≡ command_buf_len

module _ (os : Sockets) (threads : ThreadPool) (fuel pixels : ℕ) where
  open os use {World}
  open threads use {Pool}

  -- What the loop starts with.
  abbrev pub start : PiVision Pool → Algorithms → List ℕ → World → Running Pool World
  start p algos command_buf w = record {
    statics = p;
    algorithms = algos;
    command_buf = command_buf;
    world = w;
    turn = 0;
  }

  -- The statics that no call of the initializations reads.
  pub record Initialized (p : PiVision Pool) (w : World) (p' : PiVision Pool) : Type 0 where
    pub client : p'.client ≡ (Client.init os p.client w).0
    pub image_provider : p'.image_provider ≡ ImageProvider.init p.image_provider
    pub image_data_tl : p'.image_data_tl ≡ ImageDataTl.init p.image_data_tl
    pub algo_ctrl : p'.algo_ctrl ≡ (AlgoCtrl.init threads p.algo_ctrl).0
    pub thread_context : p'.thread_context ≡ (AlgoCtrl.init threads p.algo_ctrl).1

  pub main-Initialized :
      (p : PiVision Pool) (w : World)
      → Keeps (λ (p', w'). Initialized p w p') (main os threads fuel p w)
  unfolding main
  main-Initialized p w =
      let Q : PiVision Pool × World → Type 0 = λ (p', w'). Initialized p w p' in
      let w1 = (Client.init os p.client w).1 in
      Keeps-bind Q (register fuel client_entry client_run (Scheduler.init p.scheduler)) _ λ s1.
        Keeps-bind Q (Setup.init os p.server w1) _ λ v1.
          Keeps-bind Q (register fuel server_entry server_run s1) _ λ s2.
            Keeps-bind Q (register fuel algo_ctrl_entry algo_ctrl_run s2) _ λ s3.
              Keeps-bind Q (diag_init os fuel s3 v1 w1) _ λ (s4, v2, w2).
                Keeps-bind Q (register fuel image_provider_entry image_provider_run s4) _ λ s5.
                  Keeps-bind Q (ctrl_init os fuel s5 v2 w2) _ λ (s6, v3, w3).
                    Keeps-bind Q (image_data_tl_init os fuel s6 v3 w3) _ λ (s7, v4, w4). record {
                      client = refl;
                      image_provider = refl;
                      image_data_tl = refl;
                      algo_ctrl = refl;
                      thread_context = refl;
                    }

  -- The statics as they are loaded are sound behind the initializations.
  pub started-IsSound :
      (p p' : PiVision Pool) (algos : Algorithms) (command_buf : List ℕ) (w w' : World)
      → 0 < pixels
      → IsLoaded pixels p algos command_buf
      → Initialized p w p'
      → Services3 os p'.server
      → IsSound os threads pixels false (start p' algos command_buf w')
  unfolding Client.init ImageProvider.init ImageDataTl.init AlgoCtrl.init
  started-IsSound p p' algos command_buf w w' some_pixels l i (s1, s2, s3, d1, d2, d3, published) =
      record {
        client =
            subst (Bounds.IsValid (pixels * 3)) (sym i.client)
              (ground (arith, length-replicate {A = ℕ} ip_address_length 0));
        unread = λ e. absurd (ground (arith, e));
        client_bytes = subst (λ c. All IsByte c.buffer) (sym i.client) l.buffer_bytes;
        provider =
            subst (Copy.IsReady (pixels * 3)) (sym i.image_provider)
              (record { room = l.provided; whole = inl refl });
        provider_bytes =
            subst (λ q. All IsByte q.rec_buffer) (sym i.image_provider) l.provided_bytes;
        images = subst Handshake.IsValid (sym i.image_data_tl) (record {
          ack_room = l.ack_room;
          frame_byte = omega arith;
          dropped_word = omega arith;
          dropped_ack_word = omega arith;
        });
        algorithms =
            subst₂ (λ a pool. AlgoEnds.IsSound threads pixels a algos pool) (sym i.algo_ctrl)
              (sym i.thread_context)
              (record {
                one = OneJob.idle (λ e. ground arith) refl (threads.unfinished-init 2);
                room = l.received;
                bytes = l.received_bytes;
                reset = l.reset;
                output = λ e. absurd (ground arith);
              });
        commands = l.commands;
        services = (_, published, refl);
      }
