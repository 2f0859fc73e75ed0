-- ===== src/Main.antt =====
-- C/src/main.c up to the loop of the scheduler: the initializations of the modules, in their order.
-- DIAG_init of C/src/PiVisDiag.c and CTRL_init of C/src/PiVisControl.c, and of the others the
-- registration of the callback and the publication of the service.
pub mod Loop
pub mod Ready
mod Tests
use pi_vision.Base.{ℕ, List, [], ◌∷◌, pos, Run, ok, ◌>>=◌}
use pi_vision.Constants.{gray_port_no, discover_gray_service}
use pi_vision.Chain.{Ptr, null, write}
use pi_vision.Sockets.{Sockets}
use pi_vision.Scheduler.{Scheduler, set_entry, register_callback}
use pi_vision.Scheduler as Scheduler
use pi_vision.Server.{ServerContext, Server}
use pi_vision.Server.Setup.{publish_service}
use pi_vision.Server.Setup as Setup
use pi_vision.Client.{Client}
use pi_vision.Client as Client
use pi_vision.ImageProvider.{ImageProvider}
use pi_vision.ImageProvider as ImageProvider
use pi_vision.ImageDataTl.{ImageDataTl}
use pi_vision.ImageDataTl as ImageDataTl
use pi_vision.AlgoCtrl.{AlgoCtrl, ThreadPool}
use pi_vision.AlgoCtrl as AlgoCtrl
use pi_vision.Diag.{diag_port_no, diag_service_discovery_port_no}
use pi_vision.Control.{control_port_no, control_service_discovery_port_no}

-- The static `run` of each module.
pub data RunFunc : Type 0 where
  client_run server_run algo_ctrl_run diag_run image_provider_run control_run image_data_tl_run :
      RunFunc

-- The addresses of the modules' `funcEntry`, and of the `serverContext` of three of them.
abbrev pub client_entry : Ptr
client_entry = 1

abbrev pub server_entry : Ptr
server_entry = 2

abbrev pub algo_ctrl_entry : Ptr
algo_ctrl_entry = 3

abbrev pub diag_entry : Ptr
diag_entry = 4

abbrev pub image_provider_entry : Ptr
image_provider_entry = 5

abbrev pub control_entry : Ptr
control_entry = 6

abbrev pub image_data_tl_entry : Ptr
image_data_tl_entry = 7

abbrev pub diag_context : Ptr
diag_context = 1

abbrev pub control_context : Ptr
control_context = 2

abbrev pub image_context : Ptr
image_context = 3

-- The statics of the modules.
pub record PiVision (P : Type 0) : Type 0 where
  pub scheduler : Scheduler RunFunc
  pub server : Server
  pub client : Client
  pub image_provider : ImageProvider
  pub image_data_tl : ImageDataTl
  pub algo_ctrl : AlgoCtrl
  pub thread_context : P

-- funcEntry.run = run; … SCHED_registerCallback(&funcEntry);
unfoldable pub register : ℕ → Ptr → RunFunc → Scheduler RunFunc → Run (Scheduler RunFunc)
register fuel p f s = register_callback fuel p (set_entry p f s)

-- A static context, which is zero but for its ports.
abbrev pub context_of : (served_port_no service_discovery_port_no : ℕ) → ServerContext
context_of served_port_no service_discovery_port_no = record {
  served_port_no = served_port_no;
  service_discovery_port_no = service_discovery_port_no;
  connected = 0;
  server_socket = pos 0;
  service_discovery_socket = pos 0;
  client_socket = pos 0;
  next = null;
}

module _ (os : Sockets) where
  open os use {World}

  -- serverContext.servedPortNo = …; serverContext.serviceDiscoveryPortNo = …;
  -- SERVER_publishService(&serverContext);
  unfoldable pub publish :
      ℕ
      → Ptr
      → (served_port_no service_discovery_port_no : ℕ) → Server
      → World
      → Run (Server × World)
  publish fuel p served_port_no service_discovery_port_no v w =
      publish_service os fuel p
        (record v {
          contexts = write v.contexts p (context_of served_port_no service_discovery_port_no);
        })
        w

  abbrev pub diag_init :
      ℕ → Scheduler RunFunc → Server → World → Run (Scheduler RunFunc × Server × World)
  diag_init fuel s v w = register fuel diag_entry diag_run s >>= λ s1.
      publish fuel diag_context diag_port_no diag_service_discovery_port_no v w >>= λ (v1, w1).
      ok (s1, v1, w1)

  abbrev pub ctrl_init :
      ℕ → Scheduler RunFunc → Server → World → Run (Scheduler RunFunc × Server × World)
  ctrl_init fuel s v w =
      publish fuel control_context control_port_no control_service_discovery_port_no v w
      >>= λ (v1, w1). register fuel control_entry control_run s >>= λ s1. ok (s1, v1, w1)

  -- The first half of IMGDATATL_init.
  abbrev pub image_data_tl_init :
      ℕ → Scheduler RunFunc → Server → World → Run (Scheduler RunFunc × Server × World)
  image_data_tl_init fuel s v w =
      publish fuel image_context gray_port_no discover_gray_service v w >>= λ (v1, w1).
      register fuel image_data_tl_entry image_data_tl_run s >>= λ s1. ok (s1, v1, w1)

  -- The initializations; the last step gives the statics that none of the calls before it reads.
  unfoldable pub main :
      (threads : ThreadPool)
      → ℕ
      → PiVision threads.Pool
      → World
      → Run (PiVision threads.Pool × World)
  main threads fuel p w =
      let (client, w1) = Client.init os p.client w in
      let (algo_ctrl, pool) = AlgoCtrl.init threads p.algo_ctrl in
      register fuel client_entry client_run (Scheduler.init p.scheduler) >>= λ s1.
      Setup.init os p.server w1 >>= λ v1. register fuel server_entry server_run s1 >>= λ s2.
      register fuel algo_ctrl_entry algo_ctrl_run s2 >>= λ s3.
      diag_init fuel s3 v1 w1 >>= λ (s4, v2, w2).
      register fuel image_provider_entry image_provider_run s4 >>= λ s5.
      ctrl_init fuel s5 v2 w2 >>= λ (s6, v3, w3).
      image_data_tl_init fuel s6 v3 w3 >>= λ (s7, v4, w4). ok (
        record {
          scheduler = s7;
          server = v4;
          client = client;
          image_provider = ImageProvider.init p.image_provider;
          image_data_tl = ImageDataTl.init p.image_data_tl;
          algo_ctrl = algo_ctrl;
          thread_context = pool;
        },
        w4,
      )
