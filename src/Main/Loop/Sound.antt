-- ===== src/Main/Loop/Sound.antt =====
-- What holds of the statics of all modules between the calls of the scheduler, and when a call may
-- fail.
use pi_vision.Base.{
  ℕ, ◌*◌, ◌≤◌, ◌<◌, ◌≡◌, ◌≢◌, ◌⊎◌, Bool, true, false, some, List, [], ◌∷◌, All, length, ok, suc,
  ap₂, refl, ap, inl, inr, ◌==◌, ◌||◌,
}
use pi_vision.Constants.{gray_port_no}
use pi_vision.Chain.{Ptr}
use pi_vision.Chain.Seg.{has}
use pi_vision.Chain.Each.{Related}
use pi_vision.Sockets.{Sockets}
use pi_vision.Server.{ServerContext}
use pi_vision.Server.Poll.{Services, Published, Accepted}
use pi_vision.Server.Pass.{LongRequest}
use pi_vision.Server.Send.{Refused}
use pi_vision.Client.Bounds as Client
use pi_vision.ImageProvider.Copy.{IsReady}
use pi_vision.ImageDataTl.Handshake as ImageDataTl
use pi_vision.ImageNormalizerAlgo.Grayscale.{IsByte, means}
use pi_vision.ImageNormalizerAlgo.Result.{Degenerate}
use pi_vision.AlgoCtrl.{ThreadPool}
use pi_vision.AlgoCtrl.Jobs.{normal_job}
use pi_vision.AlgoCtrl.Ends as AlgoCtrl
use pi_vision.Diag.{diag_port_no}
use pi_vision.Control.{control_port_no, command_buf_len}
use pi_vision.Main.{
  RunFunc, client_run, server_run, algo_ctrl_run, diag_run, image_provider_run, control_run,
  image_data_tl_run, diag_context, control_context, image_context,
}
use pi_vision.Main.Loop.{Running, work}

-- The addresses of services, with the ports that they are served at.
abbrev pub ports : Services → List (Ptr × ℕ)
ports [] = []
ports ((p, c) ∷ xs) = (p, c.served_port_no) ∷ ports xs

abbrev pub served : List (Ptr × ℕ)
served =
    (diag_context, diag_port_no)
    ∷ (control_context, control_port_no)
    ∷ (image_context, gray_port_no)
    ∷ []

pub has-ports : (b : Ptr) (xs : Services) → has b (ports xs) ≡ has b xs
has-ports b [] = refl
has-ports b ((p, c) ∷ xs) = ap (λ t. (b == p) || t) (has-ports b xs)

pub length-ports : (xs : Services) → length (ports xs) ≡ length xs
length-ports [] = refl
length-ports (x ∷ xs) = ap suc (length-ports xs)

Accepted-port : (c c' : ServerContext) → Accepted c c' → c'.served_port_no ≡ c.served_port_no
Accepted-port c c' (inl same) = ap (λ d. d.served_port_no) same
Accepted-port c c' (inr (client, e)) = ap (λ d. d.served_port_no) e

-- New clients leave the ports.
pub Accepted-ports : (xs ys : Services) → Related Accepted xs ys → ports ys ≡ ports xs
Accepted-ports [] [] h = refl
Accepted-ports [] (y ∷ ys) h = absurd h
Accepted-ports (x ∷ xs) [] h = absurd h
Accepted-ports ((p, c) ∷ xs) ((q, d) ∷ ys) (e, r, h) =
    ap₂ ◌∷◌ (ap₂ {A = Ptr} (λ a b. (a, b)) e (Accepted-port c d r)) (Accepted-ports xs ys h)

-- Whether the client has run since the image provider has taken its frame.
abbrev pub after : RunFunc → Bool → Bool
after client_run b = true
after server_run b = b
after algo_ctrl_run b = b
after diag_run b = b
after image_provider_run b = false
after control_run b = b
after image_data_tl_run b = b

-- The image provider must be called behind the client.
abbrev pub Needs : RunFunc → Bool → Type 0
Needs client_run b = Unit
Needs server_run b = Unit
Needs algo_ctrl_run b = Unit
Needs diag_run b = Unit
Needs image_provider_run true = Unit
Needs image_provider_run false = ⊥
Needs control_run b = Unit
Needs image_data_tl_run b = Unit

module _ (os : Sockets) (threads : ThreadPool) (pixels : ℕ) where
  open os use {World}
  open threads use {Pool}

  -- The arrays have their sizes and the indices stand in them, frames consist of bytes, there is at
  -- most one job, and the three services are published with their ports. Where the client has just
  -- run, a complete frame is unread.
  pub record IsSound (current : Bool) (x : Running Pool World) : Type 0 where
    pub client : Client.IsValid (pixels * 3) x.statics.client
    pub unread :
        current ≡ true → x.statics.client.curr_state ≡ 4 → x.statics.client.buffer_index ≡ 0
    pub client_bytes : All IsByte x.statics.client.buffer
    pub provider : IsReady (pixels * 3) x.statics.image_provider
    pub provider_bytes : All IsByte x.statics.image_provider.rec_buffer
    pub images : ImageDataTl.IsValid x.statics.image_data_tl
    pub algorithms :
        AlgoCtrl.IsSound threads pixels x.statics.algo_ctrl x.algorithms x.statics.thread_context
    pub commands : length x.command_buf ≡ command_buf_len
    pub services : (xs : Services) × Published x.statics.server xs × (ports xs ≡ served)

  -- A call that may write behind an array: of the client for an answer or a header that is too
  -- long, of the server for such a request, and of the diagnosis for five digits.
  abbrev pub CallHazard : RunFunc → Running Pool World → Type 0
  CallHazard client_run x =
      ((x.statics.client.curr_state ≡ 0) × Client.LongAnswer os x.statics.client x.world)
      ⊎ ((x.statics.client.curr_state ≡ 3) × Client.LongHeader os x.statics.client x.world)
  CallHazard server_run x =
      (xs : Services) × Published x.statics.server xs
      × LongRequest os x.statics.server.own_ip_address xs (x.statics.server.addr, x.world)
  CallHazard algo_ctrl_run x = ⊥
  CallHazard diag_run x =
      (c : ServerContext) × (x.statics.server.contexts diag_context ≡ some c)
      × (c.connected ≢ 0)
      × (10000 ≤ x.statics.image_data_tl.num_dropped_frames)
  CallHazard image_provider_run x = ⊥
  CallHazard control_run x = ⊥
  CallHazard image_data_tl_run x = ⊥

  -- A call that may not end: of the algorithms and of the diagnosis, whose services send to clients,
  -- where the client's socket refuses to take any byte.
  abbrev pub CallStuck : RunFunc → Running Pool World → Type 0
  CallStuck client_run x = ⊥
  CallStuck server_run x = ⊥
  CallStuck algo_ctrl_run x = Refused os image_context x.statics.server x.world
  CallStuck diag_run x = Refused os diag_context x.statics.server x.world
  CallStuck image_provider_run x = ⊥
  CallStuck control_run x = ⊥
  CallStuck image_data_tl_run x = ⊥

  -- The waiting job is one of the normalizer that divides by zero.
  abbrev pub JobHazard : Running Pool World → Type 0
  JobHazard x =
      (threads.unfinished x.statics.thread_context ≡ normal_job ∷ [])
      × Degenerate pixels (record x.algorithms.normalizer {
        grayscale_image = means x.statics.algo_ctrl.rec_buffer;
      })

  -- A worker meets such a job in front of a call, or the call itself is a hazard.
  pub data Hazard (fuel : ℕ) (jobs : ℕ → ℕ) (f : RunFunc) (x : Running Pool World) : Type 0 where
    in_job : 0 < jobs x.turn → JobHazard x → Hazard fuel jobs f x
    in_call :
        {x' : Running Pool World}
        → work os threads fuel pixels (jobs x.turn) (record x { turn = suc x.turn }) ≡ ok x'
        → CallHazard f x'
        → Hazard fuel jobs f x

  -- The call may not end.
  pub data Stuck (fuel : ℕ) (jobs : ℕ → ℕ) (f : RunFunc) (x : Running Pool World) : Type 0 where
    in_call :
        {x' : Running Pool World}
        → work os threads fuel pixels (jobs x.turn) (record x { turn = suc x.turn }) ≡ ok x'
        → CallStuck f x'
        → Stuck fuel jobs f x
