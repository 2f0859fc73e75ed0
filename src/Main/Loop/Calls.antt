-- ===== src/Main/Loop/Calls.antt =====
-- Each call of the scheduler keeps what the others need, and ends.
use pi_vision.Base.{
  ℕ, ◌+◌, ◌*◌, ◌^◌, ◌≤◌, ◌<◌, ◌≡◌, refl, ◌≢◌, Bool, true, false, some, All, arith, length, Returns,
  Returns-bind, Returns-Keeps, Returns→Halts, Ends→Halts, Halts, Halts-bind, Halts-mono, Ends,
  Ends-mono, Ends-bind, Ends-Keeps, ap, sym, ◌∙◌,
}
use pi_vision.Chain.{Ptr, null}
use pi_vision.Chain.Seg
use pi_vision.Chain.Seg.{has}
use pi_vision.Chain.Each.{Related}
use pi_vision.Sockets.{Sockets}
use pi_vision.Server.{Server, ServerContext, context_link}
use pi_vision.Server as Server
use pi_vision.Server.Poll.{Services, Published, Accepted}
use pi_vision.Server.Pass as Pass
use pi_vision.Client.{Client}
use pi_vision.Client as Client
use pi_vision.Client.Bounds as Bounds
use pi_vision.Client.Contents.{Gives}
use pi_vision.Client.Contents as Contents
use pi_vision.ImageProvider.{ImageProvider}
use pi_vision.ImageProvider as ImageProvider
use pi_vision.ImageProvider.Copy as Copy
use pi_vision.ImageProvider.Contents as Provided
use pi_vision.ImageDataTl.{ImageDataTl}
use pi_vision.ImageDataTl as ImageDataTl
use pi_vision.ImageDataTl.Handshake as Handshake
use pi_vision.ImageNormalizerAlgo.{image_filter_high}
use pi_vision.ImageNormalizerAlgo.Grayscale.{IsByte}
use pi_vision.AlgoCtrl.{AlgoCtrl, Algorithms, ThreadPool, Job, rec_array, normal_exec, run_job}
use pi_vision.AlgoCtrl as AlgoCtrl
use pi_vision.AlgoCtrl.Ends as AlgoEnds
use pi_vision.Diag.Ends as DiagEnds
use pi_vision.Diag as Diag
use pi_vision.Control as Control
use pi_vision.Control.Commands as Commands
use pi_vision.Main.{
  RunFunc, client_run, server_run, algo_ctrl_run, diag_run, image_provider_run, control_run,
  image_data_tl_run, diag_context, control_context, image_context,
}
use pi_vision.Main.Loop.{Running, call_run}
use pi_vision.Main.Loop.Sound.{
  ports, served, has-ports, length-ports, Accepted-ports, after, Needs, IsSound, CallHazard,
  CallStuck,
}

-- One of the three services is in the store.
service :
    (p : Ptr) (s : Server)
    → has p served ≡ true
    → (xs : Services) × Published s xs × (ports xs ≡ served)
    → (c : ServerContext) × (p ≢ null) × (s.contexts p ≡ some c)
service p s i (xs, published, e) =
    Seg.node context_link p published (sym (has-ports p xs) ∙ ap (has p) e ∙ i)

module _ (os : Sockets) (threads : ThreadPool) (fuel pixels : ℕ) (gives : Gives os IsByte)
    (enough : image_filter_high < pixels) (few : pixels < 2 ^ 24) (fueled : pixels + 8 ≤ fuel) where
  open os use {World}
  open threads use {Pool}

  client-Ends :
      (b : Bool) (x : Running Pool World)
      → IsSound os threads pixels b x
      → Ends
          (IsSound os threads pixels true)
          (CallHazard os threads pixels client_run x)
          (call_run os threads fuel pixels client_run x)
  unfolding call_run
  client-Ends b x h =
      let c = x.statics.client in
      Ends-bind (λ (c', w'). Bounds.IsCurrent (pixels * 3) c' × All IsByte c'.buffer)
        (CallHazard os threads pixels client_run x) (IsSound os threads pixels true)
        (Client.run os (pixels * 3) c x.world) _
        (Ends-Keeps (λ (c', w'). Bounds.IsCurrent (pixels * 3) c')
          (λ (c', w'). All IsByte c'.buffer) (CallHazard os threads pixels client_run x) _
          (Bounds.run-Ends os (pixels * 3) (omega arith) (omega arith) c x.world h.client)
          (Contents.run-Keeps os IsByte gives (omega arith) (pixels * 3) c x.world h.client_bytes))
        λ (c', w') ((valid, unread), bytes). assumption

  server-Ends :
      (b : Bool) (x : Running Pool World)
      → IsSound os threads pixels b x
      → Ends
          (IsSound os threads pixels b)
          (CallHazard os threads pixels server_run x)
          (call_run os threads fuel pixels server_run x)
  unfolding call_run
  server-Ends b x h =
      let (xs, published, e) = h.services in
      let s = x.statics.server in
      let few_services : length xs < fuel = omega (arith, length-ports xs, ap length e) in
      Ends-bind (λ (s', w'). (ys : Services) × Related Accepted xs ys × Published s' ys)
        (CallHazard os threads pixels server_run x) (IsSound os threads pixels b)
        (Server.run os fuel s x.world) _
        (Ends-mono _ (λ (s', w'). (ys : Services) × Related Accepted xs ys × Published s' ys) _ _
          (Server.run os fuel s x.world) (λ a k. k) (λ l. (xs, published, l))
          (Pass.run-Accepted os fuel s xs x.world published few_services))
        λ (s', w') (ys, related, published').
          let services : (zs : Services) × Published s' zs × (ports zs ≡ served) =
            (ys, published', Accepted-ports xs ys related ∙ e) in
          assumption

  algo_ctrl-Halts :
      (b : Bool) (x : Running Pool World)
      → IsSound os threads pixels b x
      → Halts
          (IsSound os threads pixels b)
          ⊥
          (CallStuck os threads pixels algo_ctrl_run x)
          (call_run os threads fuel pixels algo_ctrl_run x)
  unfolding call_run
  algo_ctrl-Halts b x h =
      let p = x.statics in
      let (c, ne, at) = service image_context p.server refl h.services in
      Halts-bind
        (λ ((a, pool), (t, w)).
          AlgoEnds.IsSound threads pixels a x.algorithms pool × Handshake.IsValid t)
        ⊥ (CallStuck os threads pixels algo_ctrl_run x) (IsSound os threads pixels b)
        (AlgoCtrl.run threads os image_context fuel pixels p.algo_ctrl x.algorithms p.image_provider
          p.thread_context p.image_data_tl p.server x.world)
        _
        (AlgoEnds.run-Halts threads pixels os image_context c p.server ne at fuel (omega arith)
          (omega arith) p.image_provider p.algo_ctrl x.algorithms p.thread_context p.image_data_tl
          x.world h.provider h.provider_bytes h.algorithms h.images)
        λ ((a, pool), (t, w)) (sound, valid). assumption

  diag-Halts :
      (b : Bool) (x : Running Pool World)
      → IsSound os threads pixels b x
      → Halts
          (IsSound os threads pixels b)
          (CallHazard os threads pixels diag_run x)
          (CallStuck os threads pixels diag_run x)
          (call_run os threads fuel pixels diag_run x)
  unfolding call_run ImageDataTl.get_num_dropped_frames
  diag-Halts b x h =
      let s = x.statics.server in
      let n = x.statics.image_data_tl.num_dropped_frames in
      let (c, ne, at) = service diag_context s refl h.services in
      let H = CallHazard os threads pixels diag_run x in
      let S = CallStuck os threads pixels diag_run x in
      Halts-bind (λ w. Unit {0}) H S (IsSound os threads pixels b)
        (Diag.run os fuel diag_context n s x.world) _
        (Halts-mono (λ w. Unit {0}) (λ w. Unit {0}) ((c.connected ≢ 0) × (10000 ≤ n)) H S S
          (Diag.run os fuel diag_context n s x.world) (λ a k. k) (λ (on, large). (c, at, on, large))
          (λ h. h) (DiagEnds.run-Halts os diag_context c s ne at fuel n x.world (omega arith)))
        λ w u. assumption

  image_provider-Returns :
      (x : Running Pool World)
      → IsSound os threads pixels true x
      → Returns
          (IsSound os threads pixels false)
          (call_run os threads fuel pixels image_provider_run x)
  unfolding call_run
  image_provider-Returns x h =
      let size = pixels * 3 in
      let p = x.statics.image_provider in
      let c = x.statics.client in
      Returns-bind
        (λ (p', c').
          (Copy.Took size c p' × Bounds.IsValid size c')
          × (All IsByte p'.rec_buffer × All IsByte c'.buffer))
        (IsSound os threads pixels false) (ImageProvider.run size p c) _
        (Returns-Keeps (λ (p', c'). Copy.Took size c p' × Bounds.IsValid size c')
          (λ (p', c'). All IsByte p'.rec_buffer × All IsByte c'.buffer) (ImageProvider.run size p c)
          (Copy.run-Took size (omega arith) p c h.provider (h.client, h.unread refl))
          (Provided.run-Keeps IsByte size p c h.provider_bytes h.client_bytes))
        λ (p', c') ((took, valid), (bytes, left)).
          let unread : false ≡ true → c'.curr_state ≡ 4 → c'.buffer_index ≡ 0 =
            λ e. absurd (ground (arith, e)) in
          assumption

  control-Returns :
      (b : Bool) (x : Running Pool World)
      → IsSound os threads pixels b x
      → Returns (IsSound os threads pixels b) (call_run os threads fuel pixels control_run x)
  unfolding call_run
  control-Returns b x h =
      let s = x.statics.server in
      let (c, ne, at) = service control_context s refl h.services in
      Returns-bind (λ (buf, w). length buf ≡ Control.command_buf_len) (IsSound os threads pixels b)
        (Control.run os control_context x.command_buf s x.world) _
        (Commands.run_lem os control_context c x.command_buf s x.world ne at h.commands)
        λ (buf, w) len. assumption

  image_data_tl-Returns :
      (b : Bool) (x : Running Pool World)
      → IsSound os threads pixels b x
      → Returns (IsSound os threads pixels b) (call_run os threads fuel pixels image_data_tl_run x)
  unfolding call_run
  image_data_tl-Returns b x h =
      let s = x.statics.server in
      let t = x.statics.image_data_tl in
      let (c, ne, at) = service image_context s refl h.services in
      Returns-bind (λ (t', w). Handshake.IsValid t') (IsSound os threads pixels b)
        (ImageDataTl.run os image_context t s x.world) _
        (Handshake.run-IsValid os image_context c s ne at t x.world h.images)
        λ (t', w) valid. assumption

  -- A call keeps what holds between the calls, and ends by a value or by `exit(1)` unless it is a
  -- hazard, or stuck.
  pub call_run-Halts :
      (f : RunFunc) (b : Bool) (x : Running Pool World)
      → Needs f b
      → IsSound os threads pixels b x
      → Halts
          (IsSound os threads pixels (after f b))
          (CallHazard os threads pixels f x)
          (CallStuck os threads pixels f x)
          (call_run os threads fuel pixels f x)
  call_run-Halts client_run b x need h =
      Ends→Halts (IsSound os threads pixels true) (CallHazard os threads pixels client_run x) ⊥
        (call_run os threads fuel pixels client_run x) (client-Ends b x h)
  call_run-Halts server_run b x need h =
      Ends→Halts (IsSound os threads pixels b) (CallHazard os threads pixels server_run x) ⊥
        (call_run os threads fuel pixels server_run x) (server-Ends b x h)
  call_run-Halts algo_ctrl_run b x need h = algo_ctrl-Halts b x h
  call_run-Halts diag_run b x need h = diag-Halts b x h
  call_run-Halts image_provider_run true x need h =
      Returns→Halts (IsSound os threads pixels false) ⊥ ⊥ _ (image_provider-Returns x h)
  call_run-Halts image_provider_run false x need h = absurd need
  call_run-Halts control_run b x need h =
      Returns→Halts (IsSound os threads pixels b) ⊥ ⊥ _ (control-Returns b x h)
  call_run-Halts image_data_tl_run b x need h =
      Returns→Halts (IsSound os threads pixels b) ⊥ ⊥ _ (image_data_tl-Returns b x h)
