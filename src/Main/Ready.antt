-- ===== src/Main/Ready.antt =====
-- What the initializations have set up when the scheduler starts.
use pi_vision.Base.{
  ℕ, ◌+◌, ◌≤◌, ◌≡◌, refl, ◌≢◌, true, false, Option, none, some, List, [], ◌∷◌, ◌++◌, arith, leb,
  ltb, length, ℤ, Run, ok, exit, fault, out_of_fuel, Ends, Ends-bind, Ends-mono, Returns→Ends,
  Returns-mono, ◌>>=◌, blit, patch, Bool-cases, inl, inr, sym, subst,
}
use pi_vision.Constants.{gray_port_no, discover_gray_service, ip_address_length}
use pi_vision.Decimal.{c_string}
use pi_vision.Chain.{Ptr, null, write}
use pi_vision.Chain.Seg
use pi_vision.Chain.Seg.{Seg, nil, has}
use pi_vision.Sockets.{Sockets}
use pi_vision.Scheduler.{Scheduler, entry_link, set_entry, register_callback}
use pi_vision.Scheduler as Scheduler
use pi_vision.Scheduler.Order.{Registered, register_callback-Registered}
use pi_vision.Server.{context_link, Server}
use pi_vision.Server.Poll.{Services, Published}
use pi_vision.Server.Setup.{publish_service, inet_ntop, find_own_address, same_text, loopback}
use pi_vision.Server.Setup as Setup
use pi_vision.Server.Setup.Published.{fresh, publish_service-Published}
use pi_vision.Client as Client
use pi_vision.AlgoCtrl.{ThreadPool}
use pi_vision.Diag.{diag_port_no, diag_service_discovery_port_no}
use pi_vision.Control.{control_port_no, control_service_discovery_port_no}
use pi_vision.Main.{
  RunFunc, client_run, server_run, algo_ctrl_run, diag_run, image_provider_run, control_run,
  image_data_tl_run, client_entry, server_entry, algo_ctrl_entry, diag_entry, image_provider_entry,
  control_entry, image_data_tl_entry, diag_context, control_context, image_context, PiVision,
  register, context_of, publish, diag_init, ctrl_init, image_data_tl_init, main,
}

-- The callbacks in their order.
abbrev pub callbacks : List (Ptr × RunFunc)
callbacks =
    (client_entry, client_run)
    ∷ (server_entry, server_run)
    ∷ (algo_ctrl_entry, algo_ctrl_run)
    ∷ (diag_entry, diag_run)
    ∷ (image_provider_entry, image_provider_run)
    ∷ (control_entry, control_run)
    ∷ (image_data_tl_entry, image_data_tl_run)
    ∷ []

register-Registered :
    (F : Type 0) (fuel : ℕ) (p : Ptr) (f : RunFunc) (s : Scheduler RunFunc)
    (xs : List (Ptr × RunFunc))
    → Registered s xs
    → p ≢ null
    → has p xs ≡ false
    → length xs ≤ fuel
    → Ends (λ s'. Registered s' (xs ++ ((p, f) ∷ []))) F (register fuel p f s)
unfolding register set_entry
register-Registered F fuel p f s xs r ne new enough =
    Returns→Ends (λ s'. Registered s' (xs ++ ((p, f) ∷ []))) F _
      (Returns-mono
        (λ s'. Registered s' (xs ++ ((p, f) ∷ [])) × (s'.running ≡ (set_entry p f s).running))
        (λ s'. Registered s' (xs ++ ((p, f) ∷ []))) _ (λ s' (r', same). r')
        (register_callback-Registered fuel p (record { run = f; next = null }) (set_entry p f s) xs
          (Seg.frame (entry_link RunFunc) r (λ a i. ground arith)) ne (ground arith) new enough))

module _ (os : Sockets) where
  open os use {World}

  -- A service that has been published with these ports.
  abbrev Behind : Services → Ptr → ℕ → ℕ → Server × World → Type 0
  Behind xs p port discovery_port (v, w) =
      (server : ℤ) × (discovery : ℤ) × Published v
        (xs ++ ((p, fresh (context_of port discovery_port) server discovery) ∷ []))

  publish-Behind :
      (F : Type 0) (fuel : ℕ) (p : Ptr) (port discovery_port : ℕ) (v : Server) (w : World)
      (xs : Services)
      → Published v xs
      → p ≢ null
      → has p xs ≡ false
      → length xs ≤ fuel
      → Ends (Behind xs p port discovery_port) F (publish os fuel p port discovery_port v w)
  unfolding publish
  publish-Behind F fuel p port discovery_port v w xs r ne new enough =
      let v1 = record v { contexts = write v.contexts p (context_of port discovery_port) } in
      Ends-mono
        (λ (v', w').
          Behind xs p port discovery_port (v', w') × (v'.own_ip_address ≡ v1.own_ip_address))
        (Behind xs p port discovery_port) ⊥ F _ (λ (v', w') (h, same). h) (λ x. absurd x)
        (publish_service-Published os fuel p (context_of port discovery_port) v1 xs w
          (Seg.frame context_link r (λ a i. ground arith)) ne (ground arith) new enough)

  -- The search for the host's own address ends, or its array is too short.
  abbrev NoExit : {A : Type 0} → Run A → Type 0
  NoExit (ok a) = Unit
  NoExit (exit n) = ⊥
  NoExit fault = Unit
  NoExit out_of_fuel = ⊥

  find_own_address-NoExit :
      (found : List (Option (List ℕ))) (address : List ℕ) → NoExit (find_own_address found address)
  unfolding find_own_address inet_ntop blit
  find_own_address-NoExit [] address = tt
  find_own_address-NoExit (none ∷ more) address = find_own_address-NoExit more address
  find_own_address-NoExit (some a ∷ more) address =
      elim (Bool-cases (ltb (length a) ip_address_length)) [
        | inl short ↦
            rw short (elim (Bool-cases (leb (0 + length (a ++ (0 ∷ []))) (length address))) [
              | inl fits ↦
                  rw fits (named (find_own_address-NoExit more) (patch 0 (a ++ (0 ∷ [])) address))
              | inr full ↦ rw full tt
            ])
        | inr long ↦ rw long (named (find_own_address-NoExit more) address)
      ]
    where
      named :
          ((b : List ℕ) → NoExit (find_own_address more b))
          → (b : List ℕ)
          → NoExit (elim (same_text loopback (c_string b)) [
            | true ↦ find_own_address more b
            | false ↦ ok b
          ])
      named next b = elim (Bool-cases (same_text loopback (c_string b))) [
        | inl own ↦ rw own (next b)
        | inr other ↦ rw other tt
      ]

  -- The server starts with no services.
  init-Fresh :
      (v : Server) (w : World)
      → Ends (λ v'. v'.connections ≡ null) (Setup.init os v w ≡ fault) (Setup.init os v w)
  unfolding Setup.init
  init-Fresh v w =
      go (find_own_address (os.getifaddrs w) v.own_ip_address)
        (find_own_address-NoExit (os.getifaddrs w) v.own_ip_address)
    where
      go :
          (r : Run (List ℕ))
          → NoExit r
          → Ends
              (λ v'. v'.connections ≡ null)
              ((r >>= λ address. ok (record v { connections = null; own_ip_address = address }))
                ≡ fault)
              (r >>= λ address. ok (record v { connections = null; own_ip_address = address }))
      go (ok a) h = refl
      go (exit n) h = absurd h
      go fault h = refl
      go out_of_fuel h = absurd h

  -- A callback and a service more.
  abbrev Joined :
      List (Ptr × RunFunc)
      → Services
      → Ptr
      → RunFunc
      → Ptr
      → ℕ
      → ℕ
      → Scheduler RunFunc × Server × World
      → Type 0
  Joined cs xs entry f p port discovery_port (s, v, w) =
      Registered s (cs ++ ((entry, f) ∷ [])) × Behind xs p port discovery_port (v, w)

  diag_init-Joined :
      (F : Type 0) (fuel : ℕ) (s : Scheduler RunFunc) (v : Server) (w : World)
      (cs : List (Ptr × RunFunc)) (xs : Services)
      → Registered s cs
      → Published v xs
      → has diag_entry cs ≡ false
      → has diag_context xs ≡ false
      → length cs ≤ fuel
      → length xs ≤ fuel
      → Ends
          (Joined cs xs diag_entry diag_run diag_context diag_port_no
            diag_service_discovery_port_no)
          F
          (diag_init os fuel s v w)
  diag_init-Joined F fuel s v w cs xs r q new new' enough enough' =
      let port = diag_port_no in
      let discovery_port = diag_service_discovery_port_no in
      Ends-bind (λ s1. Registered s1 (cs ++ ((diag_entry, diag_run) ∷ []))) F _
        (register fuel diag_entry diag_run s) _
        (register-Registered F fuel diag_entry diag_run s cs r (λ e. absurd (omega (arith, e))) new
          enough)
        λ s1 r1.
          Ends-bind (Behind xs diag_context port discovery_port) F _
            (publish os fuel diag_context port discovery_port v w) _
            (publish-Behind F fuel diag_context port discovery_port v w xs q
              (λ e. absurd (omega (arith, e))) new' enough')
            λ (v1, w1) q1. (r1, q1)

  -- A module that publishes its service and then registers its callback.
  publish-register-Joined :
      (F : Type 0) (fuel : ℕ) (entry : Ptr) (f : RunFunc) (p : Ptr) (port discovery_port : ℕ)
      (s : Scheduler RunFunc) (v : Server) (w : World) (cs : List (Ptr × RunFunc)) (xs : Services)
      → entry ≢ null
      → p ≢ null
      → Registered s cs
      → Published v xs
      → has entry cs ≡ false
      → has p xs ≡ false
      → length cs ≤ fuel
      → length xs ≤ fuel
      → Ends (Joined cs xs entry f p port discovery_port) F (
          publish os fuel p port discovery_port v w >>= λ (v1, w1).
          register fuel entry f s >>= λ s1. ok (s1, v1, w1))
  publish-register-Joined F fuel entry f p port discovery_port s v w cs xs ne ne' r q new new'
        enough enough' =
      Ends-bind (Behind xs p port discovery_port) F _ (publish os fuel p port discovery_port v w) _
        (publish-Behind F fuel p port discovery_port v w xs q ne' new' enough')
        λ (v1, w1) q1.
          Ends-bind (λ s1. Registered s1 (cs ++ ((entry, f) ∷ []))) F _ (register fuel entry f s) _
            (register-Registered F fuel entry f s cs r ne new enough) λ s1 r1. (r1, q1)

  -- The three services, none with a client, on whatever sockets.
  abbrev pub Services3 : Server → Type 0
  Services3 v =
      (s1 s2 s3 d1 d2 d3 : ℤ) × Published v (
        (diag_context, fresh (context_of diag_port_no diag_service_discovery_port_no) s1 d1)
        ∷ (
          control_context,
          fresh (context_of control_port_no control_service_discovery_port_no) s2 d2,
        )
        ∷ (image_context, fresh (context_of gray_port_no discover_gray_service) s3 d3)
        ∷ [])

  -- With fuel for the seven callbacks the initializations end: by `exit(1)`, or in the fault of
  -- an array of the host's own address that is too short for it, or with the callbacks
  -- registered in the order client, server, algorithms, diagnosis, image provider, control and
  -- image service, and with the three services published in the order diagnosis, control and
  -- images, each with its ports and no client.
  pub main-Ready :
      (threads : ThreadPool) (fuel : ℕ) (p : PiVision threads.Pool) (w : World)
      → 7 ≤ fuel
      → Ends
          (λ (p', w'). Registered p'.scheduler callbacks × Services3 p'.server)
          (Setup.init os p.server (Client.init os p.client w).1 ≡ fault)
          (main os threads fuel p w)
  unfolding main Scheduler.init
  main-Ready threads fuel p w enough =
      let w1 = (Client.init os p.client w).1 in
      let F = Setup.init os p.server w1 ≡ fault in
      let Reg : List (Ptr × RunFunc) → Scheduler RunFunc → Type 0 = λ xs s. Registered s xs in
      let Ready : PiVision threads.Pool × World → Type 0 =
        λ (p', w'). Registered p'.scheduler callbacks × Services3 p'.server in
      let c1 : List (Ptr × RunFunc) = (client_entry, client_run) ∷ [] in
      let c2 : List (Ptr × RunFunc) = c1 ++ ((server_entry, server_run) ∷ []) in
      let c3 : List (Ptr × RunFunc) = c2 ++ ((algo_ctrl_entry, algo_ctrl_run) ∷ []) in
      let c4 : List (Ptr × RunFunc) = c3 ++ ((diag_entry, diag_run) ∷ []) in
      let c5 : List (Ptr × RunFunc) = c4 ++ ((image_provider_entry, image_provider_run) ∷ []) in
      let c6 : List (Ptr × RunFunc) = c5 ++ ((control_entry, control_run) ∷ []) in
      let s0 = Scheduler.init p.scheduler in
      Ends-bind (Reg c1) F Ready (register fuel client_entry client_run s0) _
        (register-Registered F fuel client_entry client_run s0 [] nil
          (λ e. absurd (omega (arith, e))) refl (omega arith))
        λ t1 r1.
          Ends-bind (λ v. v.connections ≡ null) F Ready (Setup.init os p.server w1) _
            (init-Fresh p.server w1)
            λ v1 empty.
              Ends-bind (Reg c2) F Ready (register fuel server_entry server_run t1) _
                (register-Registered F fuel server_entry server_run t1 c1 r1
                  (λ e. absurd (omega (arith, e))) refl (omega arith))
                λ t2 r2.
                  Ends-bind (Reg c3) F Ready (register fuel algo_ctrl_entry algo_ctrl_run t2) _
                    (register-Registered F fuel algo_ctrl_entry algo_ctrl_run t2 c2 r2
                      (λ e. absurd (omega (arith, e))) refl (omega arith))
                    λ t3 r3.
                      Ends-bind
                        (Joined c3 [] diag_entry diag_run diag_context diag_port_no
                          diag_service_discovery_port_no)
                        F Ready (diag_init os fuel t3 v1 w1) _
                        (diag_init-Joined F fuel t3 v1 w1 c3 [] r3 (no_services v1 empty) refl refl
                          (omega arith) (omega arith))
                        λ (t4, v2, w2) (r4, (s1, d1, q2)).
                          let x1 : Services =
                            (
                              diag_context,
                              fresh (context_of diag_port_no diag_service_discovery_port_no) s1 d1,
                            )
                            ∷ [] in
                          Ends-bind (Reg c5) F Ready
                            (register fuel image_provider_entry image_provider_run t4) _
                            (register-Registered F fuel image_provider_entry image_provider_run t4
                              c4 r4 (λ e. absurd (omega (arith, e))) refl (omega arith))
                            λ t5 r5.
                              Ends-bind
                                (Joined c5 x1 control_entry control_run control_context
                                  control_port_no control_service_discovery_port_no)
                                F Ready (ctrl_init os fuel t5 v2 w2) _
                                (publish-register-Joined F fuel control_entry control_run
                                  control_context control_port_no control_service_discovery_port_no
                                  t5 v2 w2 c5 x1 (λ e. absurd (omega (arith, e)))
                                  (λ e. absurd (omega (arith, e))) r5 q2 refl refl (omega arith)
                                  (omega arith))
                                λ (t6, v3, w3) (r6, (s2, d2, q3)).
                                  let x2 : Services =
                                    x1
                                    ++ ((
                                      control_context,
                                      fresh
                                          (context_of control_port_no
                                            control_service_discovery_port_no)
                                          s2 d2,
                                    )
                                        ∷ []) in
                                  Ends-bind
                                    (Joined c6 x2 image_data_tl_entry image_data_tl_run
                                      image_context gray_port_no discover_gray_service)
                                    F Ready (image_data_tl_init os fuel t6 v3 w3) _
                                    (publish-register-Joined F fuel image_data_tl_entry
                                      image_data_tl_run image_context gray_port_no
                                      discover_gray_service t6 v3 w3 c6 x2
                                      (λ e. absurd (omega (arith, e)))
                                      (λ e. absurd (omega (arith, e))) r6 q3 refl refl (omega arith)
                                      (omega arith))
                                    λ (t7, v4, w4) (r7, (s3, d3, q4)).
                                      (r7, (s1, s2, s3, d1, d2, d3, q4))
    where
      no_services : (v : Server) → v.connections ≡ null → Published v []
      no_services v empty = subst (λ h. Seg context_link v.contexts h []) (sym empty) nil
