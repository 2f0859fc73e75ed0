-- ===== src/Main/Loop/Safe.antt =====
-- The whole program: the initializations, and then as many rounds of the scheduler as are allowed.
use pi_vision.Base.{
  ℕ, ◌+◌, ◌^◌, ◌≤◌, ◌<◌, ◌≡◌, refl, Bool, false, List, arith, Run, ok, exit, fault, out_of_fuel,
  Ends, Ends-Keeps, Halts, ◌>>=◌, ap,
}
use pi_vision.Sockets.{Sockets}
use pi_vision.Scheduler as Scheduler
use pi_vision.Scheduler.Order.{Registered, rounds, run-rounds}
use pi_vision.Scheduler.Rounds.{MeetsIn, InOrder, rounds-Halts}
use pi_vision.Server.Setup as Setup
use pi_vision.Client as Client
use pi_vision.Client.Contents.{Gives}
use pi_vision.Server.Setup.Address.{init-no_fault}
use pi_vision.ImageNormalizerAlgo.{image_filter_high}
use pi_vision.ImageNormalizerAlgo.Grayscale.{IsByte}
use pi_vision.AlgoCtrl.{Algorithms, ThreadPool}
use pi_vision.Main.{PiVision, RunFunc, main}
use pi_vision.Main.Ready.{callbacks, Services3, main-Ready}
use pi_vision.Main.Loop.{Running, call, main_loop}
use pi_vision.Main.Loop.Sound.{after, Needs, IsSound, Hazard, Stuck}
use pi_vision.Main.Loop.Jobs.{call-Halts}
use pi_vision.Main.Loop.Start.{IsLoaded, Initialized, start, main-Initialized, started-IsSound}

-- The order of the callbacks meets what they need, whatever was called before.
callbacks-InOrder : (b : Bool) → InOrder after Needs callbacks b
callbacks-InOrder b = (tt, (tt, (tt, (tt, (tt, (tt, (tt, tt)))))))

module _ (os : Sockets) (threads : ThreadPool) (fuel pixels : ℕ) (jobs : ℕ → ℕ) where
  open os use {World}
  open threads use {Pool}

  abbrev step : RunFunc → Running Pool World → Run (Running Pool World)
  step = call os threads fuel pixels jobs

  -- How the program may end, or how far it gets: by `exit(1)`; in a fault where one of the calls was
  -- made in a state that is a hazard for it; in a call that may not return, as it sends to a client
  -- whose socket refuses to take any byte; or it still runs after all the rounds, in a sound state.
  pub data Outcome (n : ℕ) (p : PiVision Pool) (algos : Algorithms) (command_buf : List ℕ)
      (w : World) (r : Run (Running Pool World)) : Type 0 where
    exits : r ≡ exit 1 → Outcome n p algos command_buf w r
    hazard :
        {p' : PiVision Pool} {w' : World}
        → main os threads fuel p w ≡ ok (p', w')
        → MeetsIn step
            (Hazard os threads pixels fuel jobs)
            callbacks
            n
            (start os threads fuel pixels p' algos command_buf w')
        → r ≡ fault
        → Outcome n p algos command_buf w r
    stuck :
        {p' : PiVision Pool} {w' : World}
        → main os threads fuel p w ≡ ok (p', w')
        → MeetsIn step
            (Stuck os threads pixels fuel jobs)
            callbacks
            n
            (start os threads fuel pixels p' algos command_buf w')
        → r ≡ out_of_fuel
        → Outcome n p algos command_buf w r
    runs :
        {p' : PiVision Pool} {w' : World} {x : Running Pool World}
        → main os threads fuel p w ≡ ok (p', w')
        → rounds step callbacks n (start os threads fuel pixels p' algos command_buf w') ≡ ok x
        → IsSound os threads pixels false x
        → r ≡ out_of_fuel
        → Outcome n p algos command_buf w r

  module _ (gives : Gives os IsByte) (enough : image_filter_high < pixels) (few : pixels < 2 ^ 24)
      (fueled : pixels + 8 ≤ fuel) (n : ℕ) (p : PiVision Pool) (algos : Algorithms)
      (command_buf : List ℕ) (w : World) (loaded : IsLoaded pixels p algos command_buf) where
    in_rounds :
        (p' : PiVision Pool) (w' : World)
        → main os threads fuel p w ≡ ok (p', w')
        → Registered p'.scheduler callbacks
        → IsSound os threads pixels false (start os threads fuel pixels p' algos command_buf w')
        → Outcome n p algos command_buf w (
            Scheduler.run step fuel n p'.scheduler
              (start os threads fuel pixels p' algos command_buf w'))
    in_rounds p' w' e registered sound =
        rw (run-rounds step fuel n p'.scheduler callbacks x registered (omega arith)) (
          go (rounds step callbacks n x) refl (
            rounds-Halts step after Needs (Hazard os threads pixels fuel jobs)
              (Stuck os threads pixels fuel jobs) (IsSound os threads pixels)
              (call-Halts os threads fuel pixels enough few gives fueled jobs) callbacks false
              callbacks-InOrder (λ b. refl) n x sound))
      where
        x : Running Pool World
        x = start os threads fuel pixels p' algos command_buf w'

        go :
            (r : Run (Running Pool World))
            → rounds step callbacks n x ≡ r
            → Halts
                (IsSound os threads pixels false)
                (MeetsIn step (Hazard os threads pixels fuel jobs) callbacks n x)
                (MeetsIn step (Stuck os threads pixels fuel jobs) callbacks n x)
                r
            → Outcome n p algos command_buf w (r >>= λ _. out_of_fuel)
        go (ok x') e' h = Outcome.runs e e' h refl
        go (exit m) e' h = Outcome.exits (ap exit h)
        go fault e' h = Outcome.hazard e h refl
        go out_of_fuel e' h = Outcome.stuck e h refl

    -- Started with its statics as they are loaded, the program ends by `exit(1)`; or one of the calls
    -- of its rounds meets a named hazard, its own or that of a job in front of it, and has a fault; or
    -- one of the calls sends to a connected client whose socket refuses to take any byte, and it may
    -- never return; or the program still runs after all the rounds, in a sound state. This holds for
    -- every number of rounds, whatever number of jobs the workers execute in front of each call, and
    -- whatever the calls of `send` give, where `recv` gives bytes, images have more than 240 and fewer
    -- than 2^24 pixels, and the fuel is at least 8 more than the pixels.
    pub main_loop-Outcome :
        Outcome n p algos command_buf w
          (main_loop os threads fuel pixels jobs n p algos command_buf w)
    unfolding main_loop
    main_loop-Outcome = go (main os threads fuel p w) refl (
        Ends-Keeps (λ (p', w'). Registered p'.scheduler callbacks × Services3 os p'.server)
          (λ (p', w'). Initialized os threads fuel pixels p w p')
          (Setup.init os p.server (Client.init os p.client w).1 ≡ fault) (main os threads fuel p w)
          (main-Ready os threads fuel p w (omega arith))
          (main-Initialized os threads fuel pixels p w))
      where
        go :
            (r : Run (PiVision Pool × World))
            → main os threads fuel p w ≡ r
            → Ends
                (λ (p', w').
                  (Registered p'.scheduler callbacks × Services3 os p'.server)
                  × Initialized os threads fuel pixels p w p')
                (Setup.init os p.server (Client.init os p.client w).1 ≡ fault)
                r
            → Outcome n p algos command_buf w (
                r >>= λ (p', w').
                Scheduler.run step fuel n p'.scheduler
                  (start os threads fuel pixels p' algos command_buf w'))
        go (ok (p', w')) e ((registered, services), initialized) = in_rounds p' w' e registered (
            started-IsSound os threads fuel pixels p p' algos command_buf w w' (omega arith) loaded
              initialized services)
        go (exit m) e h = Outcome.exits (ap exit h)
        go fault e h = absurd (init-no_fault os p.server (Client.init os p.client w).1 loaded.own h)
        go out_of_fuel e h = absurd h
