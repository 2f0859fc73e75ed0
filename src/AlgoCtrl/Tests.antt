-- ===== src/AlgoCtrl/Tests.antt =====
-- Tests of the algorithm control with frames of one pixel and of 241, and a pool that is the list of its
-- jobs.
use pi_vision.Base.{
  ℕ, pos, length, length-replicate, All-replicate, ◌==◌, if◌then◌else◌, Ends, ap, ◌≡◌, refl, inr,
  none, some, List, [], ◌∷◌, ◌++◌, arith, drop, replicate, ok,
}
use pi_vision.Chain.{null}
use pi_vision.Sockets.{Sockets}
use pi_vision.Sockets.Scripted.{script, peer, scripted}
use pi_vision.Server.{Server, ServerContext}
use pi_vision.ImageNormalizerAlgo.Grayscale.{IsByte, means}
use pi_vision.ImageNormalizerAlgo.Result.{Degenerate}
use pi_vision.AlgoCtrl.Ends.{IsSound}
use pi_vision.AlgoCtrl.Pipeline.{Sent, frame_out, frame_out-Sent}
use pi_vision.ImageDataTl.{ImageDataTl, send_data}
use pi_vision.ImageProvider.{ImageProvider}
use pi_vision.ImageProvider.Copy.{IsReady}
use pi_vision.AlgoCtrl.{
  AlgoCtrl, Algorithms, algo_init, algo_running, normal_exec, diff_exec, null_array, rec_array, Job,
  ThreadPool, run, init,
}
use pi_vision.AlgoCtrl.Frame.{run_starts, run_drops}
use pi_vision.AlgoCtrl.Jobs.{normal_job, Step, Reachable, OneJob, Reachable-OneJob}

abbrev threads : ThreadPool
threads = record {
  Pool = List Job;
  init_thread_pool = λ n. [];
  sched_job = λ j p. p ++ (j ∷ []);
  finish_job = λ p. drop 1 p;
  unfinished = λ p. p;
  unfinished-init = λ n. refl;
  unfinished-sched_job = λ j p. refl;
  unfinished-finish_job = λ p. refl;
}

abbrev ctrl : AlgoCtrl
ctrl = record {
  algorithm0 = record {
    state = algo_init;
    input_data = null_array;
    output_data = null_array;
    output_data_size = 0;
    exec = normal_exec;
  };
  algorithm1 = record {
    state = algo_init;
    input_data = null_array;
    output_data = null_array;
    output_data_size = 0;
    exec = diff_exec;
  };
  rec_buffer = 0 ∷ 0 ∷ 0 ∷ [];
}

abbrev algos : Algorithms
algos = record {
  normalizer = record {
    grayscale_image = 0 ∷ [];
    normalized_image = 0 ∷ [];
    max_intensity = 0;
    min_intensity = 255;
    average_intensity = 0;
    standard_deviation = 0;
  };
  diff = record { received_first_image = 0; prev_buffer = 0 ∷ 0 ∷ 0 ∷ []; image_to_send = 0 ∷ [] };
}

abbrev provider : ImageProvider
provider = record { rec_buffer = 1 ∷ 2 ∷ 3 ∷ []; rec_buffer_size = 3 }

provider-IsReady : IsReady 3 provider
provider-IsReady = record { room = refl; whole = inr refl }

abbrev tl : ImageDataTl
tl = record {
  state = send_data;
  num_dropped_frames = 0;
  num_dropped_frames_ack = 0;
  frame_no = 0;
  ack_buf = replicate 9 0;
}

abbrev server : Server
server = record {
  contexts = λ p. none;
  connections = null;
  own_ip_address = replicate 16 0;
  addr = peer;
}

abbrev os : Sockets
os = scripted (λ calls n. some n)

abbrev running : AlgoCtrl
running = record ctrl {
  algorithm0 = record ctrl.algorithm0 { state = algo_running; input_data = rec_array };
  rec_buffer = 1 ∷ 2 ∷ 3 ∷ [];
}

abbrev newer : ImageProvider
newer = record provider { rec_buffer = 7 ∷ 8 ∷ 9 ∷ [] }

first_frame_starts :
    run threads os 1 5 1 ctrl algos provider [] tl server (script [])
    ≡ ok ((running, normal_job ∷ []), (tl, script []))
first_frame_starts =
    run_starts threads os 1 5 1 ctrl algos provider [] tl server (script []) (omega arith)
      (omega arith) refl provider-IsReady refl refl

run_drops_example :
    run threads os 1 5 1 running algos newer (normal_job ∷ []) tl server (script [])
    ≡ ok ((record running { rec_buffer = 7 ∷ 8 ∷ 9 ∷ [] }, normal_job ∷ []), (tl, script []))
run_drops_example =
    run_drops threads os 1 5 1 running algos newer (normal_job ∷ []) tl server (script [])
      (omega arith) (omega arith) refl (record { room = refl; whole = inr refl }) refl refl

-- The system after the first frame.
one_frame :
    Reachable threads os 1 (record { ctrl = running; algos = algos; pool = normal_job ∷ [] })
unfolding init
one_frame =
    Reachable.next (Reachable.start ctrl algos)
      (Step.by_run 1 5 provider tl server (script []) first_frame_starts)

Reachable-OneJob_example : OneJob threads running (normal_job ∷ [])
Reachable-OneJob_example = Reachable-OneJob threads os 1 one_frame

-- A frame of 241 pixels, one of them white, on which the job works.
abbrev spot : List ℕ
spot = 255 ∷ 255 ∷ 255 ∷ replicate 720 0

abbrev on_spot : AlgoCtrl
on_spot = record running { rec_buffer = spot }

abbrev service : ServerContext
service = record {
  served_port_no = 3380;
  service_discovery_port_no = 3380;
  connected = 1;
  server_socket = pos 4;
  service_discovery_socket = pos 5;
  client_socket = pos 6;
  next = null;
}

abbrev served : Server
served = record server { contexts = λ p. if p == 1 then some service else none }

abbrev next_frame : ImageProvider
next_frame = record { rec_buffer = replicate 723 9; rec_buffer_size = 723 }

on_spot-IsSound : IsSound threads 241 on_spot algos (normal_job ∷ [])
on_spot-IsSound = record {
  one = OneJob.busy refl refl refl refl;
  room = omega (arith, length-replicate {A = ℕ} 720 0);
  bytes = (omega arith, (omega arith, (omega arith, All-replicate IsByte 720 0 (omega arith))));
  reset = record { top = refl; bottom = refl; average = omega arith };
  output = λ e. absurd (ground (arith, e));
}

whole : (buf : List ℕ) → (os.send (pos 6) buf (script [])).0 ≡ pos (length buf)
whole buf = ap pos (ground arith)

frame_out-Sent_example :
    Ends
      (Sent threads os service 241 on_spot algos tl (script []))
      (Degenerate 241 (record algos.normalizer { grayscale_image = means spot }))
      (frame_out threads os 1 served 0 241 on_spot algos
        (normal_job ∷ [])
        next_frame
        tl
        (script []))
frame_out-Sent_example =
    frame_out-Sent threads os 1 service served (omega arith) refl (omega arith) 0 241 (omega arith)
      (omega arith) on_spot algos (normal_job ∷ []) next_frame tl (script []) on_spot-IsSound refl
      (record { room = length-replicate {A = ℕ} 723 9; whole = inr refl })
      (All-replicate IsByte 723 9 (omega arith)) refl whole
