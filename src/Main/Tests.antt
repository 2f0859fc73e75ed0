-- ===== src/Main/Tests.antt =====
-- The initializations and the rounds behind them on one machine, whose pool is the list of its jobs.
use pi_vision.Base.{
  ℕ, ◌≡◌, refl, none, List, [], ◌∷◌, ◌++◌, arith, drop, replicate, pos, some, fault, Ends, take,
  length-take, length-replicate, ap, subst, All, All-take, All-replicate,
}
use pi_vision.Sockets.Scripted.{scripted, script, peer, size_of}
use pi_vision.Server.{Server}
use pi_vision.Server.Setup as Setup
use pi_vision.Scheduler.Order.{Registered}
use pi_vision.Client.{Client}
use pi_vision.Client as Client
use pi_vision.ImageDataTl.{send_data}
use pi_vision.AlgoCtrl.{Job, ThreadPool, PiVisAlgoContext, algo_init, normal_exec, null_array}
use pi_vision.Main.{PiVision, main}
use pi_vision.Main.Ready.{callbacks, Services3, main-Ready}
use pi_vision.Main.Loop.{main_loop}
use pi_vision.Main.Loop.Start.{IsLoaded}
use pi_vision.Main.Loop.Safe.{Outcome, main_loop-Outcome}
use pi_vision.Client.Contents.{Gives}
use pi_vision.ImageNormalizerAlgo.Grayscale.{IsByte}
use pi_vision.AlgoCtrl.{Algorithms}
use pi_vision.Sockets.{Sockets, Received, failed, received}

abbrev threads : ThreadPool
threads = record {
  Pool = List Job;
  init_thread_pool = λ n. [];
  sched_job = λ j p. p ++ (j ∷ []);
  finish_job = λ p. drop 1 p;
  unfinished = λ p. p;
  unfinished-init = λ n. refl;
  unfinished-sched_job = λ j p. refl;
  unfinished-finish_job = λ p. refl;
}

abbrev context : PiVisAlgoContext
context = record {
  state = algo_init;
  input_data = null_array;
  output_data = null_array;
  output_data_size = 0;
  exec = normal_exec;
}

abbrev server : Server
server = record {
  contexts = λ p. none;
  connections = 0;
  own_ip_address = replicate 16 0;
  addr = peer;
}

abbrev client : Client
client = record {
  server_address = replicate 16 0;
  curr_state = 0;
  socket_fd = pos 0;
  service_discovery_socket = pos 0;
  cam_buf_header = replicate 8 0;
  buffer = replicate 6 0;
  buffer_index = 0;
  header_index = 0;
}

abbrev statics : PiVision (List Job)
statics = record {
  scheduler = record { entries = λ p. none; registered_funcs = 0; running = 0 };
  server = server;
  client = client;
  image_provider = record { rec_buffer = replicate 6 0; rec_buffer_size = 0 };
  image_data_tl = record {
    state = send_data;
    num_dropped_frames = 0;
    num_dropped_frames_ack = 0;
    frame_no = 0;
    ack_buf = replicate 9 0;
  };
  algo_ctrl = record { algorithm0 = context; algorithm1 = context; rec_buffer = replicate 6 0 };
  thread_context = [];
}

main-Ready_example :
    Ends
      (λ (p', w').
        Registered p'.scheduler callbacks × Services3 (scripted (λ m n. some n)) p'.server)
      (Setup.init
          (scripted (λ m n. some n))
          server
          (Client.init (scripted (λ m n. some n)) client (script [])).1
        ≡ fault)
      (main (scripted (λ m n. some n)) threads 7 statics (script []))
main-Ready_example =
    main-Ready (scripted (λ m n. some n)) threads 7 statics (script []) (omega arith)

-- The same machine, whose `recv` gives two bytes with each call.
abbrev two_bytes : List ℕ
two_bytes = 255 ∷ 0 ∷ []

abbrev octets : Sockets
octets = record (scripted (λ m n. some n)) {
  recv = λ fd n w. (received (take n two_bytes), w);
  recv-le = λ fd n w {bytes} e. omega (arith, length-take n two_bytes, ap (λ r. size_of r) e);
}

abbrev bytes_of : Received → List ℕ
bytes_of failed = []
bytes_of (received bytes) = bytes

octets_give : Gives octets IsByte
octets_give fd n w bytes e =
    subst (λ r. All IsByte (bytes_of r)) e
      (All-take IsByte n two_bytes (omega arith, (omega arith, tt)))

-- Images of 241 pixels.
abbrev loaded : PiVision (List Job)
loaded = record statics {
  client = record client { buffer = replicate 723 0 };
  image_provider = record { rec_buffer = replicate 723 0; rec_buffer_size = 0 };
  algo_ctrl = record { algorithm0 = context; algorithm1 = context; rec_buffer = replicate 723 0 };
}

abbrev algorithms : Algorithms
algorithms = record {
  normalizer = record {
    grayscale_image = replicate 241 0;
    normalized_image = replicate 241 0;
    max_intensity = 0;
    min_intensity = 255;
    average_intensity = 0;
    standard_deviation = 0;
  };
  diff = record {
    received_first_image = 0;
    prev_buffer = replicate 241 0;
    image_to_send = replicate 241 0;
  };
}

loaded-IsLoaded : IsLoaded 241 loaded algorithms (replicate 256 0)
loaded-IsLoaded = record {
  own = refl;
  state = refl;
  header_index = refl;
  buffer_index = refl;
  header = refl;
  buffer = length-replicate {A = ℕ} 723 0;
  buffer_bytes = All-replicate IsByte 723 0 (omega arith);
  provided = length-replicate {A = ℕ} 723 0;
  provided_bytes = All-replicate IsByte 723 0 (omega arith);
  ack_room = refl;
  received = length-replicate {A = ℕ} 723 0;
  received_bytes = All-replicate IsByte 723 0 (omega arith);
  reset = record { top = refl; bottom = refl; average = omega arith };
  commands = length-replicate {A = ℕ} 256 0;
}

main_loop-Outcome_example :
    Outcome octets threads 249 241
      (λ turn. 1)
      2
      loaded
      algorithms
      (replicate 256 0)
      (script [])
      (main_loop octets threads 249 241
        (λ turn. 1)
        2
        loaded
        algorithms
        (replicate 256 0)
        (script []))
main_loop-Outcome_example =
    main_loop-Outcome octets threads 249 241 (λ turn. 1) octets_give (omega arith) (omega arith)
      (omega arith) 2 loaded algorithms (replicate 256 0) (script []) loaded-IsLoaded
