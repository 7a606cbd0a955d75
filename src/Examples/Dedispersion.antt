-- ===== src/Examples/Dedispersion.antt =====
-- The mask counters of a chain, and a server with four dedispersion threads whose libraries return.
use ch_frb_l.Base.{
  ℕ, zero, suc, ◌≡◌, ◌↔◌, refl, subst, true, false, List, [], ◌∷◌, Option, none, some, ok, err,
  Throws, Text, txt, pos, inl, arith, replicate, insert,
}
use ch_frb_l.Util.{counted, xdiv, vcontains}
use ch_frb_l.MaskStats.{MaskStats, put}
use ch_frb_l.L1Config.{BonsaiConfig}
use ch_frb_l.L1Config.Checks.{
  check_settings, check_counts, check_streams, check_kernels, check_ringbufs,
  check_beams_per_stream,
}
use ch_frb_l.L1Config.Checks.Sane.{check_settings-IsSane}
use ch_frb_l.L1Config.Derived.{pipe_capacity}
use ch_frb_l.L1Config.Environment.{L1Config, have_warnings}
use ch_frb_l.L1Config.Constructor.Accepted.{IsAccepted}
use ch_frb_l.L1Server.{L1Server, Context}
use ch_frb_l.L1Server.Cores.{pin_cores, init_subscale}
use ch_frb_l.L1Server.Vectors.{for_each, resize}
use ch_frb_l.L1Server.Phases.{
  spawn_l1b_subprocesses, make_output_devices, make_memory_slab_pools, make_input_streams,
  make_mask_stats, make_prometheus_servers, spawn_dedispersion_threads, make_stream, make_context,
}
use ch_frb_l.L1Server.Rpc.{Announcement, concat}
use ch_frb_l.L1Server.Rpc.Waiting.{announced}
use ch_frb_l.L1Server.Phases.Libraries.{always}
use ch_frb_l.L1Server.Main.{l1_server, start}
use ch_frb_l.L1Server.Ending.{Ending, main}
use ch_frb_l.L1Server.Ending.Returns.{main_iff}
use ch_frb_l.Dedispersion.{
  MaskCounter, Stage, MaskSettings, attrs_of, is_clipper, find_mask_counters, visit, set_up,
  init_mask_counters,
}
use ch_frb_l.Dedispersion.Masks.{IsLast}
use ch_frb_l.Dedispersion.Filled.{Fills, init_mask_counters-Fills}
use ch_frb_l.Dedispersion.Threads.{
  Libraries, before_run, finish, thread_main, dedispersion_thread_main, lift, act, ◌>>=◌,
  find_last_transform,
}
use ch_frb_l.Dedispersion.Threads.Served.{thread_calls_of, HaveArrived, ArePrepared}
use ch_frb_l.Examples.L1Config.{env, io, num, settings, config, config-IsAccepted}

abbrev counter : Text → ℕ → MaskCounter ℕ
counter place ring = record { place = place; ringbuf = λ attrs. some ring }

abbrev chain : List (Stage ℕ)
chain =
    record { class_name = txt "mask_counter"; mask_counter = some (counter (txt "before_rfi") 1) }
    ∷ record { class_name = txt "intensity_clipper"; mask_counter = none }
    ∷ record { class_name = txt "mask_counter"; mask_counter = some (counter (txt "after_rfi") 2) }
    ∷ record { class_name = txt "spline_detrender"; mask_counter = none }
    ∷ []

abbrev mask_settings : MaskSettings
mask_settings = record {
  nrfifreq = pos 1024;
  rfi_mask_meas_history = pos 300;
  beam_id = pos 10;
  sp = 0;
}

abbrev no_masks : MaskStats ℕ
no_masks = record { entries = [] }

abbrev both_masks : MaskStats ℕ
both_masks = record {
  entries = ((pos 10, txt "before_rfi"), 1) ∷ ((pos 10, txt "after_rfi"), 2) ∷ [];
}

set_up_chain :
    init_mask_counters mask_settings chain no_masks
    ≡ ok (attrs_of mask_settings 2 0 ∷ attrs_of mask_settings 2 1 ∷ [], both_masks)
unfolding init_mask_counters visit find_mask_counters is_clipper set_up put insert
set_up_chain = refl

init_mask_counters-Fills_example :
    (last : MaskCounter ℕ) × IsLast chain last
    × (n : ℕ) × Fills mask_settings n n last
        (attrs_of mask_settings 2 0 ∷ attrs_of mask_settings 2 1 ∷ [])
        both_masks
init_mask_counters-Fills_example =
    init_mask_counters-Fills mask_settings chain no_masks both_masks
      (attrs_of mask_settings 2 0 ∷ attrs_of mask_settings 2 1 ∷ []) refl set_up_chain

abbrev bonsai : BonsaiConfig
bonsai = record {
  nfreq = pos 16384;
  nt_chunk = 1024;
  transfer_matrices = true ∷ [];
  ntriggers_per_chunk = 256 ∷ [];
  serialized_size = 100;
}

-- The server without -t.
abbrev pub real_config : L1Config ℕ
real_config = record config { options = record options { tflag = false }; bonsai = some bonsai }
  where
    open config use {options}

real_checked : check_settings io num (some bonsai) (txt "l1.yaml") settings ≡ ok tt
unfolding check_settings check_counts check_streams check_kernels check_ringbufs
    check_beams_per_stream
real_checked = refl

pub real-IsAccepted : IsAccepted env real_config
unfolding vcontains pipe_capacity
real-IsAccepted = record {
  sane = (check_settings-IsSane io num (some bonsai) settings (txt "l1.yaml")).0 real_checked;
  ports = refl;
  beams = refl;
  streamed = (refl, (refl, tt));
  derived = config-IsAccepted.derived;
  capacity = refl;
  quiet = inl refl;
}

abbrev pub argv : List Text
argv = txt "ch-frb-l1" ∷ txt "-f" ∷ txt "l1.yaml" ∷ []

abbrev pub RealServer : Type 0
RealServer = L1Server ℕ ℕ ℕ

-- What a computation returns, or else another value.
abbrev pub returned_or : {A : Type 0} → Throws A → A → A
returned_or (ok a) d = a
returned_or (err e) d = d

abbrev pub server : RealServer
server = record {
  config = real_config;
  cores = record {
    ncpus = 1;
    cores_on_cpu = [] ∷ [];
    output_thread_cores = [];
    network_thread_cores = [];
    dedispersion_cores = replicate 4 [];
    assembler_thread_cores = replicate 2 [];
    asynchronous_dedispersion = false;
    sleep_hack = 0;
  };
  command_line = txt "ch-frb-l1 -f l1.yaml";
  l1b_subprocesses = [];
  output_devices = [];
  memory_slab_pools = [];
  input_streams = [];
  mask_stats_maps = 0;
  rpc_servers = [];
  prometheus_servers = [];
  dedispersion_threads = [];
  bonsai_dedispersers = [];
  latency_monitors_pre = [];
  latency_monitors_post = [];
}

pub built : l1_server 8 argv real_config ≡ ok server
unfolding l1_server pin_cores init_subscale have_warnings
built = refl

abbrev started : RealServer
unfolding start spawn_l1b_subprocesses make_output_devices make_memory_slab_pools make_input_streams
    make_stream make_mask_stats make_prometheus_servers spawn_dedispersion_threads make_context
    for_each counted xdiv vcontains resize
started = returned_or (start always io server) server

start_returns : start always io server ≡ ok started
unfolding start spawn_l1b_subprocesses make_output_devices make_memory_slab_pools make_input_streams
    make_stream make_mask_stats make_prometheus_servers spawn_dedispersion_threads make_context
    for_each counted xdiv vcontains resize
start_returns = refl

-- Objects are numbers; a chain is the object 1, and the visit finds the objects 2, 3 and 4 below it.
abbrev lib : Libraries ℕ ℕ ℕ ℕ
lib = record {
  pin_thread_to_cores = λ cores. ok tt;
  make_chime_network_stream = λ sp beam_id prescale. ok 0;
  make_rfi_chain = λ name. ok 1;
  visited = λ p. 1 ∷ 2 ∷ 3 ∷ 4 ∷ [];
  stage = λ p. record {
    class_name = txt "mask_counter";
    mask_counter = some (counter (txt "before_rfi") 1);
  };
  make_dedisperser = λ c asynchronous processors. ok 5;
  make_bonsai_dedisperser = λ d. ok 6;
  run_all = λ p. ok tt;
}

abbrev announcement : ℕ → Announcement ℕ ℕ
announcement i = record { beam = i; bonsai = 5; latency_pre = 0; latency_post = 4 }

abbrev pub first : List (Announcement ℕ ℕ)
first = announcement 0 ∷ announcement 3 ∷ announcement 2 ∷ []

abbrev pub later : List (List (Announcement ℕ ℕ))
later = (announcement 1 ∷ []) ∷ []

abbrev no_chunks : ℕ → List (Option ℕ)
no_chunks i = []

some_injective : {A : Type 0} {a b : A} → ◌≡◌ {A = Option A} (some a) (some b) → a ≡ b
some_injective h = cc

abbrev Agrees : ℕ → Context ℕ → Type 0
Agrees i k =
    announced (concat (first ∷ later)) i
    ≡ announced (thread_calls_of lib (λ i. no_masks) no_chunks started.config k i) i

have_arrived : HaveArrived lib (λ i. no_masks) no_chunks started (concat (first ∷ later))
unfolding started concat dedispersion_thread_main thread_main before_run finish lift act ◌>>=◌
    init_mask_counters visit find_mask_counters is_clipper set_up put insert find_last_transform
have_arrived zero k h = subst (Agrees 0) (some_injective h) refl
have_arrived (suc zero) k h = subst (Agrees 1) (some_injective h) refl
have_arrived (suc (suc zero)) k h = subst (Agrees 2) (some_injective h) refl
have_arrived (suc (suc (suc zero))) k h = subst (Agrees 3) (some_injective h) refl
have_arrived (suc (suc (suc (suc i)))) k h = cc

abbrev pub stream_statistics : ℕ → List (List (Text × ℕ))
stream_statistics i = ((txt "count_packets_good", 17) ∷ []) ∷ []

abbrev pub workfrac : ℕ → ℕ → Text
workfrac waiting working = txt "0.5"

main_iff_example :
    ((r : List Ending × List Text) × (main workfrac always io
          (first ∷ later)
          stream_statistics
          server
        ≡ some (ok r)))
    ↔ ArePrepared lib (λ i. no_masks) no_chunks started
main_iff_example =
    main_iff lib (λ i. no_masks) no_chunks env always 8 argv real_config server started first later
      workfrac stream_statistics real-IsAccepted built start_returns have_arrived
      (λ i p. omega arith)
