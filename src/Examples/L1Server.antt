-- ===== src/Examples/L1Server.antt =====
-- A toy server, and the core pinning of servers with 16 and 8 beams.
use ch_frb_l.Base.{
  ◌/◌, ◌&&◌, not, nat_beq, ℕ, ◌≡◌, ◌↔◌, refl, true, false, List, [], ◌∷◌, ◌++◌, some, none, ok,
  Text, txt, ℤ, pos, replicate, get_or, nat_eq, int_eq, arith,
}
use ch_frb_l.Util.{counted, vrange, vconcat, vcontains, xdiv}
use ch_frb_l.L1Config.Environment.{L1Config, have_warnings}
use ch_frb_l.L1Server.{Succeeds, L1Server, CorePinning, SlabPool, InputStream}
use ch_frb_l.L1Server.Cores.{
  nbeams_of, pin_cores, init_subscale, init_20cores_16beams, init_20cores_8beams, pinned16, pinned8,
}
use ch_frb_l.L1Server.Cores.Pinning.{disjoint, all_apart, on_cpu, pin_cores-apart, pin_cores-shared}
use ch_frb_l.L1Server.Vectors.{for_each}
use ch_frb_l.L1Server.Phases.Libraries.{always}
use ch_frb_l.L1Server.Phases.{make_stream, make_memory_slab_pools}
use ch_frb_l.L1Server.Phases.Refine.{pools, next, made, call_phase, call_phase-refines}
use ch_frb_l.L1Server.Rpc.{Announcement, wait, concat, before_rpc}
use ch_frb_l.L1Server.Rpc.Pointers.{all_below}
use ch_frb_l.L1Server.Rpc.Waiting.{announced, wait_iff}
use ch_frb_l.L1Server.Main.{l1_server, start}
use ch_frb_l.L1Server.Main.Order.{start-returns}
use ch_frb_l.L1Server.Main.Beams.{HasBeam, start-HasBeam}
use ch_frb_l.Examples.L1Config.{env, io, settings, config, config-IsAccepted}

abbrev word : Text
word = txt "x"

abbrev with_beams : ℤ → ℕ → L1Config ℕ
with_beams n streams = record config {
  settings = record settings { nbeams = n; ipaddr = replicate streams word };
}

abbrev cpus : List (List ℕ)
cpus = vconcat (counted 0 10) (counted 20 10) ∷ vconcat (counted 10 10) (counted 30 10) ∷ []

abbrev pinning16 : CorePinning
pinning16 = record {
  ncpus = 2;
  cores_on_cpu = cpus;
  output_thread_cores = 9 ∷ 29 ∷ [];
  network_thread_cores = vconcat (counted 0 10) (counted 20 10);
  dedispersion_cores = pinned16 16;
  assembler_thread_cores = (8 ∷ 28 ∷ []) ∷ (8 ∷ 28 ∷ []) ∷ (18 ∷ 38 ∷ []) ∷ (18 ∷ 38 ∷ []) ∷ [];
  asynchronous_dedispersion = false;
  sleep_hack = 5;
}

pinned_16 : pin_cores 40 (with_beams (pos 16) 4) ≡ ok pinning16
unfolding pin_cores init_20cores_16beams vrange counted vconcat
pinned_16 = refl

pin_cores-apart_example :
    (all_apart (
        pinning16.dedispersion_cores
        ++ pinning16.output_thread_cores
          ∷ get_or pinning16.assembler_thread_cores 0 []
          ∷ get_or pinning16.assembler_thread_cores 2 []
          ∷ [])
      ≡ true)
    × (on_cpu pinning16 8 4 (counted 0 16) ≡ true)
pin_cores-apart_example = pin_cores-apart 40 (with_beams (pos 16) 4) pinning16 refl pinned_16

abbrev pinning8 : CorePinning
pinning8 = record pinning16 {
  dedispersion_cores = pinned8 8;
  assembler_thread_cores = (8 ∷ 28 ∷ []) ∷ (18 ∷ 38 ∷ []) ∷ [];
  asynchronous_dedispersion = true;
}

pinned_8 : pin_cores 40 (with_beams (pos 8) 2) ≡ ok pinning8
unfolding pin_cores init_20cores_8beams vrange counted vconcat
pinned_8 = refl

pin_cores-shared_example :
    disjoint (get_or pinning8.dedispersion_cores 5 []) (get_or pinning8.dedispersion_cores 6 [])
    ≡ not (nat_beq 6 6 && nat_beq (5 / 4) (6 / 4))
pin_cores-shared_example =
    pin_cores-shared 40 (with_beams (pos 8) 2) pinning8 refl pinned_8 5 6 (omega arith)
      (omega arith)

abbrev argv : List Text
argv = txt "ch-frb-l1" ∷ txt "-t" ∷ txt "l1.yaml" ∷ []

abbrev server : L1Server ℕ ℕ ℕ
server = record {
  config = config;
  cores = record {
    ncpus = 1;
    cores_on_cpu = [] ∷ [];
    output_thread_cores = [];
    network_thread_cores = [];
    dedispersion_cores = replicate 4 [];
    assembler_thread_cores = replicate 2 [];
    asynchronous_dedispersion = false;
    sleep_hack = 0;
  };
  command_line = txt "ch-frb-l1 -t l1.yaml";
  l1b_subprocesses = [];
  output_devices = [];
  memory_slab_pools = [];
  input_streams = [];
  mask_stats_maps = 0;
  rpc_servers = [];
  prometheus_servers = [];
  dedispersion_threads = [];
  bonsai_dedispersers = [];
  latency_monitors_pre = [];
  latency_monitors_post = [];
}

built : l1_server 8 argv config ≡ ok server
unfolding l1_server pin_cores init_subscale have_warnings
built = refl

abbrev ToyServer : Type 0
ToyServer = L1Server ℕ ℕ ℕ

all_succeed : Succeeds (always {D = ℕ})
all_succeed = record {
  pipes = λ p. refl;
  devices = λ d. refl;
  pools = λ p. refl;
  streams = λ s. refl;
  files = λ s. refl;
  webs = λ w. refl;
}

start-returns_example :
    (t : ToyServer) × (start always env.io server ≡ ok t)
    × (before_rpc t ≡ ok tt)
    × (t.bonsai_dedispersers ≡ replicate (nbeams_of t.config) none)
    × (t.config ≡ server.config)
start-returns_example =
    start-returns env always 8 argv config server all_succeed config-IsAccepted built

start-HasBeam_example : (t : ToyServer) × (start always env.io server ≡ ok t) × HasBeam env t 3
start-HasBeam_example =
    start-HasBeam env always 8 argv config server 3 all_succeed config-IsAccepted built
      (omega arith)

-- Beams 0, 2 and 3 before the first poll, beam 1 before the second.
abbrev announcement : ℕ → Announcement ℕ ℕ
announcement i = record { beam = i; bonsai = i; latency_pre = i; latency_post = i }

abbrev first : List (Announcement ℕ ℕ)
first = announcement 0 ∷ announcement 3 ∷ announcement 2 ∷ []

abbrev later : List (List (Announcement ℕ ℕ))
later = (announcement 1 ∷ []) ∷ []

abbrev waiting : ToyServer
waiting = record server { bonsai_dedispersers = replicate 4 none }

wait_iff_example :
    ((t : ToyServer) × (wait (first ∷ later) waiting ≡ some t))
    ↔ (all_below (nbeams_of waiting.config) (announced (concat (first ∷ later))) ≡ true)
wait_iff_example = wait_iff first later waiting refl

abbrev pool : SlabPool
pool = record { nbytes_per_slab = 1048576; nslabs = 1100; allocation_cores = []; verbosity = 1 }

abbrev with_pool : ToyServer
with_pool = record server { memory_slab_pools = pool ∷ [] }

abbrev second_stream : InputStream
second_stream = record {
  ipaddr = txt "10.0.0.2";
  udp_port = pos 6677;
  beam_ids = pos 12 ∷ pos 13 ∷ [];
  nupfreq = 16;
  nrfifreq = pos 1024;
  nt_per_packet = pos 16;
  fpga_counts_per_sample = pos 384;
  nt_align = pos 1024;
  stream_id = 2;
  frame0_url = txt "http://fpga/frame0";
  frame0_timeout = pos 3000;
  force_fast_kernels = true;
  force_reference_kernels = false;
  deliberately_crash = false;
  assembler_thread_cores = [];
  network_thread_cores = [];
  unassembled_ringbuf_capacity = 37;
  max_unassembled_packets_per_list = 7168;
  max_unassembled_nbytes_per_list = 3999744;
  assembled_ringbuf_capacity = 5;
  telescoping_ringbuf_capacity = 6 ∷ 5 ∷ [];
  memory_pool = pool;
  output_devices = [];
  sleep_hack = 0;
  accept_end_of_stream_packets = none;
  throw_exception_on_buffer_drop = false;
  file_pattern = [];
  file_beam_ids = pos 13 ∷ [];
  file_priority = 0;
  file_need_rfi = true;
}

round : make_stream always io with_pool 2 2 1 ≡ ok second_stream
unfolding make_stream vcontains xdiv
round = refl

abbrev made_pools : ToyServer
made_pools = record server {
  memory_slab_pools =
      record { nbytes_per_slab = 1048576; nslabs = 1100; allocation_cores = []; verbosity = 1 }
      ∷ [];
}

pools_called : call_phase always io pools server ≡ ok made_pools
unfolding call_phase make_memory_slab_pools for_each counted
pools_called = refl

call_phase-refines_example : next pools (made server) ≡ some (made made_pools)
call_phase-refines_example =
    call_phase-refines always io pools server made_pools (omega arith) (omega arith) (omega arith)
      pools_called
