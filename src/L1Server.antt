-- ===== src/L1Server.antt =====
-- l1_server (ch-frb-l1.cpp): the server's cores, its objects, and the phases that make them. An object
-- of the ch_frb_io and bonsai libraries is what the code passes to its constructor; the type of the
-- dedispersers and that of the pipeline objects are parameters. `D` is the type of doubles.
pub mod Vectors
pub mod Cores
pub mod Phases
pub mod Rpc
pub mod Main
pub mod Ending
use ch_frb_l.Base.{Throws, ok, ◌≡◌, ℕ, Bool, List, Option, Text, ℤ}
use ch_frb_l.L1Config.Environment.{L1Config}

-- The core-pinning scheme; an empty list of cores means that a thread is not pinned. `sleep_hack` is in
-- seconds.
pub record CorePinning : Type 0 where
  pub ncpus : ℕ
  pub cores_on_cpu : List (List ℕ)
  pub output_thread_cores : List ℕ
  pub network_thread_cores : List ℕ
  pub dedispersion_cores : List (List ℕ)
  pub assembler_thread_cores : List (List ℕ)
  pub asynchronous_dedispersion : Bool
  pub sleep_hack : ℕ

pub record TriggerPipe (D : Type 0) : Type 0 where
  pub l1b_command_line : List Text
  pub timeout : D
  pub blocking : Bool
  pub search_path : Bool
  pub verbosity : ℕ
  pub pipe_capacity : ℕ
  pub child_cores : List ℕ

pub record OutputDevice : Type 0 where
  pub device_name : Text
  pub verbosity : ℕ
  pub io_thread_allowed_cores : List ℕ

pub record SlabPool : Type 0 where
  pub nbytes_per_slab : ℕ
  pub nslabs : ℕ
  pub allocation_cores : List ℕ
  pub verbosity : ℕ

-- An input stream, with the files that stream_to_files() has asked it to write.
-- `accept_end_of_stream_packets` is `none` where the library's default is kept.
pub record InputStream : Type 0 where
  pub ipaddr : Text
  pub udp_port : ℤ
  pub beam_ids : List ℤ
  pub nupfreq : ℕ
  pub nrfifreq : ℤ
  pub nt_per_packet : ℤ
  pub fpga_counts_per_sample : ℤ
  pub nt_align : ℤ
  pub stream_id : ℕ
  pub frame0_url : Text
  pub frame0_timeout : ℤ
  pub force_fast_kernels : Bool
  pub force_reference_kernels : Bool
  pub deliberately_crash : Bool
  pub assembler_thread_cores : List ℕ
  pub network_thread_cores : List ℕ
  pub unassembled_ringbuf_capacity : ℕ
  pub max_unassembled_packets_per_list : ℕ
  pub max_unassembled_nbytes_per_list : ℕ
  pub assembled_ringbuf_capacity : ℕ
  pub telescoping_ringbuf_capacity : List ℕ
  pub memory_pool : SlabPool
  pub output_devices : List OutputDevice
  pub sleep_hack : ℕ
  pub accept_end_of_stream_packets : Option Bool
  pub throw_exception_on_buffer_drop : Bool
  pub file_pattern : Text
  pub file_beam_ids : List ℤ
  pub file_priority : ℕ
  pub file_need_rfi : Bool

-- The context of a dedispersion thread; the stream and the map of mask measurements by their index.
pub record Context (D : Type 0) : Type 0 where
  pub stream : ℕ
  pub mask_map : ℕ
  pub l1b_subprocess : Option (TriggerPipe D)
  pub allowed_cores : List ℕ
  pub asynchronous_dedispersion : Bool
  pub ibeam : ℕ

-- An RPC server: its stream and map, the dedispersers of the stream's beams, its address, the command
-- line, and the pipeline objects for the latency, each with its beam and place.
pub record RpcServer (Bonsai Pipeline : Type 0) : Type 0 where
  pub stream : ℕ
  pub mask_map : ℕ
  pub bonsais : List (Option Bonsai)
  pub address : Text
  pub command_line : Text
  pub latency : List (ℤ × Text × Option Pipeline)

pub record PrometheusServer : Type 0 where
  pub address : Text
  pub stream : ℕ
  pub mask_map : ℕ

-- The libraries' constructors, of which each may throw for what it is given: a trigger pipe spawns its
-- child, a pool allocates its slabs, a stream is made and told to write files, a web server is started.
pub record Makers (D : Type 0) : Type 0 where
  pub trigger_pipe : TriggerPipe D → Throws Unit
  pub output_device : OutputDevice → Throws Unit
  pub memory_slab_pool : SlabPool → Throws Unit
  pub network_stream : InputStream → Throws Unit
  pub stream_to_files : InputStream → Throws Unit
  pub prometheus_server : PrometheusServer → Throws Unit

-- None of the constructors throws.
pub record Succeeds {D : Type 0} (mk : Makers D) : Type 0 where
  pub pipes : (p : TriggerPipe D) → mk.trigger_pipe p ≡ ok tt
  pub devices : (d : OutputDevice) → mk.output_device d ≡ ok tt
  pub pools : (p : SlabPool) → mk.memory_slab_pool p ≡ ok tt
  pub streams : (s : InputStream) → mk.network_stream s ≡ ok tt
  pub files : (s : InputStream) → mk.stream_to_files s ≡ ok tt
  pub webs : (w : PrometheusServer) → mk.prometheus_server w ≡ ok tt

-- The object. An RPC thread belongs to each RPC server. `mask_stats_maps` is the number of the maps.
pub record L1Server (D Bonsai Pipeline : Type 0) : Type 0 where
  pub config : L1Config D
  pub cores : CorePinning
  pub command_line : Text
  pub l1b_subprocesses : List (Option (TriggerPipe D))
  pub output_devices : List OutputDevice
  pub memory_slab_pools : List SlabPool
  pub input_streams : List InputStream
  pub mask_stats_maps : ℕ
  pub rpc_servers : List (RpcServer Bonsai Pipeline)
  pub prometheus_servers : List PrometheusServer
  pub dedispersion_threads : List (Context D)
  pub bonsai_dedispersers : List (Option Bonsai)
  pub latency_monitors_pre : List (Option Pipeline)
  pub latency_monitors_post : List (Option Pipeline)
