-- ===== src/L1Server/Phases.antt =====
-- The phases of the server up to the dedispersion threads, each a function of the object. A
-- `throw("...")` is `thrown_text`; an access out of the bounds of a vector is undefined.
pub mod Libraries
pub mod Returns
pub mod Streams
pub mod Refine
use ch_frb_l.Base.{
  ℕ, zero, suc, ◌+◌, ◌-◌, ◌*◌, ◌/◌, Bool, true, false, not, ◌&&◌, ◌||◌, List, [], ◌∷◌, ◌++◌, map,
  Option, none, some, if◌then◌else◌, ok, err, Throws, Failure, thrown_text, undefined, ◌>>=◌, ◌>>◌,
  throw_if, msg, Text, to_string, int_to_string, ltb, leb, nat_beq, length, get_elem?, get_or, take,
  drop, filter, replicate, ℤ, pos, pos_part, is_pos, int_eq,
}
use ch_frb_l.FrbIo.{FrbIo}
use ch_frb_l.Util.{xdiv, counted, vcontains}
use ch_frb_l.L1Config.Environment.{L1Config}
use ch_frb_l.L1Server.Vectors.{at, slice, for_each, resize}
use ch_frb_l.L1Server.{
  Makers, CorePinning, TriggerPipe, OutputDevice, SlabPool, InputStream, Context, PrometheusServer,
  L1Server,
}
use ch_frb_l.L1Server.Cores.{nbeams_of, nstreams_of}

unfoldable pub internal_error : Text → Failure
internal_error t = thrown_text (msg "ch-frb-l1 internal error: " ++ t)

module _ {D Bonsai Pipeline : Type 0} (mk : Makers D) where
  -- The pipe of a beam.
  make_pipe : L1Server D Bonsai Pipeline → ℕ → Throws (Option (TriggerPipe D))
  make_pipe s ibeam = do
    let c = s.config
    beam_id ← at c.beam_ids ibeam
    cores ← at s.cores.dedispersion_cores ibeam
    let pipe : TriggerPipe D = record {
      l1b_command_line =
          c.settings.l1b_executable_filename
          ∷ c.options.l1b_config_filename
          ∷ int_to_string beam_id
          ∷ [];
      timeout = c.settings.l1b_pipe_timeout;
      blocking = c.settings.l1b_pipe_blocking;
      search_path = c.settings.l1b_search_path;
      verbosity = if c.options.l1b_pipe_io_debug then 3 else c.options.l1_verbosity;
      pipe_capacity = c.l1b_pipe_capacity;
      child_cores = cores;
    }
    mk.trigger_pipe pipe
    ok (some pipe)

  unfoldable pub spawn_l1b_subprocesses :
      L1Server D Bonsai Pipeline → Throws (L1Server D Bonsai Pipeline)
  unfolding make_pipe internal_error
  spawn_l1b_subprocesses s = do
    let c = s.config
    throw_if (not (nat_beq (length s.l1b_subprocesses) 0))
        (internal_error (msg "double call to spawn_l1b_subprocesses()"))
    pipes ←
        (if c.options.tflag || nat_beq (length c.settings.l1b_executable_filename) 0
          then ok (replicate (nbeams_of c) none)
          else for_each (make_pipe s) (counted 0 (nbeams_of c)))
    ok (record s { l1b_subprocesses = pipes })

  make_device : L1Server D Bonsai Pipeline → Text → Throws OutputDevice
  make_device s name = do
    let device : OutputDevice = record {
      device_name = name;
      verbosity = if s.config.options.write_chunk_debug then 3 else s.config.options.l1_verbosity;
      io_thread_allowed_cores = s.cores.output_thread_cores;
    }
    mk.output_device device
    ok device

  unfoldable pub make_output_devices :
      L1Server D Bonsai Pipeline → Throws (L1Server D Bonsai Pipeline)
  unfolding make_device internal_error
  make_output_devices s = do
    throw_if (not (nat_beq (length s.output_devices) 0))
        (internal_error (msg "double call to make_output_devices()"))
    devices ← for_each (make_device s) s.config.settings.output_device_names
    ok (record s { output_devices = devices })

  unfoldable pub make_pool : L1Server D Bonsai Pipeline → ℕ → Throws SlabPool
  make_pool s icpu = do
    cores ← at s.cores.cores_on_cpu icpu
    let pool : SlabPool = record {
      nbytes_per_slab = s.config.buffers.nbytes_per_memory_slab;
      nslabs = s.config.buffers.total_memory_slabs / s.cores.ncpus;
      allocation_cores = cores;
      verbosity = if s.config.options.memory_pool_debug then 2 else 1;
    }
    mk.memory_slab_pool pool
    ok pool

  unfoldable pub make_memory_slab_pools :
      L1Server D Bonsai Pipeline → Throws (L1Server D Bonsai Pipeline)
  unfolding make_pool internal_error
  make_memory_slab_pools s = do
    throw_if (not (nat_beq (length s.memory_slab_pools) 0))
        (internal_error (msg "double call to make_memory_slab_pools()"))
    pools ← for_each (make_pool s) (counted 0 s.cores.ncpus)
    ok (record s { memory_slab_pools = pools })

  -- The round of the loop of make_input_streams() for one stream.
  unfoldable pub make_stream : FrbIo → L1Server D Bonsai Pipeline → ℕ → ℕ → ℕ → Throws InputStream
  make_stream io s nstreams_per_cpu nbeams_per_stream istream = do
    let c = s.config
    beams ← slice (istream * nbeams_per_stream) ((istream + 1) * nbeams_per_stream) c.beam_ids
    pool ← at s.memory_slab_pools (istream / nstreams_per_cpu)
    ip ← at c.settings.ipaddr istream
    udp ← at c.settings.port istream
    nupfreq ← xdiv (pos_part c.settings.nfreq) io.nfreq_coarse_tot
    cores ← at s.cores.assembler_thread_cores istream
    let stream : InputStream = record {
      ipaddr = ip;
      udp_port = udp;
      beam_ids = beams;
      nupfreq = nupfreq;
      nrfifreq = c.settings.nrfifreq;
      nt_per_packet = c.settings.nt_per_packet;
      fpga_counts_per_sample = c.settings.fpga_counts_per_sample;
      nt_align = c.settings.nt_align;
      stream_id = istream + 1;
      frame0_url = c.settings.frame0_url;
      frame0_timeout = c.settings.frame0_timeout;
      force_fast_kernels = not c.settings.slow_kernels;
      force_reference_kernels = c.settings.slow_kernels;
      deliberately_crash = c.options.deliberately_crash;
      assembler_thread_cores = cores;
      network_thread_cores = s.cores.network_thread_cores;
      unassembled_ringbuf_capacity = c.buffers.unassembled_ringbuf_capacity;
      max_unassembled_packets_per_list = c.buffers.unassembled_npackets_per_list;
      max_unassembled_nbytes_per_list = c.buffers.unassembled_nbytes_per_list;
      assembled_ringbuf_capacity = c.buffers.assembled_ringbuf_nchunks;
      telescoping_ringbuf_capacity = c.buffers.telescoping_ringbuf_nchunks;
      memory_pool = pool;
      output_devices = s.output_devices;
      sleep_hack = s.cores.sleep_hack;
      accept_end_of_stream_packets = if c.options.ignore_end_of_stream then some false else none;
      throw_exception_on_buffer_drop = not c.options.tflag;
      file_pattern = c.stream_filename_pattern;
      file_beam_ids = filter (vcontains beams) c.stream_beam_ids;
      file_priority = 0;
      file_need_rfi = is_pos c.settings.nrfifreq;
    }
    mk.network_stream stream
    mk.stream_to_files stream
    ok stream

  unfoldable pub make_input_streams :
      FrbIo → L1Server D Bonsai Pipeline → Throws (L1Server D Bonsai Pipeline)
  unfolding internal_error make_stream
  make_input_streams io s = do
    let c = s.config
    throw_if (not (nat_beq (length s.input_streams) 0))
        (internal_error (msg "double call to make_input_streams()"))
    throw_if (not (nat_beq (length s.memory_slab_pools) s.cores.ncpus)) (
        internal_error
          (msg "make_input_streams() was called, without first calling make_memory_slab_pools()"))
    throw_if (not (nat_beq (length s.output_devices) (length c.settings.output_device_names))) (
        internal_error
          (msg "make_input_streams() was called, without first calling make_output_devices()"))
    nstreams_per_cpu ← xdiv (nstreams_of c) s.cores.ncpus
    nbeams_per_stream ← xdiv (nbeams_of c) (nstreams_of c)
    streams ←
        for_each (make_stream io s nstreams_per_cpu nbeams_per_stream) (counted 0 (nstreams_of c))
    ok (record s { input_streams = streams })

  -- start_prometheus_server() is modelled apart; here the server's address, stream and map.
  make_prometheus : L1Server D Bonsai Pipeline → ℕ → Throws PrometheusServer
  make_prometheus s istream = do
    address ← at s.config.settings.prometheus_address istream
    _ ← at s.input_streams istream
    _ ← (if ltb istream s.mask_stats_maps then ok tt else err undefined)
    let server : PrometheusServer = record {
      address = address;
      stream = istream;
      mask_map = istream;
    }
    mk.prometheus_server server
    ok server

  unfoldable pub make_prometheus_servers :
      L1Server D Bonsai Pipeline → Throws (L1Server D Bonsai Pipeline)
  unfolding make_prometheus internal_error
  make_prometheus_servers s = do
    throw_if (not (nat_beq (length s.prometheus_servers) 0))
        (internal_error (msg "double call to make_prometheus_servers()"))
    throw_if (not (nat_beq (length s.input_streams) (nstreams_of s.config))) (
        internal_error
          (msg "make_prometheus_servers() was called, without first calling make_input_streams()"))
    servers ← for_each (make_prometheus s) (counted 0 (nstreams_of s.config))
    ok (record s { prometheus_servers = servers })

module _ {D Bonsai Pipeline : Type 0} where
  -- One map of mask measurements for each stream, beside those that are there.
  unfoldable pub make_mask_stats : L1Server D Bonsai Pipeline → Throws (L1Server D Bonsai Pipeline)
  make_mask_stats s = ok (record s { mask_stats_maps = s.mask_stats_maps + nstreams_of s.config })

  -- The context of the thread of a beam.
  unfoldable pub make_context : L1Server D Bonsai Pipeline → ℕ → Throws (Context D)
  make_context s ibeam = do
    nbeams_per_stream ← xdiv (nbeams_of s.config) (nstreams_of s.config)
    let istream = ibeam / nbeams_per_stream
    _ ← at s.input_streams istream
    _ ← (if ltb istream s.mask_stats_maps then ok tt else err undefined)
    pipe ← at s.l1b_subprocesses ibeam
    cores ← at s.cores.dedispersion_cores ibeam
    ok (record {
      stream = istream;
      mask_map = istream;
      l1b_subprocess = pipe;
      allowed_cores = cores;
      asynchronous_dedispersion = s.cores.asynchronous_dedispersion;
      ibeam = ibeam;
    })

  unfoldable pub spawn_dedispersion_threads :
      L1Server D Bonsai Pipeline → Throws (L1Server D Bonsai Pipeline)
  unfolding make_context internal_error resize
  spawn_dedispersion_threads s = do
    let nbeams = nbeams_of s.config
    throw_if (not (nat_beq (length s.dedispersion_threads) 0))
        (internal_error (msg "double call to spawn_dedispersion_threads()"))
    throw_if (not (nat_beq (length s.input_streams) (nstreams_of s.config))) (
        internal_error (
          msg
            "spawn_dedispersion_threads() was called, without first calling make_input_streams()"))
    throw_if (not (nat_beq (length s.l1b_subprocesses) nbeams)) (
        internal_error (
          msg
            "spawn_dedispersion_threads() was called, without first calling spawn_l1b_subprocesses()"))
    threads ← for_each (make_context s) (counted 0 nbeams)
    ok (record s {
      bonsai_dedispersers = resize s.bonsai_dedispersers nbeams;
      latency_monitors_pre = resize s.latency_monitors_pre nbeams;
      latency_monitors_post = resize s.latency_monitors_post nbeams;
      dedispersion_threads = threads;
    })
