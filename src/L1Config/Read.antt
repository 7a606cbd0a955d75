-- ===== src/L1Config/Read.antt =====
-- The reads of the YAML file that come before the checks.
use ch_frb_l.Base.{false, [], if◌then◌else◌, Text, txt, ℤ, pos, Bool}
use ch_frb_l.ParamFile.{
  Scalar, Reader, ◌>>=◌, pure, read_scalar, read_scalar_or, read_vector, read_vector_or,
}
use ch_frb_l.L1Config.{Doubles, Settings}

-- The conversions of the YAML library for the types that the configuration has.
pub record Scalars (Node D : Type 0) : Type 0 where
  pub int : Scalar Node ℤ
  pub bool : Scalar Node Bool
  pub string : Scalar Node Text
  pub double : Scalar Node D
  pub float : Scalar Node D

module _ {Node D : Type 0} where
  unfoldable pub read_settings : Doubles D → Scalars Node D → Bool → Reader Node (Settings D)
  read_settings num ty tflag = do
    nbeams ← read_scalar ty.int (txt "nbeams")
    nfreq ← read_scalar ty.int (txt "nfreq")
    nt ← read_scalar ty.int (txt "nt_per_packet")
    fpga ← read_scalar_or ty.int (txt "fpga_counts_per_sample") (pos 384)
    align ← read_scalar ty.int (txt "nt_align")
    nrfi ← read_scalar ty.int (txt "nrfifreq")
    ips ← read_vector ty.string (txt "ipaddr")
    ports ← read_vector ty.int (txt "port")
    rpc ← read_vector ty.string (txt "rpc_address")
    prometheus ← read_vector ty.string (txt "prometheus_address")
    logger ← read_scalar_or ty.string (txt "logger_address") []
    url ← read_scalar ty.string (txt "frame0_url")
    timeout ← read_scalar_or ty.int (txt "frame0_timeout_ms") (pos 3000)
    history ← read_scalar_or ty.int (txt "rfi_mask_meas_history") (pos 300)
    slow ← read_scalar_or ty.bool (txt "slow_kernels") false
    unassembled ← read_scalar_or ty.int (txt "unassembled_ringbuf_nsamples") (pos 4096)
    assembled ← read_scalar_or ty.int (txt "assembled_ringbuf_nsamples") (pos 8192)
    telescoping ← read_vector_or ty.int (txt "telescoping_ringbuf_nsamples") []
    staging ← read_scalar_or ty.double (txt "write_staging_area_gb") num.zero_point
    devices ← read_vector ty.string (txt "output_devices")
    prescale ← read_scalar_or ty.float (txt "intensity_prescale") num.one_point
    l1b ←
        if tflag
        then read_scalar_or ty.string (txt "l1b_executable_filename") []
        else read_scalar ty.string (txt "l1b_executable_filename")
    search ← read_scalar_or ty.bool (txt "l1b_search_path") false
    buffer ← read_scalar_or ty.int (txt "l1b_buffer_nsamples") (pos 0)
    pipe_timeout ← read_scalar_or ty.double (txt "l1b_pipe_timeout") num.zero_point
    blocking ← read_scalar_or ty.bool (txt "l1b_pipe_blocking") false
    force ← read_scalar_or ty.bool (txt "force_asynchronous_dedispersion") false
    track ← read_scalar_or ty.bool (txt "track_global_trigger_max") false
    pure (record {
      nbeams = nbeams;
      nfreq = nfreq;
      nt_per_packet = nt;
      fpga_counts_per_sample = fpga;
      nt_align = align;
      nrfifreq = nrfi;
      ipaddr = ips;
      port = ports;
      rpc_address = rpc;
      prometheus_address = prometheus;
      logger_address = logger;
      frame0_url = url;
      frame0_timeout = timeout;
      rfi_mask_meas_history = history;
      slow_kernels = slow;
      unassembled_ringbuf_nsamples = unassembled;
      assembled_ringbuf_nsamples = assembled;
      telescoping_ringbuf_nsamples = telescoping;
      write_staging_area_gb = staging;
      output_device_names = devices;
      intensity_prescale = prescale;
      l1b_executable_filename = l1b;
      l1b_search_path = search;
      l1b_buffer_nsamples = buffer;
      l1b_pipe_timeout = pipe_timeout;
      l1b_pipe_blocking = blocking;
      force_asynchronous_dedispersion = force;
      track_global_trigger_max = track;
    })
