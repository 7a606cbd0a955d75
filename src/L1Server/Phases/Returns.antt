-- ===== src/L1Server/Phases/Returns.antt =====
-- When a phase returns, and what it changes.
use ch_frb_l.Base.{
  ℕ, ◌+◌, ◌*◌, ◌/◌, ◌<◌, ◌≡◌, refl, true, ◌||◌, List, [], Option, none, ok, length, nat_beq,
  nat_beq_iff, leb, le→leb, lt→ltb, arith, replicate, length-replicate, Bool-cases, inl, inr,
  pos_part,
}
use native.Mathlib.Nat.{mul_comm, mul-le-mul_right, div-lt_iff_lt-mul}
use ch_frb_l.FrbIo.{FrbIo}
use ch_frb_l.Util.{xdiv, counted}
use ch_frb_l.Util.Vectors.{xdiv_iff, factor_pos}
use ch_frb_l.L1Server.{
  L1Server, OutputDevice, TriggerPipe, SlabPool, InputStream, Context, PrometheusServer,
}
use ch_frb_l.L1Server.Vectors.{for_each, resize}
use ch_frb_l.L1Server.Vectors.Loops.{
  at-ok, returned, for_each-counted, for_each-returns, for_each-length,
}
use ch_frb_l.L1Server.Phases.Libraries.{always}
use ch_frb_l.L1Server.Cores.{nbeams_of, nstreams_of}
use ch_frb_l.L1Server.Phases.{
  spawn_l1b_subprocesses, make_pipe, make_output_devices, make_device, make_memory_slab_pools,
  make_pool, make_input_streams, make_stream, make_prometheus_servers, make_prometheus,
  spawn_dedispersion_threads, make_context,
}

module _ {D Bonsai Pipeline : Type 0} where
  -- A loop that the phase runs over the beams, streams or CPUs returns, and the phase with it.
  pub pipes_ok :
      (s : L1Server D Bonsai Pipeline)
      → s.l1b_subprocesses ≡ []
      → length s.config.beam_ids ≡ nbeams_of s.config
      → length s.cores.dedispersion_cores ≡ nbeams_of s.config
      → (pipes : List (Option (TriggerPipe D))) × (spawn_l1b_subprocesses always s
          ≡ ok (record s { l1b_subprocesses = pipes }))
        × (length pipes ≡ nbeams_of s.config)
  unfolding spawn_l1b_subprocesses make_pipe
  pipes_ok s e beams cores =
      elim (Bool-cases
        (s.config.options.tflag || nat_beq (length s.config.settings.l1b_executable_filename) 0)) [
          | inl h ↦ (
            replicate (nbeams_of s.config) none,
            rw (spawn_l1b_subprocesses, e, h) refl,
            length-replicate (nbeams_of s.config) none,
          )
          | inr h ↦
              let (pipes, f, size) =
                for_each-counted (make_pipe always s) 0 (nbeams_of s.config) (λ i p q.
                  let (b, b1, b2) = at-ok s.config.beam_ids i (omega (arith, beams)) in
                  let (k, k1, k2) = at-ok s.cores.dedispersion_cores i (omega (arith, cores)) in
                  returned (make_pipe always s i)
                    (λ x f. let no = rw (make_pipe, b2, k2) at f in cc)) in
              (pipes, rw (spawn_l1b_subprocesses, e, h, f) refl, size)
        ]

  pub pools_ok :
      (s : L1Server D Bonsai Pipeline)
      → s.memory_slab_pools ≡ []
      → length s.cores.cores_on_cpu ≡ s.cores.ncpus
      → (pools : List SlabPool) × (make_memory_slab_pools always s
          ≡ ok (record s { memory_slab_pools = pools }))
        × (for_each (make_pool always s) (counted 0 s.cores.ncpus) ≡ ok pools)
        × (length pools ≡ s.cores.ncpus)
  unfolding make_memory_slab_pools make_pool
  pools_ok s e cpus =
      let (pools, f, size) = for_each-counted (make_pool always s) 0 s.cores.ncpus (λ i p q.
        let (k, k1, k2) = at-ok s.cores.cores_on_cpu i (omega (arith, cpus)) in
        returned (make_pool always s i) (λ x f. let no = rw (make_pool, k2) at f in cc)) in
      (pools, rw (make_memory_slab_pools, e, f) refl, f, size)

  pub devices_ok :
      (s : L1Server D Bonsai Pipeline)
      → s.output_devices ≡ []
      → (devices : List OutputDevice) × (make_output_devices always s
          ≡ ok (record s { output_devices = devices }))
        × (length devices ≡ length s.config.settings.output_device_names)
  unfolding make_output_devices make_device
  devices_ok s e =
      let names = s.config.settings.output_device_names in
      let (devices, f) =
        for_each-returns (make_device always s) names
          (λ name. returned (make_device always s name) (λ x k. cc)) in
      (
        devices,
        rw (make_output_devices, e, f) refl,
        for_each-length (make_device always s) names devices f,
      )

  -- What the loop over the streams needs.
  pub record StreamsFit (io : FrbIo) (s : L1Server D Bonsai Pipeline) (per_cpu per_stream : ℕ)
      : Type 0 where
    pub no_streams : s.input_streams ≡ []
    pub pools : length s.memory_slab_pools ≡ s.cores.ncpus
    pub devices : length s.output_devices ≡ length s.config.settings.output_device_names
    pub cpus_split : xdiv (nstreams_of s.config) s.cores.ncpus ≡ ok per_cpu
    pub beams_split : xdiv (nbeams_of s.config) (nstreams_of s.config) ≡ ok per_stream
    pub beams : length s.config.beam_ids ≡ nbeams_of s.config
    pub ports : length s.config.settings.port ≡ nstreams_of s.config
    pub cores : length s.cores.assembler_thread_cores ≡ nstreams_of s.config
    pub freqs : (n : ℕ) × (xdiv (pos_part s.config.settings.nfreq) io.nfreq_coarse_tot ≡ ok n)

  stream_round :
      (io : FrbIo) (s : L1Server D Bonsai Pipeline) (per_cpu per_stream i : ℕ)
      → StreamsFit io s per_cpu per_stream
      → i < nstreams_of s.config
      → (t : InputStream) × (make_stream always io s per_cpu per_stream i ≡ ok t)
  unfolding make_stream
  stream_round io s per_cpu per_stream i y p =
      let (b, b_pos, n_pos) =
        (xdiv_iff (nbeams_of s.config) (nstreams_of s.config) per_stream).0 y.beams_split in
      let (c, s_pos, c_pos) =
        (xdiv_iff (nstreams_of s.config) s.cores.ncpus per_cpu).0 y.cpus_split in
      let inside : leb ((i + 1) * per_stream) (length s.config.beam_ids) ≡ true =
        le→leb ((i + 1) * per_stream) (length s.config.beam_ids) (
          omega (
            arith,
            b,
            y.beams,
            mul-le-mul_right {m = i + 1} {n = nstreams_of s.config} per_stream (omega arith),
            mul_comm per_stream (nstreams_of s.config),
          )) in
      let per_pos : 0 < per_cpu = factor_pos per_cpu s.cores.ncpus (nstreams_of s.config) c s_pos in
      let pool : i / per_cpu < length s.memory_slab_pools =
        rw y.pools
          ((div-lt_iff_lt-mul per_pos).1 (omega (arith, c, mul_comm per_cpu s.cores.ncpus))) in
      let (k, k1, k2) = at-ok s.memory_slab_pools (i / per_cpu) pool in
      let (a, a1, a2) = at-ok s.config.settings.ipaddr i p in
      let (u, u1, u2) = at-ok s.config.settings.port i (omega (arith, y.ports)) in
      let (w, w1, w2) = at-ok s.cores.assembler_thread_cores i (omega (arith, y.cores)) in
      returned (make_stream always io s per_cpu per_stream i)
        (λ x f. let no = rw (make_stream, inside, k2, a2, u2, y.freqs.1, w2) at f in cc)

  pub streams_ok :
      (io : FrbIo) (s : L1Server D Bonsai Pipeline) (per_cpu per_stream : ℕ)
      → StreamsFit io s per_cpu per_stream
      → (streams : List InputStream) × (make_input_streams always io s
          ≡ ok (record s { input_streams = streams }))
        × (for_each (make_stream always io s per_cpu per_stream) (counted 0 (nstreams_of s.config))
            ≡ ok streams)
        × (length streams ≡ nstreams_of s.config)
  unfolding make_input_streams
  streams_ok io s per_cpu per_stream y =
      let (streams, f, size) =
        for_each-counted (make_stream always io s per_cpu per_stream) 0 (nstreams_of s.config)
          (λ i p q. stream_round io s per_cpu per_stream i y (omega arith)) in
      let pools = (nat_beq_iff (length s.memory_slab_pools) s.cores.ncpus).1 y.pools in
      let devices =
        (nat_beq_iff (length s.output_devices) (length s.config.settings.output_device_names)).1
          y.devices in
      (
        streams,
        rw (make_input_streams, y.no_streams, pools, devices, y.cpus_split, y.beams_split, f) refl,
        f,
        size,
      )

  pub prometheus_ok :
      (s : L1Server D Bonsai Pipeline)
      → s.prometheus_servers ≡ []
      → length s.input_streams ≡ nstreams_of s.config
      → s.mask_stats_maps ≡ nstreams_of s.config
      → length s.config.settings.prometheus_address ≡ nstreams_of s.config
      → (servers : List PrometheusServer) × (make_prometheus_servers always s
          ≡ ok (record s { prometheus_servers = servers }))
        × (length servers ≡ nstreams_of s.config)
  unfolding make_prometheus_servers make_prometheus
  prometheus_ok s e streams maps addresses =
      let (servers, f, size) =
        for_each-counted (make_prometheus always s) 0 (nstreams_of s.config) (λ i p q.
          let (a, a1, a2) =
            at-ok s.config.settings.prometheus_address i (omega (arith, addresses)) in
          let (t, t1, t2) = at-ok s.input_streams i (omega (arith, streams)) in
          let m = lt→ltb i s.mask_stats_maps (omega (arith, maps)) in
          returned (make_prometheus always s i)
            (λ x f. let no = rw (make_prometheus, a2, t2, m) at f in cc)) in
      let there = (nat_beq_iff (length s.input_streams) (nstreams_of s.config)).1 streams in
      (servers, rw (make_prometheus_servers, e, there, f) refl, size)

  pub threads_ok :
      (s : L1Server D Bonsai Pipeline) (per_stream : ℕ)
      → s.dedispersion_threads ≡ []
      → length s.input_streams ≡ nstreams_of s.config
      → s.mask_stats_maps ≡ nstreams_of s.config
      → length s.l1b_subprocesses ≡ nbeams_of s.config
      → length s.cores.dedispersion_cores ≡ nbeams_of s.config
      → xdiv (nbeams_of s.config) (nstreams_of s.config) ≡ ok per_stream
      → (threads : List (Context D)) × (spawn_dedispersion_threads s
          ≡ ok (record s {
            bonsai_dedispersers = resize s.bonsai_dedispersers (nbeams_of s.config);
            latency_monitors_pre = resize s.latency_monitors_pre (nbeams_of s.config);
            latency_monitors_post = resize s.latency_monitors_post (nbeams_of s.config);
            dedispersion_threads = threads;
          }))
        × (for_each (make_context s) (counted 0 (nbeams_of s.config)) ≡ ok threads)
  unfolding spawn_dedispersion_threads make_context
  threads_ok s per_stream e streams maps pipes cores split =
      let (b, b_pos, n_pos) =
        (xdiv_iff (nbeams_of s.config) (nstreams_of s.config) per_stream).0 split in
      let per_pos = factor_pos per_stream (nstreams_of s.config) (nbeams_of s.config) b b_pos in
      let (threads, f, size) = for_each-counted (make_context s) 0 (nbeams_of s.config) (λ i p q.
        let inside : i / per_stream < nstreams_of s.config =
          (div-lt_iff_lt-mul per_pos).1
            (omega (arith, b, mul_comm per_stream (nstreams_of s.config))) in
        let (t, t1, t2) = at-ok s.input_streams (i / per_stream) (omega (arith, inside, streams)) in
        let m = lt→ltb (i / per_stream) s.mask_stats_maps (omega (arith, inside, maps)) in
        let (a, a1, a2) = at-ok s.l1b_subprocesses i (omega (arith, pipes)) in
        let (k, k1, k2) = at-ok s.cores.dedispersion_cores i (omega (arith, cores)) in
        returned (make_context s i)
          (λ x f. let no = rw (make_context, split, t2, m, a2, k2) at f in cc)) in
      let there = (nat_beq_iff (length s.input_streams) (nstreams_of s.config)).1 streams in
      let known = (nat_beq_iff (length s.l1b_subprocesses) (nbeams_of s.config)).1 pipes in
      (threads, rw (spawn_dedispersion_threads, e, there, known, f) refl, f)
