-- ===== src/L1Server/Main/Order.antt =====
-- The phases in the order of main(), for a configuration that has been accepted: none of them throws.
use ch_frb_l.Base.{
  ok_injective, ℕ, ◌+◌, ◌/◌, ◌%◌, ◌<◌, ◌≡◌, refl, sym, ap, subst, ◌∙◌, List, [], none, ok, Text,
  length, nat_beq_iff, arith, replicate, length-replicate, pos_part, pos, negsuc, ℤ,
}
use ch_frb_l.Util.{xdiv, counted}
use ch_frb_l.L1Config.Checks.Sane.{IsPositive}
use ch_frb_l.L1Config.Derived.Bounds.{derive_buffers-xdiv}
use ch_frb_l.L1Config.Environment.{Environment, L1Config}
use ch_frb_l.L1Config.Constructor.Accepted.{IsAccepted}
use ch_frb_l.L1Server.{L1Server, Makers, Succeeds}
use ch_frb_l.L1Server.Phases.Libraries.{always, Below-always, always-Below}
use ch_frb_l.L1Server.Main.Libraries.{start-Leads}
use ch_frb_l.L1Server.Vectors.{for_each, resize}
use ch_frb_l.L1Server.Vectors.Loops.{resize_new, length-resize}
use ch_frb_l.L1Server.Cores.Lengths.{pin_cores-IsPinned}
use ch_frb_l.L1Server.Cores.{nbeams_of, nstreams_of, pin_cores}
use ch_frb_l.L1Server.Phases.{make_pool, make_stream, make_mask_stats, make_context}
use ch_frb_l.L1Server.Phases.Returns.{
  pipes_ok, pools_ok, devices_ok, StreamsFit, streams_ok, prometheus_ok, threads_ok,
}
use ch_frb_l.L1Server.Rpc.{before_rpc}
use ch_frb_l.L1Server.Main.{start, l1_server}

-- A remainder of zero is an exact quotient.
xdiv_exact : (n d : ℕ) → 0 < n → 0 < d → n % d ≡ 0 → (q : ℕ) × (xdiv n d ≡ ok q)
unfolding xdiv
xdiv_exact n d hn hd h = (n / d, ground arith)

pub positive_lt : (z : ℤ) → IsPositive z → 0 < pos_part z
positive_lt (pos n) h = h
positive_lt (negsuc n) h = elim h [ ]

module _ {Node D Bonsai Pipeline : Type 0} (env : Environment Node D) where
  -- The object that the constructor makes.
  pub record IsFresh (concurrency : ℕ) (s : L1Server D Bonsai Pipeline) : Type 0 where
    pub accepted : IsAccepted env s.config
    pub pinned : pin_cores concurrency s.config ≡ ok s.cores
    l1b : s.l1b_subprocesses ≡ []
    outputs : s.output_devices ≡ []
    pools : s.memory_slab_pools ≡ []
    inputs : s.input_streams ≡ []
    maps : s.mask_stats_maps ≡ 0
    rpc : s.rpc_servers ≡ []
    prometheus : s.prometheus_servers ≡ []
    threads : s.dedispersion_threads ≡ []
    bonsais : s.bonsai_dedispersers ≡ []

  fresh_fields :
      (concurrency : ℕ) (argv : List Text) (c : L1Config D) (s : L1Server D Bonsai Pipeline)
      → l1_server concurrency argv c ≡ ok s
      → (pin_cores concurrency c ≡ ok s.cores)
        × (s.config ≡ c)
        × (s.l1b_subprocesses ≡ [])
        × (s.output_devices ≡ [])
        × (s.memory_slab_pools ≡ [])
        × (s.input_streams ≡ [])
        × (s.mask_stats_maps ≡ 0)
        × (s.rpc_servers ≡ [])
        × (s.prometheus_servers ≡ [])
        × (s.dedispersion_threads ≡ [])
        × (s.bonsai_dedispersers ≡ [])
  unfolding l1_server
  fresh_fields concurrency argv c s h = ground arith

  pub l1_server-IsFresh :
      (concurrency : ℕ) (argv : List Text) (c : L1Config D) (s : L1Server D Bonsai Pipeline)
      → IsAccepted env c
      → l1_server concurrency argv c ≡ ok s
      → IsFresh concurrency s
  l1_server-IsFresh concurrency argv c s y h =
      let (pinned, config, l1b, outputs, pools, inputs, maps, rpc, prometheus, threads, bonsais) =
        fresh_fields concurrency argv c s h in
      record {
        accepted = subst (λ d. IsAccepted env d) (sym config) y;
        pinned = subst (λ d. pin_cores concurrency d ≡ ok s.cores) (sym config) pinned;
        l1b = l1b;
        outputs = outputs;
        pools = pools;
        inputs = inputs;
        maps = maps;
        rpc = rpc;
        prometheus = prometheus;
        threads = threads;
        bonsais = bonsais;
      }

  -- The object after the phases, with the loops that made its streams and threads.
  pub record Started (s t : L1Server D Bonsai Pipeline) : Type 0 where
    pub same_config : t.config ≡ s.config
    pub no_bonsais : t.bonsai_dedispersers ≡ replicate (nbeams_of s.config) none
    pub ready : before_rpc t ≡ ok tt
    pub streams_sized : length t.input_streams ≡ nstreams_of s.config
    pub devices_sized : length t.output_devices ≡ length s.config.settings.output_device_names
    pub webs_sized : length t.prometheus_servers ≡ nstreams_of s.config
    pub maps_sized : t.mask_stats_maps ≡ nstreams_of s.config
    pub pre_sized : length t.latency_monitors_pre ≡ nbeams_of s.config
    pub post_sized : length t.latency_monitors_post ≡ nbeams_of s.config
    pub per_cpu : ℕ
    pub per_stream : ℕ
    pub beams_split : xdiv (nbeams_of s.config) (nstreams_of s.config) ≡ ok per_stream
    pub with_pools : L1Server D Bonsai Pipeline
    pub with_pools_config : with_pools.config ≡ s.config
    pub streams :
        for_each
          (make_stream always env.io with_pools per_cpu per_stream)
          (counted 0 (nstreams_of s.config))
        ≡ ok t.input_streams
    pub cpus_split : xdiv (nstreams_of s.config) s.cores.ncpus ≡ ok per_cpu
    pub same_cores : t.cores ≡ s.cores
    pub with_pools_cores : with_pools.cores ≡ s.cores
    pub with_devices : L1Server D Bonsai Pipeline
    pub with_devices_cores : with_devices.cores ≡ s.cores
    pub pools :
        for_each (make_pool always with_devices) (counted 0 with_devices.cores.ncpus)
        ≡ ok with_pools.memory_slab_pools
    pub with_streams : L1Server D Bonsai Pipeline
    pub with_streams_config : with_streams.config ≡ s.config
    pub threads :
        for_each (make_context with_streams) (counted 0 (nbeams_of s.config))
        ≡ ok t.dedispersion_threads

  before_rpc_ok :
      (t : L1Server D Bonsai Pipeline)
      → t.rpc_servers ≡ []
      → length t.input_streams ≡ nstreams_of t.config
      → length t.bonsai_dedispersers ≡ nbeams_of t.config
      → before_rpc t ≡ ok tt
  unfolding before_rpc
  before_rpc_ok t e streams bonsais =
      let there = (nat_beq_iff (length t.input_streams) (nstreams_of t.config)).1 streams in
      let sized = (nat_beq_iff (length t.bonsai_dedispersers) (nbeams_of t.config)).1 bonsais in
      rw (before_rpc, e, there, sized) refl

  start_steps :
      (concurrency : ℕ) (s0 : L1Server D Bonsai Pipeline)
      → IsFresh concurrency s0
      → (t : L1Server D Bonsai Pipeline) × (start always env.io s0 ≡ ok t) × Started s0 t
  unfolding start make_mask_stats before_rpc
  start_steps concurrency s0 z =
      let c = s0.config in
      let y = z.accepted in
      let p = pin_cores-IsPinned concurrency c s0.cores y.sane.streams z.pinned in
      let (per_cpu, cpu_split) = p.split in
      let (per_stream, beam_split) =
        xdiv_exact (nbeams_of c) (nstreams_of c) (positive_lt c.settings.nbeams y.sane.beams)
          y.sane.streams y.sane.shared in
      let (pipes, f1, size1) = pipes_ok s0 z.l1b y.beams p.beams in
      let s1 = record s0 { l1b_subprocesses = pipes } in
      let (devices, f2, size2) = devices_ok s1 z.outputs in
      let s2 = record s1 { output_devices = devices } in
      let (pools, f3, loop3, size3) = pools_ok s2 z.pools p.cpus in
      let s3 = record s2 { memory_slab_pools = pools } in
      let fit : StreamsFit env.io s3 per_cpu per_stream = record {
        no_streams = z.inputs;
        pools = size3;
        devices = size2;
        cpus_split = cpu_split;
        beams_split = beam_split;
        beams = y.beams;
        ports = sym y.ports;
        cores = p.streams;
        freqs = derive_buffers-xdiv env.io env.slab_size env.num c.settings c.buffers y.derived;
      } in
      let (streams, f4, loop4, size4) = streams_ok env.io s3 per_cpu per_stream fit in
      let s4 = record s3 { input_streams = streams } in
      let s5 = record s4 { mask_stats_maps = s4.mask_stats_maps + nstreams_of c } in
      let maps : s5.mask_stats_maps ≡ nstreams_of c = rw (z.maps) (omega arith) in
      let (servers, f6, size6) = prometheus_ok s5 z.prometheus size4 maps y.sane.prometheus in
      let s6 = record s5 { prometheus_servers = servers } in
      let (threads, f7, loop7) =
        threads_ok s6 per_stream z.threads size4 maps size1 p.beams beam_split in
      let t = record s6 {
        bonsai_dedispersers = resize s6.bonsai_dedispersers (nbeams_of c);
        latency_monitors_pre = resize s6.latency_monitors_pre (nbeams_of c);
        latency_monitors_post = resize s6.latency_monitors_post (nbeams_of c);
        dedispersion_threads = threads;
      } in
      let none_yet : t.bonsai_dedispersers ≡ replicate (nbeams_of c) none =
        rw z.bonsais (resize_new Bonsai (nbeams_of c)) in
      (
        t,
        rw (start, f1, f2, f3, f4, f6, f7) refl,
        record {
          same_config = refl;
          no_bonsais = none_yet;
          ready =
              before_rpc_ok t z.rpc size4
                (ap length none_yet ∙ length-replicate (nbeams_of c) none);
          streams_sized = size4;
          devices_sized = size2;
          webs_sized = size6;
          maps_sized = maps;
          pre_sized = length-resize s6.latency_monitors_pre (nbeams_of c);
          post_sized = length-resize s6.latency_monitors_post (nbeams_of c);
          per_cpu = per_cpu;
          per_stream = per_stream;
          beams_split = beam_split;
          with_pools = s3;
          with_pools_config = refl;
          streams = loop4;
          cpus_split = cpu_split;
          same_cores = refl;
          with_pools_cores = refl;
          with_devices = s2;
          with_devices_cores = refl;
          pools = loop3;
          with_streams = s6;
          with_streams_config = refl;
          threads = loop7;
        },
      )

  -- Whatever the libraries' constructors are: a start that returns has made this object.
  pub started_by :
      (mk : Makers D) (concurrency : ℕ) (argv : List Text) (c : L1Config D)
      (s t : L1Server D Bonsai Pipeline)
      → IsAccepted env c
      → l1_server concurrency argv c ≡ ok s
      → start mk env.io s ≡ ok t
      → Started s t
  started_by mk concurrency argv c s t y h e =
      let (t', e', st) = start_steps concurrency s (l1_server-IsFresh concurrency argv c s y h) in
      subst (Started s)
        (ok_injective (sym e' ∙ start-Leads mk always (Below-always mk) env.io s t e)) st

  -- A server with an accepted configuration whose constructor returns, and no constructor of the libraries
  -- throws: every phase of main() before the RPC servers returns too, in the order of main(), and the
  -- tests at the start of make_rpc_servers() pass. The phases themselves leave each dedisperser unset: it
  -- is for the threads to set it, by set_bonsai().
  pub start-returns :
      (mk : Makers D) (concurrency : ℕ) (argv : List Text) (c : L1Config D)
      (s : L1Server D Bonsai Pipeline)
      → Succeeds mk
      → IsAccepted env c
      → l1_server concurrency argv c ≡ ok s
      → (t : L1Server D Bonsai Pipeline) × (start mk env.io s ≡ ok t)
        × (before_rpc t ≡ ok tt)
        × (t.bonsai_dedispersers ≡ replicate (nbeams_of t.config) none)
        × (t.config ≡ s.config)
  start-returns mk concurrency argv c s made y h =
      let (t, e, st) = start_steps concurrency s (l1_server-IsFresh concurrency argv c s y h) in
      (
        t,
        start-Leads always mk (always-Below mk made) env.io s t e,
        st.ready,
        st.no_bonsais ∙ ap (λ d. replicate (nbeams_of d) none) (sym st.same_config),
        st.same_config,
      )
