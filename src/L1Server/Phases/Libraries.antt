-- ===== src/L1Server/Phases/Libraries.antt =====
-- How the phases depend on the libraries' constructors: what a phase returns, it returns with any
-- constructors that return as much.
use ch_frb_l.Base.{
  not, msg, throw_if, ◌+◌, ◌*◌, ◌/◌, ◌||◌, nat_beq, ltb, length, pos_part, undefined, ℕ, ◌≡◌, refl,
  List, [], ◌∷◌, ok, err, Throws, ◌>>=◌, Bool, true, false, if◌then◌else◌, Text,
}
use ch_frb_l.FrbIo.{FrbIo}
use ch_frb_l.Util.{xdiv, counted}
use ch_frb_l.L1Server.{
  L1Server, Makers, Succeeds, TriggerPipe, OutputDevice, SlabPool, InputStream, PrometheusServer,
}
use ch_frb_l.L1Server.Vectors.{at, slice, for_each}
use ch_frb_l.L1Server.Cores.{nbeams_of, nstreams_of}
use ch_frb_l.L1Server.Phases.{
  internal_error, make_pipe, spawn_l1b_subprocesses, make_device, make_output_devices, make_pool,
  make_memory_slab_pools, make_stream, make_input_streams, make_prometheus, make_prometheus_servers,
}

-- If the first computation returns, the second returns the same.
abbrev pub Leads : {A : Type 0} → Throws A → Throws A → Type 0
Leads {A = A} m n = (a : A) → m ≡ ok a → n ≡ ok a

pub bind-Leads :
    {A B : Type 0} (m n : Throws A) (f g : A → Throws B)
    → Leads m n
    → ((a : A) → Leads (f a) (g a))
    → Leads (m >>= f) (n >>= g)
bind-Leads (ok a) n f g h k b e = rw (h a refl) (k a b e)
bind-Leads (err x) n f g h k b e = cc

-- Both begin with the same computation.
pub after-Leads :
    {A B : Type 0} {f g : A → Throws B} (m : Throws A)
    → ((a : A) → Leads (f a) (g a))
    → Leads (m >>= f) (m >>= g)
after-Leads {f = f} {g = g} m k = bind-Leads m m f g (λ x e. e) k

for_each-Leads :
    {A B : Type 0} (f g : A → Throws B) (xs : List A)
    → ((x : A) → Leads (f x) (g x))
    → Leads (for_each f xs) (for_each g xs)
unfolding for_each
for_each-Leads f g [] h = λ ys e. e
for_each-Leads f g (x ∷ xs) h =
    bind-Leads (f x) (g x) _ _ (h x)
      (λ y. bind-Leads (for_each f xs) (for_each g xs) _ _ (for_each-Leads f g xs h) (λ ys zs e. e))

-- The test at the start of a phase.
abbrev out_of_order : Bool → Text → Throws Unit
out_of_order in_order t = throw_if (not in_order) (internal_error t)

if-Leads :
    {A : Type 0} (t : Bool) (m n k : Throws A)
    → Leads n k
    → Leads (if t then m else n) (if t then m else k)
if-Leads true m n k h = λ x e. e
if-Leads false m n k h = h

-- The libraries' constructors, if none throws.
abbrev pub always : {D : Type 0} → Makers D
always = record {
  trigger_pipe = λ p. ok tt;
  output_device = λ d. ok tt;
  memory_slab_pool = λ p. ok tt;
  network_stream = λ s. ok tt;
  stream_to_files = λ s. ok tt;
  prometheus_server = λ w. ok tt;
}

pub record Below {D : Type 0} (mk more : Makers D) : Type 0 where
  pub pipes : (p : TriggerPipe D) → Leads (mk.trigger_pipe p) (more.trigger_pipe p)
  pub devices : (d : OutputDevice) → Leads (mk.output_device d) (more.output_device d)
  pub pools : (p : SlabPool) → Leads (mk.memory_slab_pool p) (more.memory_slab_pool p)
  pub streams : (s : InputStream) → Leads (mk.network_stream s) (more.network_stream s)
  pub files : (s : InputStream) → Leads (mk.stream_to_files s) (more.stream_to_files s)
  pub webs : (w : PrometheusServer) → Leads (mk.prometheus_server w) (more.prometheus_server w)

pub Below-always : {D : Type 0} (mk : Makers D) → Below mk always
Below-always mk = record {
  pipes = λ p u e. refl;
  devices = λ d u e. refl;
  pools = λ p u e. refl;
  streams = λ s u e. refl;
  files = λ s u e. refl;
  webs = λ w u e. refl;
}

pub always-Below : {D : Type 0} (mk : Makers D) → Succeeds mk → Below always mk
always-Below mk h = record {
  pipes = λ p u e. h.pipes p;
  devices = λ d u e. h.devices d;
  pools = λ p u e. h.pools p;
  streams = λ s u e. h.streams s;
  files = λ s u e. h.files s;
  webs = λ w u e. h.webs w;
}

module _ {D Bonsai Pipeline : Type 0} (mk more : Makers D) (b : Below mk more) where
  pipe-Leads :
      (s : L1Server D Bonsai Pipeline) (i : ℕ) → Leads (make_pipe mk s i) (make_pipe more s i)
  unfolding make_pipe
  pipe-Leads s i =
      bind-Leads (at s.config.beam_ids i) _ _ _ (λ x e. e)
        λ beam.
          bind-Leads (at s.cores.dedispersion_cores i) _ _ _ (λ x e. e)
            λ cores. bind-Leads _ _ _ _ (b.pipes _) (λ u x e. e)

  device-Leads :
      (s : L1Server D Bonsai Pipeline) (n : Text)
      → Leads (make_device mk s n) (make_device more s n)
  unfolding make_device
  device-Leads s n = bind-Leads _ _ _ _ (b.devices _) (λ u x e. e)

  pool-Leads :
      (s : L1Server D Bonsai Pipeline) (i : ℕ) → Leads (make_pool mk s i) (make_pool more s i)
  unfolding make_pool
  pool-Leads s i =
      bind-Leads (at s.cores.cores_on_cpu i) _ _ _ (λ x e. e)
        λ cores. bind-Leads _ _ _ _ (b.pools _) (λ u x e. e)

  stream-Leads :
      (io : FrbIo) (s : L1Server D Bonsai Pipeline) (per_cpu per_stream i : ℕ)
      → Leads
          (make_stream mk io s per_cpu per_stream i)
          (make_stream more io s per_cpu per_stream i)
  unfolding make_stream
  stream-Leads io s per_cpu per_stream i =
      let c = s.config in
      after-Leads (slice (i * per_stream) ((i + 1) * per_stream) c.beam_ids) λ beams.
        after-Leads (at s.memory_slab_pools (i / per_cpu)) λ pool.
          after-Leads (at c.settings.ipaddr i) λ ip. after-Leads (at c.settings.port i) λ udp.
            after-Leads (xdiv (pos_part c.settings.nfreq) io.nfreq_coarse_tot) λ nupfreq.
              after-Leads (at s.cores.assembler_thread_cores i) λ cores.
                bind-Leads _ _ _ _ (b.streams _) λ u. bind-Leads _ _ _ _ (b.files _) (λ v x e. e)

  web-Leads :
      (s : L1Server D Bonsai Pipeline) (i : ℕ)
      → Leads (make_prometheus mk s i) (make_prometheus more s i)
  unfolding make_prometheus
  web-Leads s i = after-Leads (at s.config.settings.prometheus_address i) λ address.
      after-Leads (at s.input_streams i) λ stream.
        after-Leads (if ltb i s.mask_stats_maps then ok tt else err undefined)
          λ map. bind-Leads _ _ _ _ (b.webs _) (λ u x e. e)

  pub pipes-Leads :
      (s : L1Server D Bonsai Pipeline)
      → Leads (spawn_l1b_subprocesses mk s) (spawn_l1b_subprocesses more s)
  unfolding spawn_l1b_subprocesses
  pipes-Leads s = after-Leads {A = Unit} _ λ u.
      bind-Leads _ _ _ _
        (if-Leads
          (s.config.options.tflag || nat_beq (length s.config.settings.l1b_executable_filename) 0) _
          _ _ (for_each-Leads _ _ _ (pipe-Leads s)))
        (λ pipes x e. e)

  pub devices-Leads :
      (s : L1Server D Bonsai Pipeline)
      → Leads (make_output_devices mk s) (make_output_devices more s)
  unfolding make_output_devices
  devices-Leads s =
      after-Leads {A = Unit} _
        λ u. bind-Leads _ _ _ _ (for_each-Leads _ _ _ (device-Leads s)) (λ devices x e. e)

  pub pools-Leads :
      (s : L1Server D Bonsai Pipeline)
      → Leads (make_memory_slab_pools mk s) (make_memory_slab_pools more s)
  unfolding make_memory_slab_pools
  pools-Leads s =
      after-Leads {A = Unit} _
        λ u. bind-Leads _ _ _ _ (for_each-Leads _ _ _ (pool-Leads s)) (λ pools x e. e)

  pub inputs-Leads :
      (io : FrbIo) (s : L1Server D Bonsai Pipeline)
      → Leads (make_input_streams mk io s) (make_input_streams more io s)
  unfolding make_input_streams
  inputs-Leads io s =
      let names = s.config.settings.output_device_names in
      let end = λ (streams : List InputStream). ok (record s { input_streams = streams }) in
      after-Leads
        (out_of_order (nat_beq (length s.input_streams) 0)
          (msg "double call to make_input_streams()"))
        λ u.
          after-Leads
            (out_of_order (nat_beq (length s.memory_slab_pools) s.cores.ncpus) (
              msg
                "make_input_streams() was called, without first calling make_memory_slab_pools()"))
            λ v.
              after-Leads
                (out_of_order (nat_beq (length s.output_devices) (length names)) (
                  msg
                    "make_input_streams() was called, without first calling make_output_devices()"))
                λ w. after-Leads (xdiv (nstreams_of s.config) s.cores.ncpus) λ per_cpu.
                  after-Leads (xdiv (nbeams_of s.config) (nstreams_of s.config)) λ per_stream.
                    bind-Leads _ _ end end
                      (for_each-Leads _ _ (counted 0 (nstreams_of s.config))
                        (stream-Leads io s per_cpu per_stream))
                      (λ streams x e. e)

  pub webs-Leads :
      (s : L1Server D Bonsai Pipeline)
      → Leads (make_prometheus_servers mk s) (make_prometheus_servers more s)
  unfolding make_prometheus_servers
  webs-Leads s =
      let end =
        λ (servers : List PrometheusServer). ok (record s { prometheus_servers = servers }) in
      after-Leads
        (out_of_order (nat_beq (length s.prometheus_servers) 0)
          (msg "double call to make_prometheus_servers()"))
        λ u.
          after-Leads
            (out_of_order (nat_beq (length s.input_streams) (nstreams_of s.config)) (
              msg
                "make_prometheus_servers() was called, without first calling make_input_streams()"))
            λ v.
              bind-Leads _ _ end end
                (for_each-Leads _ _ (counted 0 (nstreams_of s.config)) (web-Leads s))
                (λ servers x e. e)
