-- ===== src/L1Server/Phases/Refine.antt =====
-- The phases as an abstract machine: which of the objects there are, and which call is in order.
use ch_frb_l.Base.{
  ◌<◌, ◌≡◌, ap, ◌∙◌, ◌⊎◌, Bool, true, not, ◌&&◌, ◌||◌, List, Option, none, some, ok, Throws,
  if◌then◌else◌, ltb, nat_beq, length, length-replicate, arith, Result-cases, Bool-cases, inl, inr,
}
use ch_frb_l.FrbIo.{FrbIo}
use ch_frb_l.Util.{xdiv, counted}
use ch_frb_l.Util.Vectors.{length-counted}
use ch_frb_l.L1Server.{L1Server, Makers, TriggerPipe}
use ch_frb_l.L1Server.Vectors.{for_each}
use ch_frb_l.L1Server.Vectors.Loops.{for_each-length}
use ch_frb_l.L1Server.Cores.{nbeams_of, nstreams_of}
use ch_frb_l.L1Server.Phases.{
  spawn_l1b_subprocesses, make_pipe, make_output_devices, make_memory_slab_pools, make_pool,
  make_input_streams, make_stream, make_mask_stats, make_prometheus_servers, make_prometheus,
  spawn_dedispersion_threads, make_context,
}

pub data Phase : Type 0 where
  pipes devices pools inputs masks web threads : Phase

-- Which objects have been made.
pub record Made : Type 0 where
  pub has_pipes : Bool
  pub has_pools : Bool
  pub has_inputs : Bool
  pub has_web : Bool
  pub has_threads : Bool

-- The order that a call must keep; `none` is a call out of order, or a second one.
abbrev pub next : Phase → Made → Option Made
next devices m = some m
next masks m = some m
next pipes m = if m.has_pipes then none else some (record m { has_pipes = true })
next pools m = if m.has_pools then none else some (record m { has_pools = true })
next inputs m =
    if not m.has_inputs && m.has_pools then some (record m { has_inputs = true }) else none
next web m = if not m.has_web && m.has_inputs then some (record m { has_web = true }) else none
next threads m =
    if not m.has_threads && (m.has_inputs && m.has_pipes)
    then some (record m { has_threads = true })
    else none

abbrev nonempty : {A : Type 0} → List A → Bool
nonempty xs = ltb 0 (length xs)

module _ {D Bonsai Pipeline : Type 0} where
  abbrev pub made : L1Server D Bonsai Pipeline → Made
  made s = record {
    has_pipes = nonempty s.l1b_subprocesses;
    has_pools = nonempty s.memory_slab_pools;
    has_inputs = nonempty s.input_streams;
    has_web = nonempty s.prometheus_servers;
    has_threads = nonempty s.dedispersion_threads;
  }

  -- The method of a phase.
  unfoldable pub call_phase :
      Makers D → FrbIo → Phase → L1Server D Bonsai Pipeline → Throws (L1Server D Bonsai Pipeline)
  call_phase mk io pipes s = spawn_l1b_subprocesses mk s
  call_phase mk io devices s = make_output_devices mk s
  call_phase mk io pools s = make_memory_slab_pools mk s
  call_phase mk io inputs s = make_input_streams mk io s
  call_phase mk io masks s = make_mask_stats s
  call_phase mk io web s = make_prometheus_servers mk s
  call_phase mk io threads s = spawn_dedispersion_threads s

  pools_refine :
      (mk : Makers D) (s t : L1Server D Bonsai Pipeline)
      → 0 < s.cores.ncpus
      → make_memory_slab_pools mk s ≡ ok t
      → next pools (made s) ≡ some (made t)
  unfolding make_memory_slab_pools
  pools_refine mk s t p h =
      elim (Result-cases (for_each (make_pool mk s) (counted 0 s.cores.ncpus))) [
        | inr (x, e) ↦ absurd (ground (arith, e))
        | inl (ps, e) ↦
            let size =
              for_each-length (make_pool mk s) (counted 0 s.cores.ncpus) ps e
              ∙ length-counted 0 s.cores.ncpus in
            ground (arith, e, size)
      ]

  web_refine :
      (mk : Makers D) (s t : L1Server D Bonsai Pipeline)
      → 0 < nstreams_of s.config
      → make_prometheus_servers mk s ≡ ok t
      → next web (made s) ≡ some (made t)
  unfolding make_prometheus_servers
  web_refine mk s t p h =
      elim (Result-cases (for_each (make_prometheus mk s) (counted 0 (nstreams_of s.config)))) [
        | inr (x, e) ↦ absurd (ground (arith, e))
        | inl (ps, e) ↦
            let size =
              for_each-length (make_prometheus mk s) (counted 0 (nstreams_of s.config)) ps e
              ∙ length-counted 0 (nstreams_of s.config) in
            ground (arith, e, size)
      ]

  threads_refine :
      (s t : L1Server D Bonsai Pipeline)
      → 0 < nbeams_of s.config
      → 0 < nstreams_of s.config
      → spawn_dedispersion_threads s ≡ ok t
      → next threads (made s) ≡ some (made t)
  unfolding spawn_dedispersion_threads
  threads_refine s t p q h =
      elim (Result-cases (for_each (make_context s) (counted 0 (nbeams_of s.config)))) [
        | inr (x, e) ↦ absurd (ground (arith, e))
        | inl (ps, e) ↦
            let size =
              for_each-length (make_context s) (counted 0 (nbeams_of s.config)) ps e
              ∙ length-counted 0 (nbeams_of s.config) in
            ground (arith, e, size)
      ]

  simple_refine :
      (mk : Makers D) (s t : L1Server D Bonsai Pipeline)
      → ((make_output_devices mk s ≡ ok t) ⊎ (make_mask_stats s ≡ ok t))
      → made s ≡ made t
  unfolding make_output_devices make_mask_stats
  simple_refine mk s t (inl h) = ground arith
  simple_refine mk s t (inr h) = ground arith

  pipes_refine :
      (mk : Makers D) (s t : L1Server D Bonsai Pipeline)
      → 0 < nbeams_of s.config
      → spawn_l1b_subprocesses mk s ≡ ok t
      → next pipes (made s) ≡ some (made t)
  unfolding spawn_l1b_subprocesses
  pipes_refine mk s t p h =
      elim (Bool-cases
        (s.config.options.tflag || nat_beq (length s.config.settings.l1b_executable_filename) 0)) [
          | inl e ↦
              ground
                (arith, e, length-replicate {A = Option (TriggerPipe D)} (nbeams_of s.config) none)
          | inr e ↦
              elim (Result-cases (for_each (make_pipe mk s) (counted 0 (nbeams_of s.config)))) [
                | inr (x, f) ↦ absurd (ground (arith, e, f))
                | inl (ps, f) ↦
                    let size =
                      for_each-length (make_pipe mk s) (counted 0 (nbeams_of s.config)) ps f
                      ∙ length-counted 0 (nbeams_of s.config) in
                    ground (arith, e, f, size)
              ]
        ]

  inputs_refine :
      (mk : Makers D) (io : FrbIo) (s t : L1Server D Bonsai Pipeline)
      → 0 < s.cores.ncpus
      → 0 < nstreams_of s.config
      → make_input_streams mk io s ≡ ok t
      → next inputs (made s) ≡ some (made t)
  unfolding make_input_streams
  inputs_refine mk io s t p q h = elim (Result-cases (xdiv (nstreams_of s.config) s.cores.ncpus)) [
    | inr (x, e) ↦ absurd (ground (arith, e))
    | inl (a, e) ↦ elim (Result-cases (xdiv (nbeams_of s.config) (nstreams_of s.config))) [
      | inr (x, f) ↦ absurd (ground (arith, e, f))
      | inl (b, f) ↦
          elim (Result-cases
            (for_each (make_stream mk io s a b) (counted 0 (nstreams_of s.config)))) [
              | inr (x, g) ↦ absurd (ground (arith, e, f, g))
              | inl (ps, g) ↦
                  let size =
                    for_each-length (make_stream mk io s a b) (counted 0 (nstreams_of s.config)) ps
                      g
                    ∙ length-counted 0 (nstreams_of s.config) in
                  ground (arith, e, f, g, size)
            ]
    ]
  ]

  -- A call of a phase that returns was in order, and it makes what the abstract machine says: nothing is
  -- made twice (except for the output devices and the maps of masks, which the machine leaves out), the
  -- streams come after the memory pools, the metrics after the streams, and the dedispersion threads
  -- after the streams and the pipes. The server has beams, streams and CPUs.
  pub call_phase-refines :
      (mk : Makers D) (io : FrbIo) (p : Phase) (s t : L1Server D Bonsai Pipeline)
      → 0 < nbeams_of s.config
      → 0 < nstreams_of s.config
      → 0 < s.cores.ncpus
      → call_phase mk io p s ≡ ok t
      → next p (made s) ≡ some (made t)
  unfolding call_phase
  call_phase-refines mk io pipes s t b n c h = pipes_refine mk s t b h
  call_phase-refines mk io devices s t b n c h = ap some (simple_refine mk s t (inl h))
  call_phase-refines mk io pools s t b n c h = pools_refine mk s t c h
  call_phase-refines mk io inputs s t b n c h = inputs_refine mk io s t c n h
  call_phase-refines mk io masks s t b n c h = ap some (simple_refine mk s t (inr h))
  call_phase-refines mk io web s t b n c h = web_refine mk s t n h
  call_phase-refines mk io threads s t b n c h = threads_refine s t b n h
