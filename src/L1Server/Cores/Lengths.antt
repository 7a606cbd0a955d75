-- ===== src/L1Server/Cores/Lengths.antt =====
-- The lengths of the lists of cores, which the phases rely on.
use ch_frb_l.Base.{ℕ, ◌<◌, ◌≡◌, ◌⊎◌, inl, inr, List, [], ok, length, arith, length-replicate}
use ch_frb_l.Util.{xdiv, vrange}
use ch_frb_l.Util.Vectors.{xdiv_iff}
use ch_frb_l.L1Config.Environment.{L1Config, have_warnings}
use ch_frb_l.L1Server.{CorePinning}
use ch_frb_l.L1Server.Cores.{
  nbeams_of, nstreams_of, pin_cores, init_subscale, init_20cores_16beams, init_20cores_8beams,
}
use ch_frb_l.L1Server.Cores.Pinning.{length-pinned16, length-pinned8}

-- What the phases need of the core-pinning scheme.
pub record IsPinned (nbeams nstreams : ℕ) (p : CorePinning) : Type 0 where
  pub cpus : length p.cores_on_cpu ≡ p.ncpus
  pub beams : length p.dedispersion_cores ≡ nbeams
  pub streams : length p.assembler_thread_cores ≡ nstreams
  pub split : (n : ℕ) × (xdiv nstreams p.ncpus ≡ ok n)

module _ {D : Type 0} (concurrency : ℕ) (c : L1Config D) (p : CorePinning) where
  pin_lengths :
      pin_cores concurrency c ≡ ok p
      → (length p.cores_on_cpu ≡ p.ncpus)
        × (length p.dedispersion_cores ≡ nbeams_of c)
        × (length p.assembler_thread_cores ≡ nstreams_of c)
        × ((p.ncpus ≡ 1) ⊎ ((p.ncpus ≡ 2) × ((nstreams_of c ≡ 2) ⊎ (nstreams_of c ≡ 4))))
  unfolding pin_cores init_subscale init_20cores_16beams init_20cores_8beams vrange have_warnings
  pin_lengths h = ground (
    arith,
    length-pinned16 (nbeams_of c),
    length-pinned8 (nbeams_of c),
    length-replicate {A = List ℕ} (nbeams_of c) [],
    length-replicate {A = List ℕ} (nstreams_of c) [],
  )

  pub pin_cores-IsPinned :
      0 < nstreams_of c → pin_cores concurrency c ≡ ok p → IsPinned (nbeams_of c) (nstreams_of c) p
  pin_cores-IsPinned some_stream h =
      let (cpus, beams, streams, ways) = pin_lengths h in
      record {
        cpus = cpus;
        beams = beams;
        streams = streams;
        split = elim ways [
          | inl one ↦ (
            nstreams_of c,
            (xdiv_iff (nstreams_of c) p.ncpus (nstreams_of c)).1
                (rw one (omega arith), some_stream, omega (arith, one)),
          )
          | inr (two, inl n) ↦
              (1, (xdiv_iff (nstreams_of c) p.ncpus 1).1 (omega arith, some_stream, omega arith))
          | inr (two, inr n) ↦
              (2, (xdiv_iff (nstreams_of c) p.ncpus 2).1 (omega arith, some_stream, omega arith))
        ];
      }
