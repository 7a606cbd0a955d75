-- ===== src/L1Server/Cores.antt =====
-- The constructor of the server: which cores its threads are pinned to.
pub mod Pinning
pub mod Lengths
use ch_frb_l.Base.{
  ℕ, zero, suc, ◌+◌, ◌*◌, ◌/◌, Bool, true, false, not, ◌&&◌, ◌||◌, List, [], ◌∷◌, if◌then◌else◌, ok,
  err, Throws, exit, runtime_error, assert, ◌>>=◌, ◌>>◌, throw_if, msg, ltb, leb, nat_beq, length,
  set, replicate, pos_part,
}
use ch_frb_l.Util.{vrange, vconcat, counted}
use ch_frb_l.L1Config.Environment.{L1Config, have_warnings}
use ch_frb_l.L1Server.{CorePinning}

module _ {D : Type 0} where
  abbrev pub nbeams_of : L1Config D → ℕ
  nbeams_of c = pos_part c.settings.nbeams

  abbrev pub nstreams_of : L1Config D → ℕ
  nstreams_of c = length c.settings.ipaddr

  -- The members before a scheme is chosen.
  no_pinning : L1Config D → CorePinning
  no_pinning c = record {
    ncpus = 0;
    cores_on_cpu = [];
    output_thread_cores = [];
    network_thread_cores = [];
    dedispersion_cores = replicate (nbeams_of c) [];
    assembler_thread_cores = replicate (nstreams_of c) [];
    asynchronous_dedispersion = false;
    sleep_hack = 0;
  }

  unfoldable pub init_subscale : L1Config D → Throws CorePinning
  unfolding no_pinning
  init_subscale c = do
    if ltb 4096 (pos_part c.settings.nfreq) then have_warnings c.options else ok tt
    ok (record (no_pinning c) { ncpus = 1; cores_on_cpu = [] ∷ [] })

-- The two loops over i and j: `row` gives the cores of the entry n * i + j.
pin_row : (ℕ → ℕ → List ℕ) → ℕ → ℕ → List ℕ → List (List ℕ) → List (List ℕ)
pin_row cores n i [] table = table
pin_row cores n i (j ∷ js) table = pin_row cores n i js (set table (n * i + j) (cores i j))

pin_rows : (ℕ → ℕ → List ℕ) → ℕ → List ℕ → List (List ℕ) → List (List ℕ)
unfolding pin_row
pin_rows cores n [] table = table
pin_rows cores n (i ∷ is) table = pin_rows cores n is (pin_row cores n i (counted 0 n) table)

-- The dedispersion cores of the two schemes, for a vector of `nbeams` lists.
unfoldable pub pinned16 : ℕ → List (List ℕ)
unfolding pin_rows pin_row
pinned16 nbeams =
    pin_rows (λ i j. (10 * i + j) ∷ (10 * i + j + 20) ∷ []) 8 (0 ∷ 1 ∷ []) (replicate nbeams [])

unfoldable pub pinned8 : ℕ → List (List ℕ)
unfolding pin_rows pin_row
pinned8 nbeams =
    pin_rows
      (λ i j. (10 * i + 2 * j) ∷ (10 * i + 2 * j + 1) ∷ (10 * i + j + 20) ∷ (10 * i + j + 21) ∷ [])
      4 (0 ∷ 1 ∷ []) (replicate nbeams [])

module _ {D : Type 0} where
  unfoldable pub init_20cores_16beams : L1Config D → Throws CorePinning
  unfolding no_pinning
  init_20cores_16beams c = do
    throw_if (not (nat_beq (nstreams_of c) 4)) (
        runtime_error (
          msg
            "ch-frb-l1: in the \"production\" 16-beam case, we currently require 4 streams (this could be generalized pretty easily)"))
    a ← vrange 0 10
    b ← vrange 20 30
    c0 ← vrange 10 20
    d ← vrange 30 40
    ok (record (no_pinning c) {
      ncpus = 2;
      sleep_hack = if c.options.tflag then 5 else 30;
      cores_on_cpu = vconcat a b ∷ vconcat c0 d ∷ [];
      output_thread_cores = 9 ∷ 29 ∷ [];
      assembler_thread_cores = (8 ∷ 28 ∷ []) ∷ (8 ∷ 28 ∷ []) ∷ (18 ∷ 38 ∷ []) ∷ (18 ∷ 38 ∷ []) ∷ [];
      network_thread_cores = vconcat a b;
      dedispersion_cores = pinned16 (nbeams_of c);
    })

  unfoldable pub init_20cores_8beams : L1Config D → Throws CorePinning
  unfolding no_pinning
  init_20cores_8beams c = do
    throw_if (not (nat_beq (nstreams_of c) 2)) (
        runtime_error (
          msg
            "ch-frb-l1: in the \"production\" 8-beam case, we currently require 2 streams (this could be generalized pretty easily)"))
    a ← vrange 0 10
    b ← vrange 20 30
    c0 ← vrange 10 20
    d ← vrange 30 40
    ok (record (no_pinning c) {
      ncpus = 2;
      cores_on_cpu = vconcat a b ∷ vconcat c0 d ∷ [];
      output_thread_cores = 9 ∷ 29 ∷ [];
      assembler_thread_cores = (8 ∷ 28 ∷ []) ∷ (18 ∷ 38 ∷ []) ∷ [];
      network_thread_cores = vconcat a b;
      sleep_hack = if c.options.tflag then 5 else 30;
      asynchronous_dedispersion = true;
      dedispersion_cores = pinned8 (nbeams_of c);
    })

  -- The choice of the scheme by the beams and the cores, `concurrency` being the number of hyperthreads.
  unfoldable pub pin_cores : ℕ → L1Config D → Throws CorePinning
  unfolding init_subscale init_20cores_16beams init_20cores_8beams
  pin_cores concurrency c = do
    let num_cores = concurrency / 2
    p ←
        (if leb (nbeams_of c) 4
          then init_subscale c
          else if nat_beq (nbeams_of c) 16 && nat_beq num_cores 20
          then init_20cores_16beams c
          else if nat_beq (nbeams_of c) 8 && nat_beq num_cores 20
          then init_20cores_8beams c
          else err (exit 1))
    assert (ltb 0 p.ncpus)
    assert (nat_beq (length p.cores_on_cpu) p.ncpus)
    ok (
        if c.settings.force_asynchronous_dedispersion
        then record p { asynchronous_dedispersion = true }
        else p)
