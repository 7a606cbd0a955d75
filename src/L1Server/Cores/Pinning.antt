-- ===== src/L1Server/Cores/Pinning.antt =====
-- Which threads share cores: none of the 16 beams of a node, but neighbours of the 8.
use ch_frb_l.Base.{
  ℕ, ◌+◌, ◌*◌, ◌/◌, ◌≡◌, refl, ◌∙◌, Bool, true, not, ◌&&◌, List, [], ◌∷◌, ◌++◌, ok, get_or,
  contains, nat_eq, length, length-set, length-replicate, replicate, set, arith, suc, ◌<◌, ◌||◌,
  nat_beq, ltb, lt→ltb, if◌then◌else◌,
}
use ch_frb_l.Util.{counted, vrange, vconcat}
use ch_frb_l.L1Config.Environment.{L1Config}
use ch_frb_l.L1Server.{CorePinning}
use ch_frb_l.L1Server.Rpc.Pointers.{all_below, all_below_elem}
use ch_frb_l.L1Server.Cores.{
  nbeams_of, nstreams_of, init_20cores_16beams, init_20cores_8beams, pin_cores, pinned16, pinned8,
  pin_rows, pin_row,
}

abbrev pub disjoint : List ℕ → List ℕ → Bool
disjoint [] ys = true
disjoint (x ∷ xs) ys = not (contains x ys) && disjoint xs ys

abbrev apart_from : List ℕ → List (List ℕ) → Bool
apart_from xs [] = true
apart_from xs (ys ∷ yss) = disjoint xs ys && apart_from xs yss

-- No two of the lists have a core in common.
abbrev pub all_apart : List (List ℕ) → Bool
all_apart [] = true
all_apart (xs ∷ xss) = apart_from xs xss && all_apart xss

abbrev pub within : List ℕ → List ℕ → Bool
within [] ys = true
within (x ∷ xs) ys = contains x ys && within xs ys

-- Each of the beams has its cores on the CPU on which its stream's assembler thread has its own.
abbrev pub on_cpu : CorePinning → ℕ → ℕ → List ℕ → Bool
on_cpu p nbeams_per_cpu nbeams_per_stream [] = true
on_cpu p nbeams_per_cpu nbeams_per_stream (b ∷ beams) =
    let cpu = get_or p.cores_on_cpu (b / nbeams_per_cpu) [] in
    within (get_or p.dedispersion_cores b []) cpu
    && (within (get_or p.assembler_thread_cores (b / nbeams_per_stream) []) cpu
        && on_cpu p nbeams_per_cpu nbeams_per_stream beams)

length-pin_row :
    (cores : ℕ → ℕ → List ℕ) (n i : ℕ) (js : List ℕ) (table : List (List ℕ))
    → length (pin_row cores n i js table) ≡ length table
unfolding pin_row
length-pin_row cores n i [] table = refl
length-pin_row cores n i (j ∷ js) table =
    length-pin_row cores n i js (set table (n * i + j) (cores i j))
    ∙ length-set table (n * i + j) (cores i j)

length-pin_rows :
    (cores : ℕ → ℕ → List ℕ) (n : ℕ) (is : List ℕ) (table : List (List ℕ))
    → length (pin_rows cores n is table) ≡ length table
unfolding pin_rows
length-pin_rows cores n [] table = refl
length-pin_rows cores n (i ∷ is) table =
    length-pin_rows cores n is (pin_row cores n i (counted 0 n) table)
    ∙ length-pin_row cores n i (counted 0 n) table

pub length-pinned16 : (n : ℕ) → length (pinned16 n) ≡ n
unfolding pinned16
length-pinned16 n =
    length-pin_rows (λ i j. (10 * i + j) ∷ (10 * i + j + 20) ∷ []) 8 (0 ∷ 1 ∷ []) (replicate n [])
    ∙ length-replicate n []

pub length-pinned8 : (n : ℕ) → length (pinned8 n) ≡ n
unfolding pinned8
length-pinned8 n =
    length-pin_rows
      (λ i j. (10 * i + 2 * j) ∷ (10 * i + 2 * j + 1) ∷ (10 * i + j + 20) ∷ (10 * i + j + 21) ∷ [])
      4 (0 ∷ 1 ∷ []) (replicate n [])
    ∙ length-replicate n []

abbrev pub two_cpus : List (List ℕ)
two_cpus = vconcat (counted 0 10) (counted 20 10) ∷ vconcat (counted 10 10) (counted 30 10) ∷ []

-- What is said of a pair of beams, as a test; it says nothing of a pair that is not in order.
abbrev pair_fits : List (List ℕ) → ℕ → ℕ → Bool
pair_fits table a b =
    let apart = disjoint (get_or table a []) (get_or table b []) in
    let neighbours = nat_beq (suc a) b && nat_beq (a / 4) (b / 4) in
    not (ltb a b) || (if apart then not neighbours else neighbours)

fits_pair :
    (table : List (List ℕ)) (a b : ℕ)
    → a < b
    → pair_fits table a b ≡ true
    → disjoint (get_or table a []) (get_or table b [])
      ≡ not (nat_beq (suc a) b && nat_beq (a / 4) (b / 4))
fits_pair table a b less h = ground (arith, lt→ltb a b less, h)

pairs_fit : all_below 8 (λ a. all_below 8 (pair_fits (pinned8 8) a)) ≡ true
unfolding pinned8 contains counted
pairs_fit = refl

module _ {D : Type 0} (concurrency : ℕ) (c : L1Config D) (p : CorePinning) where
  pub scheme16 :
      nbeams_of c ≡ 16
      → pin_cores concurrency c ≡ ok p
      → (nstreams_of c ≡ 4)
        × (p.ncpus ≡ 2)
        × (p.cores_on_cpu ≡ two_cpus)
        × (p.output_thread_cores ≡ 9 ∷ 29 ∷ [])
        × (p.assembler_thread_cores
            ≡ (8 ∷ 28 ∷ []) ∷ (8 ∷ 28 ∷ []) ∷ (18 ∷ 38 ∷ []) ∷ (18 ∷ 38 ∷ []) ∷ [])
        × (p.dedispersion_cores ≡ pinned16 16)
  unfolding pin_cores init_20cores_16beams vrange
  scheme16 n h = ground arith

  scheme8 : nbeams_of c ≡ 8 → pin_cores concurrency c ≡ ok p → p.dedispersion_cores ≡ pinned8 8
  unfolding pin_cores init_20cores_8beams vrange
  scheme8 n h = ground arith

  -- A server with 16 beams that the constructor accepts: no two of the dedispersion threads, the output
  -- threads and the assembler threads 0 and 2 have a core in common; and the cores of a beam and those of
  -- its stream's assembler thread are on one CPU.
  pub pin_cores-apart :
      nbeams_of c ≡ 16
      → pin_cores concurrency c ≡ ok p
      → (all_apart (
            p.dedispersion_cores
            ++ p.output_thread_cores
              ∷ get_or p.assembler_thread_cores 0 []
              ∷ get_or p.assembler_thread_cores 2 []
              ∷ [])
          ≡ true)
        × (on_cpu p 8 4 (counted 0 16) ≡ true)
  unfolding pinned16 counted vconcat contains
  pin_cores-apart n h =
      let (_, _, cpus, output, assembler, dedispersion) = scheme16 n h in
      (rw (dedispersion, output, assembler) refl, rw (cpus, assembler, dedispersion) refl)

  -- A server with 8 beams that the constructor accepts: of two beams, the threads have a core in common
  -- exactly if the beams are neighbours on one CPU, which has the beams 0 to 3 or 4 to 7.
  pub pin_cores-shared :
      nbeams_of c ≡ 8
      → pin_cores concurrency c ≡ ok p
      → (a b : ℕ) → a < b
      → b < 8
      → disjoint (get_or p.dedispersion_cores a []) (get_or p.dedispersion_cores b [])
        ≡ not (nat_beq (suc a) b && nat_beq (a / 4) (b / 4))
  pin_cores-shared n h a b less in_range =
      let rows =
        all_below_elem 8 (λ i. all_below 8 (pair_fits (pinned8 8) i)) pairs_fit a (omega arith) in
      let fits = all_below_elem 8 (pair_fits (pinned8 8) a) rows b in_range in
      rw (scheme8 n h) (fits_pair (pinned8 8) a b less fits)
