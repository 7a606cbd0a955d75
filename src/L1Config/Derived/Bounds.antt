-- ===== src/L1Config/Derived/Bounds.antt =====
-- The sizes of the buffers are enough for what they hold, and no larger than they need be.
use native.Mathlib.Nat.{lt-div-mul-add, div-mul-le_self, mul-le-mul_right, mul-le-mul_left, mul-pos}
use ch_frb_l.Base.{
  ℕ, zero, suc, ◌+◌, ◌-◌, ◌*◌, ◌/◌, ◌^◌, ◌≤◌, ◌<◌, ◌≡◌, refl, sym, ◌∙◌, ok_injective, ◌⊎◌, inl, inr,
  List, [], ◌∷◌, ok, length, pos_part, max, map, arith, Result-cases,
}
use ch_frb_l.Util.{int_result, xdiv}
use ch_frb_l.Util.Power.{power-pos}
use ch_frb_l.FrbIo.{FrbIo}
use ch_frb_l.L1Config.{Doubles, Settings, Buffers}
use ch_frb_l.L1Config.Derived.{
  chunks_for, telescoping_chunks, sum_chunks, fudge_factor, live_chunks_per_beam, derive_buffers,
}

-- `k` chunks of `nt` samples are enough for `n` samples, they are two at least, and one chunk less
-- is not enough unless they are two.
abbrev pub Fits : ℕ → ℕ → ℕ → Type 0
Fits n nt k = (n ≤ k * nt) × (2 ≤ k) × ((k ≡ 2) ⊎ ((k - 1) * nt < n))

int_result_eq : (n m : ℕ) → int_result n ≡ ok m → (m ≡ n) × (n < 2 ^ 31)
unfolding int_result
int_result_eq n m h = ground arith

ceil_enough : (n nt : ℕ) → 0 < nt → n ≤ (n + nt - 1) / nt * nt
ceil_enough n nt p = omega (arith, lt-div-mul-add {a = n + nt - 1} p)

pred_mul : (q nt : ℕ) → 0 < q → (q - 1) * nt + nt ≡ q * nt
pred_mul zero nt h = elim h [ ]
pred_mul (suc q) nt h = let less : suc q - 1 ≡ q = omega arith in rw less (omega arith)

ceil_least : (n nt : ℕ) → 0 < nt → 2 < (n + nt - 1) / nt → ((n + nt - 1) / nt - 1) * nt < n
ceil_least n nt p h =
    omega (arith, div-mul-le_self (n + nt - 1) nt, pred_mul ((n + nt - 1) / nt) nt (omega arith))

at_most_or_above : (q : ℕ) → (q ≤ 2) ⊎ (2 < q)
at_most_or_above q = ground arith

max-Fits : (n nt q : ℕ) → n ≤ q * nt → ((2 < q) → (q - 1) * nt < n) → Fits n nt (max q 2)
max-Fits n nt q enough least = elim (at_most_or_above q) [
  | inl few ↦
      let two : max q 2 ≡ 2 = omega arith in
      rw two (omega (arith, enough, mul-le-mul_right {m = q} {n = 2} nt few), omega arith, inl refl)
  | inr many ↦
      let same : max q 2 ≡ q = omega arith in rw same (enough, omega arith, inr (least many))
]

chunks_for_value : (n nt k : ℕ) → chunks_for n nt ≡ ok k → k ≡ max ((n + nt - 1) / nt) 2
unfolding chunks_for int_result
chunks_for_value n nt k h = ground arith

chunks_for-Fits : (n nt k : ℕ) → 0 < nt → chunks_for n nt ≡ ok k → Fits n nt k
chunks_for-Fits n nt k p h =
    rw (chunks_for_value n nt k h)
      (max-Fits n nt ((n + nt - 1) / nt) (ceil_enough n nt p) (ceil_least n nt p))

-- The i-th ring buffer has chunks of 2^i times `nt` samples.
abbrev pub AllFit : ℕ → ℕ → List ℕ → List ℕ → Type 0
AllFit nt i [] [] = Unit
AllFit nt i [] (k ∷ ks) = ⊥
AllFit nt i (n ∷ ns) [] = ⊥
AllFit nt i (n ∷ ns) (k ∷ ks) = Fits n (2 ^ i * nt) k × AllFit nt (suc i) ns ks

scaled-pos : (i nt : ℕ) → 0 < nt → 0 < 2 ^ i * nt
scaled-pos i nt p = mul-pos (power-pos i) p

telescoping-AllFit :
    (nt i : ℕ) (ns ks : List ℕ) → 0 < nt → telescoping_chunks nt i ns ≡ ok ks → AllFit nt i ns ks
unfolding telescoping_chunks
telescoping-AllFit nt i [] [] p h = tt
telescoping-AllFit nt i [] (k ∷ ks) p h = cc
telescoping-AllFit nt i (n ∷ ns) ks p h = elim (Result-cases (chunks_for n (2 ^ i * nt))) [
  | inr (e, f) ↦ cc
  | inl (k, f) ↦ elim (Result-cases (telescoping_chunks nt (suc i) ns)) [
    | inr (e, g) ↦ cc
    | inl (rest, g) ↦
        let all : ks ≡ k ∷ rest = ok_injective (sym h ∙ rw (telescoping_chunks, f, g) refl) in
        rw all (
          chunks_for-Fits n (2 ^ i * nt) k (omega (arith, scaled-pos i nt p)) f,
          telescoping-AllFit nt (suc i) ns rest p g,
        )
  ]
]

-- A beam keeps at least six chunks alive besides its assembled ring buffer: the fudge factor makes up
-- for a telescoping ring buffer that is small or missing.
live_chunks_least :
    (assembled : ℕ) (telescoping : List ℕ)
    → (assembled + 6 ≤ live_chunks_per_beam assembled telescoping)
      × (2 + assembled + sum_chunks telescoping ≤ live_chunks_per_beam assembled telescoping)
unfolding live_chunks_per_beam fudge_factor
live_chunks_least assembled [] = ground arith
live_chunks_least assembled (k ∷ ks) = ground arith

-- The parts of the computation, one by one.
module _ {D : Type 0} (io : FrbIo) (slab_size : ℕ → ℕ → ℕ → ℕ) (num : Doubles D)
    (s : Settings D) where
  -- The FPGA counts in a packet, and the packets of an unassembled list.
  abbrev fpga_per_packet : ℕ
  fpga_per_packet = pos_part s.nt_per_packet * pos_part s.fpga_counts_per_sample

  abbrev packets_per_list : ℕ
  packets_per_list = 40000 / fpga_per_packet + 1

  derive_steps :
      (b : Buffers)
      → derive_buffers io slab_size num s ≡ ok b
      → (chunks_for (pos_part s.assembled_ringbuf_nsamples) io.nt_per_assembled_chunk
          ≡ ok b.assembled_ringbuf_nchunks)
        × (telescoping_chunks io.nt_per_assembled_chunk 0
              (map pos_part s.telescoping_ringbuf_nsamples)
            ≡ ok b.telescoping_ringbuf_nchunks)
        × (b.total_memory_slabs
            ≡ pos_part s.nbeams
                * live_chunks_per_beam b.assembled_ringbuf_nchunks b.telescoping_ringbuf_nchunks
              + length s.ipaddr * max 1 (length b.telescoping_ringbuf_nchunks)
              + num.staging_chunks s.write_staging_area_gb b.nbytes_per_memory_slab)
        × (b.unassembled_npackets_per_list ≡ packets_per_list * io.nfreq_coarse_tot)
        × (b.unassembled_ringbuf_capacity
            ≡ pos_part s.unassembled_ringbuf_nsamples
                / (packets_per_list * pos_part s.nt_per_packet)
              + 1)
        × (b.total_memory_slabs < 2 ^ 31)
        × (b.unassembled_nbytes_per_list < 2 ^ 31)
  unfolding derive_buffers int_result
  derive_steps b h = ground arith

  -- The derived sizes serve the parameters.
  pub record IsAdequate (b : Buffers) : Type 0 where
    pub assembled :
        Fits
          (pos_part s.assembled_ringbuf_nsamples)
          io.nt_per_assembled_chunk
          b.assembled_ringbuf_nchunks
    pub telescoping :
        AllFit io.nt_per_assembled_chunk 0
          (map pos_part s.telescoping_ringbuf_nsamples)
          b.telescoping_ringbuf_nchunks
    pub memory :
        pos_part s.nbeams * (b.assembled_ringbuf_nchunks + 6) + length s.ipaddr
        ≤ b.total_memory_slabs
    pub memory_telescoping :
        pos_part s.nbeams
            * (2 + b.assembled_ringbuf_nchunks + sum_chunks b.telescoping_ringbuf_nchunks)
          + length s.ipaddr
        ≤ b.total_memory_slabs
    pub list_npackets : b.unassembled_npackets_per_list ≡ packets_per_list * io.nfreq_coarse_tot
    pub list_time : 40000 < packets_per_list * fpga_per_packet
    pub unassembled :
        pos_part s.unassembled_ringbuf_nsamples
        < b.unassembled_ringbuf_capacity * (packets_per_list * pos_part s.nt_per_packet)
    pub total_int : b.total_memory_slabs < 2 ^ 31
    pub nbytes_int : b.unassembled_nbytes_per_list < 2 ^ 31

  enough_slabs :
      (n m live streams t extra total : ℕ)
      → m ≤ live
      → 0 < t
      → total ≡ n * live + streams * t + extra
      → n * m + streams ≤ total
  enough_slabs n m live streams t extra total h p e =
      omega
        (arith, mul-le-mul_left {m = m} {n = live} n h, mul-le-mul_left {m = 1} {n = t} streams p)

  -- When the constructor has derived the sizes, for positive packet, count and chunk lengths, they are
  -- adequate: each ring buffer holds the samples asked for and has no chunk too many (but two at
  -- least), there are memory slabs for all of them and six more for each beam than its assembled ring
  -- buffer, the packets of a list span more than 40000 FPGA counts, and the totals fit an `int`.
  pub derive_buffers-IsAdequate :
      (b : Buffers)
      → 0 < pos_part s.nt_per_packet
      → 0 < pos_part s.fpga_counts_per_sample
      → 0 < io.nt_per_assembled_chunk
      → derive_buffers io slab_size num s ≡ ok b
      → IsAdequate b
  derive_buffers-IsAdequate b nt_pos fpga_pos chunk_pos h =
      let (assembled, telescoping, total, npackets, capacity, total_int, nbytes_int) =
        derive_steps b h in
      let (six, all) =
        live_chunks_least b.assembled_ringbuf_nchunks b.telescoping_ringbuf_nchunks in
      let live = live_chunks_per_beam b.assembled_ringbuf_nchunks b.telescoping_ringbuf_nchunks in
      let temporary : 0 < max 1 (length b.telescoping_ringbuf_nchunks) = omega arith in
      let fp_pos : 0 < fpga_per_packet = mul-pos nt_pos fpga_pos in
      let time : 40000 < packets_per_list * fpga_per_packet =
        omega (arith, lt-div-mul-add {a = 40000} fp_pos) in
      let list_pos : 0 < packets_per_list * pos_part s.nt_per_packet =
        mul-pos {m = packets_per_list} (omega arith) nt_pos in
      record {
        assembled =
            chunks_for-Fits (pos_part s.assembled_ringbuf_nsamples) io.nt_per_assembled_chunk
              b.assembled_ringbuf_nchunks chunk_pos assembled;
        telescoping =
            telescoping-AllFit io.nt_per_assembled_chunk 0
              (map pos_part s.telescoping_ringbuf_nsamples) b.telescoping_ringbuf_nchunks chunk_pos
              telescoping;
        memory =
            enough_slabs (pos_part s.nbeams) (b.assembled_ringbuf_nchunks + 6) live
              (length s.ipaddr) (max 1 (length b.telescoping_ringbuf_nchunks))
              (num.staging_chunks s.write_staging_area_gb b.nbytes_per_memory_slab)
              b.total_memory_slabs six temporary total;
        memory_telescoping =
            enough_slabs (pos_part s.nbeams)
              (2 + b.assembled_ringbuf_nchunks + sum_chunks b.telescoping_ringbuf_nchunks) live
              (length s.ipaddr) (max 1 (length b.telescoping_ringbuf_nchunks))
              (num.staging_chunks s.write_staging_area_gb b.nbytes_per_memory_slab)
              b.total_memory_slabs all temporary total;
        list_npackets = npackets;
        list_time = time;
        unassembled =
            rw capacity (
              omega (arith, lt-div-mul-add {a = pos_part s.unassembled_ringbuf_nsamples} list_pos));
        total_int = total_int;
        nbytes_int = nbytes_int;
      }

  -- A derivation that returns has found that the coarse frequencies divide the frequencies.
  pub derive_buffers-xdiv :
      (b : Buffers)
      → derive_buffers io slab_size num s ≡ ok b
      → (n : ℕ) × (xdiv (pos_part s.nfreq) io.nfreq_coarse_tot ≡ ok n)
  unfolding derive_buffers int_result
  derive_buffers-xdiv b h = elim (Result-cases (xdiv (pos_part s.nfreq) io.nfreq_coarse_tot)) [
    | inl found ↦ found
    | inr (x, e) ↦ absurd (ground arith)
  ]
