-- ===== src/L1Config/Derived.antt =====
-- The derived parameters: the sizes of the ring buffers and of the memory. The checks have found the
-- counts that are used here to be positive. A result that does not fit an `int` is undefined.
pub mod Bounds
use ch_frb_l.Base.{
  ℕ, zero, suc, ◌+◌, ◌-◌, ◌*◌, ◌/◌, ◌^◌, List, [], ◌∷◌, Option, none, some, if◌then◌else◌, ok, err,
  Throws, undefined, ◌>>=◌, ltb, length, pos_part, ℤ, max, map, is_pos, Bool,
}
use ch_frb_l.FrbIo.{FrbIo}
use ch_frb_l.Util.{xdiv, int_result}
use ch_frb_l.L1Config.{BonsaiConfig, Doubles, Settings, Buffers}

-- The number of chunks of `nt` samples for `nsamples` samples, at least 2.
unfoldable pub chunks_for : ℕ → ℕ → Throws ℕ
unfolding int_result
chunks_for nsamples nt = do n ← int_result (nsamples + nt - 1); ok (max (n / nt) 2)

-- The loop over the telescoping ring buffers: the chunks of the i-th one have 2^i times `nt` samples.
unfoldable pub telescoping_chunks : ℕ → ℕ → List ℕ → Throws (List ℕ)
unfolding chunks_for
telescoping_chunks nt i [] = ok []
telescoping_chunks nt i (n ∷ nsamples) = do
  k ← chunks_for n (2 ^ i * nt)
  rest ← telescoping_chunks nt (suc i) nsamples
  ok (k ∷ rest)

abbrev pub sum_chunks : List ℕ → ℕ
sum_chunks [] = 0
sum_chunks (n ∷ ns) = n + sum_chunks ns

unfoldable pub fudge_factor : List ℕ → ℕ
fudge_factor [] = 4
fudge_factor (k ∷ ks) = max (4 - k) 0

-- The chunks that a beam keeps alive: 2 active ones, the ring buffers, and the fudge factor.
unfoldable pub live_chunks_per_beam : ℕ → List ℕ → ℕ
unfolding fudge_factor
live_chunks_per_beam assembled telescoping =
    2 + assembled + sum_chunks telescoping + fudge_factor telescoping

-- The coarse-grained triggers of the trees, `n` chunks of each, in numbers of 4 bytes.
add_triggers : ℕ → List ℕ → ℕ → Throws ℕ
unfolding int_result
add_triggers n [] capacity = ok capacity
add_triggers n (t ∷ ntriggers) capacity = do
  more ← int_result (capacity + n * t * 4)
  add_triggers n ntriggers more

module _ {D : Type 0} where
  -- `slab_size` is ch_frb_io's get_memory_slab_size.
  unfoldable pub derive_buffers : FrbIo → (ℕ → ℕ → ℕ → ℕ) → Doubles D → Settings D → Throws Buffers
  unfolding int_result chunks_for telescoping_chunks live_chunks_per_beam
  derive_buffers io slab_size num s = do
    let nt = pos_part s.nt_per_packet
    let nt_c = io.nt_per_assembled_chunk
    let nfreq_c = io.nfreq_coarse_tot
    let nbeams = pos_part s.nbeams
    let nstreams = length s.ipaddr
    let unassembled = pos_part s.unassembled_ringbuf_nsamples
    let assembled = pos_part s.assembled_ringbuf_nsamples
    fp ← int_result (nt * pos_part s.fpga_counts_per_sample)
    let np = 40000 / fp + 1
    let nb = io.packet_size (nbeams / nstreams) 1 (pos_part s.nfreq / nfreq_c) nt
    list_nsamples ← int_result (np * nt)
    npackets ← int_result (np * nfreq_c)
    nbytes ← int_result (npackets * nb)
    nchunks ← chunks_for assembled nt_c
    telescoping ← telescoping_chunks nt_c 0 (map pos_part s.telescoping_ringbuf_nsamples)
    nupfreq ← xdiv (pos_part s.nfreq) nfreq_c
    let slab = slab_size nupfreq nt (pos_part s.nrfifreq)
    let live = live_chunks_per_beam nchunks telescoping
    total ← int_result (
        nbeams * live
        + nstreams * max 1 (length telescoping)
        + num.staging_chunks s.write_staging_area_gb slab)
    ok (record {
      unassembled_ringbuf_capacity = unassembled / list_nsamples + 1;
      unassembled_nbytes_per_list = nbytes;
      unassembled_npackets_per_list = npackets;
      assembled_ringbuf_nchunks = nchunks;
      telescoping_ringbuf_nchunks = telescoping;
      nbytes_per_memory_slab = slab;
      total_memory_slabs = total;
    })

  -- l1b_pipe_capacity; it stays 0 with -t, and without a buffer.
  unfoldable pub pipe_capacity : Option BonsaiConfig → Settings D → Throws ℕ
  unfolding add_triggers int_result
  pipe_capacity none s = ok 0
  pipe_capacity (some b) s =
      if is_pos s.l1b_buffer_nsamples
      then (do
        n ← int_result (pos_part s.l1b_buffer_nsamples + b.nt_chunk - 1)
        base ← int_result (b.serialized_size + 1024)
        add_triggers (n / b.nt_chunk) b.ntriggers_per_chunk base)
      else ok 0
