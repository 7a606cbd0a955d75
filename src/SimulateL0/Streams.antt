-- ===== src/SimulateL0/Streams.antt =====
-- The output streams share out the beams and the coarse frequencies: each pair is sent by one thread.
use native.Mathlib.Nat.{
  div-add-mod', div-eq_of_lt-le, div-mul-le_self, lt-div-mul-add, mod-eq-sub-div-mul,
  div-lt_iff_lt-mul, mul-le-mul_right,
}
use ch_frb_l.Base.{
  ℕ, zero, suc, ◌+◌, ◌-◌, ◌*◌, ◌/◌, ◌%◌, ◌≤◌, ◌<◌, ◌≡◌, ap, sym, ◌∙◌, ◌↔◌, true, List, [], ok, Text,
  nat_beq, nat_eq, get_or, ok_injective, arith,
}
use ch_frb_l.FrbIo.{FrbIo}
use ch_frb_l.Util.{vcontains, counted, vrange}
use ch_frb_l.Util.Vectors.{xdiv_iff, factor_pos}
use ch_frb_l.SimulateL0.{RawParams, L0Params, Initializer, derive, make_ostream}
use ch_frb_l.SimulateL0.Packets.{derive_steps}

vcontains-counted : (lo n x : ℕ) → (vcontains (counted lo n) x ≡ true) ↔ ((lo ≤ x) × (x < lo + n))
unfolding vcontains counted
vcontains-counted lo zero x = ground arith
vcontains-counted lo (suc n) x = ground (arith, vcontains-counted (suc lo) n x)

-- The quotient is the block in which a number lies.
in_block : (d q x : ℕ) → 0 < d → ((q * d ≤ x) × (x < (q + 1) * d)) ↔ (q ≡ x / d)
in_block d q x p = (
  (λ (lo, hi). sym (div-eq_of_lt-le d lo hi)),
  λ e. rw e (div-mul-le_self x d, omega (arith, lt-div-mul-add {a = x} p)),
)

-- A number is fixed by its quotient and its remainder.
split_index : (n q r t : ℕ) → r < n → ((q ≡ t / n) × (r ≡ t % n)) ↔ (t ≡ q * n + r)
split_index n q r t p = (
  (λ (h, k). rw (h, k) (sym (div-add-mod' t n))),
  λ e.
      let whole : t / n ≡ q = div-eq_of_lt-le n (omega arith) (omega arith) in
      (sym whole, sym (mod-eq-sub-div-mul t n ∙ rw whole (omega arith))),
)

-- A thread's stream holds a beam and a coarse frequency.
abbrev pub Holds : L0Params → ℕ → ℕ → ℕ → Type 0
Holds l t beam freq =
    (o : Initializer) × (make_ostream l t ≡ ok o)
    × (vcontains o.beam_ids beam ≡ true)
    × (vcontains o.coarse_freq_ids freq ≡ true)

-- The thread that sends a beam and a coarse frequency.
abbrev pub owner : L0Params → ℕ → ℕ → ℕ
owner l beam freq =
    beam / l.nbeams_per_stream * l.nthreads_per_stream + freq / l.nfreq_coarse_per_thread

-- `d` numbers, the `q`-th block of that size.
abbrev block : ℕ → ℕ → List ℕ
block q d = counted (q * d) ((q + 1) * d - q * d)

block_iff : (d q x : ℕ) → 0 < d → (vcontains (block q d) x ≡ true) ↔ (q ≡ x / d)
block_iff d q x p =
    let inside = vcontains-counted (q * d) ((q + 1) * d - q * d) x in
    let blocks = in_block d q x p in
    (
      (λ h. let (lo, hi) = inside.0 h in blocks.0 (lo, omega arith)),
      λ e. let (lo, hi) = blocks.1 e in inside.1 (lo, omega arith),
    )

-- The counts of the parameters are products.
record IsLayout (io : FrbIo) (l : L0Params) : Type 0 where
  beams : l.nbeams_per_stream * l.nstreams ≡ l.nbeams_tot
  threads : l.nthreads_per_stream * l.nstreams ≡ l.nthreads_tot
  freqs : l.nfreq_coarse_per_thread * l.nthreads_per_stream ≡ io.nfreq_coarse_tot
  some_beam : 0 < l.nbeams_tot
  some_thread : 0 < l.nthreads_tot
  some_freq : 0 < io.nfreq_coarse_tot

derive-IsLayout :
    (io : FrbIo) (name : Text) (r : RawParams) (l : L0Params)
    → derive io name r ≡ ok l
    → IsLayout io l
derive-IsLayout io name r l h =
    let (_, _, freqs, beams, threads) = derive_steps io name r l h in
    let (f, f_pos, _) =
      (xdiv_iff io.nfreq_coarse_tot l.nthreads_per_stream l.nfreq_coarse_per_thread).0 freqs in
    let (b, b_pos, _) = (xdiv_iff l.nbeams_tot l.nstreams l.nbeams_per_stream).0 beams in
    let (t, t_pos, _) = (xdiv_iff l.nthreads_tot l.nstreams l.nthreads_per_stream).0 threads in
    record {
      beams = b;
      threads = t;
      freqs = f;
      some_beam = b_pos;
      some_thread = t_pos;
      some_freq = f_pos;
    }

module _ (io : FrbIo) (l : L0Params) (y : IsLayout io l) (beam freq : ℕ) (b : beam < l.nbeams_tot)
    (f : freq < io.nfreq_coarse_tot) where
  freq_thread : freq / l.nfreq_coarse_per_thread < l.nthreads_per_stream
  freq_thread =
      let d =
        factor_pos l.nfreq_coarse_per_thread l.nthreads_per_stream io.nfreq_coarse_tot y.freqs
          y.some_freq in
      (div-lt_iff_lt-mul d).1 (omega (arith, y.freqs))

  some_thread_each : 0 < l.nthreads_per_stream
  some_thread_each =
      factor_pos l.nthreads_per_stream l.nstreams l.nthreads_tot y.threads y.some_thread

  some_beam_each : 0 < l.nbeams_per_stream
  some_beam_each = factor_pos l.nbeams_per_stream l.nstreams l.nbeams_tot y.beams y.some_beam

  some_freq_each : 0 < l.nfreq_coarse_per_thread
  some_freq_each =
      factor_pos l.nfreq_coarse_per_thread l.nthreads_per_stream io.nfreq_coarse_tot y.freqs
        y.some_freq

  owner_lt : owner l beam freq < l.nthreads_tot
  owner_lt =
      let stream : beam / l.nbeams_per_stream < l.nstreams =
        (div-lt_iff_lt-mul some_beam_each).1 (omega (arith, y.beams)) in
      omega (
        arith,
        y.threads,
        freq_thread,
        mul-le-mul_right {m = beam / l.nbeams_per_stream + 1} {n = l.nstreams} l.nthreads_per_stream
            (omega arith),
      )

  -- The stream of a thread.
  abbrev stream : ℕ → Initializer
  stream t = record {
    dst_ipaddr = get_or l.ipaddr (t / l.nthreads_per_stream) [];
    dst_port = get_or l.port (t / l.nthreads_per_stream) 0;
    beam_ids = block (t / l.nthreads_per_stream) l.nbeams_per_stream;
    coarse_freq_ids = block (t % l.nthreads_per_stream) l.nfreq_coarse_per_thread;
    nfreq_coarse_per_packet = l.nfreq_coarse_per_packet;
    send_end_of_stream_packets = nat_beq (t % l.nthreads_per_stream) (l.nthreads_per_stream - 1);
  }

  make_stream : (t : ℕ) → t < l.nthreads_tot → make_ostream l t ≡ ok (stream t)
  unfolding make_ostream vrange
  make_stream t h = ground arith

  Holds-owner_iff : (t : ℕ) → t < l.nthreads_tot → Holds l t beam freq ↔ (t ≡ owner l beam freq)
  Holds-owner_iff t h =
      let beams = block_iff l.nbeams_per_stream (t / l.nthreads_per_stream) beam some_beam_each in
      let freqs =
        block_iff l.nfreq_coarse_per_thread (t % l.nthreads_per_stream) freq some_freq_each in
      let index =
        split_index l.nthreads_per_stream (beam / l.nbeams_per_stream)
          (freq / l.nfreq_coarse_per_thread) t freq_thread in
      (
        (λ (o, e, has_b, has_f).
            let same : o ≡ stream t = ok_injective (sym e ∙ make_stream t h) in
            index.0 (
              sym (
                  beams.0 (ap (λ (i : Initializer). vcontains i.beam_ids beam) (sym same) ∙ has_b)),
              sym (
                  freqs.0 (
                    ap (λ (i : Initializer). vcontains i.coarse_freq_ids freq) (sym same) ∙ has_f)),
            )),
        λ e.
            let (q, r) = index.1 e in (stream t, make_stream t h, beams.1 (sym q), freqs.1 (sym r)),
      )

-- Once the parameters have passed the checks, each beam and coarse frequency is sent by one thread and
-- by no other: `owner` is a thread, and the stream of a thread holds both exactly when it is `owner`.
pub streams_partition :
    (io : FrbIo) (name : Text) (r : RawParams) (l : L0Params) (beam freq t : ℕ)
    → derive io name r ≡ ok l
    → beam < l.nbeams_tot
    → freq < io.nfreq_coarse_tot
    → t < l.nthreads_tot
    → (owner l beam freq < l.nthreads_tot) × (Holds l t beam freq ↔ (t ≡ owner l beam freq))
streams_partition io name r l beam freq t h b f k =
    let y = derive-IsLayout io name r l h in
    (owner_lt io l y beam freq b f, Holds-owner_iff io l y beam freq b f t k)
