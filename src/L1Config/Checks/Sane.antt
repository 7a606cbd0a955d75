-- ===== src/L1Config/Checks/Sane.antt =====
-- What the checks establish: the conditions of the configuration, without their order.
use ch_frb_l.Base.{
  ℕ, ◌*◌, ◌%◌, ◌≤◌, ◌<◌, ◌≡◌, refl, ◌↔◌, ◌⊎◌, true, false, List, [], ◌∷◌, Option, none, some, ok,
  Text, length, ℤ, pos, negsuc, pos_part, is_neg, ◌>>◌, arith, All, Throws, err,
}
use ch_frb_l.FrbIo.{FrbIo}
use ch_frb_l.L1Config.{BonsaiConfig, Doubles, Settings}
use ch_frb_l.L1Config.Checks.{
  check_counts, check_streams, check_kernels, check_ringbufs, check_beams_per_stream,
  check_settings, all_pos, first_below, int_ltb, nfreq_mismatch,
}

-- The frequencies agree with the bonsai file, if there is one.
abbrev pub Matches : Option BonsaiConfig → ℤ → Type 0
Matches none nfreq = Unit
Matches (some b) nfreq = nfreq ≡ b.nfreq

-- An integer that is at least 1.
abbrev pub IsPositive : ℤ → Type 0
IsPositive (pos n) = 0 < n
IsPositive (negsuc n) = ⊥

-- The head of the list, if it has one, is at least `n`.
abbrev pub HeadAbove : ℕ → List ℤ → Type 0
HeadAbove n [] = Unit
HeadAbove n (t ∷ ts) = n ≤ pos_part t

module _ {D : Type 0} (io : FrbIo) (num : Doubles D) (bonsai : Option BonsaiConfig)
    (s : Settings D) where
  pub record IsSane : Type 0 where
    pub beams : IsPositive s.nbeams
    pub rfi : is_neg s.nrfifreq ≡ false
    pub matches : Matches bonsai s.nfreq
    pub freqs : IsPositive s.nfreq
    pub coarse : pos_part s.nfreq % io.nfreq_coarse_tot ≡ 0
    pub freqs_most : pos_part s.nfreq ≤ 16384
    pub streams : 0 < length s.ipaddr
    pub packets : IsPositive s.nt_per_packet
    pub fpga : IsPositive s.fpga_counts_per_sample
    pub align : (is_neg s.nt_align ≡ false) × (pos_part s.nt_align % io.nt_per_assembled_chunk ≡ 0)
    pub rpc : length s.rpc_address ≡ length s.ipaddr
    pub prometheus : length s.prometheus_address ≡ length s.ipaddr
    pub kernels :
        (s.slow_kernels ≡ true)
        ⊎ ((s.nt_per_packet ≡ pos 16) × (pos_part s.nfreq % (2 * io.nfreq_coarse_tot) ≡ 0))
    pub l1b_buffer : is_neg s.l1b_buffer_nsamples ≡ false
    pub l1b_timeout : num.negative s.l1b_pipe_timeout ≡ false
    pub unassembled : IsPositive s.unassembled_ringbuf_nsamples
    pub assembled : IsPositive s.assembled_ringbuf_nsamples
    pub telescoping_most : length s.telescoping_ringbuf_nsamples ≤ 4
    pub telescoping_head :
        HeadAbove (pos_part s.assembled_ringbuf_nsamples) s.telescoping_ringbuf_nsamples
    pub staging : num.negative s.write_staging_area_gb ≡ false
    pub telescoping : All IsPositive s.telescoping_ringbuf_nsamples
    pub shared : pos_part s.nbeams % length s.ipaddr ≡ 0

  counts_iff :
      (name : Text)
      → (check_counts io bonsai name s ≡ ok tt) ↔ (
          IsPositive s.nbeams
          × (is_neg s.nrfifreq ≡ false)
          × Matches bonsai s.nfreq
          × IsPositive s.nfreq
          × (pos_part s.nfreq % io.nfreq_coarse_tot ≡ 0)
          × (pos_part s.nfreq ≤ 16384))
  unfolding check_counts nfreq_mismatch
  counts_iff name = ground arith

  streams_iff :
      (name : Text)
      → (check_streams io name s ≡ ok tt) ↔ (
          (0 < length s.ipaddr)
          × IsPositive s.nt_per_packet
          × IsPositive s.fpga_counts_per_sample
          × ((is_neg s.nt_align ≡ false) × (pos_part s.nt_align % io.nt_per_assembled_chunk ≡ 0))
          × (length s.rpc_address ≡ length s.ipaddr)
          × (length s.prometheus_address ≡ length s.ipaddr))
  unfolding check_streams
  streams_iff name = ground arith

  kernels_iff :
      (name : Text)
      → (check_kernels io num name s ≡ ok tt) ↔ (
          ((s.slow_kernels ≡ true)
            ⊎ ((s.nt_per_packet ≡ pos 16) × (pos_part s.nfreq % (2 * io.nfreq_coarse_tot) ≡ 0)))
          × (is_neg s.l1b_buffer_nsamples ≡ false)
          × (num.negative s.l1b_pipe_timeout ≡ false))
  unfolding check_kernels
  kernels_iff name = ground arith

  all_pos_iff : (ts : List ℤ) → (all_pos ts ≡ true) ↔ All IsPositive ts
  unfolding all_pos
  all_pos_iff [] = ground arith
  all_pos_iff (t ∷ ts) = ground (arith, all_pos_iff ts)

  first_below_iff :
      (ts : List ℤ) (n : ℤ) → IsPositive n → (first_below ts n ≡ false) ↔ HeadAbove (pos_part n) ts
  unfolding first_below int_ltb
  first_below_iff [] n h = ground arith
  first_below_iff (pos t ∷ ts) n h = ground arith
  first_below_iff (negsuc t ∷ ts) n h = ground arith

  ringbufs_iff :
      (name : Text)
      → (check_ringbufs num name s ≡ ok tt) ↔ (
          IsPositive s.unassembled_ringbuf_nsamples
          × IsPositive s.assembled_ringbuf_nsamples
          × (length s.telescoping_ringbuf_nsamples ≤ 4)
          × HeadAbove (pos_part s.assembled_ringbuf_nsamples) s.telescoping_ringbuf_nsamples
          × (num.negative s.write_staging_area_gb ≡ false)
          × All IsPositive s.telescoping_ringbuf_nsamples)
  unfolding check_ringbufs
  ringbufs_iff name = ground (
    arith,
    all_pos_iff s.telescoping_ringbuf_nsamples,
    first_below_iff s.telescoping_ringbuf_nsamples s.assembled_ringbuf_nsamples,
  )

  beams_iff :
      (name : Text)
      → (check_beams_per_stream name s ≡ ok tt) ↔ (pos_part s.nbeams % length s.ipaddr ≡ 0)
  unfolding check_beams_per_stream
  beams_iff name = ground arith

  -- Two checks in a row pass when both do.
  both_iff : (m k : Throws Unit) → (m >> k ≡ ok tt) ↔ ((m ≡ ok tt) × (k ≡ ok tt))
  both_iff (ok tt) k = ((λ h. (refl, h)), (λ h. h.1))
  both_iff (err e) k = ((λ h. cc), (λ h. cc (h.0)))

  -- The parameters pass all checks exactly when they satisfy every condition of `IsSane`.
  pub check_settings-IsSane : (name : Text) → (check_settings io num bonsai name s ≡ ok tt) ↔ IsSane
  unfolding check_settings
  check_settings-IsSane name = (
    λ h.
        let (h1, t1) = (both_iff (check_counts io bonsai name s) _).0 h in
        let (h2, t2) = (both_iff (check_streams io name s) _).0 t1 in
        let (h3, t3) = (both_iff (check_kernels io num name s) _).0 t2 in
        let (h4, h5) = (both_iff (check_ringbufs num name s) _).0 t3 in
        let (a, b, c, d, e, f) = (counts_iff name).0 h1 in
        let (g, i, j, k, l, m) = (streams_iff name).0 h2 in
        let (n, o, p) = (kernels_iff name).0 h3 in
        let (q, r, t, u, v, w) = (ringbufs_iff name).0 h4 in
        record {
          beams = a;
          rfi = b;
          matches = c;
          freqs = d;
          coarse = e;
          freqs_most = f;
          streams = g;
          packets = i;
          fpga = j;
          align = k;
          rpc = l;
          prometheus = m;
          kernels = n;
          l1b_buffer = o;
          l1b_timeout = p;
          unassembled = q;
          assembled = r;
          telescoping_most = t;
          telescoping_head = u;
          staging = v;
          telescoping = w;
          shared = (beams_iff name).0 h5;
        },
    λ y.
        let h1 = (counts_iff name).1 (y.beams, y.rfi, y.matches, y.freqs, y.coarse, y.freqs_most) in
        let h2 =
          (streams_iff name).1 (y.streams, y.packets, y.fpga, y.align, y.rpc, y.prometheus) in
        let h3 = (kernels_iff name).1 (y.kernels, y.l1b_buffer, y.l1b_timeout) in
        let h4 = (ringbufs_iff name).1 (
          y.unassembled, y.assembled, y.telescoping_most, y.telescoping_head, y.staging,
          y.telescoping,
        ) in
        let h5 = (beams_iff name).1 y.shared in rw (h1, h2, h3, h4, h5) refl,
  )
