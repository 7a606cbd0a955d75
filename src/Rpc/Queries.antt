-- ===== src/Rpc/Queries.antt =====
-- The requests that only read: what their replies hold.
use ch_frb_l.Base.{
  ℕ, zero, suc, ◌+◌, ◌*◌, ◌^◌, ◌%◌, Bool, List, [], ◌∷◌, ◌++◌, map, Option, none, some,
  if◌then◌else◌, ok, err, Throws, ◌>>=◌, undefined, txt, Text, text_eq, ◌==◌, ℤ, pos, negsuc,
  nat_beq, lookup, insert, to_string, int_to_string,
}
use ch_frb_l.Rpc.Object.{Object, int, double, str, array, dict, fields}
use ch_frb_l.Rpc.Data.{Chunk}
use ch_frb_l.Rpc.Backend.{Backend, get_status}

-- get_streaming_status()
pub record Streaming : Type 0 where
  pub filename : Text
  pub beams : List ℤ
  pub priority : ℤ
  pub chunks_written : ℤ
  pub bytes_written : ℕ

-- ch_frb_io's packet_counts: `named` is what its to_string() gives.
pub record PacketCounts (D : Type 0) : Type 0 where
  pub start_time : D
  pub period : D
  pub counts : List (ℕ × ℕ)
  pub named : List (Text × ℕ)

-- rf_pipelines' mask_measurements: the number of samples, and of unmasked ones for each frequency.
pub record Measurement : Type 0 where
  pub nt : ℤ
  pub freqs_unmasked : List ℤ

-- What the queries read of the stream, of the file system and of the pipelines at one moment.
-- `rate` is `(double)val / period`; a missing disk is one whose statvfs() fails; `procstat` holds the
-- words of /proc/stat, each with whether a line ends behind it.
pub record Readings (D : Type 0) : Type 0 where
  pub beam_ids : List ℤ
  pub streaming : Streaming
  pub nfs_gb_free : Option ℤ
  pub ssd_gb_free : Option ℤ
  pub double_of_int : ℤ → D
  pub rate : ℕ → D → D
  pub packet_rates : D → D → Option (PacketCounts D)
  pub packet_rate_history : D → D → D → List (PacketCounts D)
  pub statistics : List (List (Text × ℕ))
  pub procstat_time : ℕ
  pub procstat : List (Text × Bool)
  pub stoll : Text → Throws ℕ
  pub ringbuf_snapshots : List ℤ → List (List (Chunk × ℕ))
  pub masks : List ((ℤ × Text) × List Measurement)
  pub packet_max_fpga_seen : ℕ
  pub flushed : List ℕ
  pub retrieved : List ℕ
  pub latencies : List (ℤ × Text × ℕ)
  pub bonsais : List (ℕ × ℕ)
  pub fpga_counts_per_sample : ℕ
  pub first_fpga_count : ℤ → ℕ

-- Comma-separated.
unfoldable pub commas : List ℤ → Text
commas [] = []
commas (b ∷ []) = int_to_string b
commas (b ∷ (c ∷ bs)) = int_to_string b ++ (b',' ∷ commas (c ∷ bs))

difference : ℕ → ℕ → ℤ
difference m zero = pos m
difference zero (suc n) = negsuc n
difference (suc m) (suc n) = difference m n

-- m.nt - fum[k]
minus : ℤ → ℤ → ℤ
unfolding difference
minus (pos m) (pos n) = difference m n
minus (pos m) (negsuc n) = pos (m + suc n)
minus (negsuc m) (pos n) = negsuc (m + n)
minus (negsuc m) (negsuc n) = difference n m

-- The 64-bit sum of the counts of all L0 nodes, or the count of a named one, or 0.
count_of : {D : Type 0} → PacketCounts D → Text → ℕ
count_of p name =
    if name == txt "sum" then sum p.counts else elim (lookup name p.named) [ none ↦ 0 | some n ↦ n ]
  where
    sum : List (ℕ × ℕ) → ℕ
    sum [] = 0
    sum ((_, n) ∷ rest) = (n + sum rest) % 2 ^ 64

module _ {D : Type 0} where
  uint : ℕ → Object D
  uint n = int (pos n)

  -- "stream_status"
  unfoldable pub stream_status : Readings D → Object D
  unfolding commas
  stream_status q = dict (
      fields (
        (txt "stream_filename", str q.streaming.filename)
        ∷ (txt "stream_priority", str (int_to_string q.streaming.priority))
        ∷ (txt "stream_chunks_written", str (int_to_string q.streaming.chunks_written))
        ∷ (txt "stream_bytes_written", str (to_string q.streaming.bytes_written))
        ∷ (free (txt "nfs_gb_free") q.nfs_gb_free
            ++ (free (txt "ssd_gb_free") q.ssd_gb_free
                ++ ((txt "all_beams", str (commas q.beam_ids))
                    ∷ (txt "stream_beams", str (commas q.streaming.beams))
                    ∷ [])))))
    where
      free : Text → Option ℤ → List (Text × Object D)
      free key none = []
      free key (some gb) = (key, str (int_to_string gb)) ∷ []

  -- "get_packet_rate"; without a measurement all is zero.
  unfoldable pub packet_rate : Readings D → D → D → Object D
  unfolding uint
  packet_rate q start period = elim (q.packet_rates start period) [
    | none ↦ array (
        double (q.double_of_int (pos 0)) ∷ double (q.double_of_int (pos 0)) ∷ dict (fields []) ∷ [])
    | some p ↦ array (
        double p.start_time
        ∷ double p.period
        ∷ dict (fields (map (λ c. (c.0, uint c.1)) p.named))
        ∷ [])
  ]

  -- "get_packet_rate_history": the times, and for each L0 node its rate at each time.
  unfoldable pub packet_rate_history : Readings D → D → D → D → List Text → Object D
  unfolding count_of
  packet_rate_history q start end_time period l0 =
      let packets = q.packet_rate_history start end_time period in
      array (
        array (map (λ p. double p.start_time) packets)
        ∷ array
            (map (λ name. array (map (λ p. double (q.rate (count_of p name) p.period)) packets)) l0)
        ∷ [])

  -- The loop over the words of /proc/stat: the key of the line (empty at its start), and the index of
  -- the next number.
  procstat_words :
      Readings D → List (Text × Bool) → Text → ℕ → List (Text × ℕ) → Throws (List (Text × ℕ))
  procstat_words q [] key arrayi stats = ok stats
  procstat_words q ((word, line_ends) ∷ words) key arrayi stats = elim key [
    | [] ↦ procstat_words q words (if line_ends then [] else word) 0 stats
    | c ∷ cs ↦ elim (q.stoll word) [
      | err e ↦ err e
      | ok ival ↦ procstat_words q words (if line_ends then [] else c ∷ cs) (suc arrayi) (
          if nat_beq ival 0
          then stats
          else insert (txt "procstat_" ++ ((c ∷ cs) ++ (b'_' ∷ to_string arrayi))) ival stats)
    ]
  ]

  -- "get_statistics": the numbers of /proc/stat go to the first map of the stream's statistics.
  unfoldable pub statistics : Readings D → Throws (Object D)
  unfolding procstat_words uint
  statistics q = elim q.statistics [
    | [] ↦ err undefined
    | first ∷ rest ↦
        procstat_words q q.procstat [] 0 (insert (txt "procstat_time") q.procstat_time first)
        >>= λ first'.
            ok (array (map (λ m. dict (fields (map (λ e. (e.0, uint e.1)) m))) (first' ∷ rest)))
  ]

  chunk_row : Chunk × ℕ → Object D
  unfolding uint
  chunk_row (c, ring) =
      array (uint c.beam_id ∷ uint c.fpga_begin ∷ uint c.fpga_end ∷ uint ring ∷ [])

  chunk_rows : List (List (Chunk × ℕ)) → List (Object D)
  unfolding chunk_row
  chunk_rows [] = []
  chunk_rows (beam ∷ beams) = map chunk_row beam ++ chunk_rows beams

  beam_chunks : Readings D → List ℤ → List (Object D)
  unfolding chunk_rows
  beam_chunks q [] = []
  beam_chunks q (b ∷ beams) = chunk_rows (q.ringbuf_snapshots (b ∷ [])) ++ beam_chunks q beams

  -- "list_chunks": one beam is read at a time.
  unfoldable pub list_chunks : Readings D → Object D
  unfolding beam_chunks
  list_chunks q = array (beam_chunks q q.beam_ids)

  -- "get_writechunk_status"
  unfoldable pub writechunk_status : Backend → Text → Object D
  writechunk_status b pathname =
      let (_, status, error_message) = get_status pathname b in
      array (str status ∷ str error_message ∷ [])

  mask_row : (ℤ × Text) × List Measurement → Object D
  unfolding minus
  mask_row ((beam_id, stage), meas) = array (
      int beam_id
      ∷ str stage
      ∷ int (first_nt meas)
      ∷ array (map (λ m. array (map (λ unmasked. int (minus m.nt unmasked)) m.freqs_unmasked)) meas)
      ∷ [])
    where
      first_nt : List Measurement → ℤ
      first_nt [] = pos 0
      first_nt (m ∷ _) = m.nt

  -- "get_masked_frequencies"
  unfoldable pub masked_frequencies : Readings D → Object D
  unfolding mask_row
  masked_frequencies q = array (map mask_row q.masks)

  seen : Text → ℤ → ℕ → Object D
  unfolding uint
  seen stage beam fpga = array (str stage ∷ int beam ∷ uint fpga ∷ [])

  -- Two rows for each beam; an index out of range of the two lists is undefined.
  beam_rows : Readings D → List ℤ → List ℕ → List ℕ → Throws (List (Object D))
  unfolding seen
  beam_rows q [] flushed retrieved = ok []
  beam_rows q (b ∷ beams) [] retrieved = err undefined
  beam_rows q (b ∷ beams) (f ∷ flushed) [] = err undefined
  beam_rows q (b ∷ beams) (f ∷ flushed) (r ∷ retrieved) =
      beam_rows q beams flushed retrieved >>= λ rows.
      ok (seen (txt "chunk_flushed") b f ∷ seen (txt "chunk_retrieved") b r ∷ rows)

  latency_row : Readings D → ℤ × Text × ℕ → Object D
  unfolding seen
  latency_row q (beam, stage, pos_lo) =
      seen stage beam ((pos_lo * q.fpga_counts_per_sample + q.first_fpga_count beam) % 2 ^ 64)

  -- The dedisperser of each beam: chunks processed, and the length of a chunk.
  bonsai_rows : Readings D → List (ℕ × ℕ) → List ℤ → Throws (List (Object D))
  unfolding seen
  bonsai_rows q [] beams = ok []
  bonsai_rows q (b ∷ bonsais) [] = err undefined
  bonsai_rows q ((nchunks, nt_chunk) ∷ bonsais) (beam ∷ beams) =
      bonsai_rows q bonsais beams >>= λ rows. ok (
        seen (txt "bonsai") beam
          ((nchunks * nt_chunk * q.fpga_counts_per_sample + q.first_fpga_count beam) % 2 ^ 64)
        ∷ rows)

  -- "get_max_fpga_counts"
  unfoldable pub max_fpga_counts : Readings D → Throws (Object D)
  unfolding beam_rows latency_row bonsai_rows seen
  max_fpga_counts q = beam_rows q q.beam_ids q.flushed q.retrieved >>= λ rows.
      bonsai_rows q q.bonsais q.beam_ids >>= λ last. ok (
        array (
          seen (txt "packet_stream") (negsuc 0) q.packet_max_fpga_seen
          ∷ (rows ++ (map (latency_row q) q.latencies ++ last))))
