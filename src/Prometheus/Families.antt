-- ===== src/Prometheus/Families.antt =====
-- The text of the metrics as Prometheus reads it: families, each with one description and its samples.
pub mod Printed
pub mod Answers
use ch_frb_l.Base.{
  ℕ, zero, suc, ◌+◌, ◌-◌, ◌≡◌, refl, sym, ap, ◌∙◌, Bool, true, false, not, ◌&&◌, List, [], ◌∷◌,
  ◌++◌, map, append_assoc, append-nil, Option, none, some, if◌then◌else◌, ok, err, ok_injective,
  Throws, msg, txt, Text, to_string, int_to_string, text_eq, nat_beq, length, drop, filter,
  contains, lookup, ℤ, pos_part, begins, arith, Bool-cases, List-cases, undefined, ◌⊎◌, inl, inr,
  get_elem?,
}
use ch_frb_l.Util.{counted}
use ch_frb_l.MaskStats.{MaskStats, size}
use ch_frb_l.L1Server.Ending.{stat_of, to_int}
use ch_frb_l.Prometheus.{
  Stats, MetricStat, Numbers, Readings, response_header, announce_metric, sample_line, label,
  label2, derived_stats, ms, ms2, ms3, ms4, ms5,
}
use ch_frb_l.Prometheus.Handler.{
  stream_metrics, gauge, reason_lines, queued_prefix, queued_lines, count_senders, sender_metrics,
  beam_text, beam_lines, beam_metrics, level_key, level_line, level_lines, ringbuf_lines,
  ringbuf_metrics, mask_lines, mask_metrics, metrics_text, handle_get,
}

-- A family: its name, help and type, and its samples, each with labels and a value.
pub record Family : Type 0 where
  pub name : Text
  pub help : Text
  pub kind : Text
  pub samples : List (Text × Text)

abbrev pub print_samples : Text → List (Text × Text) → Text
print_samples name [] = []
print_samples name ((labels, value) ∷ samples) =
    sample_line name labels value ++ print_samples name samples

abbrev pub print_families : List Family → Text
print_families [] = []
print_families (f ∷ families) =
    announce_metric f.name f.help f.kind
    ++ (print_samples f.name f.samples ++ print_families families)

abbrev pub metric_family : (MetricStat → List (Text × Text)) → MetricStat → Family
metric_family samples m = record {
  name = m.metric;
  help = m.help;
  kind = m.kind;
  samples = samples m;
}

-- No name occurs twice.
abbrev pub distinct : List Text → Bool
distinct [] = true
distinct (name ∷ names) = not (contains name names) && distinct names

abbrev pub names_of : List Family → List Text
names_of [] = []
names_of (f ∷ fs) = f.name ∷ names_of fs

-- The samples of a ring buffer: one for each level, and for level 0 in any case.
abbrev pub level_samples : MetricStat → Stats → List ℕ → List (Text × Text)
level_samples m bstats [] = []
level_samples m bstats (lev ∷ levels) =
    (
      label2 (txt "beam") (beam_text bstats) (txt "level") (to_string lev),
      to_string (stat_of (if nat_beq lev 0 then m.key else level_key m.key lev) bstats),
    )
    ∷ level_samples m bstats levels

abbrev pub ringbuf_samples : List Stats → MetricStat → List (Text × Text)
ringbuf_samples [] m = []
ringbuf_samples (bstats ∷ beams) m =
    let nlev = pos_part (to_int (stat_of (txt "ringbuf_nlevels") bstats)) in
    level_samples m bstats (counted 0 (suc (nlev - 1))) ++ ringbuf_samples beams m

abbrev pub is_queued : Text × ℕ → Bool
is_queued kv = begins queued_prefix kv.0

abbrev pub queued_sample : Text × ℕ → Text × Text
queued_sample kv = (label (txt "device") (drop (length queued_prefix) kv.0), to_string kv.1)

abbrev pub sum : List ℕ → ℕ
sum [] = 0
sum (c ∷ counts) = c + sum counts

abbrev pub nonzero : List ℕ → ℕ
nonzero [] = 0
nonzero (zero ∷ counts) = nonzero counts
nonzero (suc c ∷ counts) = suc (nonzero counts)

abbrev pub stream_samples : Stats → MetricStat → List (Text × Text)
stream_samples sstats m = ([], to_string (stat_of m.key sstats)) ∷ []

abbrev pub reason_sample : Stats → Text × Text → Text × Text
reason_sample sstats kr = (label (txt "reason") kr.1, to_string (stat_of kr.0 sstats))

abbrev pub beam_sample : MetricStat → Stats → Text × Text
beam_sample m bstats = (label (txt "beam") (beam_text bstats), to_string (stat_of m.key bstats))

module _ {D F Ring : Type 0} (num : Numbers D F) (r : Readings D F Ring) where
  abbrev pub mask_samples : MetricStat → List ((ℤ × Text) × Ring) → List (Text × Text)
  mask_samples m [] = []
  mask_samples m (((beam_id, place), ring) ∷ entries) =
      (
        label2 (txt "beam") (int_to_string beam_id) (txt "where") place,
        num.show_fraction (lookup m.key (r.get_stats ring)),
      )
      ∷ mask_samples m entries

  abbrev pub family1 : Text → Text → Text → Family
  family1 name help value = record {
    name = name;
    help = help;
    kind = gauge;
    samples = ([], value) ∷ [];
  }

  abbrev pub counts_of : List ℕ
  counts_of = elim r.packet_rates [ none ↦ [] | some (counts, _) ↦ counts ]

  abbrev pub period_of : D
  period_of = elim r.packet_rates [ none ↦ num.default_period | some (_, period) ↦ period ]

  abbrev pub sender_families : List Family
  sender_families =
      family1 (txt "l1_l0_senders_nodes")
        (msg "Number of L0 nodes that are sending data to this L1 node")
        (to_string (nonzero counts_of))
      ∷ family1 (txt "l1_l0_senders_packets")
          (msg "Total number of packets sent by L0 nodes to this L1 node in this sampling period")
          (to_string (sum counts_of))
      ∷ family1 (txt "l1_l0_senders_period")
          (msg "Sampling period for packets sent by L0 nodes to this L1 node")
          (num.show_period period_of)
      ∷ family1 (txt "l1_l0_senders_packetrate")
          (msg
            "Total number of packets per second sent from L0 nodes to this L1 node in this sampling period")
          (num.show_rate (sum counts_of) period_of)
      ∷ []

  -- The families of the metrics, from the record of the whole stream and those of the beams.
  abbrev pub families : Stats → List Stats → List Family
  families sstats beams =
      map (metric_family (stream_samples sstats)) ms
      ++ (record {
        name = txt "l1_assembler_bad_packets";
        help = msg "Number of invalid packets received on L1 UDP socket";
        kind = gauge;
        samples = map (reason_sample sstats) ms2;
      }
          ∷ record {
            name = txt "l1_write_queued_chunks";
            help = msg "Number of chunks of data queued for writing to a filesystem";
            kind = gauge;
            samples = map queued_sample (filter is_queued sstats);
          }
          ∷ (sender_families
              ++ (map (metric_family (λ m. map (beam_sample m) beams)) ms4
                  ++ (map (metric_family (ringbuf_samples beams)) ms3
                      ++ (if nat_beq (size r.mask_stats) 0
                          then []
                          else map (metric_family (λ m. mask_samples m r.mask_stats.entries))
                              ms5)))))
