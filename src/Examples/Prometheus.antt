-- ===== src/Examples/Prometheus.antt =====
-- The metrics of a stream with two beams and mask measurements.
use ch_frb_l.Base.{
  ℕ, ◌≡◌, ◌⊎◌, true, List, [], ◌∷◌, ◌++◌, some, ok, err, undefined, txt, pos, to_string, drop,
}
use ch_frb_l.Prometheus.{Stats, Numbers, Readings, response_header, derived_stats}
use ch_frb_l.Prometheus.Handler.{handle_get}
use ch_frb_l.Prometheus.Families.{print_families, families, distinct, names_of}
use ch_frb_l.Prometheus.Families.Answers.{handle_get-cases}

-- Doubles are whole numbers; the fraction is a percentage.
abbrev num : Numbers ℕ ℕ
num = record {
  default_period = 15;
  show_period = to_string;
  show_rate = λ total period. to_string total;
  show_fraction = λ f. txt "0.50";
}

abbrev beam : ℕ → Stats
beam id = (txt "beam_id", id) ∷ (txt "ringbuf_nlevels", 3) ∷ (txt "ringbuf_fpga_min", 400) ∷ []

abbrev readings : Readings ℕ ℕ ℕ
readings = record {
  stream_stats =
      ((txt "count_packets_good", 17) ∷ (txt "output_chunks_queued_/ssd", 2) ∷ [])
      ∷ []
      ∷ beam 10
      ∷ beam 11
      ∷ [];
  packet_rates = some (100 ∷ 0 ∷ 120 ∷ [], 15);
  mask_stats = record { entries = ((pos 10, txt "after_rfi"), 7) ∷ [] };
  get_stats = λ ring. (txt "rfi_mask_pct_masked", 50) ∷ [];
}

handle_get-cases_example :
    ((readings.stream_stats ≡ []) × (handle_get num readings ≡ err undefined))
    ⊎ ((first : Stats) × (rest : List Stats) × (readings.stream_stats ≡ first ∷ rest)
        × (handle_get num readings
            ≡ ok (
                response_header
                ++ print_families (families num readings (derived_stats first) (drop 1 rest))))
        × (distinct (names_of (families num readings (derived_stats first) (drop 1 rest))) ≡ true))
handle_get-cases_example = handle_get-cases num readings
