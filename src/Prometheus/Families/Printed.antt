-- ===== src/Prometheus/Families/Printed.antt =====
-- Each loop of the handler prints the samples of its families.
use ch_frb_l.Base.{
  ℕ, zero, suc, ◌+◌, ◌-◌, ◌≡◌, refl, ap, false, List, [], ◌∷◌, ◌++◌, map, append_assoc, append-nil,
  if◌then◌else◌, txt, Text, to_string, int_to_string, text_eq, nat_beq, length, drop, filter,
  lookup, ℤ, pos_part, begins, arith, Bool-cases, inl, inr,
}
use ch_frb_l.Util.{counted}
use ch_frb_l.MaskStats.{size}
use ch_frb_l.L1Server.Ending.{stat_of, to_int}
use ch_frb_l.Prometheus.{Stats, MetricStat, Numbers, Readings, sample_line, label, label2, ms5}
use ch_frb_l.Prometheus.Handler.{
  stream_metrics, reason_lines, queued_prefix, queued_lines, count_senders, sender_metrics,
  beam_text, beam_lines, beam_metrics, level_line, level_lines, ringbuf_lines, ringbuf_metrics,
  mask_lines, mask_metrics,
}
use ch_frb_l.Prometheus.Families.{
  Family, print_samples, print_families, metric_family, level_samples, ringbuf_samples, is_queued,
  queued_sample, sum, nonzero, stream_samples, reason_sample, beam_sample, mask_samples, counts_of,
  sender_families,
}

pub print-append :
    (fs gs : List Family) → print_families (fs ++ gs) ≡ print_families fs ++ print_families gs
print-append [] gs = refl
print-append (f ∷ fs) gs = rw (print-append fs gs) (simp append_assoc)

pub samples-append :
    (name : Text) (xs ys : List (Text × Text))
    → print_samples name (xs ++ ys) ≡ print_samples name xs ++ print_samples name ys
samples-append name [] ys = refl
samples-append name ((l, v) ∷ xs) ys = rw (samples-append name xs ys) (simp append_assoc)

pub stream_metrics-prints :
    (sstats : Stats) (metrics : List MetricStat)
    → stream_metrics sstats metrics
      ≡ print_families (map (metric_family (stream_samples sstats)) metrics)
unfolding stream_metrics
stream_metrics-prints sstats [] = refl
stream_metrics-prints sstats (m ∷ metrics) =
    rw (stream_metrics-prints sstats metrics) (simp (append_assoc, append-nil))

pub reason_lines-prints :
    (name : Text) (sstats : Stats) (reasons : List (Text × Text))
    → reason_lines name sstats reasons ≡ print_samples name (map (reason_sample sstats) reasons)
unfolding reason_lines
reason_lines-prints name sstats [] = refl
reason_lines-prints name sstats ((k, r) ∷ reasons) =
    ap (λ t. sample_line name (label (txt "reason") r) (to_string (stat_of k sstats)) ++ t)
      (reason_lines-prints name sstats reasons)

pub queued_lines-prints :
    (name : Text) (stats : Stats)
    → queued_lines name stats ≡ print_samples name (map queued_sample (filter is_queued stats))
unfolding queued_lines
queued_lines-prints name [] = refl
queued_lines-prints name ((k, v) ∷ stats) = elim (Bool-cases (begins queued_prefix k)) [
  | inl e ↦ rw e (
      ap
        (λ t.
          sample_line name (label (txt "device") (drop (length queued_prefix) k)) (to_string v)
          ++ t)
        (queued_lines-prints name stats))
  | inr e ↦ rw e (queued_lines-prints name stats)
]

pub count_senders_lem :
    (counts : List ℕ) (total n : ℕ)
    → count_senders counts total n ≡ (total + sum counts, n + nonzero counts)
unfolding count_senders
count_senders_lem [] total n = ground arith
count_senders_lem (zero ∷ counts) total n = ground (arith, count_senders_lem counts total n)
count_senders_lem (suc c ∷ counts) total n =
    ground (arith, count_senders_lem counts (total + suc c) (suc n))

pub beam_lines-prints :
    (m : MetricStat) (beams : List Stats)
    → beam_lines m beams ≡ print_samples m.metric (map (beam_sample m) beams)
unfolding beam_lines
beam_lines-prints m [] = refl
beam_lines-prints m (b ∷ beams) =
    ap
      (λ t.
        sample_line m.metric (label (txt "beam") (beam_text b)) (to_string (stat_of m.key b)) ++ t)
      (beam_lines-prints m beams)

pub beam_metrics-prints :
    (beams : List Stats) (metrics : List MetricStat)
    → beam_metrics beams metrics
      ≡ print_families (map (metric_family (λ m. map (beam_sample m) beams)) metrics)
unfolding beam_metrics
beam_metrics-prints beams [] = refl
beam_metrics-prints beams (m ∷ metrics) =
    rw (beam_metrics-prints beams metrics, beam_lines-prints m beams) refl

pub level_lines-prints :
    (m : MetricStat) (bstats : Stats) (lo n : ℕ)
    → level_lines m bstats (counted (suc lo) n)
      ≡ print_samples m.metric (level_samples m bstats (counted (suc lo) n))
unfolding level_lines level_line counted
level_lines-prints m bstats lo zero = refl
level_lines-prints m bstats lo (suc n) =
    let above : nat_beq (suc lo) 0 ≡ false = ground arith in
    rw (above, level_lines-prints m bstats (suc lo) n) refl

pub ringbuf_lines-prints :
    (m : MetricStat) (beams : List Stats)
    → ringbuf_lines m beams ≡ print_samples m.metric (ringbuf_samples beams m)
unfolding ringbuf_lines level_line counted
ringbuf_lines-prints m [] = refl
ringbuf_lines-prints m (b ∷ beams) =
    let nlev = pos_part (to_int (stat_of (txt "ringbuf_nlevels") b)) in
    rw (level_lines-prints m b 0 (nlev - 1), ringbuf_lines-prints m beams)
      (simp (samples-append, append_assoc))

pub ringbuf_metrics-prints :
    (beams : List Stats) (metrics : List MetricStat)
    → ringbuf_metrics beams metrics
      ≡ print_families (map (metric_family (ringbuf_samples beams)) metrics)
unfolding ringbuf_metrics
ringbuf_metrics-prints beams [] = refl
ringbuf_metrics-prints beams (m ∷ metrics) =
    rw (ringbuf_metrics-prints beams metrics, ringbuf_lines-prints m beams) refl

module _ {D F Ring : Type 0} (num : Numbers D F) (r : Readings D F Ring) where
  pub mask_lines-prints :
      (m : MetricStat) (entries : List ((ℤ × Text) × Ring))
      → mask_lines num r m entries ≡ print_samples m.metric (mask_samples num r m entries)
  unfolding mask_lines
  mask_lines-prints m [] = refl
  mask_lines-prints m (((b, p), ring) ∷ entries) =
      ap
        (λ t.
          sample_line m.metric (label2 (txt "beam") (int_to_string b) (txt "where") p)
            (num.show_fraction (lookup m.key (r.get_stats ring)))
          ++ t)
        (mask_lines-prints m entries)

  pub mask_metrics-prints :
      (metrics : List MetricStat)
      → mask_metrics num r metrics
        ≡ print_families
            (map (metric_family (λ m. mask_samples num r m r.mask_stats.entries)) metrics)
  unfolding mask_metrics
  mask_metrics-prints [] = refl
  mask_metrics-prints (m ∷ metrics) =
      rw (mask_metrics-prints metrics, mask_lines-prints m r.mask_stats.entries) refl

  pub sender_metrics-prints :
      sender_metrics num r.packet_rates ≡ print_families (sender_families num r)
  unfolding sender_metrics
  sender_metrics-prints =
      let counts : count_senders (counts_of num r) 0 0
          ≡ (sum (counts_of num r), nonzero (counts_of num r)) =
        ground (arith, count_senders_lem (counts_of num r) 0 0) in
      rw counts (simp (append_assoc, append-nil))

  pub mask_part :
      (if nat_beq (size r.mask_stats) 0 then [] else mask_metrics num r ms5)
      ≡ print_families (
          if nat_beq (size r.mask_stats) 0
          then []
          else map (metric_family (λ m. mask_samples num r m r.mask_stats.entries)) ms5)
  mask_part = elim (Bool-cases (nat_beq (size r.mask_stats) 0)) [
    | inl e ↦ rw e refl
    | inr e ↦ rw e (mask_metrics-prints ms5)
  ]
