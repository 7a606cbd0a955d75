-- ===== src/Prometheus/Handler.antt =====
-- L1PrometheusHandler::handleGet and start_prometheus_server.
use ch_frb_l.Base.{
  ℕ, zero, suc, ◌+◌, ◌-◌, List, [], ◌∷◌, ◌++◌, Option, none, some, if◌then◌else◌, Result, ok, err,
  Throws, ◌>>=◌, msg, txt, Text, to_string, int_to_string, text_eq, nat_beq, length, drop, lookup,
  ℤ, pos_part, begins,
}
use ch_frb_l.Util.{counted}
use ch_frb_l.MaskStats.{size}
use ch_frb_l.L1Server.Vectors.{at}
use ch_frb_l.L1Server.Ending.{stat_of, to_int}
use ch_frb_l.Prometheus.{
  Stats, MetricStat, Numbers, Readings, response_header, announce_metric, sample_line, label,
  label2, derived_stats, ms, ms2, ms3, ms4, ms5,
}

-- The loop over the metrics of the whole stream.
unfoldable pub stream_metrics : Stats → List MetricStat → Text
stream_metrics sstats [] = []
stream_metrics sstats (m ∷ metrics) =
    announce_metric m.metric m.help m.kind
    ++ (sample_line m.metric [] (to_string (stat_of m.key sstats)) ++ stream_metrics sstats metrics)

abbrev pub gauge : Text
gauge = txt "gauge"

unfoldable pub reason_lines : Text → Stats → List (Text × Text) → Text
reason_lines name sstats [] = []
reason_lines name sstats ((key, reason) ∷ reasons) =
    sample_line name (label (txt "reason") reason) (to_string (stat_of key sstats))
    ++ reason_lines name sstats reasons

abbrev pub queued_prefix : Text
queued_prefix = txt "output_chunks_queued_"

-- The loop over the map; a key without the prefix is passed over.
unfoldable pub queued_lines : Text → Stats → Text
queued_lines name [] = []
queued_lines name ((key, value) ∷ stats) =
    if begins queued_prefix key
    then sample_line name (label (txt "device") (drop (length queued_prefix) key)) (to_string value)
      ++ queued_lines name stats
    else queued_lines name stats

-- The loop over the counts of the senders: the total and the number of those that are not zero.
-- The source adds the total in a double, which is exact below 2 ^ 53.
unfoldable pub count_senders : List ℕ → ℕ → ℕ → ℕ × ℕ
count_senders [] total n_nodes = (total, n_nodes)
count_senders (zero ∷ counts) total n_nodes = count_senders counts total n_nodes
count_senders (suc c ∷ counts) total n_nodes = count_senders counts (total + suc c) (suc n_nodes)

module _ {D F : Type 0} (num : Numbers D F) where
  unfoldable pub sender_metrics : Option (List ℕ × D) → Text
  sender_metrics packets =
      let counts : List ℕ = elim packets [ none ↦ [] | some (counts, _) ↦ counts ] in
      let period : D = elim packets [ none ↦ num.default_period | some (_, period) ↦ period ] in
      let (total, n_nodes) = count_senders counts 0 0 in
      announce_metric (txt "l1_l0_senders_nodes")
        (msg "Number of L0 nodes that are sending data to this L1 node") gauge
      ++ (sample_line (txt "l1_l0_senders_nodes") [] (to_string n_nodes)
          ++ (announce_metric (txt "l1_l0_senders_packets")
                (msg
                  "Total number of packets sent by L0 nodes to this L1 node in this sampling period")
                gauge
              ++ (sample_line (txt "l1_l0_senders_packets") [] (to_string total)
                  ++ (announce_metric (txt "l1_l0_senders_period")
                        (msg "Sampling period for packets sent by L0 nodes to this L1 node") gauge
                      ++ (sample_line (txt "l1_l0_senders_period") [] (num.show_period period)
                          ++ (announce_metric (txt "l1_l0_senders_packetrate")
                                (msg
                                  "Total number of packets per second sent from L0 nodes to this L1 node in this sampling period")
                                gauge
                              ++ sample_line (txt "l1_l0_senders_packetrate") []
                                  (num.show_rate total period)))))))

-- The number of a beam, as it is printed.
unfoldable pub beam_text : Stats → Text
beam_text bstats = int_to_string (to_int (stat_of (txt "beam_id") bstats))

unfoldable pub beam_lines : MetricStat → List Stats → Text
beam_lines m [] = []
beam_lines m (bstats ∷ beams) =
    sample_line m.metric (label (txt "beam") (beam_text bstats)) (to_string (stat_of m.key bstats))
    ++ beam_lines m beams

-- The loop over the metrics of the beams.
unfoldable pub beam_metrics : List Stats → List MetricStat → Text
beam_metrics beams [] = []
beam_metrics beams (m ∷ metrics) =
    announce_metric m.metric m.help m.kind ++ (beam_lines m beams ++ beam_metrics beams metrics)

-- "%s_level%i"
unfoldable pub level_key : Text → ℕ → Text
level_key key lev = key ++ (txt "_level" ++ to_string lev)

unfoldable pub level_line : MetricStat → Stats → Text → ℕ → Text
level_line m bstats key lev =
    sample_line m.metric (label2 (txt "beam") (beam_text bstats) (txt "level") (to_string lev))
      (to_string (stat_of key bstats))

-- The loop over the levels of a ring buffer from 1 on.
unfoldable pub level_lines : MetricStat → Stats → List ℕ → Text
level_lines m bstats [] = []
level_lines m bstats (lev ∷ levels) =
    level_line m bstats (level_key m.key lev) lev ++ level_lines m bstats levels

unfoldable pub ringbuf_lines : MetricStat → List Stats → Text
ringbuf_lines m [] = []
ringbuf_lines m (bstats ∷ beams) =
    let nlev = pos_part (to_int (stat_of (txt "ringbuf_nlevels") bstats)) in
    level_line m bstats m.key 0
    ++ (level_lines m bstats (counted 1 (nlev - 1)) ++ ringbuf_lines m beams)

unfoldable pub ringbuf_metrics : List Stats → List MetricStat → Text
ringbuf_metrics beams [] = []
ringbuf_metrics beams (m ∷ metrics) =
    announce_metric m.metric m.help m.kind
    ++ (ringbuf_lines m beams ++ ringbuf_metrics beams metrics)

module _ {D F Ring : Type 0} (num : Numbers D F) where
  unfoldable pub mask_lines : Readings D F Ring → MetricStat → List ((ℤ × Text) × Ring) → Text
  mask_lines r m [] = []
  mask_lines r m (((beam_id, place), ring) ∷ entries) =
      sample_line m.metric (label2 (txt "beam") (int_to_string beam_id) (txt "where") place)
        (num.show_fraction (lookup m.key (r.get_stats ring)))
      ++ mask_lines r m entries

  unfoldable pub mask_metrics : Readings D F Ring → List MetricStat → Text
  mask_metrics r [] = []
  mask_metrics r (m ∷ metrics) =
      announce_metric m.metric m.help m.kind
      ++ (mask_lines r m r.mask_stats.entries ++ mask_metrics r metrics)

  -- The text of the metrics.
  unfoldable pub metrics_text : Readings D F Ring → Stats → List Stats → Text
  metrics_text r sstats beams =
      response_header
      ++ (stream_metrics sstats ms
          ++ (announce_metric (txt "l1_assembler_bad_packets")
                (msg "Number of invalid packets received on L1 UDP socket") gauge
              ++ (reason_lines (txt "l1_assembler_bad_packets") sstats ms2
                  ++ (announce_metric (txt "l1_write_queued_chunks")
                        (msg "Number of chunks of data queued for writing to a filesystem") gauge
                      ++ (queued_lines (txt "l1_write_queued_chunks") sstats
                          ++ (sender_metrics num r.packet_rates
                              ++ (beam_metrics beams ms4
                                  ++ (ringbuf_metrics beams ms3
                                      ++ (if nat_beq (size r.mask_stats) 0
                                          then []
                                          else mask_metrics r ms5)))))))))

  -- The text that is sent. Without a record for the whole stream the behaviour is undefined.
  unfoldable pub handle_get : Readings D F Ring → Throws Text
  handle_get r = do
    first ← at r.stream_stats 0
    ok (metrics_text r (derived_stats first) (drop 2 r.stream_stats))

-- A web server that runs: its options, and the pages that it answers.
pub record WebServer : Type 0 where
  pub options : List Text
  pub pages : List Text

-- The web server library starts a server with the options, or throws an exception with a text. A server that does not
-- start is a null pointer; it is only logged.
unfoldable pub start_prometheus_server :
    (List Text → Result Text (Unit {0})) → Text → Option WebServer
start_prometheus_server civet ipaddr_port =
    let options = txt "listening_ports" ∷ ipaddr_port ∷ txt "num_threads" ∷ txt "8" ∷ [] in
    elim (civet options) [
      | err e ↦ none
      | ok _ ↦ some (record { options = options; pages = txt "/metrics" ∷ [] })
    ]
