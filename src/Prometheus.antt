-- ===== src/Prometheus.antt =====
-- l1-prometheus.cpp: the web server that gives the metrics of a stream. What mg_printf() sends is a
-- text; the formats of doubles and floats, and the arithmetic on them, are parameters. A map of
-- statistics is read by operator[], which adds a missing key with 0: the keys that are read are none of
-- those that a loop over the map prints, so that what is added is left out.
pub mod Handler
pub mod Families
use ch_frb_l.Base.{
  ℕ, zero, suc, ◌+◌, ◌-◌, ◌*◌, ◌/◌, ◌%◌, ◌^◌, Bool, true, false, not, List, [], ◌∷◌, ◌++◌, map,
  Option, none, some, if◌then◌else◌, Result, ok, err, Throws, ◌>>=◌, msg, txt, Text, to_string,
  int_to_string, text_eq, ◌==◌, nat_beq, length, take, drop, lookup, insert, ℤ, pos_part,
}
use ch_frb_l.Util.{counted}
use ch_frb_l.MaskStats.{MaskStats, size}
use ch_frb_l.L1Server.Vectors.{at}
use ch_frb_l.L1Server.Ending.{stat_of, to_int}

abbrev pub Stats : Type 0
Stats = List (Text × ℕ)

pub record MetricStat : Type 0 where
  pub key : Text
  pub metric : Text
  pub help : Text
  pub kind : Text

-- The constructor, with the default for the type.
abbrev pub metric_stat : Text → Text → Text → MetricStat
metric_stat k1 k2 k3 = record { key = k1; metric = k2; help = k3; kind = txt "gauge" }

-- The doubles and the floats: the period that is asked for, "%f" of a period, "%f" of the quotient of the packets
-- by the period or of 0 for a period of 0, and "%.2f" of the fraction of a statistic of masks, which is 0
-- where it is missing.
pub record Numbers (D F : Type 0) : Type 0 where
  pub default_period : D
  pub show_period : D → Text
  pub show_rate : ℕ → D → Text
  pub show_fraction : Option F → Text

-- What the stream and the mask measurements give.
pub record Readings (D F Ring : Type 0) : Type 0 where
  pub stream_stats : List Stats
  pub packet_rates : Option (List ℕ × D)
  pub mask_stats : MaskStats Ring
  pub get_stats : Ring → List (Text × F)

unfoldable pub response_header : Text
response_header =
    msg "HTTP/1.1 200 OK"
    ++ (13 ∷ 10 ∷ msg "Content-Type: text/plain"
        ++ (13 ∷ 10 ∷ msg "Connection: close" ++ (13 ∷ 10 ∷ 13 ∷ 10 ∷ [])))

-- "# HELP %s %s\n# TYPE %s %s\n"
unfoldable pub announce_metric : Text → Text → Text → Text
announce_metric name help kind =
    txt "# HELP "
    ++ (name ++ (32 ∷ help ++ (10 ∷ txt "# TYPE " ++ (name ++ (32 ∷ kind ++ (10 ∷ []))))))

-- "%s%s %s\n", for the name, the labels and the value.
unfoldable pub sample_line : Text → Text → Text → Text
sample_line name labels value = name ++ (labels ++ (32 ∷ value ++ (10 ∷ [])))

-- "{%s=\"%s\"}"
unfoldable pub label : Text → Text → Text
label key value = b'{' ∷ key ++ (b'=' ∷ b'"' ∷ value ++ (b'"' ∷ b'}' ∷ []))

-- "{%s=\"%s\",%s=\"%s\"}"
unfoldable pub label2 : Text → Text → Text → Text → Text
label2 key value key2 value2 =
    b'{' ∷ key
    ++ (b'=' ∷ b'"' ∷ value ++ (b'"' ∷ b',' ∷ key2 ++ (b'=' ∷ b'"' ∷ value2 ++ (b'"' ∷ b'}' ∷ []))))

-- The statistics of the whole stream, with those that are derived.
unfoldable pub derived_stats : Stats → Stats
derived_stats s0 =
    let ms = λ (from to : Text) (s : Stats). insert to (stat_of from s / 1000) s in
    let s1 = ms (txt "network_thread_waiting_usec") (txt "network_thread_waiting_ms") s0 in
    let s2 = ms (txt "network_thread_working_usec") (txt "network_thread_working_ms") s1 in
    let s3 = ms (txt "assembler_thread_waiting_usec") (txt "assembler_thread_waiting_ms") s2 in
    let s4 = ms (txt "assembler_thread_working_usec") (txt "assembler_thread_working_ms") s3 in
    let slab_bytes = stat_of (txt "memory_pool_slab_nbytes") s4 in
    let bytes =
      λ (from to : Text) (s : Stats). insert to (stat_of from s * slab_bytes % 2 ^ 64) s in
    let s5 = bytes (txt "memory_pool_slab_size") (txt "memory_pool_slab_size_bytes") s4 in
    bytes (txt "memory_pool_slab_avail") (txt "memory_pool_slab_avail_bytes") s5

-- The tables of the code.
unfoldable pub ms : List MetricStat
ms =
    metric_stat (txt "network_thread_waiting_ms") (txt "l1_network_thread_wait_ms")
      (msg "Cumulative milliseconds spent waiting in the UDP packet-receiving thread")
    ∷ metric_stat (txt "network_thread_working_ms") (txt "l1_network_thread_work_ms")
        (msg "Cumulative milliseconds spent working in the UDP packet-receiving thread")
    ∷ metric_stat (txt "count_bytes_received") (txt "l1_assembler_received_bytes")
        (msg "Number of bytes received on this L1 UDP socket")
    ∷ metric_stat (txt "count_packets_received") (txt "l1_assembler_received_packets")
        (msg "Number of packets received on this L1 UDP socket")
    ∷ metric_stat (txt "count_packets_good") (txt "l1_assembler_good_packets")
        (msg "Number of valid packets received on this L1 UDP socket")
    ∷ metric_stat (txt "count_assembler_hits") (txt "l1_assembler_hits_packets")
        (msg "Number of packets received in order at the L1 assembler")
    ∷ metric_stat (txt "count_assembler_misses") (txt "l1_assembler_misses_packets")
        (msg "Number of packets received out of order at the L1 assembler")
    ∷ metric_stat (txt "count_assembler_drops") (txt "l1_assembler_dropped_chunks")
        (msg "Number of data chunks dropped by the L1 assembler")
    ∷ metric_stat (txt "count_assembler_queued") (txt "l1_assembler_queued")
        (msg "Number of data chunks sent downstream by the L1 assembler")
    ∷ metric_stat (txt "streaming_n_beams") (txt "l1_streaming_beams_count")
        (msg "Streaming data to disk: number of beams being written")
    ∷ metric_stat (txt "memory_pool_slab_size_bytes") (txt "l1_memorypool_capacity_bytes")
        (msg "Number of bytes total capacity in memory pool")
    ∷ metric_stat (txt "memory_pool_slab_avail_bytes") (txt "l1_memorypool_avail_bytes")
        (msg "Number of bytes available (free) in memory pool")
    ∷ metric_stat (txt "memory_pool_slab_size") (txt "l1_memorypool_capacity_slabs")
        (msg "Total capacity in memory pool, in 'slabs'")
    ∷ metric_stat (txt "memory_pool_slab_avail") (txt "l1_memorypool_avail_slabs")
        (msg "Available number in memory pool, in 'slabs'")
    ∷ []

unfoldable pub ms2 : List (Text × Text)
ms2 =
    (txt "count_packets_bad", txt "malformed")
    ∷ (txt "count_packets_dropped", txt "bufferfull")
    ∷ (txt "count_packets_beam_id_mismatch", txt "beamidmismatch")
    ∷ (txt "count_packets_stream_mismatch", txt "formatmismatch")
    ∷ []

unfoldable pub ms4 : List MetricStat
ms4 =
    metric_stat (txt "streaming_bytes_written") (txt "l1_streaming_written_bytes")
      (msg "Streaming data to disk: number of bytes written")
    ∷ metric_stat (txt "streaming_chunks_written") (txt "l1_streaming_written_chunks")
        (msg "Streaming data to disk: number of chunks of data written")
    ∷ []

unfoldable pub ms3 : List MetricStat
ms3 =
    metric_stat (txt "ringbuf_fpga_min") (txt "l1_ringbuf_min_fpga")
      (msg "Smallest FPGA-counts timestamp in the ring buffer")
    ∷ metric_stat (txt "ringbuf_fpga_max") (txt "l1_ringbuf_max_fpga")
        (msg "Largest FPGA-counts timestamp in the ring buffer")
    ∷ metric_stat (txt "ringbuf_capacity") (txt "l1_ringbuf_capacity_chunks")
        (msg "Maximum number of chunks of data in the ring buffer")
    ∷ metric_stat (txt "ringbuf_ntotal") (txt "l1_ringbuf_size_chunks")
        (msg "Current number of chunks of data in the ring buffer")
    ∷ []

unfoldable pub ms5 : List MetricStat
ms5 =
    metric_stat (txt "rfi_mask_pct_masked") (txt "rfi_mask_pct_masked")
      (msg "Total fraction of samples masked")
    ∷ []
