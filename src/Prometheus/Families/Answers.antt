-- ===== src/Prometheus/Families/Answers.antt =====
-- The answer to a GET, as families of metrics.
use ch_frb_l.Base.{
  ◌≡◌, refl, ap, true, List, [], ◌∷◌, ◌++◌, append_assoc, ok, err, txt, text_eq, nat_beq, drop,
  contains, Bool-cases, List-cases, undefined, ◌⊎◌, inl, inr,
}
use ch_frb_l.MaskStats.{size}
use ch_frb_l.Prometheus.{
  Stats, Numbers, Readings, response_header, derived_stats, ms, ms2, ms3, ms4, ms5,
}
use ch_frb_l.Prometheus.Handler.{metrics_text, handle_get}
use ch_frb_l.Prometheus.Families.{print_families, distinct, names_of, families}
use ch_frb_l.Prometheus.Families.Printed.{
  print-append, stream_metrics-prints, reason_lines-prints, queued_lines-prints,
  beam_metrics-prints, ringbuf_metrics-prints, sender_metrics-prints, mask_part,
}

module _ {D F Ring : Type 0} (num : Numbers D F) (r : Readings D F Ring) where
  metrics_text-prints :
      (sstats : Stats) (beams : List Stats)
      → metrics_text num r sstats beams
        ≡ response_header ++ print_families (families num r sstats beams)
  unfolding metrics_text
  metrics_text-prints s beams =
      rw
        (
          stream_metrics-prints s ms,
          reason_lines-prints (txt "l1_assembler_bad_packets") s ms2,
          queued_lines-prints (txt "l1_write_queued_chunks") s,
          sender_metrics-prints num r,
          beam_metrics-prints beams ms4,
          ringbuf_metrics-prints beams ms3,
          mask_part num r,
        )
        (simp (print-append, append_assoc))

  names_distinct :
      (sstats : Stats) (beams : List Stats)
      → distinct (names_of (families num r sstats beams)) ≡ true
  unfolding ms ms3 ms4 ms5 contains
  names_distinct sstats beams = elim (Bool-cases (nat_beq (size r.mask_stats) 0)) [
    | inl e ↦ rw e refl
    | inr e ↦ rw e refl
  ]

  -- The answer to a GET is undefined without a record for the whole stream. With one it is the header of
  -- the response and the families of metrics after it: each is announced once, under a name that no other family
  -- has, and directly followed by all its samples. The families hold the statistics of the stream; the
  -- queued chunks of each device; the number of senders with packets, the sum of their packets, the
  -- period and the rate; the statistics of each beam, which is a record after the second; those of each level
  -- of its ring buffers, of level 0 in any case; and, if there are mask measurements, one for each.
  pub handle_get-cases :
      ((r.stream_stats ≡ []) × (handle_get num r ≡ err undefined))
      ⊎ ((first : Stats) × (rest : List Stats) × (r.stream_stats ≡ first ∷ rest)
          × (handle_get num r
              ≡ ok (
                  response_header
                  ++ print_families (families num r (derived_stats first) (drop 1 rest))))
          × (distinct (names_of (families num r (derived_stats first) (drop 1 rest))) ≡ true))
  unfolding handle_get
  handle_get-cases = elim (List-cases r.stream_stats) [
    | inl e ↦ inl (e, simp e)
    | inr (first, rest, e) ↦ inr (
      first,
      rest,
      e,
      simp e (ap (λ t. ok t) (metrics_text-prints (derived_stats first) (drop 1 rest))),
      names_distinct (derived_stats first) (drop 1 rest),
    )
  ]
