-- ===== src/L1Server/Phases/Streams.antt =====
-- Which beams a stream writes to files.
use ch_frb_l.Base.{
  ℕ, ◌≡◌, ◌&&◌, Bool, List, [], ◌∷◌, ok, filter, ℤ, int_eq, int_beq_iff, arith, ◌∙◌, ap,
}
use ch_frb_l.FrbIo.{FrbIo}
use ch_frb_l.Util.{vcontains}
use ch_frb_l.L1Server.{L1Server, Makers, InputStream}
use ch_frb_l.L1Server.Phases.{make_stream}

vcontains-filter :
    (p : ℤ → Bool) (xs : List ℤ) (b : ℤ) → vcontains (filter p xs) b ≡ (p b && vcontains xs b)
unfolding vcontains
vcontains-filter p [] b = ground arith
vcontains-filter p (x ∷ xs) b = ground (arith, vcontains-filter p xs b, int_beq_iff x b)

module _ {D Bonsai Pipeline : Type 0} where
  -- A stream that make_input_streams() makes writes to files exactly those beams of `stream_beam_ids`
  -- that are among its own.
  make_stream-file_beams :
      (mk : Makers D) (io : FrbIo) (s : L1Server D Bonsai Pipeline) (per_cpu per_stream istream : ℕ)
      (t : InputStream) (b : ℤ)
      → make_stream mk io s per_cpu per_stream istream ≡ ok t
      → vcontains t.file_beam_ids b
        ≡ (vcontains t.beam_ids b && vcontains s.config.stream_beam_ids b)
  unfolding make_stream
  make_stream-file_beams mk io s per_cpu per_stream istream t b h =
      let files : t.file_beam_ids ≡ filter (vcontains t.beam_ids) s.config.stream_beam_ids =
        ground arith in
      ap (λ xs. vcontains xs b) files
      ∙ vcontains-filter (vcontains t.beam_ids) s.config.stream_beam_ids b
