-- ===== src/Rpc/Handler/Stream.antt =====
-- What a "stream" request does to the stream, and what it answers.
use ch_frb_l.Base.{
  Option, none, some, ◌≡◌, inl, inr, refl, sym, ap, ◌∙◌, append-nil, txt, if◌then◌else◌, Bool, true,
  false, not, ◌&&◌, List, [], ◌∷◌, ◌++◌, Text, pos, is_pos, ◌<◌, Throws, ok, err, runtime_error,
  thrown_text, assertion, undefined, exit, Failure, nat_beq, length, arith, Bool-cases,
}
use ch_frb_l.FileUtils.System.{FileSystem}
use ch_frb_l.FileUtils.{acq_pattern_to_dir}
use ch_frb_l.Rpc.Method.{Method, return, lift, ◌>>=◌, bind-cases, if-cases}
use ch_frb_l.Rpc.Server.{Server, Env, Call, stream_to_files, write_metadata, call}
use ch_frb_l.Rpc.Requests.{StreamRequest, stream_beams}
use ch_frb_l.Rpc.Handler.{
  set_stream, caught, start_stream, write_meta, filename_pattern, metadata_dir,
}

-- The call that writes the metadata, if its file is written.
abbrev pub metadata : Option Text → Text → List Call
metadata none meta = []
metadata (some file) meta = write_metadata file meta ∷ []

empty : (t : Text) → nat_beq (length t) 0 ≡ true → length t ≡ 0
empty t h = ground arith

named : (t : Text) → nat_beq (length t) 0 ≡ false → 0 < length t
named t h = ground arith

module _ {D : Type 0} {fs : FileSystem} where
  -- What write_meta does: it writes a file or not, and then calls nothing else.
  data Written (meta : Text) (s : Server D fs) : Throws Unit × Server D fs → Type 0 where
    written :
        (s' : Server D fs) (file : Option Text)
        → s'.calls ≡ s.calls ++ metadata file meta
        → Written meta s (ok tt, s')
    unwritten : (s' : Server D fs) (e : Failure) → s'.calls ≡ s.calls → Written meta s (err e, s')

  -- How a "stream" request can end. With an empty name, streaming is turned off; with another, it is turned
  -- on for the beams with a pattern, after the metadata file if one is written, or nothing is called.
  pub data Ended (env : Env D) (r : StreamRequest) (s : Server D fs)
      : Throws (Bool × Text) × Server D fs → Type 0 where
    off :
        (s' : Server D fs)
        → length r.acq_name ≡ 0
        → s'.calls ≡ s.calls ++ stream_to_files [] [] (pos 0) false ∷ []
        → Ended env r s (ok (true, []), s')
    on :
        (s' : Server D fs) (pattern : Text) (file : Option Text)
        → 0 < length r.acq_name
        → s'.calls
          ≡ (s.calls ++ metadata file r.acq_meta)
            ++ stream_to_files pattern
                (stream_beams env.beam_ids r.beams)
                (pos 0)
                (is_pos env.nrfifreq)
              ∷ []
        → Ended env r s (ok (true, pattern), s')
    failed :
        (s' : Server D fs) (t : Text)
        → 0 < length r.acq_name
        → s'.calls ≡ s.calls
        → Ended env r s (ok (false, t), s')
    thrown :
        (s' : Server D fs) (e : Failure)
        → 0 < length r.acq_name
        → s'.calls ≡ s.calls
        → Ended env r s (err e, s')

  -- What `caught` makes of a run that makes its calls only when it returns.
  data Started (env : Env D) (r : StreamRequest) (s : Server D fs)
      : Throws Text × Server D fs → Type 0 where
    started :
        (s' : Server D fs) (pattern : Text) (file : Option Text)
        → s'.calls
          ≡ (s.calls ++ metadata file r.acq_meta)
            ++ stream_to_files pattern
                (stream_beams env.beam_ids r.beams)
                (pos 0)
                (is_pos env.nrfifreq)
              ∷ []
        → Started env r s (ok pattern, s')
    gave_up : (s' : Server D fs) (e : Failure) → s'.calls ≡ s.calls → Started env r s (err e, s')

  written_calls :
      (meta : Text) (s s' : Server D fs) (o : Throws Unit × Server D fs)
      → Written meta s o
      → o ≡ (ok tt, s')
      → (file : Option Text) × (s'.calls ≡ s.calls ++ metadata file meta)
  written_calls meta s s' _ (written s2 file k) h = (file, ap (λ o. o.1.calls) (sym h) ∙ k)
  written_calls meta s s' _ (unwritten s2 e k) h = absurd cc

  unwritten_calls :
      (meta : Text) (s s' : Server D fs) (e : Failure) (o : Throws Unit × Server D fs)
      → Written meta s o
      → o ≡ (err e, s')
      → s'.calls ≡ s.calls
  unwritten_calls meta s s' e _ (written s2 file k) h = absurd cc
  unwritten_calls meta s s' e _ (unwritten s2 e2 k) h = ap (λ o. o.1.calls) (sym h) ∙ k

  write_meta-Written :
      (env : Env D) (pattern meta : Text) (s : Server D fs)
      → Written meta s (write_meta env pattern meta s)
  unfolding write_meta call
  write_meta-Written env pattern meta s =
      bind-cases (Written meta s) (lift (acq_pattern_to_dir pattern)) _ s
        (λ dir s' h.
          if-cases (Written meta s) (env.can_open (name dir))
            (call (write_metadata (name dir) meta)) (return tt) s'
            (written _ (some (name dir))
              (ap (λ cs. cs ++ write_metadata (name dir) meta ∷ []) (same h)))
            (written s' none (same h ∙ sym (append-nil s.calls))))
        (λ e s' h. unwritten s' e (same h))
    where
      name : Text → Text
      name dir = metadata_dir dir env.stream_id ++ txt "/metadata.json"

      same :
          {r : Throws Text} {s' : Server D fs}
          → ◌≡◌ {A = Throws Text × Server D fs} (acq_pattern_to_dir pattern, s) (r, s')
          → s'.calls ≡ s.calls
      same h = sym (ap (λ o. o.1.calls) h)

  start_stream-Started :
      (env : Env D) (r : StreamRequest) (s : Server D fs) → Started env r s (start_stream env r s)
  unfolding start_stream filename_pattern call
  start_stream-Started env r s =
      bind-cases (Started env r s)
        (filename_pattern env (if nat_beq (length r.acq_dev) 0 then txt "ssd" else r.acq_dev)
          r.acq_name r.acq_new)
        after s
        (λ pattern s1 h.
          bind-cases (Started env r s) (meta pattern) (λ _. go pattern) s1
            (λ _ s2 k.
              let (file, calls) = written_calls r.acq_meta s1 s2 _ (meta-Written pattern s1) k in
              started (go pattern s2).1 pattern file (
                ap (λ cs. cs ++ start pattern ∷ [])
                  (calls ∙ ap (λ cs. cs ++ metadata file r.acq_meta) (same h))))
            (λ e s2 k.
              gave_up s2 e
                (unwritten_calls r.acq_meta s1 s2 e _ (meta-Written pattern s1) k ∙ same h)))
        (λ e s1 h. gave_up s1 e (same h))
    where
      start : Text → Call
      start pattern =
          stream_to_files pattern (stream_beams env.beam_ids r.beams) (pos 0) (is_pos env.nrfifreq)

      meta : Text → Method (Server D fs) Unit
      meta pattern =
          if r.acq_new && not (nat_beq (length r.acq_meta) 0)
          then write_meta env pattern r.acq_meta
          else return tt

      go : Text → Method (Server D fs) Text
      go pattern = call (start pattern) >>= λ _. return pattern

      after : Text → Method (Server D fs) Text
      after pattern = meta pattern >>= λ _. go pattern

      meta-Written : (pattern : Text) (s1 : Server D fs) → Written r.acq_meta s1 (meta pattern s1)
      meta-Written pattern s1 =
          if-cases (Written r.acq_meta s1) (r.acq_new && not (nat_beq (length r.acq_meta) 0))
            (write_meta env pattern r.acq_meta) (return tt) s1
            (write_meta-Written env pattern r.acq_meta s1)
            (written s1 none (sym (append-nil s1.calls)))

      same :
          {o : Throws Text} {s1 : Server D fs}
          → filename_pattern env
              (if nat_beq (length r.acq_dev) 0 then txt "ssd" else r.acq_dev)
              r.acq_name
              r.acq_new
              s
            ≡ (o, s1)
          → s1.calls ≡ s.calls
      same h = sym (ap (λ o. o.1.calls) h)

  caught-Ended :
      (env : Env D) (r : StreamRequest) (s : Server D fs) (m : Method (Server D fs) Text)
      → 0 < length r.acq_name
      → Started env r s (m s)
      → Ended env r s (caught m s)
  unfolding caught
  caught-Ended env r s m named h = at (m s) h
    where
      at : (o : Throws Text × Server D fs) → Started env r s o → Ended env r s (caught (λ _. o) s)
      at _ (started s' pattern file k) = on s' pattern file named k
      at _ (gave_up s' (runtime_error t) k) = failed s' t named k
      at _ (gave_up s' (thrown_text t) k) = thrown s' (thrown_text t) named k
      at _ (gave_up s' assertion k) = thrown s' assertion named k
      at _ (gave_up s' undefined k) = thrown s' undefined named k
      at _ (gave_up s' (exit n) k) = thrown s' (exit n) named k

  -- A "stream" request with an empty name turns streaming off, and is answered with true and an empty
  -- pattern. With another name it starts streaming for the selected beams with the pattern that it
  -- answers, after at most one metadata file, or it fails (answered with false and the exception, or
  -- with another exception that leaves the handler) and then calls nothing.
  pub set_stream-Ended :
      (env : Env D) (r : StreamRequest) (s : Server D fs) → Ended env r s (set_stream env r s)
  unfolding set_stream call
  set_stream-Ended env r s = elim (Bool-cases (nat_beq (length r.acq_name) 0)) [
    | inl e ↦ rw e (off (call (stream_to_files [] [] (pos 0) false) s).1 (empty r.acq_name e) refl)
    | inr e ↦ rw e (
        caught-Ended env r s (start_stream env r) (named r.acq_name e)
          (start_stream-Started env r s))
  ]
