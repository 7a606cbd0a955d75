-- ===== src/L1Server/Main/Beams.antt =====
-- Which beam a dedispersion thread reads, and from which stream.
use native.Mathlib.Nat.{mul_comm, div-lt_iff_lt-mul, div-add-mod', mod-lt}
use ch_frb_l.Base.{
  ℕ, zero, suc, ◌+◌, ◌-◌, ◌*◌, ◌/◌, ◌%◌, ◌<◌, ◌≡◌, refl, sym, ap, subst, ◌∙◌, List, [], ◌∷◌, some,
  ok, Text, get_elem?, take, drop, arith,
}
use ch_frb_l.Util.{xdiv}
use ch_frb_l.Util.Vectors.{xdiv_iff, factor_pos}
use ch_frb_l.L1Config.Environment.{Environment, L1Config}
use ch_frb_l.L1Config.Constructor.Accepted.{IsAccepted}
use ch_frb_l.L1Server.Phases.Libraries.{always}
use ch_frb_l.L1Server.{L1Server, Makers, Succeeds, InputStream, Context}
use ch_frb_l.L1Server.Vectors.Loops.{for_each-get_elem?}
use ch_frb_l.L1Server.Cores.{nbeams_of, nstreams_of}
use ch_frb_l.L1Server.Phases.{make_stream, make_context}
use ch_frb_l.L1Server.Main.{start, l1_server}
use ch_frb_l.L1Server.Main.Order.{Started, started_by, start-returns}

get_elem?-drop :
    {A : Type 0} (lo r : ℕ) (xs : List A) → get_elem? (drop lo xs) r ≡ get_elem? xs (lo + r)
get_elem?-drop zero r xs = let start : 0 + r ≡ r = omega arith in rw start refl
get_elem?-drop (suc lo) r [] = refl
get_elem?-drop (suc lo) r (x ∷ xs) =
    let up : suc lo + r ≡ suc (lo + r) = omega arith in rw up (get_elem?-drop lo r xs)

get_elem?-take :
    {A : Type 0} (n r : ℕ) (xs : List A) → r < n → get_elem? (take n xs) r ≡ get_elem? xs r
get_elem?-take zero r xs h = elim h [ ]
get_elem?-take (suc n) r [] h = refl
get_elem?-take (suc n) zero (x ∷ xs) h = refl
get_elem?-take (suc n) (suc r) (x ∷ xs) h = get_elem?-take n r xs (omega arith)

-- The element of a block at the remainder of its index.
block_elem :
    {A : Type 0} (xs : List A) (i n : ℕ)
    → 0 < n
    → get_elem? (take ((i / n + 1) * n - i / n * n) (drop (i / n * n) xs)) (i % n) ≡ get_elem? xs i
block_elem xs i n h =
    let width : (i / n + 1) * n - i / n * n ≡ n = omega arith in
    rw width (get_elem?-take n (i % n) (drop (i / n * n) xs) (mod-lt i h))
    ∙ get_elem?-drop (i / n * n) (i % n) xs
    ∙ ap (get_elem? xs) (div-add-mod' i n)

xdiv_quotient : (n d q : ℕ) → xdiv n d ≡ ok q → n / d ≡ q
unfolding xdiv
xdiv_quotient n d q h = ground arith

module _ {Node D Bonsai Pipeline : Type 0} (env : Environment Node D) where
  -- The beam of a dedispersion thread: its place in its stream is the remainder of its index, as the toy
  -- thread takes it.
  pub record HasBeam (t : L1Server D Bonsai Pipeline) (ibeam : ℕ) : Type 0 where
    pub context : Context D
    pub runs : get_elem? t.dedispersion_threads ibeam ≡ some context
    pub own_index : context.ibeam ≡ ibeam
    pub stream : InputStream
    pub reads : get_elem? t.input_streams context.stream ≡ some stream
    pub holds :
        get_elem? stream.beam_ids (ibeam % (nbeams_of t.config / nstreams_of t.config))
        ≡ get_elem? t.config.beam_ids ibeam

  context_fields :
      (s : L1Server D Bonsai Pipeline) (per i : ℕ) (k : Context D)
      → xdiv (nbeams_of s.config) (nstreams_of s.config) ≡ ok per
      → make_context s i ≡ ok k
      → (k.stream ≡ i / per) × (k.ibeam ≡ i)
  unfolding make_context
  context_fields s per i k e h = ground (arith, e)

  beams_of_stream :
      (s : L1Server D Bonsai Pipeline) (per_cpu per j : ℕ) (k : InputStream)
      → make_stream always env.io s per_cpu per j ≡ ok k
      → k.beam_ids ≡ take ((j + 1) * per - j * per) (drop (j * per) s.config.beam_ids)
  unfolding make_stream
  beams_of_stream s per_cpu per j k h = ground arith

  pub has_beam :
      (s t : L1Server D Bonsai Pipeline) (st : Started env s t) (i : ℕ)
      → i < nbeams_of s.config
      → HasBeam t i
  has_beam s t st i p =
      let n = st.per_stream in
      let (b, b_pos, n_pos) =
        (xdiv_iff (nbeams_of s.config) (nstreams_of s.config) n).0 st.beams_split in
      let per_pos = factor_pos n (nstreams_of s.config) (nbeams_of s.config) b b_pos in
      let inside : i / n < nstreams_of s.config =
        (div-lt_iff_lt-mul per_pos).1 (omega (arith, b, mul_comm n (nstreams_of s.config))) in
      let (k, k_at, k_made) =
        for_each-get_elem? (make_context st.with_streams) 0 (nbeams_of s.config) i
          t.dedispersion_threads st.threads p in
      let (u, u_at, u_made) =
        for_each-get_elem? (make_stream always env.io st.with_pools st.per_cpu n) 0
          (nstreams_of s.config) (i / n) t.input_streams st.streams inside in
      let split : xdiv (nbeams_of st.with_streams.config) (nstreams_of st.with_streams.config)
          ≡ ok n =
        rw st.with_streams_config st.beams_split in
      let (stream, own) = context_fields st.with_streams n (0 + i) k split k_made in
      let own_stream : k.stream ≡ i / n = stream ∙ ap (λ x. x / n) (omega arith) in
      let beams : u.beam_ids
          ≡ take ((i / n + 1) * n - i / n * n) (drop (i / n * n) t.config.beam_ids) =
        subst (λ j. u.beam_ids ≡ take ((j + 1) * n - j * n) (drop (j * n) t.config.beam_ids))
          (omega arith)
          (subst
            (λ c.
              u.beam_ids
              ≡ take ((0 + i / n + 1) * n - (0 + i / n) * n) (drop ((0 + i / n) * n) c.beam_ids))
            (st.with_pools_config ∙ sym st.same_config)
            (beams_of_stream st.with_pools st.per_cpu n (0 + i / n) u u_made)) in
      let width : nbeams_of t.config / nstreams_of t.config ≡ n =
        rw st.same_config
          (xdiv_quotient (nbeams_of s.config) (nstreams_of s.config) n st.beams_split) in
      record {
        context = k;
        runs = k_at;
        own_index = own ∙ omega arith;
        stream = u;
        reads = rw own_stream u_at;
        holds = rw (beams, width) (block_elem t.config.beam_ids i n per_pos);
      }

  -- A server with an accepted configuration whose constructor returns, and no constructor of the libraries
  -- throws: after the phases, each beam has a dedispersion thread with its index, and the thread's
  -- stream is the one that holds the beam's number, at the place that the remainder of the index says.
  pub start-HasBeam :
      (mk : Makers D) (concurrency : ℕ) (argv : List Text) (c : L1Config D)
      (s : L1Server D Bonsai Pipeline) (i : ℕ)
      → Succeeds mk
      → IsAccepted env c
      → l1_server concurrency argv c ≡ ok s
      → i < nbeams_of s.config
      → (t : L1Server D Bonsai Pipeline) × (start mk env.io s ≡ ok t) × HasBeam t i
  start-HasBeam mk concurrency argv c s i made y h p =
      let (t, e, _, _, _) = start-returns env mk concurrency argv c s made y h in
      (t, e, has_beam s t (started_by env mk concurrency argv c s t y h e) i p)
