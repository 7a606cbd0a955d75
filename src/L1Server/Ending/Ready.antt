-- ===== src/L1Server/Ending/Ready.antt =====
-- What the RPC servers and the statistics need of the server, and that they return where they have it.
use native.Mathlib.Nat.{mul-le-mul_right, mul_comm}
use ch_frb_l.Base.{
  ℕ, suc, ◌+◌, ◌*◌, ◌<◌, ◌≡◌, refl, sym, subst, ◌∙◌, List, [], ◌∷◌, Option, some, ok, Text, length,
  arith, lt→ltb, leb, nat_beq, Bool-cases, inl, inr, ℤ,
}
use ch_frb_l.Util.{xdiv}
use ch_frb_l.Util.Vectors.{xdiv_iff}
use ch_frb_l.L1Server.{L1Server, RpcServer}
use ch_frb_l.L1Server.Vectors.{at}
use ch_frb_l.L1Server.Vectors.Loops.{at-ok, for_each-counted, returned}
use ch_frb_l.L1Server.Cores.{nbeams_of, nstreams_of}
use ch_frb_l.L1Server.Rpc.{
  Announcement, set_bonsai, announce, all_created, concat, wait, latency_of, make_rpc, after_wait,
}
use ch_frb_l.L1Server.Rpc.Waiting.{wait_hit, wait_miss}
use ch_frb_l.L1Server.Rpc.Pointers.{length-set-some}
use ch_frb_l.L1Server.Ending.{stream_lines, print_statistics}

some_injective : {A : Type 0} {a b : A} → ◌≡◌ {A = Option A} (some a) (some b) → a ≡ b
some_injective h = cc

-- Each stream gives a record for the whole stream.
abbrev pub HasRecords : ℕ → (ℕ → List (List (Text × ℕ))) → Type 0
HasRecords n get_statistics = (i : ℕ) → i < n → 0 < length (get_statistics i)

module _ {D Bonsai Pipeline : Type 0} where
  -- The sizes, for `n` streams of `per` beams.
  pub record IsReady (n per : ℕ) (s : L1Server D Bonsai Pipeline) : Type 0 where
    pub counted_streams : nstreams_of s.config ≡ n
    pub split : xdiv (nbeams_of s.config) (nstreams_of s.config) ≡ ok per
    pub beams : length s.config.beam_ids ≡ nbeams_of s.config
    pub rpc : length s.config.settings.rpc_address ≡ nstreams_of s.config
    pub ports : length s.config.settings.port ≡ nstreams_of s.config
    pub bonsais : length s.bonsai_dedispersers ≡ nbeams_of s.config
    pub pre : length s.latency_monitors_pre ≡ nbeams_of s.config
    pub post : length s.latency_monitors_post ≡ nbeams_of s.config
    pub streams : length s.input_streams ≡ nstreams_of s.config
    pub maps : s.mask_stats_maps ≡ nstreams_of s.config

  module _ (n per : ℕ) where
    announce-IsReady :
        (calls : List (Announcement Bonsai Pipeline)) (s : L1Server D Bonsai Pipeline)
        → IsReady n per s
        → IsReady n per (announce calls s)
    unfolding announce set_bonsai
    announce-IsReady [] s r = r
    announce-IsReady (a ∷ calls) s r = announce-IsReady calls (set_bonsai a s) (record {
      counted_streams = r.counted_streams;
      split = r.split;
      beams = r.beams;
      rpc = r.rpc;
      ports = r.ports;
      bonsais = length-set-some s.bonsai_dedispersers a.beam a.bonsai ∙ r.bonsais;
      pre = length-set-some s.latency_monitors_pre a.beam a.latency_pre ∙ r.pre;
      post = length-set-some s.latency_monitors_post a.beam a.latency_post ∙ r.post;
      streams = r.streams;
      maps = r.maps;
    })

    pub wait-IsReady :
        (polls : List (List (Announcement Bonsai Pipeline))) (s t : L1Server D Bonsai Pipeline)
        → IsReady n per s
        → wait polls s ≡ some t
        → IsReady n per t
    unfolding wait
    wait-IsReady [] s t r h = absurd (ground (arith, h))
    wait-IsReady (calls ∷ polls) s t r h = elim (Bool-cases (all_created (announce calls s))) [
      | inl e ↦
          let same : announce calls s ≡ t = some_injective (sym (wait_hit calls polls s e) ∙ h) in
          subst (IsReady n per) same (announce-IsReady calls s r)
      | inr e ↦
          wait-IsReady polls (announce calls s) t (announce-IsReady calls s r)
            (sym (wait_miss calls polls s e) ∙ h)
    ]

    latency_ok :
        (s : L1Server D Bonsai Pipeline) (i : ℕ)
        → IsReady n per s
        → i < nbeams_of s.config
        → (l : List (ℤ × Text × Option Pipeline)) × (latency_of s i ≡ ok l)
    unfolding latency_of
    latency_ok s i r h =
        let (b, _, e1) = at-ok s.config.beam_ids i (omega (arith, h, r.beams)) in
        let (x, _, e2) = at-ok s.latency_monitors_pre i (omega (arith, h, r.pre)) in
        let (y, _, e3) = at-ok s.latency_monitors_post i (omega (arith, h, r.post)) in
        returned (latency_of s i) (λ x f. let no = rw (latency_of, e1, e2, e3) at f in cc)

    rpc_ok :
        (s : L1Server D Bonsai Pipeline) (istream : ℕ)
        → IsReady n per s
        → istream < nstreams_of s.config
        → (server : RpcServer Bonsai Pipeline) × (make_rpc s per istream ≡ ok server)
    unfolding make_rpc
    rpc_ok s istream r h =
        let (b, b_pos, n_pos) =
          (xdiv_iff (nbeams_of s.config) (nstreams_of s.config) per).0 r.split in
        let inside : (j : ℕ) → j < istream * per + per → j < nbeams_of s.config = λ j p. omega (
          arith,
          p,
          b,
          mul_comm per (nstreams_of s.config),
          mul-le-mul_right {m = suc istream} {n = nstreams_of s.config} per (omega (arith, h)),
        ) in
        let (bonsais, e1, _) =
          for_each-counted (at s.bonsai_dedispersers) (istream * per) per (λ j p q.
            let (x, _, e) = at-ok s.bonsai_dedispersers j (omega (arith, inside j q, r.bonsais)) in
            (x, e)) in
        let (latency, e2, _) =
          for_each-counted (latency_of s) (istream * per) per
            (λ j p q. latency_ok s j r (inside j q)) in
        let (x, _, e3) = at-ok s.input_streams istream (omega (arith, h, r.streams)) in
        let within = lt→ltb istream s.mask_stats_maps (omega (arith, h, r.maps)) in
        let (address, _, e4) =
          at-ok s.config.settings.rpc_address istream (omega (arith, h, r.rpc)) in
        returned (make_rpc s per istream)
          (λ x f. let no = rw (make_rpc, e1, e2, e3, within, e4) at f in cc)

    pub after_wait_ok :
        (s : L1Server D Bonsai Pipeline)
        → IsReady n per s
        → (servers : List (RpcServer Bonsai Pipeline)) × (after_wait s
            ≡ ok (record s { rpc_servers = servers }))
    unfolding after_wait
    after_wait_ok s r =
        let (servers, e, _) =
          for_each-counted (make_rpc s per) 0 (nstreams_of s.config)
            (λ i p q. rpc_ok s i r (omega (arith, q))) in
        (servers, rw (after_wait, r.split, e) refl)

    lines_ok :
        (workfrac : ℕ → ℕ → Text) (get_statistics : ℕ → List (List (Text × ℕ)))
        (s : L1Server D Bonsai Pipeline) (i : ℕ)
        → IsReady n per s
        → HasRecords n get_statistics
        → i < length s.input_streams
        → (lines : List Text) × (stream_lines workfrac s get_statistics i ≡ ok lines)
    unfolding stream_lines
    lines_ok workfrac get_statistics s i r h q =
        let (x, _, e1) = at-ok s.config.settings.ipaddr i (omega (arith, q, r.streams)) in
        let (y, _, e2) = at-ok s.config.settings.port i (omega (arith, q, r.streams, r.ports)) in
        let (z, _, e3) =
          at-ok (get_statistics i) 0 (h i (omega (arith, q, r.streams, r.counted_streams))) in
        elim (Bool-cases (leb s.config.options.l1_verbosity 1)) [
          | inl few ↦
              returned (stream_lines workfrac s get_statistics i)
                (λ x f. let no = rw (stream_lines, e1, e2, few, e3) at f in cc)
          | inr all ↦
              returned (stream_lines workfrac s get_statistics i)
                (λ x f. let no = rw (stream_lines, e1, e2, all) at f in cc)
        ]

    pub print_statistics_ok :
        (workfrac : ℕ → ℕ → Text) (get_statistics : ℕ → List (List (Text × ℕ)))
        (s : L1Server D Bonsai Pipeline)
        → IsReady n per s
        → HasRecords n get_statistics
        → (lines : List Text) × (print_statistics workfrac s get_statistics ≡ ok lines)
    unfolding print_statistics
    print_statistics_ok workfrac get_statistics s r h =
        let (blocks, e, _) =
          for_each-counted (stream_lines workfrac s get_statistics) 0 (length s.input_streams)
            (λ i p q. lines_ok workfrac get_statistics s i r h (omega (arith, q))) in
        elim (Bool-cases (nat_beq s.config.options.l1_verbosity 0)) [
          | inl quiet ↦ ([], rw (print_statistics, quiet) refl)
          | inr loud ↦ (concat blocks, rw (print_statistics, loud, e) refl)
        ]
