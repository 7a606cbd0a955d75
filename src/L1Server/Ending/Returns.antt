-- ===== src/L1Server/Ending/Returns.antt =====
-- When main() comes to its end.
use ch_frb_l.Base.{
  err, Failure, ℕ, ◌≡◌, ◌↔◌, refl, sym, ap, subst, ◌∙◌, List, ◌∷◌, Option, none, some, ok, Text,
  Option-cases, inl, inr, length, length-replicate,
}
use ch_frb_l.MaskStats.{MaskStats}
use ch_frb_l.Util.{xdiv}
use ch_frb_l.FrbIo.{FrbIo}
use ch_frb_l.L1Config.Environment.{Environment, L1Config}
use ch_frb_l.L1Config.Constructor.Accepted.{IsAccepted}
use ch_frb_l.L1Server.{L1Server, Makers}
use ch_frb_l.L1Server.Cores.{nbeams_of, nstreams_of}
use ch_frb_l.L1Server.Rpc.{Announcement, before_rpc, wait, after_wait, make_rpc_servers, concat}
use ch_frb_l.L1Server.Main.{l1_server, start, serve}
use ch_frb_l.L1Server.Main.Order.{Started, started_by, l1_server-IsFresh}
use ch_frb_l.L1Server.Ending.{Ending, join_all_threads, print_statistics, main}
use ch_frb_l.L1Server.Ending.Ready.{
  IsReady, HasRecords, wait-IsReady, after_wait_ok, print_statistics_ok,
}
use ch_frb_l.Dedispersion.Threads.{Libraries}
use ch_frb_l.Dedispersion.Threads.Served.{HaveArrived, ArePrepared, wait_iff_prepared}

module _ {Node D Bonsai Pipeline : Type 0} (env : Environment Node D) where
  started-IsReady :
      (s t : L1Server D Bonsai Pipeline) (st : Started env s t)
      → IsAccepted env s.config
      → IsReady (nstreams_of t.config) st.per_stream t
  started-IsReady s t st y =
      let at_start : (P : L1Config D → Type 0) → P s.config → P t.config =
        λ P p. subst P (sym st.same_config) p in
      record {
        counted_streams = refl;
        split =
            at_start (λ c. xdiv (nbeams_of c) (nstreams_of c) ≡ ok st.per_stream) st.beams_split;
        beams = at_start (λ c. length c.beam_ids ≡ nbeams_of c) y.beams;
        rpc = at_start (λ c. length c.settings.rpc_address ≡ nstreams_of c) y.sane.rpc;
        ports = at_start (λ c. length c.settings.port ≡ nstreams_of c) (sym y.ports);
        bonsais =
            at_start (λ c. length t.bonsai_dedispersers ≡ nbeams_of c)
              (ap length st.no_bonsais ∙ length-replicate (nbeams_of s.config) none);
        pre = at_start (λ c. length t.latency_monitors_pre ≡ nbeams_of c) st.pre_sized;
        post = at_start (λ c. length t.latency_monitors_post ≡ nbeams_of c) st.post_sized;
        streams = at_start (λ c. length t.input_streams ≡ nstreams_of c) st.streams_sized;
        maps = at_start (λ c. t.mask_stats_maps ≡ nstreams_of c) st.maps_sized;
      }

module _ {D Bonsai Pipeline : Type 0} where
  pub served :
      (mk : Makers D) (io : FrbIo) (polls : List (List (Announcement Bonsai Pipeline)))
      (s t u : L1Server D Bonsai Pipeline)
      → start mk io s ≡ ok t
      → before_rpc t ≡ ok tt
      → wait polls t ≡ some u
      → serve mk io polls s ≡ some (after_wait u)
  unfolding serve make_rpc_servers
  served mk io polls s t u e f g = rw (serve, e, make_rpc_servers, f, g) refl

  pub not_started :
      (mk : Makers D) (io : FrbIo) (polls : List (List (Announcement Bonsai Pipeline)))
      (s : L1Server D Bonsai Pipeline) (x : Failure)
      → start mk io s ≡ err x
      → serve mk io polls s ≡ some (err x)
  unfolding serve
  not_started mk io polls s x e = rw (serve, e) refl

  pub not_served :
      (mk : Makers D) (io : FrbIo) (polls : List (List (Announcement Bonsai Pipeline)))
      (s t : L1Server D Bonsai Pipeline)
      → start mk io s ≡ ok t
      → before_rpc t ≡ ok tt
      → wait polls t ≡ none
      → serve mk io polls s ≡ none
  unfolding serve make_rpc_servers
  not_served mk io polls s t e f g = rw (serve, e, make_rpc_servers, f, g) refl

  pub ended :
      (workfrac : ℕ → ℕ → Text) (mk : Makers D) (io : FrbIo)
      (polls : List (List (Announcement Bonsai Pipeline)))
      (get_statistics : ℕ → List (List (Text × ℕ))) (s v : L1Server D Bonsai Pipeline)
      (lines : List Text)
      → serve mk io polls s ≡ some (ok v)
      → print_statistics workfrac v get_statistics ≡ ok lines
      → main workfrac mk io polls get_statistics s ≡ some (ok (join_all_threads v, lines))
  unfolding main
  ended workfrac mk io polls get_statistics s v lines e f = rw (main, e, f) refl

  pub still_waits :
      (workfrac : ℕ → ℕ → Text) (mk : Makers D) (io : FrbIo)
      (polls : List (List (Announcement Bonsai Pipeline)))
      (get_statistics : ℕ → List (List (Text × ℕ))) (s : L1Server D Bonsai Pipeline)
      → serve mk io polls s ≡ none
      → main workfrac mk io polls get_statistics s ≡ none
  unfolding main
  still_waits workfrac mk io polls get_statistics s e = rw (main, e) refl

  -- The composition, from a wait that ends.
  ends :
      (workfrac : ℕ → ℕ → Text) (mk : Makers D) (io : FrbIo)
      (polls : List (List (Announcement Bonsai Pipeline)))
      (get_statistics : ℕ → List (List (Text × ℕ))) (s t u : L1Server D Bonsai Pipeline) (per : ℕ)
      → start mk io s ≡ ok t
      → before_rpc t ≡ ok tt
      → IsReady (nstreams_of t.config) per t
      → HasRecords (nstreams_of t.config) get_statistics
      → wait polls t ≡ some u
      → (r : List Ending × List Text) × (main workfrac mk io polls get_statistics s ≡ some (ok r))
  ends workfrac mk io polls get_statistics s t u per e f ready records g =
      let n = nstreams_of t.config in
      let u_ready = wait-IsReady n per polls t u ready g in
      let (servers, made) = after_wait_ok n per u u_ready in
      let v = record u { rpc_servers = servers } in
      let (lines, printed) =
        print_statistics_ok n per workfrac get_statistics v
          (record {
            counted_streams = u_ready.counted_streams;
            split = u_ready.split;
            beams = u_ready.beams;
            rpc = u_ready.rpc;
            ports = u_ready.ports;
            bonsais = u_ready.bonsais;
            pre = u_ready.pre;
            post = u_ready.post;
            streams = u_ready.streams;
            maps = u_ready.maps;
          })
          records in
      (
        (join_all_threads v, lines),
        ended workfrac mk io polls get_statistics s v lines
            (served mk io polls s t u e f g ∙ ap some made) printed,
      )

module _ {D Bonsai Pipeline Ring Chunk : Type 0} (lib : Libraries D Bonsai Pipeline Ring)
    (ms_map : ℕ → MaskStats Ring) (chunks : ℕ → List (Option Chunk)) where
  -- A server with an accepted configuration whose constructor returns, and the calls of set_bonsai() that
  -- its dedispersion threads make, in any order, spread over one or more polls. Where the threads that are joined end, and each stream
  -- gives statistics for the whole stream: main() comes to its end without an exception exactly if
  -- the server is not the toy server (-t) and the preparations of each dedispersion thread return.
  -- Otherwise it does not come to its end with these calls.
  pub main_iff :
      {Node : Type 0} (env : Environment Node D) (mk : Makers D) (concurrency : ℕ)
      (argv : List Text) (c : L1Config D) (s t : L1Server D Bonsai Pipeline)
      (calls : List (Announcement Bonsai Pipeline))
      (polls : List (List (Announcement Bonsai Pipeline))) (workfrac : ℕ → ℕ → Text)
      (get_statistics : ℕ → List (List (Text × ℕ)))
      → IsAccepted env c
      → l1_server concurrency argv c ≡ ok s
      → start mk env.io s ≡ ok t
      → HaveArrived lib ms_map chunks t (concat (calls ∷ polls))
      → HasRecords (nstreams_of t.config) get_statistics
      → ((r : List Ending × List Text) × (main workfrac mk env.io (calls ∷ polls) get_statistics s
            ≡ some (ok r)))
        ↔ ArePrepared lib ms_map chunks t
  main_iff env mk concurrency argv c s t calls polls workfrac get_statistics y h started arrived
        records =
      let fresh = l1_server-IsFresh env concurrency argv c s y h in
      let st : Started env s t = started_by env mk concurrency argv c s t y h started in
      let ready = started-IsReady env s t st fresh.accepted in
      let loop =
        wait_iff_prepared lib ms_map chunks env mk concurrency argv c s t calls polls y h started
          arrived in
      (
        λ (r, done). elim (Option-cases (wait (calls ∷ polls) t)) [
          | inl waits ↦
              let no =
                still_waits workfrac mk env.io (calls ∷ polls) get_statistics s
                  (not_served mk env.io (calls ∷ polls) s t started st.ready waits) in
              cc (no, done)
          | inr (u, g) ↦ loop.0 (u, g)
        ],
        λ prepared.
            let (u, g) = loop.1 prepared in
            ends workfrac mk env.io (calls ∷ polls) get_statistics s t u st.per_stream started
              st.ready ready records g,
      )
