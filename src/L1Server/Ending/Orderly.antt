-- ===== src/L1Server/Ending/Orderly.antt =====
-- The order in which main() ends the server's objects.
use ch_frb_l.Base.{
  ℕ, ◌≡◌, refl, sym, ap, ◌∙◌, subst, Bool-cases, Failure, List, [], ◌∷◌, Option, some, ok, err,
  Text, arith, Option-cases, Result-cases, inl, inr, length, ok_injective,
}
use ch_frb_l.Util.{xdiv, counted}
use ch_frb_l.Util.Vectors.{length-counted}
use ch_frb_l.L1Config.Environment.{Environment, L1Config}
use ch_frb_l.L1Config.Constructor.Accepted.{IsAccepted}
use ch_frb_l.L1Server.{L1Server, Makers}
use ch_frb_l.L1Server.Phases.{make_context}
use ch_frb_l.L1Server.Vectors.{for_each}
use ch_frb_l.L1Server.Vectors.Loops.{for_each-length}
use ch_frb_l.L1Server.Cores.{nbeams_of, nstreams_of}
use ch_frb_l.L1Server.Rpc.{
  Announcement, set_bonsai, announce, all_created, wait, after_wait, make_rpc, before_rpc,
}
use ch_frb_l.L1Server.Rpc.Waiting.{wait_hit, wait_miss}
use ch_frb_l.L1Server.Main.{l1_server, start, serve}
use ch_frb_l.L1Server.Main.Order.{started_by}
use ch_frb_l.L1Server.Ending.{Ending, join_all_threads, print_statistics, main}
use ch_frb_l.L1Server.Ending.Joined.{join_all_threads-IsOrderly}
use ch_frb_l.L1Server.Ending.Returns.{not_started, served, not_served, still_waits, ended}
use ch_frb_l.FrbIo.{FrbIo}
use ch_frb_l.L1Server.Ending.Stages.{IsOrderly}

same_IsOrderly :
    {a b c d a' b' c' d' : ℕ} {endings endings' : List Ending}
    → a ≡ a'
    → b ≡ b'
    → c ≡ c'
    → d ≡ d'
    → endings ≡ endings'
    → IsOrderly a b c d endings
    → IsOrderly a' b' c' d' endings'
same_IsOrderly {a = a} {b = b} {c = c} {d = d} {a' = a'} {b' = b'} {c' = c'} {d' = d'}
      {endings = endings} p q r u e o =
    let o1 = subst (λ x. IsOrderly x b c d endings) p o in
    let o2 = subst (λ x. IsOrderly a' x c d endings) q o1 in
    let o3 = subst (λ x. IsOrderly a' b' x d endings) r o2 in
    let o4 = subst (λ x. IsOrderly a' b' c' x endings) u o3 in subst (IsOrderly a' b' c' d') e o4

some_injective : {A : Type 0} {a b : A} → ◌≡◌ {A = Option A} (some a) (some b) → a ≡ b
some_injective h = cc

module _ {D Bonsai Pipeline : Type 0} where
  -- The parts of the server that the calls of set_bonsai() leave as they are.
  record Keeps (s t : L1Server D Bonsai Pipeline) : Type 0 where
    same_config : t.config ≡ s.config
    same_threads : t.dedispersion_threads ≡ s.dedispersion_threads
    same_devices : t.output_devices ≡ s.output_devices
    same_webs : t.prometheus_servers ≡ s.prometheus_servers

  announce-Keeps :
      (calls : List (Announcement Bonsai Pipeline)) (s : L1Server D Bonsai Pipeline)
      → Keeps s (announce calls s)
  unfolding announce set_bonsai
  announce-Keeps [] s = record {
    same_config = refl;
    same_threads = refl;
    same_devices = refl;
    same_webs = refl;
  }
  announce-Keeps (a ∷ calls) s =
      let k = announce-Keeps calls (set_bonsai a s) in
      record {
        same_config = k.same_config;
        same_threads = k.same_threads;
        same_devices = k.same_devices;
        same_webs = k.same_webs;
      }

  trans_Keeps : {s t u : L1Server D Bonsai Pipeline} → Keeps s t → Keeps t u → Keeps s u
  trans_Keeps a b = record {
    same_config = b.same_config ∙ a.same_config;
    same_threads = b.same_threads ∙ a.same_threads;
    same_devices = b.same_devices ∙ a.same_devices;
    same_webs = b.same_webs ∙ a.same_webs;
  }

  wait-Keeps :
      (polls : List (List (Announcement Bonsai Pipeline))) (s t : L1Server D Bonsai Pipeline)
      → wait polls s ≡ some t
      → Keeps s t
  unfolding wait
  wait-Keeps [] s t h = absurd (ground (arith, h))
  wait-Keeps (calls ∷ polls) s t h = elim (Bool-cases (all_created (announce calls s))) [
    | inl e ↦
        let same : announce calls s ≡ t = some_injective (sym (wait_hit calls polls s e) ∙ h) in
        subst (Keeps s) same (announce-Keeps calls s)
    | inr e ↦
        trans_Keeps (announce-Keeps calls s)
          (wait-Keeps polls (announce calls s) t (sym (wait_miss calls polls s e) ∙ h))
  ]

  after_wait-Keeps :
      (u v : L1Server D Bonsai Pipeline)
      → after_wait u ≡ ok v
      → Keeps u v × (length v.rpc_servers ≡ nstreams_of u.config)
  unfolding after_wait
  after_wait-Keeps u v h = elim (Result-cases (xdiv (nbeams_of u.config) (nstreams_of u.config))) [
    | inr (x, e) ↦ let no : after_wait u ≡ err x = rw (after_wait, e) refl in cc
    | inl (per, e) ↦
        elim (Result-cases (for_each (make_rpc u per) (counted 0 (nstreams_of u.config)))) [
          | inr (x, f) ↦ let no : after_wait u ≡ err x = rw (after_wait, e, f) refl in cc
          | inl (servers, f) ↦
              let made : after_wait u ≡ ok (record u { rpc_servers = servers }) =
                rw (after_wait, e, f) refl in
              let same : record u { rpc_servers = servers } ≡ v = ok_injective (sym made ∙ h) in
              subst (λ w. Keeps u w × (length w.rpc_servers ≡ nstreams_of u.config)) same
                (
                  record {
                    same_config = refl;
                    same_threads = refl;
                    same_devices = refl;
                    same_webs = refl;
                  },
                  for_each-length (make_rpc u per) (counted 0 (nstreams_of u.config)) servers f
                      ∙ length-counted 0 (nstreams_of u.config),
                )
        ]
  ]

  threw :
      (workfrac : ℕ → ℕ → Text) (mk : Makers D) (io : FrbIo)
      (polls : List (List (Announcement Bonsai Pipeline)))
      (get_statistics : ℕ → List (List (Text × ℕ))) (s : L1Server D Bonsai Pipeline) (x : Failure)
      → serve mk io polls s ≡ some (err x)
      → main workfrac mk io polls get_statistics s ≡ some (err x)
  unfolding main
  threw workfrac mk io polls get_statistics s x e = rw (main, e) refl

  threw_late :
      (workfrac : ℕ → ℕ → Text) (mk : Makers D) (io : FrbIo)
      (polls : List (List (Announcement Bonsai Pipeline)))
      (get_statistics : ℕ → List (List (Text × ℕ))) (s v : L1Server D Bonsai Pipeline) (x : Failure)
      → serve mk io polls s ≡ some (ok v)
      → print_statistics workfrac v get_statistics ≡ err x
      → main workfrac mk io polls get_statistics s ≡ some (err x)
  unfolding main
  threw_late workfrac mk io polls get_statistics s v x e f = rw (main, e, f) refl

  start_of_main :
      (workfrac : ℕ → ℕ → Text) (mk : Makers D) (io : FrbIo)
      (polls : List (List (Announcement Bonsai Pipeline)))
      (get_statistics : ℕ → List (List (Text × ℕ))) (s : L1Server D Bonsai Pipeline)
      (r : List Ending × List Text)
      → main workfrac mk io polls get_statistics s ≡ some (ok r)
      → (t : L1Server D Bonsai Pipeline) × (start mk io s ≡ ok t)
  start_of_main workfrac mk io polls get_statistics s r h = elim (Result-cases (start mk io s)) [
    | inl (t, e) ↦ (t, e)
    | inr (x, e) ↦
        let no = threw workfrac mk io polls get_statistics s x (not_started mk io polls s x e) in
        cc (no, h)
  ]

  -- The parts of main(), if it comes to its end.
  main_parts :
      (workfrac : ℕ → ℕ → Text) (mk : Makers D) (io : FrbIo)
      (polls : List (List (Announcement Bonsai Pipeline)))
      (get_statistics : ℕ → List (List (Text × ℕ))) (s t : L1Server D Bonsai Pipeline)
      (endings : List Ending) (lines : List Text)
      → start mk io s ≡ ok t
      → before_rpc t ≡ ok tt
      → main workfrac mk io polls get_statistics s ≡ some (ok (endings, lines))
      → (v : L1Server D Bonsai Pipeline) × Keeps t v
        × (length v.rpc_servers ≡ nstreams_of t.config)
        × (join_all_threads v ≡ endings)
  main_parts workfrac mk io polls get_statistics s t endings lines e ready h =
      elim (Option-cases (wait polls t)) [
        | inl waits ↦
            let no =
              still_waits workfrac mk io polls get_statistics s
                (not_served mk io polls s t e ready waits) in
            cc (no, h)
        | inr (u, g) ↦
            let up = served mk io polls s t u e ready g in
            elim (Result-cases (after_wait u)) [
              | inr (x, f) ↦
                  let no = threw workfrac mk io polls get_statistics s x (up ∙ ap some f) in
                  cc (no, h)
              | inl (v, f) ↦ elim (Result-cases (print_statistics workfrac v get_statistics)) [
                | inr (x, p) ↦
                    let no =
                      threw_late workfrac mk io polls get_statistics s v x (up ∙ ap some f) p in
                    cc (no, h)
                | inl (printed, p) ↦
                    let done =
                      ended workfrac mk io polls get_statistics s v printed (up ∙ ap some f) p in
                    let k = wait-Keeps polls t u g in
                    let (l, size) = after_wait-Keeps u v f in
                    (v, trans_Keeps k l, size ∙ ap nstreams_of k.same_config, cc (done, h))
              ]
            ]
      ]

  -- With an accepted configuration and a constructor that returns: where main() comes to its end without
  -- an exception, it has joined the dedispersion thread of each beam, ended the stream of each output device
  -- and joined its thread, shut down and joined the RPC server of each stream, and dropped the
  -- web server of each stream: each of them once, in the order of its vector, and in these stages.
  pub main-IsOrderly :
      {Node : Type 0} (env : Environment Node D) (mk : Makers D) (concurrency : ℕ)
      (argv : List Text) (c : L1Config D) (s : L1Server D Bonsai Pipeline)
      (polls : List (List (Announcement Bonsai Pipeline))) (workfrac : ℕ → ℕ → Text)
      (get_statistics : ℕ → List (List (Text × ℕ))) (endings : List Ending) (lines : List Text)
      → IsAccepted env c
      → l1_server concurrency argv c ≡ ok s
      → main workfrac mk env.io polls get_statistics s ≡ some (ok (endings, lines))
      → IsOrderly
          (nbeams_of s.config)
          (length s.config.settings.output_device_names)
          (nstreams_of s.config)
          (nstreams_of s.config)
          endings
  main-IsOrderly env mk concurrency argv c s polls workfrac get_statistics endings lines y h done =
      let (t, e) = start_of_main workfrac mk env.io polls get_statistics s (endings, lines) done in
      let st = started_by env mk concurrency argv c s t y h e in
      let (v, k, rpc, joined) =
        main_parts workfrac mk env.io polls get_statistics s t endings lines e st.ready done in
      let threads : length v.dedispersion_threads ≡ nbeams_of s.config =
        ap length k.same_threads
        ∙ for_each-length (make_context st.with_streams) (counted 0 (nbeams_of s.config))
            t.dedispersion_threads st.threads
        ∙ length-counted 0 (nbeams_of s.config) in
      let devices = ap length k.same_devices ∙ st.devices_sized in
      let servers = rpc ∙ ap nstreams_of st.same_config in
      let webs = ap length k.same_webs ∙ st.webs_sized in
      same_IsOrderly threads devices servers webs joined (join_all_threads-IsOrderly v)
