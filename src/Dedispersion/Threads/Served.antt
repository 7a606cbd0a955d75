-- ===== src/Dedispersion/Threads/Served.antt =====
-- When the server comes to have its RPC servers: the dedispersion threads of a server that has been
-- started, and the waiting loop of make_rpc_servers().
use ch_frb_l.Base.{
  ℕ, zero, suc, ◌<◌, ◌≡◌, ◌↔◌, refl, sym, ap, subst, ◌∙◌, Bool, true, false, List, ◌∷◌, Option,
  none, some, ok, Text, arith, inl, inr, get_elem?, replicate,
}
use ch_frb_l.MaskStats.{MaskStats}
use ch_frb_l.L1Config.Environment.{Environment, L1Config}
use ch_frb_l.L1Config.Constructor.Accepted.{IsAccepted}
use ch_frb_l.L1Server.{L1Server, Makers, Context}
use ch_frb_l.L1Server.Cores.{nbeams_of}
use ch_frb_l.L1Server.Rpc.{Announcement, wait, concat}
use ch_frb_l.L1Server.Rpc.Pointers.{all_below, all_below_elem}
use ch_frb_l.L1Server.Rpc.Waiting.{announced, wait_iff}
use ch_frb_l.L1Server.Main.{start, l1_server}
use ch_frb_l.L1Server.Main.Order.{Started, started_by, l1_server-IsFresh, positive_lt}
use ch_frb_l.L1Server.Main.Beams.{HasBeam, has_beam}
use ch_frb_l.Dedispersion.Threads.{Libraries, Prepared, before_run, dedispersion_thread_main}
use ch_frb_l.Dedispersion.Threads.Calls.{calls_of, thread_calls_cases}

all_below_intro : (n : ℕ) (f : ℕ → Bool) → ((i : ℕ) → i < n → f i ≡ true) → all_below n f ≡ true
all_below_intro zero f h = refl
all_below_intro (suc n) f h =
    rw (h 0 (omega arith), all_below_intro n (λ i. f (suc i)) (λ i p. h (suc i) (omega arith))) refl

module _ {D Bonsai Pipeline Ring Chunk : Type 0} (lib : Libraries D Bonsai Pipeline Ring)
    (ms_map : ℕ → MaskStats Ring) (chunks : ℕ → List (Option Chunk)) where
  -- The calls that the thread of a beam makes.
  abbrev pub thread_calls_of : L1Config D → Context D → ℕ → List (Announcement Bonsai Pipeline)
  thread_calls_of c k i = calls_of (dedispersion_thread_main lib c k (ms_map i) (chunks i)).0

  -- All calls have arrived: a beam is announced exactly if its thread makes the call.
  abbrev pub HaveArrived : L1Server D Bonsai Pipeline → List (Announcement Bonsai Pipeline) → Type 0
  HaveArrived t calls =
      (i : ℕ) (k : Context D)
      → get_elem? t.dedispersion_threads i ≡ some k
      → announced calls i ≡ announced (thread_calls_of t.config k i) i

  -- The preparations of each beam's thread return, and the server is not the toy server.
  abbrev pub ArePrepared : L1Server D Bonsai Pipeline → Type 0
  ArePrepared t =
      (t.config.options.tflag ≡ false)
      × ((i : ℕ) (k : Context D)
          → i < nbeams_of t.config
          → get_elem? t.dedispersion_threads i ≡ some k
          → (p : Prepared Bonsai Pipeline) × ((before_run lib t.config k (ms_map i)).1 ≡ ok p))

  announces :
      (c : L1Config D) (k : Context D) (i : ℕ) (p : Prepared Bonsai Pipeline)
      → c.options.tflag ≡ false
      → k.ibeam ≡ i
      → (before_run lib c k (ms_map i)).1 ≡ ok p
      → announced (thread_calls_of c k i) i ≡ true
  announces c k i p real own e = elim (thread_calls_cases lib c k (ms_map i) (chunks i)) [
    | inl (toy, _) ↦ absurd (ground (arith, toy, real))
    | inr (inl (_, q, _, calls, beam)) ↦ rw calls (ground (arith, beam, own))
    | inr (inr (_, x, f, _)) ↦ absurd (ground (arith, e, f))
  ]

  announced_by :
      (c : L1Config D) (k : Context D) (i : ℕ)
      → announced (thread_calls_of c k i) i ≡ true
      → (c.options.tflag ≡ false)
        × (p : Prepared Bonsai Pipeline) × ((before_run lib c k (ms_map i)).1 ≡ ok p)
  announced_by c k i h = elim (thread_calls_cases lib c k (ms_map i) (chunks i)) [
    | inl (_, none_made) ↦ (let no = rw none_made at h in cc)
    | inr (inl (real, p, e, _, _)) ↦ (real, p, e)
    | inr (inr (_, x, _, none_made)) ↦ (let no = rw none_made at h in cc)
  ]

  -- A server that main() has started, and the calls of set_bonsai() that its dedispersion threads make,
  -- in any order, spread over one or more polls: the waiting loop of make_rpc_servers() ends
  -- exactly if the server is not the toy server (-t) and the preparations of each thread return.
  -- Otherwise it does not end with these calls.
  pub wait_iff_prepared :
      {Node : Type 0} (env : Environment Node D) (mk : Makers D) (concurrency : ℕ)
      (argv : List Text) (c : L1Config D) (s t : L1Server D Bonsai Pipeline)
      (calls : List (Announcement Bonsai Pipeline))
      (polls : List (List (Announcement Bonsai Pipeline)))
      → IsAccepted env c
      → l1_server concurrency argv c ≡ ok s
      → start mk env.io s ≡ ok t
      → HaveArrived t (concat (calls ∷ polls))
      → ((u : L1Server D Bonsai Pipeline) × (wait (calls ∷ polls) t ≡ some u)) ↔ ArePrepared t
  wait_iff_prepared env mk concurrency argv c s t calls polls y h started arrived =
      let fresh = l1_server-IsFresh env concurrency argv c s y h in
      let st : Started env s t = started_by env mk concurrency argv c s t y h started in
      let empty = st.no_bonsais ∙ ap (λ d. replicate (nbeams_of d) none) (sym st.same_config) in
      let loop = wait_iff calls polls t empty in
      let beam : (i : ℕ) → i < nbeams_of t.config → HasBeam env t i =
        λ i p. has_beam env s t st i (subst (λ d. i < nbeams_of d) st.same_config p) in
      let made : (i : ℕ)
          → i < nbeams_of t.config
          → announced (concat (calls ∷ polls)) i ≡ true
          → (k : Context D) → get_elem? t.dedispersion_threads i ≡ some k
          → (t.config.options.tflag ≡ false)
            × (p : Prepared Bonsai Pipeline) × ((before_run lib t.config k (ms_map i)).1 ≡ ok p) =
        λ i p a k at_i. announced_by t.config k i (sym (arrived i k at_i) ∙ a) in
      (
        λ done.
            let all =
              all_below_elem (nbeams_of t.config) (announced (concat (calls ∷ polls)))
                (loop.0 done) in
            let some_beam : 0 < nbeams_of t.config =
              subst (λ d. 0 < nbeams_of d) (sym st.same_config)
                (positive_lt s.config.settings.nbeams fresh.accepted.sane.beams) in
            let b = beam 0 some_beam in
            (
              (made 0 some_beam (all 0 some_beam) b.context b.runs).0,
              λ i k p at_i. let m = made i p (all i p) k at_i in (m.1, m.2),
            ),
        λ (real, ready). loop.1 (
            all_below_intro (nbeams_of t.config) (announced (concat (calls ∷ polls))) λ i p.
              let b = beam i p in
              let (q, prepared) = ready i b.context p b.runs in
              arrived i b.context b.runs
              ∙ announces t.config b.context i q real b.own_index prepared),
      )
