-- ===== src/L1Server/Rpc.antt =====
-- The RPC servers of the streams, which wait for the dedispersers of all beams. The threads of the
-- beams call set_bonsai() under the lock that each poll of the waiting loop takes.
pub mod Pointers
pub mod Waiting
use ch_frb_l.Base.{
  ℕ, zero, suc, ◌+◌, ◌*◌, Bool, true, false, not, ◌&&◌, ◌||◌, List, [], ◌∷◌, ◌++◌, Option, none,
  some, if◌then◌else◌, ok, err, Throws, Failure, thrown_text, undefined, ◌>>=◌, ◌>>◌, throw_if, msg,
  txt, Text, ℤ, ltb, nat_beq, length, set,
}
use ch_frb_l.Util.{xdiv, counted}
use ch_frb_l.L1Server.{RpcServer, L1Server}
use ch_frb_l.L1Server.Vectors.{at, for_each}
use ch_frb_l.L1Server.Cores.{nbeams_of, nstreams_of}
use ch_frb_l.L1Server.Phases.{internal_error}

-- A call of set_bonsai(), with pointers that are not null.
pub record Announcement (Bonsai Pipeline : Type 0) : Type 0 where
  pub beam : ℕ
  pub bonsai : Bonsai
  pub latency_pre : Pipeline
  pub latency_post : Pipeline

module _ {D Bonsai Pipeline : Type 0} where
  unfoldable pub set_bonsai :
      Announcement Bonsai Pipeline → L1Server D Bonsai Pipeline → L1Server D Bonsai Pipeline
  set_bonsai a s = record s {
    bonsai_dedispersers = set s.bonsai_dedispersers a.beam (some a.bonsai);
    latency_monitors_pre = set s.latency_monitors_pre a.beam (some a.latency_pre);
    latency_monitors_post = set s.latency_monitors_post a.beam (some a.latency_post);
  }

  unfoldable pub announce :
      List (Announcement Bonsai Pipeline) → L1Server D Bonsai Pipeline → L1Server D Bonsai Pipeline
  unfolding set_bonsai
  announce [] s = s
  announce (a ∷ calls) s = announce calls (set_bonsai a s)

unfoldable pub concat : {A : Type 0} → List (List A) → List A
concat [] = []
concat (xs ∷ xss) = xs ++ concat xss

-- The number of pointers that are set.
unfoldable pub gotn : {A : Type 0} → List (Option A) → ℕ
gotn [] = 0
gotn (none ∷ xs) = gotn xs
gotn (some x ∷ xs) = suc (gotn xs)

module _ {D Bonsai Pipeline : Type 0} where
  unfoldable pub all_created : L1Server D Bonsai Pipeline → Bool
  unfolding gotn
  all_created s = nat_beq (gotn s.bonsai_dedispersers) (nbeams_of s.config)

  -- The waiting loop: the calls that arrive before each poll, then the poll. The object when the loop
  -- ends; `none` while it still waits.
  unfoldable pub wait :
      List (List (Announcement Bonsai Pipeline))
      → L1Server D Bonsai Pipeline
      → Option (L1Server D Bonsai Pipeline)
  unfolding announce all_created
  wait [] s = none
  wait (calls ∷ polls) s =
      let t = announce calls s in let rest = wait polls t in if all_created t then some t else rest

  unfoldable pub latency_of :
      L1Server D Bonsai Pipeline → ℕ → Throws (List (ℤ × Text × Option Pipeline))
  latency_of s i = do
    beam ← at s.config.beam_ids i
    pre ← at s.latency_monitors_pre i
    post ← at s.latency_monitors_post i
    ok ((beam, txt "before_rfi", pre) ∷ (beam, txt "after_rfi", post) ∷ [])

  unfoldable pub make_rpc : L1Server D Bonsai Pipeline → ℕ → ℕ → Throws (RpcServer Bonsai Pipeline)
  unfolding concat
  make_rpc s nbeams_per_stream istream = do
    let beams = counted (istream * nbeams_per_stream) nbeams_per_stream
    bonsais ← for_each (at s.bonsai_dedispersers) beams
    latency ← for_each (latency_of s) beams
    _ ← at s.input_streams istream
    _ ← (if ltb istream s.mask_stats_maps then ok tt else err undefined)
    address ← at s.config.settings.rpc_address istream
    ok (record {
      stream = istream;
      mask_map = istream;
      bonsais = bonsais;
      address = address;
      command_line = s.command_line;
      latency = concat latency;
    })

  -- The tests before the waiting loop.
  unfoldable pub before_rpc : L1Server D Bonsai Pipeline → Throws Unit
  unfolding internal_error
  before_rpc s = do
    throw_if (not (nat_beq (length s.rpc_servers) 0))
        (internal_error (msg "double call to make_rpc_servers()"))
    throw_if (not (nat_beq (length s.input_streams) (nstreams_of s.config))) (
        internal_error
          (msg "make_rpc_servers() was called, without first calling make_input_streams()"))
    throw_if (not (nat_beq (length s.bonsai_dedispersers) (nbeams_of s.config))) (
        internal_error
          (msg "make_rpc_servers() was called, without first calling spawn_dedispersion_threads"))

  -- What follows the waiting loop.
  unfoldable pub after_wait : L1Server D Bonsai Pipeline → Throws (L1Server D Bonsai Pipeline)
  after_wait s = do
    nbeams_per_stream ← xdiv (nbeams_of s.config) (nstreams_of s.config)
    servers ← for_each (make_rpc s nbeams_per_stream) (counted 0 (nstreams_of s.config))
    ok (record s { rpc_servers = servers })

  -- `none`: the method has not returned.
  unfoldable pub make_rpc_servers :
      List (List (Announcement Bonsai Pipeline))
      → L1Server D Bonsai Pipeline
      → Option (Throws (L1Server D Bonsai Pipeline))
  make_rpc_servers polls s = elim (before_rpc s) [
    | err e ↦ some (err e)
    | ok _ ↦ elim (wait polls s) [ none ↦ none | some t ↦ some (after_wait t) ]
  ]
