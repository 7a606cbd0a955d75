-- ===== src/SimulateL0/Program.antt =====
-- ch-frb-simulate-l0.cpp: the program, and l0_params::end_streams(). What the threads send is the list
-- of their time stamps; the threads run beside one another, as a step relation. The texts that are
-- printed are left out.
pub mod Order
use ch_frb_l.Base.{
  ℕ, zero, suc, ◌+◌, ◌<◌, ◌≡◌, Bool, true, false, ◌&&◌, List, [], ◌∷◌, ◌++◌, map, Option, none,
  some, if◌then◌else◌, Result, ok, err, Throws, ℤ, pos, exit, ◌>>=◌, ◌>>◌, throw_if, Text, nat_beq,
  length, get_elem?, get_or, set,
}
use ch_frb_l.Util.{counted}
use ch_frb_l.L1Server.Vectors.{at, for_each}
use ch_frb_l.FrbIo.{FrbIo}
use ch_frb_l.ParamFile.{Document, Scalar, yaml_paramfile}
use ch_frb_l.SimulateL0.{L0Params, Initializer}
use ch_frb_l.SimulateL0.Constructor.{l0_params}
use ch_frb_l.SimulateL0.Sending.{Ostream, Chunk, Piece, send_noise, send_chunk_files}

-- What the program asks of libraries and system: `lexical_cast<double>`, the test `num_seconds <= 0.0`,
-- 0.0, the reading of the parameter file, the opening of a stream for a number of gigabits per second, the number of noise
-- chunks of a stream for a number of seconds, and the reading of a file of chunks.
pub record System (D Node : Type 0) : Type 0 where
  pub io : FrbIo
  pub int : Scalar Node ℤ
  pub string : Scalar Node Text
  pub exists : Text → Throws Bool
  pub load_yaml : Text → Option (Result Text (Document Node))
  pub open_ostream : L0Params → D → Initializer → Throws Ostream
  pub lexical_cast : Text → Throws D
  pub not_positive : D → Bool
  pub zero_point : D
  pub noise_chunks : Ostream → D → ℕ
  pub read_msgpack_file : Text → Option Chunk

module _ {D Node : Type 0} (sys : System D Node) where
  -- The constructor of l0_params, and its streams.
  unfoldable pub make_params : Text → D → Throws (L0Params × List Ostream)
  make_params filename gbps = do
    p ← yaml_paramfile filename (pos 0) (sys.exists filename) (sys.load_yaml filename)
    ((l, initializers), p') ← l0_params sys.io sys.int sys.string p
    streams ← for_each (sys.open_ostream l gbps) initializers
    ok (l, streams)

  -- What the thread of a stream sends: sim_thread_main, or chunk_files_thread_main if there are files.
  unfoldable pub thread_sends : L0Params → List Ostream → D → List Text → ℕ → Throws (List ℕ)
  thread_sends p streams num_seconds datafiles ithread = do
    o ← at streams ithread
    (if nat_beq (length datafiles) 0
        then send_noise o p.initial_time_index (sys.noise_chunks o num_seconds)
        else (do
          pieces ← send_chunk_files o (map sys.read_msgpack_file datafiles)
          ok (map (λ (x : Piece). x.fpga_count) pieces)))

  -- The arguments after the name of the program: the file with the parameters, the number, and the files.
  unfoldable pub simulate : List Text → Throws (List (List ℕ))
  simulate [] = err (exit 2)
  simulate (filename ∷ []) = err (exit 2)
  simulate (filename ∷ number ∷ datafiles) = do
    num_seconds ← sys.lexical_cast number
    let no_files = nat_beq (length datafiles) 0
    throw_if (no_files && sys.not_positive num_seconds) (exit 2)
    (p, streams) ← make_params filename (if no_files then sys.zero_point else num_seconds)
    for_each (thread_sends p streams num_seconds datafiles) (counted 0 p.nthreads_tot)

-- The program while its threads run: what each thread has sent and has still to send, the number of the
-- threads that main() has joined, and of the streams that it has ended.
pub record Running : Type 0 where
  pub sent : List (List ℕ)
  pub pending : List (List ℕ)
  pub joined : ℕ
  pub ended : ℕ

-- The threads have been started.
abbrev pub spawned : List (List ℕ) → Running
spawned sends = record { sent = map (λ _. []) sends; pending = sends; joined = 0; ended = 0 }

-- A thread sends; main() joins the next thread, which waits until it has nothing left to send; after the
-- joins, end_streams() ends the next stream.
pub data Step : Running → Running → Type 0 where
  send :
      (s : Running) (i stamp : ℕ) (rest : List ℕ)
      → get_elem? s.pending i ≡ some (stamp ∷ rest)
      → Step s (record s {
        sent = set s.sent i (get_or s.sent i [] ++ stamp ∷ []);
        pending = set s.pending i rest;
      })
  join :
      (s : Running)
      → get_elem? s.pending s.joined ≡ some []
      → Step s (record s { joined = suc s.joined })
  end_stream :
      (s : Running)
      → s.joined ≡ length s.pending
      → s.ended < length s.pending
      → Step s (record s { ended = suc s.ended })

pub data Reach (s : Running) : Running → Type 0 where
  here : Reach s s
  next : {t u : Running} → Reach s t → Step t u → Reach s u
