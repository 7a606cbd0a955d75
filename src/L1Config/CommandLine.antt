-- ===== src/L1Config/CommandLine.antt =====
-- The two parsers of the command line: with the cxxopts library, whose result is a parameter, and the
-- low-budget one that is compiled without it.
pub mod Flags
use ch_frb_l.Base.{
  ℕ, zero, Bool, true, false, not, ◌&&◌, ◌||◌, List, [], ◌∷◌, ◌++◌, Option, none, some,
  if◌then◌else◌, ok, err, Throws, Failure, exit, ◌>>=◌, ◌>>◌, throw_if, Text, ltb, nat_beq, ℤ,
}
use ch_frb_l.L1Config.{Options, default_options, Acquisition, Arguments}

-- What the parser of cxxopts returns: how often an option is given, and the values.
pub record Parsed : Type 0 where
  pub verbose : ℕ
  pub force : ℕ
  pub ignore : ℕ
  pub pipe : ℕ
  pub memory : ℕ
  pub write : ℕ
  pub crash : ℕ
  pub toy : ℕ
  pub help : ℕ
  pub acq : ℕ
  pub nfs : ℕ
  pub acq_name : Text
  pub acq_beams : List ℤ
  pub args : List Text

-- The file names from the positional arguments; any other number of arguments is an error.
file_names : Failure → List Text → Options → Throws Options
file_names e (a ∷ b ∷ c ∷ d ∷ []) o = ok (record o {
  l1_config_filename = a;
  rfi_config_filename = b;
  bonsai_config_filename = c;
  l1b_config_filename = d;
})
file_names e (a ∷ []) o = if o.tflag then ok (record o { l1_config_filename = a }) else err e
file_names e _ o = err e

counted_options : Parsed → Options
counted_options p = record default_options {
  l1_verbosity = if ltb 0 p.verbose then 2 else 1;
  fflag = ltb 0 p.force;
  ignore_end_of_stream = ltb 0 p.ignore;
  l1b_pipe_io_debug = ltb 0 p.pipe;
  memory_pool_debug = ltb 0 p.memory;
  write_chunk_debug = ltb 0 p.write;
  deliberately_crash = ltb 0 p.crash;
  tflag = ltb 0 p.toy;
}

-- With cxxopts: help and a wrong number of arguments end the program with exit code 0.
unfoldable pub from_cxxopts : Parsed → Throws Arguments
unfolding file_names counted_options
from_cxxopts p = do
  throw_if (ltb 0 p.help) (exit 0)
  o ← file_names (exit 0) p.args (counted_options p)
  ok (record {
    options = o;
    acq =
        if ltb 0 p.acq
        then some (record { acq_name = p.acq_name; nfs = ltb 0 p.nfs; acq_beams = p.acq_beams })
        else none;
  })

-- A letter of an option; `none` is the call of usage().
unfoldable pub set_flag : ℕ → Options → Option Options
set_flag c o =
    if nat_beq c b'v'
    then some (record o { l1_verbosity = 2 })
    else if nat_beq c b'f'
    then some (record o { fflag = true })
    else if nat_beq c b'p'
    then some (record o { l1b_pipe_io_debug = true })
    else if nat_beq c b'i'
    then some (record o { ignore_end_of_stream = true })
    else if nat_beq c b'm'
    then some (record o { memory_pool_debug = true })
    else if nat_beq c b'w'
    then some (record o { write_chunk_debug = true })
    else if nat_beq c b'c'
    then some (record o { deliberately_crash = true })
    else if nat_beq c b't'
    then some (record o { tflag = true })
    else none

unfoldable pub set_flags : Text → Options → Throws Options
set_flags [] o = ok o
set_flags (c ∷ letters) o = elim (set_flag c o) [
  | none ↦ err (exit 2)
  | some q ↦ set_flags letters q
]

-- The loop over the arguments; `args` are the positional ones so far.
unfoldable pub scan : List Text → Options → List Text → Throws (Options × List Text)
scan [] o args = ok (o, args)
scan ([] ∷ argv) o args = scan argv o (args ++ [] ∷ [])
scan ((c ∷ letters) ∷ argv) o args =
    if nat_beq c b'-'
    then (set_flags letters o >>= λ q. scan argv q args)
    else scan argv o (args ++ (c ∷ letters) ∷ [])

-- Without cxxopts; `argv` is the list of the arguments after the program's name.
unfoldable pub low_budget : List Text → Throws Arguments
unfolding file_names
low_budget argv = do
  (o, args) ← scan argv default_options []
  q ← file_names (exit 2) args o
  ok (record { options = q; acq = none })
