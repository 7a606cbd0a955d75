-- ===== src/Dedispersion/Threads.antt =====
-- What a dedispersion thread does (dedispersion_thread_main, _thread_main and _toy_thread_main): a list
-- of actions, beside its end. The objects of the rf_pipelines and bonsai libraries are elements of
-- parameter types. A thread's puts into the map of mask measurements have its own beam in their keys, so
-- they commute with those of the other threads: the map is given as it is when the thread gets to it.
-- The texts that the threads print are left out.
pub mod Calls
pub mod Served
use ch_frb_l.Base.{
  ℕ, zero, suc, ◌+◌, ◌*◌, ◌%◌, Bool, true, false, not, List, [], ◌∷◌, ◌++◌, map, Option, none, some,
  if◌then◌else◌, ok, err, Throws, undefined, assert, Text, ltb, length, ℤ,
}
use ch_frb_l.Util.{xdiv}
use ch_frb_l.MaskStats.{MaskStats}
use ch_frb_l.L1Config.{BonsaiConfig}
use ch_frb_l.L1Config.Environment.{L1Config}
use ch_frb_l.L1Server.{TriggerPipe, Context}
use ch_frb_l.L1Server.Vectors.{at}
use ch_frb_l.L1Server.Cores.{nbeams_of, nstreams_of}
use ch_frb_l.L1Server.Rpc.{Announcement}
use ch_frb_l.Dedispersion.{Stage, RuntimeAttrs, init_mask_counters}

-- A processor of triggers.
pub data Processor (D : Type 0) : Type 0 where
  max_tracker : Processor D
  l1b : TriggerPipe D → Processor D

-- The libraries. `make_rfi_chain` makes the pipeline of the JSON that the configuration has parsed, which
-- is named by its file; `visited` is the order of rf_pipelines::visit_pipeline(); the Boolean of
-- `make_dedisperser` is `ini_params.asynchronous`, and its list the processors that add_processor() gives the
-- object right after it is made.
pub record Libraries (D Bonsai Pipeline Ring : Type 0) : Type 0 where
  pub pin_thread_to_cores : List ℕ → Throws Unit
  pub make_chime_network_stream : ℕ → ℤ → D → Throws Pipeline
  pub make_rfi_chain : Text → Throws Pipeline
  pub visited : Pipeline → List Pipeline
  pub stage : Pipeline → Stage Ring
  pub make_dedisperser : BonsaiConfig → Bool → List (Processor D) → Throws Bonsai
  pub make_bonsai_dedisperser : Bonsai → Throws Pipeline
  pub run_all : List Pipeline → Throws Unit

pub data Action (D Bonsai Pipeline Ring : Type 0) : Type 0 where
  pinned : List ℕ → Action D Bonsai Pipeline Ring
  mask_counters : List RuntimeAttrs → MaskStats Ring → Action D Bonsai Pipeline Ring
  called_set_bonsai : Announcement Bonsai Pipeline → Action D Bonsai Pipeline Ring
  run_pipeline : List Pipeline → Action D Bonsai Pipeline Ring
  report_max : Action D Bonsai Pipeline Ring
  wait_for_child : TriggerPipe D → Action D Bonsai Pipeline Ring
  started_stream : ℕ → Action D Bonsai Pipeline Ring
  get_assembled_chunk : ℕ → Action D Bonsai Pipeline Ring
  usleep : ℕ → Action D Bonsai Pipeline Ring

-- The actions of a part of a thread, and how it ends.
abbrev pub Run : Type 0 → Type 0 → Type 0
Run Act A = List Act × Throws A

module _ {Act : Type 0} where
  infixl 5 ◌>>=◌ ◌>>◌
  unfoldable pub ◌>>=◌ : {A B : Type 0} → Run Act A → (A → Run Act B) → Run Act B
  (actions, ok a) >>= f = (actions ++ (f a).0, (f a).1)
  (actions, err e) >>= f = (actions, err e)

  abbrev pub ◌>>◌ : {B : Type 0} → Run Act Unit → Run Act B → Run Act B
  m >> k = m >>= λ _. k

  unfoldable pub lift : {A : Type 0} → Throws A → Run Act A
  lift r = ([], r)

  unfoldable pub act : Act → Run Act Unit
  act a = (a ∷ [], ok tt)

-- The object that the visit of the chain finds last; a null pointer if there is none.
unfoldable pub find_last_transform : {A : Type 0} → Option A → List A → Option A
find_last_transform latency2 [] = latency2
find_last_transform latency2 (p ∷ stages) = find_last_transform (some p) stages

-- A pointer that is used.
abbrev pub deref : {A : Type 0} → Option A → Throws A
deref none = err undefined
deref (some a) = ok a

-- The pipeline of a thread, and what it tells the server.
pub record Prepared (Bonsai Pipeline : Type 0) : Type 0 where
  pub announcement : Announcement Bonsai Pipeline
  pub pipeline : List Pipeline

unfoldable pub processors : {D : Type 0} → L1Config D → Context D → List (Processor D)
processors c k =
    (if c.settings.track_global_trigger_max then max_tracker ∷ [] else [])
    ++ elim k.l1b_subprocess [ none ↦ [] | some pipe ↦ l1b pipe ∷ [] ]

module _ {D Bonsai Pipeline Ring : Type 0} where
  -- The loop of the toy thread, over the chunks that its stream gives it, `none` for a null pointer;
  -- the thread still waits when the list ends. `i` is the index within the stream.
  unfoldable pub toy_loop :
      {Chunk : Type 0}
      → ℕ
      → ℕ
      → List (Option Chunk)
      → List (Action D Bonsai Pipeline Ring) × Option (Throws Unit)
  toy_loop i ibeam [] = ([], none)
  toy_loop i ibeam (none ∷ chunks) =
      (get_assembled_chunk i ∷ usleep (ibeam * 10000) ∷ [], some (ok tt))
  toy_loop i ibeam (some chunk ∷ chunks) =
      let (actions, end) = toy_loop i ibeam chunks in
      (get_assembled_chunk i ∷ usleep (ibeam * 10000) ∷ actions, end)

  -- The loop, after a start that has returned its index.
  unfoldable pub run_toy :
      {Chunk : Type 0}
      → ℕ
      → List (Option Chunk)
      → Run (Action D Bonsai Pipeline Ring) ℕ
      → List (Action D Bonsai Pipeline Ring) × Option (Throws Unit)
  run_toy ibeam chunks (actions, err e) = (actions, some (err e))
  run_toy ibeam chunks (actions, ok i) =
      (actions ++ (toy_loop i ibeam chunks).0, (toy_loop i ibeam chunks).1)

module _ {D Bonsai Pipeline Ring : Type 0} (lib : Libraries D Bonsai Pipeline Ring)
    (c : L1Config D) where
  -- _thread_main() up to the call of set_bonsai().
  unfoldable pub before_run :
      Context D → MaskStats Ring → Run (Action D Bonsai Pipeline Ring) (Prepared Bonsai Pipeline)
  before_run k ms_map = do
    lift (assert (not c.options.tflag))
    lift (assert (ltb k.ibeam (nbeams_of c)))
    lift (lib.pin_thread_to_cores k.allowed_cores)
    act (pinned k.allowed_cores)
    bonsai_config ← lift (deref c.bonsai)
    beam_id ← lift (at c.beam_ids k.ibeam)
    stream ← lift (lib.make_chime_network_stream k.stream beam_id c.settings.intensity_prescale)
    rfi_chain ← lift (lib.make_rfi_chain c.options.rfi_config_filename)
    dedisperser ←
        lift (lib.make_dedisperser bonsai_config k.asynchronous_dedispersion (processors c k))
    bonsai_transform ← lift (lib.make_bonsai_dedisperser dedisperser)
    (attrs, after) ← lift (
        init_mask_counters
          (record {
            nrfifreq = c.settings.nrfifreq;
            rfi_mask_meas_history = c.settings.rfi_mask_meas_history;
            beam_id = beam_id;
            sp = k.stream;
          })
          (map lib.stage (lib.visited rfi_chain)) ms_map)
    act (mask_counters attrs after)
    latency2 ← lift (deref (find_last_transform none (lib.visited rfi_chain)))
    lift (
        ok (record {
          announcement = record {
            beam = k.ibeam;
            bonsai = dedisperser;
            latency_pre = stream;
            latency_post = latency2;
          };
          pipeline = stream ∷ rfi_chain ∷ bonsai_transform ∷ [];
        }))

  -- What follows.
  unfoldable pub finish :
      Context D → Prepared Bonsai Pipeline → Run (Action D Bonsai Pipeline Ring) Unit
  finish k p = do
    act (called_set_bonsai p.announcement)
    act (run_pipeline p.pipeline)
    lift (lib.run_all p.pipeline)
    (if c.settings.track_global_trigger_max then act report_max else lift (ok tt))
    elim k.l1b_subprocess [ none ↦ lift (ok tt) | some pipe ↦ act (wait_for_child pipe) ]

  unfoldable pub thread_main : Context D → MaskStats Ring → Run (Action D Bonsai Pipeline Ring) Unit
  thread_main k ms_map = do p ← before_run k ms_map; finish k p

  -- _toy_thread_main() up to the loop: the index within the stream.
  unfoldable pub toy_start : Context D → Run (Action D Bonsai Pipeline Ring) ℕ
  toy_start k = do
    lift (assert c.options.tflag)
    lift (assert (ltb k.ibeam (nbeams_of c)))
    lift (lib.pin_thread_to_cores k.allowed_cores)
    act (pinned k.allowed_cores)
    nbeams_per_stream ← lift (xdiv (nbeams_of c) (nstreams_of c))
    act (started_stream k.stream)
    lift (ok (k.ibeam % nbeams_per_stream))

  unfoldable pub toy_thread_main :
      {Chunk : Type 0}
      → Context D
      → List (Option Chunk)
      → List (Action D Bonsai Pipeline Ring) × Option (Throws Unit)
  toy_thread_main k chunks = run_toy k.ibeam chunks (toy_start k)

  -- An exception is printed and thrown again, which ends the process.
  unfoldable pub dedispersion_thread_main :
      {Chunk : Type 0}
      → Context D
      → MaskStats Ring
      → List (Option Chunk)
      → List (Action D Bonsai Pipeline Ring) × Option (Throws Unit)
  dedispersion_thread_main k ms_map chunks =
      if c.options.tflag
      then toy_thread_main k chunks
      else let (actions, end) = thread_main k ms_map in (actions, some end)
