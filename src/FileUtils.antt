-- ===== src/FileUtils.antt =====
-- file_utils.cpp: checks on paths, directories, and the file name patterns of acquisitions. A
-- function that creates directories takes the state of the file system and returns it, also beside
-- an exception. The `mode` of makedir is passed to the system as it is and is left out.
pub mod System
pub mod Patterns
pub mod Acqdir
use Prim.Native.Nat.{bit_and}
use ch_frb_l.Base.{
  ℕ, zero, suc, ◌+◌, ◌-◌, ◌%◌, ◌^◌, ◌≡◌, Bool, true, false, not, ◌&&◌, ◌||◌, List, [], ◌∷◌, ◌++◌,
  Option, none, some, if◌then◌else◌, Result, ok, err, Throws, runtime_error, throws, msg, txt, Text,
  ◌>>=◌, ◌==◌, text_eq, nat_beq, leb, ℤ, to_string, int_to_string, setw, length, take, drop, map,
}
use System.{
  Stat, directory, other_file, missing, stat_error, Mkdir, created, already_exists, mkdir_error,
  DirStream, end_of_directory, read_error, entry, Opendir, opened, open_error, FileSystem,
}

-- `rfind("/", from)`: the last position of a slash that is at most `from`; `none` is npos. `i` is the
-- position of the head of the text.
last_slash : ℕ → ℕ → Text → Option ℕ
last_slash i from [] = none
last_slash i from (c ∷ t) = elim (last_slash (suc i) from t) [
  | some j ↦ some j
  | none ↦ if nat_beq c b'/' && leb i from then some i else none
]

-- `npos` is the largest size_t; a text is shorter.
unfoldable pub rfind_slash : ℕ → Text → Option ℕ
unfolding last_slash
rfind_slash from t = last_slash 0 from t

no_last_slash : Text → Text
no_last_slash pattern =
    msg "ch-frb-l1::acq_pattern_to_dir: last '/' not found in " ++ (b'"' ∷ pattern) ++ b'"' ∷ []

no_second_slash : Text → Text
no_second_slash pattern =
    msg "ch-frb-l1::acq_pattern_to_dir: second-last '/' not found in "
    ++ (b'"' ∷ pattern)
    ++ b'"' ∷ []

-- The second search, from the character before the last slash.
second_slash : Text → Option ℕ → Throws Text
second_slash pattern none = throws (no_second_slash pattern)
second_slash pattern (some zero) = throws (no_second_slash pattern)
second_slash pattern (some (suc i)) = ok (take (suc i) pattern)

first_slash : Text → Option ℕ → Throws Text
unfolding second_slash
first_slash pattern none = throws (no_last_slash pattern)
first_slash pattern (some zero) = throws (no_last_slash pattern)
first_slash pattern (some (suc i)) = second_slash pattern (rfind_slash i pattern)

unfoldable pub acq_pattern_to_dir : Text → Throws Text
unfolding first_slash no_last_slash no_second_slash
acq_pattern_to_dir pattern = first_slash pattern (rfind_slash (length pattern) pattern)

-- strcasecmp() == 0, for the ASCII letters of the C locale.
lower : ℕ → ℕ
lower c = if leb b'A' c && leb c b'Z' then c + 32 else c

unfoldable pub same_nocase : Text → Text → Bool
unfolding lower
same_nocase s t = map lower s == map lower t

abbrev pub ssd_base : Text
ssd_base = txt "/local/acq_data"

abbrev pub nfs_base : Text
nfs_base = txt "/frb-archiver-1/acq_data"

abbrev pub pattern_tail : Text
pattern_tail = txt "/beam_(BEAM)/chunk_(CHUNK).msg"

abbrev pub no_acquisition : Text → List ℤ → Bool
no_acquisition acqname beams = nat_beq (length acqname) 0 || nat_beq (length beams) 0

module _ (fs : FileSystem) where
  open fs use {State, stat, mkdir, opendir}

  -- What a call that changes the file system gives back.
  abbrev pub Outcome : Type 0 → Type 0
  Outcome A = Throws A × State

  unfoldable pub file_exists : State → Text → Throws Bool
  file_exists s name = elim (stat s name) [
    | directory ↦ ok true
    | other_file ↦ ok true
    | missing ↦ ok false
    | stat_error e ↦ throws (name ++ msg ": " ++ e)
  ]

  unfoldable pub is_directory : State → Text → Throws Bool
  is_directory s name = elim (stat s name) [
    | directory ↦ ok true
    | other_file ↦ ok false
    | missing ↦ throws (name ++ msg ": No such file or directory")
    | stat_error e ↦ throws (name ++ msg ": " ++ e)
  ]

  -- The loop of is_empty_directory over readdir_r().
  only_dots : Text → DirStream → Throws Bool
  only_dots name end_of_directory = ok true
  only_dots name read_error = throws (name ++ msg ": readdir_r() failed")
  only_dots name (entry n rest) =
      if n == txt "." || n == txt ".." then only_dots name rest else ok false

  unfoldable pub is_empty_directory : State → Text → Throws Bool
  unfolding only_dots
  is_empty_directory s name = elim (opendir s name) [
    | opened d ↦ only_dots name d
    | open_error e ↦ throws (name ++ msg ": opendir() failed: " ++ e)
  ]

  -- The loop of listdir: the names in order, "." and ".." among them.
  all_names : Text → DirStream → Throws (List Text)
  all_names name end_of_directory = ok []
  all_names name read_error = throws (name ++ msg ": readdir_r() failed")
  all_names name (entry n rest) = do names ← all_names name rest; ok (n ∷ names)

  unfoldable pub listdir : State → Text → Throws (List Text)
  unfolding all_names
  listdir s name = elim (opendir s name) [
    | opened d ↦ all_names name d
    | open_error e ↦ throws (name ++ msg ": opendir() failed: " ++ e)
  ]

  -- After mkdir() failed with EEXIST.
  existing : State → Text → Throws Unit
  existing s name = elim (stat s name) [
    | directory ↦ ok tt
    | other_file ↦ throws (name ++ msg ": file exists but is not a directory")
    | missing ↦
        throws
          (name ++ msg ": mkdir() returned EEXIST but stat() failed, not sure what is going on")
    | stat_error e ↦
        throws
          (name ++ msg ": mkdir() returned EEXIST but stat() failed, not sure what is going on")
  ]

  unfoldable pub makedir : State → Text → Bool → Outcome Unit
  unfolding existing
  makedir s name throw_if_exists =
      let (r, s') = mkdir s name in
      elim r [
        | created ↦ (ok tt, s')
        | already_exists ↦
            if throw_if_exists
            then (throws (name ++ msg ": mkdir() failed: File exists"), s')
            else (existing s' name, s')
        | mkdir_error e ↦ (throws (name ++ msg ": mkdir() failed: " ++ e), s')
      ]

  unfoldable pub check_acqdir_base : State → Text → Throws Unit
  check_acqdir_base s base = do
    there ← file_exists s base
    dir ←
        (if there
          then is_directory s base
          else throws (
              msg "ch-frb-l1: acqdir_base "
              ++ base
              ++ msg " does not exist (probably need to mount device)"))
    if dir
        then ok tt
        else throws
            (msg "ch-frb-l1: acqdir_base " ++ base ++ msg " exists but is not a directory?!")

  -- The directory of one beam: acqdir/beam_NNNN.
  unfoldable pub beam_dir : Text → ℤ → Text
  beam_dir acqdir beam = acqdir ++ txt "/beam_" ++ setw 4 (int_to_string beam)

  -- The tests on a beam directory that exists; `ok` falls through.
  check_beam_dir : State → Text → Text → Bool → Throws Unit
  check_beam_dir s acqdir dir new_acq = do
    is_dir ← is_directory s dir
    empty ←
        (if is_dir
          then (if new_acq then is_empty_directory s dir else ok true)
          else throws
              (msg "ch-frb-l1: acqdir " ++ acqdir ++ msg " exists, but is not a directory?!"))
    if empty
        then ok tt
        else throws (msg "ch-frb-l1: acqdir " ++ acqdir ++ msg " already exists and is nonempty")

  -- One round of the loop over the beams.
  ensure_beam_dir : State → Text → Text → Bool → Outcome Unit
  unfolding check_beam_dir
  ensure_beam_dir s acqdir dir new_acq = elim (file_exists s dir) [
    | err e ↦ (err e, s)
    | ok false ↦ makedir s dir false
    | ok true ↦ (check_beam_dir s acqdir dir new_acq, s)
  ]

  ensure_beam_dirs : State → Text → List ℤ → Bool → Outcome Unit
  ensure_beam_dirs s acqdir [] new_acq = (ok tt, s)
  ensure_beam_dirs s acqdir (b ∷ beams) new_acq =
      let (r, s') = ensure_beam_dir s acqdir (beam_dir acqdir b) new_acq in
      let rest = ensure_beam_dirs s' acqdir beams new_acq in
      elim r [ ok _ ↦ rest | err e ↦ (err e, s') ]

  unfoldable pub check_acqdir : State → Text → Text → List ℤ → Bool → Outcome Unit
  unfolding ensure_beam_dirs ensure_beam_dir
  check_acqdir s base acqname beams new_acq =
      let acqdir = base ++ txt "/" ++ acqname in
      let (r, s') = makedir s acqdir false in
      elim r [ ok _ ↦ ensure_beam_dirs s' acqdir beams new_acq | err e ↦ (err e, s') ]

  -- The mounts of the streams, in order.
  check_mounts : State → List ℤ → Throws Unit
  check_mounts s [] = ok tt
  check_mounts s (i ∷ ids) = do
    _ ← check_acqdir_base s (txt "/frb-archiver-" ++ int_to_string i ++ txt "/acq_data")
    check_mounts s ids

  -- A check that changes nothing, then the directories, then the pattern.
  prepare : State → Throws Unit → Text → Text → List ℤ → Bool → Text → Outcome Text
  prepare s (err e) base acqname beams new_acq pattern = (err e, s)
  prepare s (ok _) base acqname beams new_acq pattern =
      let (r, s') = check_acqdir s base acqname beams new_acq in ((do _ ← r; ok pattern), s')

  unfoldable pub acqname_to_filename_pattern :
      State → Text → Text → List ℤ → List ℤ → Bool → Outcome Text
  unfolding prepare check_mounts
  acqname_to_filename_pattern s devname acqname streams beams new_acq =
      if no_acquisition acqname beams
      then (ok [], s)
      else if same_nocase devname (txt "ssd")
      then prepare s (check_acqdir_base s ssd_base) ssd_base acqname beams new_acq
          (txt "/local/acq_data/" ++ acqname ++ pattern_tail)
      else if same_nocase devname (txt "nfs")
      then prepare s (check_mounts s streams) nfs_base acqname beams new_acq
          (txt "/frb-archiver-(STREAM)/acq_data/" ++ acqname ++ pattern_tail)
      else (
        throws (
            msg
              "ch-frb-l1::acqname_to_filename_pattern(): 'devname' must be either 'ssd' or 'nfs'"),
        s,
      )

-- The walk of fts_read(): each entry's fts_info and st_size, then the end (a null pointer with errno
-- 0) or an error.
pub data Walk : Type 0 where
  walk_end : Walk
  walk_error : Text → Walk
  walk_entry : ℕ → ℕ → Walk → Walk

-- The loop of disk_space_used; `fts_f` is the constant FTS_F, and the total is a size_t.
unfoldable pub walk_size : ℕ → Text → ℕ → Walk → Throws ℕ
walk_size fts_f name total walk_end = ok total
walk_size fts_f name total (walk_error e) = throws (name ++ msg ": fts_read() failed: " ++ e)
walk_size fts_f name total (walk_entry info size rest) =
    walk_size fts_f name (if nat_beq (bit_and info fts_f) 0 then total else (total + size) % 2 ^ 64)
      rest

unfoldable pub disk_space_used : ℕ → Text → Result Text Walk → Throws ℕ
disk_space_used fts_f name (err e) = throws (name ++ msg ": fts_open() failed: " ++ e)
disk_space_used fts_f name (ok walk) = walk_size fts_f name 0 walk
