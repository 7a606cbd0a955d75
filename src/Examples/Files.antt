-- ===== src/Examples/Files.antt =====
-- file_utils.cpp on a file system that is a list of directories, each with one file.
use ch_frb_l.Base.{
  ◌≡◌, ◌≢◌, inl, refl, true, List, [], ◌∷◌, ◌++◌, if◌then◌else◌, Text, txt, text_eq, text_beq_iff,
  contains, ok, setw, int_to_string, pos, All, arith,
}
use ch_frb_l.FileUtils.System.{
  directory, missing, created, already_exists, end_of_directory, entry, opened, FileSystem,
  MkdirLaws,
}
use ch_frb_l.FileUtils.{makedir, file_exists, check_acqdir, beam_dir}
use ch_frb_l.FileUtils.Acqdir.{IsOccupied, check_acqdir-makes_dirs, check_acqdir-protects}

abbrev pub disk : FileSystem
disk = record {
  State = List Text;
  stat = λ s p. if contains p s then directory else missing;
  mkdir = λ s p. if contains p s then (already_exists, s) else (created, p ∷ s);
  opendir = λ s p. opened (entry (txt "chunk_1.msg") end_of_directory);
}

abbrev pub local_disk : List Text
local_disk =
    txt "/local/acq_data" ∷ txt "/local/acq_data/old" ∷ txt "/local/acq_data/old/beam_0003" ∷ []

disk_laws : MkdirLaws disk
unfolding contains
disk_laws = record {
  makes = λ s p h. ground (arith, text_beq_iff p p);
  was_missing = λ s p h. ground arith;
  fails = λ s p h. ground arith;
  keeps = λ s p q h. ground arith;
  keeps_entries = λ s p q n d e l. (d, e, l);
}

made :
    (check_acqdir disk local_disk (txt "/local/acq_data") (txt "new") (pos 3 ∷ []) true).0 ≡ ok tt
unfolding check_acqdir makedir contains file_exists beam_dir
made = refl

check_acqdir-makes_dirs_example :
    (disk.stat
        (check_acqdir disk local_disk (txt "/local/acq_data") (txt "new") (pos 3 ∷ []) true).1
        (txt "/local/acq_data" ++ txt "/" ++ txt "new")
      ≡ directory)
    × All
        (λ b.
          disk.stat
            (check_acqdir disk local_disk (txt "/local/acq_data") (txt "new") (pos 3 ∷ []) true).1
            (beam_dir disk (txt "/local/acq_data" ++ txt "/" ++ txt "new") b)
          ≡ directory)
        (pos 3 ∷ [])
check_acqdir-makes_dirs_example =
    check_acqdir-makes_dirs disk disk_laws local_disk (txt "/local/acq_data") (txt "new")
      (pos 3 ∷ []) true made

old-IsOccupied :
    IsOccupied disk
      (beam_dir disk (txt "/local/acq_data" ++ txt "/" ++ txt "old") (pos 3))
      local_disk
unfolding beam_dir contains setw int_to_string
old-IsOccupied = record {
  is_dir = refl;
  entries = (
    txt "chunk_1.msg",
    entry (txt "chunk_1.msg") end_of_directory,
    refl,
    inl refl,
    (λ h. absurd cc, λ h. absurd cc),
  );
}

check_acqdir-protects_example :
    (check_acqdir disk local_disk (txt "/local/acq_data") (txt "old") (pos 3 ∷ []) true).0 ≢ ok tt
check_acqdir-protects_example =
    check_acqdir-protects disk disk_laws local_disk (txt "/local/acq_data") (txt "old") (pos 3 ∷ [])
      0 (pos 3) refl old-IsOccupied
