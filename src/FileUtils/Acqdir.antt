-- ===== src/FileUtils/Acqdir.antt =====
-- The directories of an acquisition: after check_acqdir they are there, and an earlier acquisition of
-- the same name is never taken for a new one.
use mathlib.Core.Option.{some-injective}
use ch_frb_l.Base.{
  ℕ, zero, suc, ◌≡◌, ap, sym, subst, ◌≢◌, ◌⊎◌, inl, inr, Bool, true, false, List, [], ◌∷◌, ◌++◌, ok,
  err, Throws, Text, txt, text_beq_iff, ℤ, All, Failure, Result-cases, get_elem?, some, arith,
}
use ch_frb_l.FileUtils.System.{
  FileSystem, MkdirLaws, directory, opened, end_of_directory, read_error, entry, Listed, DirStream,
}
use ch_frb_l.FileUtils.{
  file_exists, is_directory, only_dots, is_empty_directory, existing, makedir, beam_dir,
  ensure_beam_dir, ensure_beam_dirs, check_acqdir,
}

-- A name other than "." and "..".
abbrev pub IsProper : Text → Type 0
IsProper n = (n ≢ txt ".") × (n ≢ txt "..")

only_dots_misses :
    (fs : FileSystem) (name n : Text) (d : DirStream)
    → IsProper n
    → Listed n d
    → only_dots fs name d ≢ ok true
unfolding only_dots
only_dots_misses fs name n end_of_directory p l = absurd l
only_dots_misses fs name n read_error p l = absurd l
only_dots_misses fs name n (entry m d) p (inl here) =
    ground (arith, text_beq_iff m (txt "."), text_beq_iff m (txt ".."))
only_dots_misses fs name n (entry m d) p (inr later) =
    ground (arith, only_dots_misses fs name n d p later)

module _ (fs : FileSystem) where
  -- A directory that holds an entry other than "." and "..".
  pub record IsOccupied (dir : Text) (s : fs.State) : Type 0 where
    pub is_dir : fs.stat s dir ≡ directory
    pub entries :
        (n : Text) × (d : DirStream) × (fs.opendir s dir ≡ opened d) × Listed n d × IsProper n

  not_empty : (s : fs.State) (dir : Text) → IsOccupied dir s → is_empty_directory fs s dir ≢ ok true
  unfolding is_empty_directory
  not_empty s dir o =
      let (n, d, e, l, p) = o.entries in
      rw (e, is_empty_directory) (only_dots_misses fs dir n d p l)

  makedir_state :
      (s : fs.State) (name : Text) (t : Bool) → (makedir fs s name t).1 ≡ (fs.mkdir s name).1
  unfolding makedir
  makedir_state s name t = ground arith

  ensure_beam_dir_state :
      (s : fs.State) (acqdir dir : Text) (new_acq : Bool)
      → ((ensure_beam_dir fs s acqdir dir new_acq).1 ≡ s)
        ⊎ ((ensure_beam_dir fs s acqdir dir new_acq).1 ≡ (fs.mkdir s dir).1)
  unfolding ensure_beam_dir
  ensure_beam_dir_state s acqdir dir new_acq = ground (arith, makedir_state s dir false)

  -- The first round, and how the loop goes on.
  abbrev round : fs.State → Text → ℤ → Bool → Throws Unit × fs.State
  round s acqdir b new_acq = ensure_beam_dir fs s acqdir (beam_dir fs acqdir b) new_acq

  rounds :
      (s : fs.State) (acqdir : Text) (b : ℤ) (beams : List ℤ) (new_acq : Bool)
      → (((round s acqdir b new_acq).0 ≡ ok tt)
          × (ensure_beam_dirs fs s acqdir (b ∷ beams) new_acq
              ≡ ensure_beam_dirs fs (round s acqdir b new_acq).1 acqdir beams new_acq))
        ⊎ ((e : Failure) × ((round s acqdir b new_acq).0 ≡ err e)
            × (ensure_beam_dirs fs s acqdir (b ∷ beams) new_acq
                ≡ (err e, (round s acqdir b new_acq).1)))
  unfolding ensure_beam_dirs
  rounds s acqdir b beams new_acq = elim (Result-cases (round s acqdir b new_acq).0) [
    | inl (tt, h) ↦ inl (h, rw (h, ensure_beam_dirs))
    | inr (e, h) ↦ inr (e, h, rw (h, ensure_beam_dirs))
  ]

  -- What mkdir() keeps is kept by every step of check_acqdir.
  module _ (P : fs.State → Type 0)
      (keep : (s : fs.State) (p : Text) → P s → P (fs.mkdir s p).1) where
    makedir-keeps : (s : fs.State) (name : Text) (t : Bool) → P s → P (makedir fs s name t).1
    makedir-keeps s name t h = subst P (sym (makedir_state s name t)) (keep s name h)

    ensure_beam_dir-keeps :
        (s : fs.State) (acqdir dir : Text) (new_acq : Bool)
        → P s
        → P (ensure_beam_dir fs s acqdir dir new_acq).1
    ensure_beam_dir-keeps s acqdir dir new_acq h =
        elim (ensure_beam_dir_state s acqdir dir new_acq) [
          | inl same ↦ subst P (sym same) h
          | inr made ↦ subst P (sym made) (keep s dir h)
        ]

    ensure_beam_dirs-keeps :
        (acqdir : Text) (beams : List ℤ) (new_acq : Bool) (s : fs.State)
        → P s
        → P (ensure_beam_dirs fs s acqdir beams new_acq).1
    unfolding ensure_beam_dirs
    ensure_beam_dirs-keeps acqdir [] new_acq s h = h
    ensure_beam_dirs-keeps acqdir (b ∷ beams) new_acq s h =
        let here = ensure_beam_dir-keeps s acqdir (beam_dir fs acqdir b) new_acq h in
        let later = ensure_beam_dirs-keeps acqdir beams new_acq (round s acqdir b new_acq).1 here in
        elim (rounds s acqdir b beams new_acq) [
          | inl (_, go) ↦ rw go later
          | inr (_, _, stop) ↦ rw stop here
        ]

  module _ (laws : MkdirLaws fs) where
    IsOccupied-mkdir :
        (dir : Text) (s : fs.State) (p : Text) → IsOccupied dir s → IsOccupied dir (fs.mkdir s p).1
    IsOccupied-mkdir dir s p o =
        let (n, d, e, l, q) = o.entries in
        let (d', e', l') = laws.keeps_entries s p dir n d e l in
        record { is_dir = laws.keeps s p dir o.is_dir; entries = (n, d', e', l', q) }

    makedir_ok :
        (s : fs.State) (name : Text)
        → (makedir fs s name false).0 ≡ ok tt
        → fs.stat (makedir fs s name false).1 name ≡ directory
    unfolding makedir existing
    makedir_ok s name h = ground (arith, laws.makes s name)

    ensure_beam_dir_ok :
        (s : fs.State) (acqdir dir : Text) (new_acq : Bool)
        → (ensure_beam_dir fs s acqdir dir new_acq).0 ≡ ok tt
        → fs.stat (ensure_beam_dir fs s acqdir dir new_acq).1 dir ≡ directory
    unfolding ensure_beam_dir file_exists is_directory
    ensure_beam_dir_ok s acqdir dir new_acq h = ground (arith, makedir_ok s dir)

    ensure_beam_dirs_ok :
        (acqdir : Text) (beams : List ℤ) (new_acq : Bool) (s : fs.State)
        → (ensure_beam_dirs fs s acqdir beams new_acq).0 ≡ ok tt
        → All
            (λ b.
              fs.stat (ensure_beam_dirs fs s acqdir beams new_acq).1 (beam_dir fs acqdir b)
              ≡ directory)
            beams
    ensure_beam_dirs_ok acqdir [] new_acq s h = tt
    ensure_beam_dirs_ok acqdir (b ∷ beams) new_acq s h = elim (rounds s acqdir b beams new_acq) [
      | inl (done, go) ↦
          let t = (round s acqdir b new_acq).1 in
          let dir = beam_dir fs acqdir b in
          subst
            (λ (r : Throws Unit × fs.State).
              (fs.stat r.1 dir ≡ directory)
              × All (λ c. fs.stat r.1 (beam_dir fs acqdir c) ≡ directory) beams)
            (sym go)
            (
              ensure_beam_dirs-keeps (λ u. fs.stat u dir ≡ directory) (λ u p. laws.keeps u p dir)
                  acqdir beams new_acq t (ensure_beam_dir_ok s acqdir dir new_acq done),
              ensure_beam_dirs_ok acqdir beams new_acq t (rw go at h),
            )
      | inr (e, _, stop) ↦ cc (h, ap (λ (r : Throws Unit × fs.State). r.0) stop)
    ]

    occupied_beam :
        (s : fs.State) (acqdir dir : Text)
        → IsOccupied dir s
        → (ensure_beam_dir fs s acqdir dir true).0 ≢ ok tt
    unfolding ensure_beam_dir file_exists is_directory
    occupied_beam s acqdir dir o = ground (arith, o.is_dir, not_empty s dir o)

    occupied_beams :
        (acqdir : Text) (beams : List ℤ) (i : ℕ) (b : ℤ) (s : fs.State)
        → get_elem? beams i ≡ some b
        → IsOccupied (beam_dir fs acqdir b) s
        → (ensure_beam_dirs fs s acqdir beams true).0 ≢ ok tt
    occupied_beams acqdir [] i b s e o h = cc
    occupied_beams acqdir (c ∷ beams) zero b s e o h = elim (rounds s acqdir c beams true) [
      | inl (done, go) ↦
          occupied_beam s acqdir (beam_dir fs acqdir c)
            (subst (λ x. IsOccupied (beam_dir fs acqdir x) s) (sym (some-injective c b e)) o) done
      | inr (x, _, stop) ↦ cc (ap (λ (r : Throws Unit × fs.State). r.0) stop)
    ]
    occupied_beams acqdir (c ∷ beams) (suc i) b s e o h = elim (rounds s acqdir c beams true) [
      | inl (done, go) ↦
          let kept =
            ensure_beam_dir-keeps (IsOccupied (beam_dir fs acqdir b))
              (IsOccupied-mkdir (beam_dir fs acqdir b)) s acqdir (beam_dir fs acqdir c) true o in
          occupied_beams acqdir beams i b (round s acqdir c true).1 e kept (rw go at h)
      | inr (x, _, stop) ↦ cc (ap (λ (r : Throws Unit × fs.State). r.0) stop)
    ]

    -- When check_acqdir succeeds, the directory of the acquisition and the directory of every beam are
    -- there afterwards.
    pub check_acqdir-makes_dirs :
        (s : fs.State) (base acqname : Text) (beams : List ℤ) (new_acq : Bool)
        → (check_acqdir fs s base acqname beams new_acq).0 ≡ ok tt
        → let s' = (check_acqdir fs s base acqname beams new_acq).1 in
          let acqdir = base ++ txt "/" ++ acqname in
          (fs.stat s' acqdir ≡ directory)
          × All (λ b. fs.stat s' (beam_dir fs acqdir b) ≡ directory) beams
    unfolding check_acqdir
    check_acqdir-makes_dirs s base acqname beams new_acq h =
        let acqdir = base ++ txt "/" ++ acqname in
        elim (Result-cases (makedir fs s acqdir false).0) [
          | inl (tt, made) ↦
              let s' = (makedir fs s acqdir false).1 in
              rw (made, check_acqdir)
                (
                  ensure_beam_dirs-keeps (λ u. fs.stat u acqdir ≡ directory)
                      (λ u p. laws.keeps u p acqdir) acqdir beams new_acq s'
                      (makedir_ok s acqdir made),
                  ensure_beam_dirs_ok acqdir beams new_acq s' (rw (made, check_acqdir) at h),
                )
          | inr (e, fails) ↦ ground (arith, fails)
        ]

    -- When a beam's directory already holds an entry other than "." and "..", check_acqdir fails for a
    -- new acquisition: an earlier one of the same name is not written over.
    pub check_acqdir-protects :
        (s : fs.State) (base acqname : Text) (beams : List ℤ) (i : ℕ) (b : ℤ)
        → get_elem? beams i ≡ some b
        → IsOccupied (beam_dir fs (base ++ txt "/" ++ acqname) b) s
        → (check_acqdir fs s base acqname beams true).0 ≢ ok tt
    unfolding check_acqdir
    check_acqdir-protects s base acqname beams i b e o h =
        let acqdir = base ++ txt "/" ++ acqname in
        let dir = beam_dir fs acqdir b in
        let kept = makedir-keeps (IsOccupied dir) (IsOccupied-mkdir dir) s acqdir false o in
        elim (Result-cases (makedir fs s acqdir false).0) [
          | inl (tt, made) ↦
              occupied_beams acqdir beams i b (makedir fs s acqdir false).1 e kept
                (rw (made, check_acqdir) at h)
          | inr (x, fails) ↦ ground (arith, fails)
        ]
