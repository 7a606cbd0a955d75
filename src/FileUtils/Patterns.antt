-- ===== src/FileUtils/Patterns.antt =====
-- The file name pattern of an acquisition: acq_pattern_to_dir undoes what acqname_to_filename_pattern
-- appends to the directory, which may hold a placeholder.
use ch_frb_l.Base.{
  ℕ, suc, ◌+◌, ◌≡◌, refl, ap, ◌∙◌, Bool, true, false, ◌||◌, List, [], ◌∷◌, ◌++◌, Option, none, some,
  if◌then◌else◌, ok, err, Throws, ◌⊎◌, Text, txt, nat_beq, leb, length, length-append, take-append,
  arith, ℤ,
}
use ch_frb_l.FileUtils.System.{FileSystem}
use ch_frb_l.FileUtils.{
  last_slash, rfind_slash, second_slash, first_slash, acq_pattern_to_dir, pattern_tail, same_nocase,
  no_acquisition, acqname_to_filename_pattern, prepare, check_acqdir_base, check_mounts, ssd_base,
  nfs_base,
}

abbrev has_slash : Text → Bool
has_slash [] = false
has_slash (c ∷ t) = nat_beq c b'/' || has_slash t

last_slash-none : (i from : ℕ) (t : Text) → has_slash t ≡ false → last_slash i from t ≡ none
unfolding last_slash
last_slash-none i from [] h = refl
last_slash-none i from (c ∷ t) h = ground (arith, last_slash-none (suc i) from t)

abbrev or_else : Option ℕ → Option ℕ → Option ℕ
or_else (some j) o = some j
or_else none o = o

-- The search goes through the second text first.
last_slash-append :
    (i from : ℕ) (s t : Text)
    → last_slash i from (s ++ t) ≡ or_else (last_slash (i + length s) from t) (last_slash i from s)
unfolding last_slash
last_slash-append i from [] t = let start : i + 0 ≡ i = omega arith in rw start (ground arith)
last_slash-append i from (c ∷ s) t =
    let shift : i + suc (length s) ≡ suc i + length s = omega arith in
    rw shift (ground (arith, last_slash-append (suc i) from s t))

last_slash_head :
    (i from : ℕ) (t : Text)
    → has_slash t ≡ false
    → last_slash i from (b'/' ∷ t) ≡ (if leb i from then some i else none)
unfolding last_slash
last_slash_head i from t h = ground (arith, last_slash-none (suc i) from t h)

abbrev beam_part : Text
beam_part = txt "/beam_(BEAM)"

abbrev chunk_part : Text
chunk_part = txt "/chunk_(CHUNK).msg"

tail_search :
    (n from : ℕ)
    → last_slash n from (beam_part ++ chunk_part)
      ≡ (if leb (n + 12) from then some (n + 12) else if leb n from then some n else none)
tail_search n from =
    last_slash-append n from beam_part chunk_part
    ∙ rw
        (
          last_slash_head (n + 12) from (txt "chunk_(CHUNK).msg") refl,
          last_slash_head n from (txt "beam_(BEAM)") refl,
        )
        (ground arith)

search_from :
    (from : ℕ) (p : Text)
    → rfind_slash from (p ++ (beam_part ++ chunk_part))
      ≡ or_else
          (if leb (length p + 12) from
            then some (length p + 12)
            else if leb (length p) from
            then some (length p)
            else none)
          (last_slash 0 from p)
unfolding rfind_slash
search_from from p =
    let start : 0 + length p ≡ length p = omega arith in
    last_slash-append 0 from p (beam_part ++ chunk_part) ∙ rw (start, tail_search (length p) from)

-- Dropping the last two components of a pattern gives what stands before "/beam_(BEAM)".
pub acq_pattern_to_dir-append :
    (c : ℕ) (p : Text) → acq_pattern_to_dir ((c ∷ p) ++ pattern_tail) ≡ ok (c ∷ p)
unfolding acq_pattern_to_dir
acq_pattern_to_dir-append c p =
    let q : Text = c ∷ p in
    let n = length p in
    let all = length (q ++ pattern_tail) in
    let long : all ≡ length q + 30 = length-append q pattern_tail in
    let first : rfind_slash all (q ++ pattern_tail) ≡ some (suc (n + 12)) =
      search_from all q ∙ ground (arith, long) in
    let second : rfind_slash (n + 12) (q ++ pattern_tail) ≡ some (suc n) =
      search_from (n + 12) q ∙ ground arith in
    rw (first, first_slash) (rw (second, second_slash) (ap ok (take-append q pattern_tail)))

module _ (fs : FileSystem) where
  prepare_pattern :
      (s : fs.State) (r : Throws Unit) (base acqname : Text) (beams : List ℤ) (new_acq : Bool)
      (pattern q : Text)
      → (prepare fs s r base acqname beams new_acq pattern).0 ≡ ok q
      → q ≡ pattern
  unfolding prepare
  prepare_pattern s (err e) base acqname beams new_acq pattern q h = cc
  prepare_pattern s (ok u) base acqname beams new_acq pattern q h = ground arith

  -- When an acquisition is requested and a pattern is returned, dropping its last two components gives
  -- what the code puts before "/beam_(BEAM)": /local/acq_data/ and the name on the device "ssd", and
  -- /frb-archiver-(STREAM)/acq_data/ and the name on "nfs", where (STREAM) is still to be replaced by the
  -- number of the stream; and the device is one of the two.
  acq_pattern_to_dir-acqname_to_filename_pattern :
      (s : fs.State) (devname acqname : Text) (streams beams : List ℤ) (new_acq : Bool)
      (pattern : Text)
      → no_acquisition acqname beams ≡ false
      → (acqname_to_filename_pattern fs s devname acqname streams beams new_acq).0 ≡ ok pattern
      → ((same_nocase devname (txt "ssd") ≡ true)
          × (acq_pattern_to_dir pattern ≡ ok (txt "/local/acq_data/" ++ acqname)))
        ⊎ ((same_nocase devname (txt "nfs") ≡ true)
            × (acq_pattern_to_dir pattern ≡ ok (txt "/frb-archiver-(STREAM)/acq_data/" ++ acqname)))
  unfolding acqname_to_filename_pattern
  acq_pattern_to_dir-acqname_to_filename_pattern s dev acqname streams beams new_acq pattern h e =
      ground (
        arith,
        prepare_pattern s (check_acqdir_base fs s ssd_base) ssd_base acqname beams new_acq
            (txt "/local/acq_data/" ++ acqname ++ pattern_tail) pattern,
        prepare_pattern s (check_mounts fs s streams) nfs_base acqname beams new_acq
            (txt "/frb-archiver-(STREAM)/acq_data/" ++ acqname ++ pattern_tail) pattern,
        acq_pattern_to_dir-append b'/' (txt "local/acq_data/" ++ acqname),
        acq_pattern_to_dir-append b'/' (txt "frb-archiver-(STREAM)/acq_data/" ++ acqname),
      )
