-- ===== src/Dedispersion.antt =====
-- The dedispersion threads (ch-frb-l1.cpp, dedispersion_thread_context). Here are the mask counters of
-- the RFI chain (_init_mask_counters). The chain is the list of its stages in the order of
-- rf_pipelines::visit_pipeline(), which is a parameter; of a stage only the name of its class is used,
-- and of a mask counter its place and the ring buffer that it has when its attributes are set.
pub mod Masks
pub mod Filled
pub mod Threads
use ch_frb_l.Base.{
  ℕ, zero, suc, ◌+◌, Bool, true, false, ◌&&◌, ◌||◌, List, [], ◌∷◌, ◌++◌, Option, none, some,
  if◌then◌else◌, ok, err, Throws, runtime_error, ◌>>=◌, ◌>>◌, throw_if, msg, txt, Text, ltb,
  nat_beq, length, ℤ, is_pos, begins,
}
use ch_frb_l.MaskStats.{MaskStats, put}

-- The attributes that are set on a counter; the stream is an index.
pub record RuntimeAttrs : Type 0 where
  pub ringbuf_nhistory : ℤ
  pub chime_beam_id : ℤ
  pub chime_stream : Option ℕ

pub record MaskCounter (Ring : Type 0) : Type 0 where
  pub place : Text
  pub ringbuf : RuntimeAttrs → Option Ring

-- `mask_counter` is the result of the dynamic cast.
pub record Stage (Ring : Type 0) : Type 0 where
  pub class_name : Text
  pub mask_counter : Option (MaskCounter Ring)

-- What the visit has found so far.
pub record Found (Ring : Type 0) : Type 0 where
  pub mask_counters : List (MaskCounter Ring)
  pub clippers_after_mask_counters : Bool

-- The second text holds the first one.
unfoldable pub holds_text : Text → Text → Bool
unfolding begins
holds_text s [] = begins s []
holds_text s (d ∷ t) = begins s (d ∷ t) || holds_text s t

module _ {Ring : Type 0} where
  unfoldable pub is_clipper : Stage Ring → Bool
  unfolding holds_text
  is_clipper p = holds_text (txt "clipper") p.class_name

  unfoldable pub find_mask_counters : Stage Ring → Found Ring → Found Ring
  find_mask_counters p f =
      if is_clipper p
      then record f {
        clippers_after_mask_counters =
            f.clippers_after_mask_counters || ltb 0 (length f.mask_counters);
      }
      else elim p.mask_counter [
        | none ↦ f
        | some counter ↦ record {
          mask_counters = f.mask_counters ++ counter ∷ [];
          clippers_after_mask_counters = false;
        }
      ]

  -- visit_pipeline() with find_mask_counters.
  unfoldable pub visit : List (Stage Ring) → Found Ring → Found Ring
  visit [] f = f
  visit (p ∷ stages) f = visit stages (find_mask_counters p f)

-- What a thread passes to the counters.
pub record MaskSettings : Type 0 where
  pub nrfifreq : ℤ
  pub rfi_mask_meas_history : ℤ
  pub beam_id : ℤ
  pub sp : ℕ

-- The attributes of the counter with the index `i` among `n`.
unfoldable pub attrs_of : MaskSettings → ℕ → ℕ → RuntimeAttrs
attrs_of c n i = record {
  ringbuf_nhistory = c.rfi_mask_meas_history;
  chime_beam_id = c.beam_id;
  chime_stream = if is_pos c.nrfifreq && nat_beq (i + 1) n then some c.sp else none;
}

module _ {Ring : Type 0} where
  -- The loop over the counters from the index `i` on. The attributes that are set, in order.
  unfoldable pub set_up :
      MaskSettings
      → ℕ
      → ℕ
      → List (MaskCounter Ring)
      → MaskStats Ring
      → Throws (List RuntimeAttrs × MaskStats Ring)
  set_up c n i [] ms_map = ok ([], ms_map)
  set_up c n i (counter ∷ counters) ms_map = do
    with_ring ← put c.beam_id counter.place (counter.ringbuf (attrs_of c n i)) ms_map
    (rest, after) ← set_up c n (suc i) counters with_ring
    ok (attrs_of c n i ∷ rest, after)

  unfoldable pub init_mask_counters :
      MaskSettings
      → List (Stage Ring)
      → MaskStats Ring
      → Throws (List RuntimeAttrs × MaskStats Ring)
  init_mask_counters c stages ms_map = do
    let found = visit stages (record { mask_counters = []; clippers_after_mask_counters = false })
    throw_if (is_pos c.nrfifreq && nat_beq (length found.mask_counters) 0) (
        runtime_error
          (msg "ch-frb-l1: RFI masks requested, but no mask_counters in the RFI config JSON file"))
    throw_if (is_pos c.nrfifreq && found.clippers_after_mask_counters) (
        runtime_error (
          msg
            "ch-frb-l1: RFI masks requested, and clippers occur after the last mask_counter in the RFI config JSON file"))
    set_up c (length found.mask_counters) 0 found.mask_counters ms_map
