-- ===== src/MaskStats.antt =====
-- mask_stats_map (mask_stats.hpp, mask_stats.cpp): the ring buffers of mask measurements by beam and place in
-- the pipeline. A ring buffer is an element of a type of which nothing is known.
use ch_frb_l.Base.{
  ℕ, suc, ◌≡◌, refl, List, Option, none, some, if◌then◌else◌, Throws, ok, throws, msg, Text, ℤ,
  int_eq, text_eq, pair_eq, ◌==◌, length, lookup, insert, lookup-insert, length-insert,
}

pub record MaskStats (Ring : Type 0) : Type 0 where
  pub entries : List ((ℤ × Text) × Ring)

module _ {Ring : Type 0} where
  unfoldable pub size : MaskStats Ring → ℕ
  size m = length m.entries

  -- A null pointer is `none`. The lock is held from the test to the end.
  unfoldable pub put : ℤ → Text → Option Ring → MaskStats Ring → Throws (MaskStats Ring)
  put beam_id stage none m =
      throws (msg "ch-frb-l1::mask_stats_map::put(): empty 'ringbuf' pointer")
  put beam_id stage (some ring) m = ok (record { entries = insert (beam_id, stage) ring m.entries })

  -- A ring buffer that is put is the one found for its beam and place, and no other entry changes; the
  -- map grows by one if and only if the pair is new.
  put_lem :
      (beam_id : ℤ) (stage : Text) (ring : Ring) (m : MaskStats Ring)
      → (m' : MaskStats Ring) × (put beam_id stage (some ring) m ≡ ok m')
        × ((key : ℤ × Text)
            → lookup key m'.entries
              ≡ (if (beam_id, stage) == key then some ring else lookup key m.entries))
        × (size m' ≡ elim (lookup (beam_id, stage) m.entries) as (λ _. ℕ) [
          | none ↦ suc (size m)
          | some _ ↦ size m
        ])
  unfolding put size
  put_lem beam_id stage ring m = (
    record { entries = insert (beam_id, stage) ring m.entries },
    refl,
    λ key. lookup-insert (beam_id, stage) key ring m.entries,
    length-insert (beam_id, stage) ring m.entries,
  )
