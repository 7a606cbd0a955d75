-- ===== src/Rpc/Handler/Beams.antt =====
-- The beams that a "stream" request turns on.
use ch_frb_l.Base.{
  ◌≡◌, ◌&&◌, ◌||◌, List, [], ◌∷◌, ℤ, int_eq, int_beq_iff, contains, nat_beq, length, arith,
}
use ch_frb_l.Rpc.Requests.{owned_beams, stream_beams}

contains-owned_beams :
    (mine beams : List ℤ) (b : ℤ)
    → contains b (owned_beams mine beams) ≡ (contains b mine && contains b beams)
unfolding owned_beams contains
contains-owned_beams mine [] b = ground arith
contains-owned_beams mine (a ∷ beams) b =
    ground (arith, contains-owned_beams mine beams b, int_beq_iff a b)

-- The stream is written for a beam if and only if this server handles it and it was asked for; a request
-- without beams asks for all.
pub stream_beams_iff :
    (mine beams : List ℤ) (b : ℤ)
    → contains b (stream_beams mine beams)
      ≡ (contains b mine && (nat_beq (length beams) 0 || contains b beams))
unfolding stream_beams
stream_beams_iff mine [] b = ground arith
stream_beams_iff mine (a ∷ beams) b = ground (arith, contains-owned_beams mine (a ∷ beams) b)
