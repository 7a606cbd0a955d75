-- ===== src/Rpc/Requests.antt =====
-- The parts of a request, taken out of its objects as _handle_request does it, and the beams of a
-- "stream" request.
use ch_frb_l.Base.{
  ℕ, Bool, true, false, List, [], ◌∷◌, if◌then◌else◌, ok, err, Throws, undefined, Text, int_eq,
  contains, ℤ, nat_beq, length, ◌>>=◌,
}
use ch_frb_l.Rpc.Object.{
  Object, as_text, as_bool, as_int, as_uint, as_double, is_number, as_ints, as_texts, via_array,
  as_array,
}

-- The fields of a WriteChunks_Request that are read, and `need_rfi` of the second version.
pub record WriteChunks : Type 0 where
  pub beams : List ℤ
  pub min_fpga : ℕ
  pub max_fpga : ℕ
  pub filename_pattern : Text
  pub priority : ℤ
  pub need_rfi : Bool

-- The arguments of "stream".
pub record StreamRequest : Type 0 where
  pub acq_name : Text
  pub acq_dev : Text
  pub acq_meta : Text
  pub acq_new : Bool
  pub beams : List ℤ

-- The beams of the request that this server handles, in the order of the request.
unfoldable pub owned_beams : List ℤ → List ℤ → List ℤ
owned_beams mine [] = []
owned_beams mine (b ∷ beams) =
    if contains b mine then b ∷ owned_beams mine beams else owned_beams mine beams

-- All beams when none was asked for: the beams asked for count, not those found.
unfoldable pub stream_beams : List ℤ → List ℤ → List ℤ
unfolding owned_beams
stream_beams mine beams = if nat_beq (length beams) 0 then mine else owned_beams mine beams

module _ {D : Type 0} where
  -- Rpc_Request: the function's name and a token of 32 bits. A conversion leaves the fields of a shorter
  -- array as they are, here without a value.
  header_of : List (Object D) → Throws (Text × ℕ)
  header_of [] = err undefined
  header_of (_ ∷ []) = err undefined
  header_of (f ∷ (t ∷ more)) = do name ← as_text f; token ← as_uint 32 t; ok (name, token)

  unfoldable pub rpc_header : Object D → Throws (Text × ℕ)
  unfolding header_of
  rpc_header o = do os ← as_array o; header_of os

  -- The nine fields; the four numbers about sweeps are converted and not used.
  chunks_request : Bool → List (Object D) → Throws WriteChunks
  chunks_request rfi
        (b ∷ (lo ∷ (hi ∷ (dm ∷ (dm_error ∷ (width ∷ (bin ∷ (pattern ∷ (p ∷ more))))))))) =
      do
        bs ← as_array b
        beams ← as_ints bs
        min_fpga ← as_uint 64 lo
        max_fpga ← as_uint 64 hi
        _ ← is_number dm
        _ ← is_number dm_error
        _ ← is_number width
        _ ← as_int bin
        filename_pattern ← as_text pattern
        priority ← as_int p
        ok (record {
          beams = beams;
          min_fpga = min_fpga;
          max_fpga = max_fpga;
          filename_pattern = filename_pattern;
          priority = priority;
          need_rfi = rfi;
        })
  chunks_request rfi _ = err undefined

  -- The tenth field of the second version.
  rfi_flag : List (Object D) → Throws Bool
  rfi_flag (a ∷ (b ∷ (c ∷ (d ∷ (e ∷ (f ∷ (g ∷ (h ∷ (i ∷ (flag ∷ more)))))))))) = as_bool flag
  rfi_flag _ = err undefined

  -- Of any other length the request is left without values, and is used all the same.
  unfoldable pub write_chunks_request : Object D → Throws WriteChunks
  unfolding chunks_request rfi_flag
  write_chunks_request o = do
    os ← via_array o
    if nat_beq (length os) 9
        then chunks_request false os
        else (if nat_beq (length os) 10
            then (do
              w ← chunks_request true os
              rfi ← rfi_flag os
              ok (record w { need_rfi = rfi }))
            else err undefined)

  -- Five arguments; `oh.get().via.array.size` has been tested.
  unfoldable pub stream_request : List (Object D) → Throws StreamRequest
  stream_request (name ∷ (dev ∷ (meta ∷ (ids ∷ (new ∷ []))))) = do
    acq_name ← as_text name
    acq_dev ← as_text dev
    acq_meta ← as_text meta
    acq_new ← as_bool new
    os ← via_array ids
    beams ← as_ints os
    ok (record {
      acq_name = acq_name;
      acq_dev = acq_dev;
      acq_meta = acq_meta;
      acq_new = acq_new;
      beams = beams;
    })
  stream_request _ = err undefined

  -- "get_packet_rate": `start` and `period`.
  unfoldable pub rate_request : (ℤ → D) → List (Object D) → Throws (D × D)
  rate_request of_int (s ∷ (p ∷ [])) = do
    start ← as_double of_int s
    period ← as_double of_int p
    ok (start, period)
  rate_request of_int _ = err undefined

  -- "get_packet_rate_history": `start`, `end`, `period` and the L0 nodes.
  unfoldable pub history_request : (ℤ → D) → List (Object D) → Throws (D × D × D × List Text)
  history_request of_int (s ∷ (e ∷ (p ∷ (nodes ∷ [])))) = do
    start ← as_double of_int s
    end_time ← as_double of_int e
    period ← as_double of_int p
    os ← as_array nodes
    l0 ← as_texts os
    ok (start, end_time, period, l0)
  history_request of_int _ = err undefined
