-- ===== src/Rpc/Data.antt =====
-- The data that the parts of the RPC server share.
use ch_frb_l.Base.{ℕ, Bool, Option, Text, ℤ}

-- What the server reads of an assembled_chunk.
pub record Chunk : Type 0 where
  pub beam_id : ℕ
  pub fpga_begin : ℕ
  pub fpga_end : ℕ
  pub ichunk : ℕ

-- WriteChunks_Reply
pub record WriteReply : Type 0 where
  pub beam : ℕ
  pub fpga0 : ℕ
  pub fpga_n : ℕ
  pub filename : Text
  pub success : Bool
  pub error_message : Text

-- l1_backend_queue::entry; a null `client` pointer is `none`.
pub record Entry : Type 0 where
  pub client : Option Text
  pub token : ℕ
  pub reply : WriteReply

-- l1_write_request, with the fields of its base class. The pointers to the backend queue and to the
-- status map are those of the server, and never null.
pub record WriteRequest : Type 0 where
  pub chunk : Chunk
  pub filename : Text
  pub priority : ℤ
  pub need_rfi_mask : Bool
  pub client : Option Text
  pub token : ℕ

-- The arguments of a status_changed() call, made by an I/O thread.
pub record StatusChange : Type 0 where
  pub finished : Bool
  pub success : Bool
  pub state : Text
  pub error_message : Text
