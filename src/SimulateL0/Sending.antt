-- ===== src/SimulateL0/Sending.antt =====
-- What l0_params sends on a stream: the time stamps (FPGA counts, as 64-bit words) of the chunks of
-- send_noise and of send_chunks, in order. The intensities and weights are not modelled; the number
-- of noise chunks, which the source computes in floating point, is an argument.
pub mod Stamps
use ch_frb_l.Base.{
  ℕ, zero, suc, ◌+◌, ◌*◌, ◌/◌, ◌%◌, ◌^◌, Bool, List, [], ◌∷◌, ◌++◌, map, Option, none, some, ok,
  err, Throws, assert, ◌>>=◌, ◌>>◌,
}
use ch_frb_l.Util.{counted, int_result}
use ch_frb_l.L1Server.Vectors.{for_each}

-- The parameters of an open output stream.
pub record Ostream : Type 0 where
  pub nt_per_chunk : ℕ
  pub fpga_counts_per_sample : ℕ
  pub fpga_counts_per_chunk : ℕ
  pub target_is_positive : Bool

-- The parameters of an assembled chunk.
pub record Chunk : Type 0 where
  pub nt_coarse : ℕ
  pub nt_per_packet : ℕ
  pub fpga_begin : ℕ

-- The stamp of the noise chunk `ichunk`; the first product is one of two `int`.
unfoldable pub noise_count : Ostream → ℕ → ℕ → Throws ℕ
noise_count o initial_time_index ichunk = do
  skipped ← int_result (ichunk * o.nt_per_chunk)
  let sample_index = (skipped + initial_time_index) % 2 ^ 64
  ok (sample_index * o.fpga_counts_per_sample % 2 ^ 64)

unfoldable pub send_noise : Ostream → ℕ → ℕ → Throws (List ℕ)
send_noise o initial_time_index nchunks = do
  assert o.target_is_positive
  for_each (noise_count o initial_time_index) (counted 0 nchunks)

-- A piece of a chunk: the first time sample that is decoded, and the stamp that is sent.
pub record Piece : Type 0 where
  pub first_sample : ℕ
  pub fpga_count : ℕ

unfoldable pub piece : Ostream → Chunk → ℕ → Piece
piece o c i = record {
  first_sample = i * o.nt_per_chunk;
  fpga_count = (c.fpga_begin + i * o.nt_per_chunk * o.fpga_counts_per_chunk) % 2 ^ 64;
}

-- The pieces of one chunk, as long as an output chunk each.
unfoldable pub pieces : Ostream → Chunk → List Piece
pieces o c = map (piece o c) (counted 0 (c.nt_coarse * c.nt_per_packet / o.nt_per_chunk))

all_pieces : Ostream → List Chunk → List Piece
all_pieces o [] = []
all_pieces o (c ∷ chunks) = pieces o c ++ all_pieces o chunks

unfoldable pub send_chunks : Ostream → List Chunk → Throws (List Piece)
unfolding all_pieces
send_chunks o chunks = do assert o.target_is_positive; ok (all_pieces o chunks)

-- The reads of send_chunk_files: the first file that cannot be read ends them.
read_chunks : List (Option Chunk) → Option (List Chunk)
read_chunks [] = some []
read_chunks (none ∷ files) = none
read_chunks (some c ∷ files) = elim (read_chunks files) [
  | none ↦ none
  | some chunks ↦ some (c ∷ chunks)
]

-- Each file is given as what reading it gives; nothing is sent if one cannot be read.
unfoldable pub send_chunk_files : Ostream → List (Option Chunk) → Throws (List Piece)
unfolding read_chunks
send_chunk_files o files = elim (read_chunks files) [
  | none ↦ ok []
  | some chunks ↦ send_chunks o chunks
]
