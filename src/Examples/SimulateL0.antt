-- ===== src/Examples/SimulateL0.antt =====
-- simulate-l0 with two streams of two threads and two beams each.
use ch_frb_l.Base.{
  zero, suc, ◌/◌, leb, false, Bool-cases, inl, inr, err, undefined, ◌^◌, ℕ, ◌+◌, ◌*◌, ◌<◌, ◌≤◌, ◌≡◌,
  ◌↔◌, refl, true, List, [], ◌∷◌, txt, pos, ok, some, none, get_elem?, length, ◌⊎◌, arith,
}
use native.Mathlib.Nat.{pow-suc, mul-add, le-mul_of_pos_right, mul_comm}
use ch_frb_l.Util.{is_power_of_two, xdiv, round_down_to_power_of_two}
use ch_frb_l.FrbIo.{FrbIo, FrbIoLaws}
use ch_frb_l.SimulateL0.{
  to_u64, RawParams, L0Params, derive, choose_packets, set_packets, final_asserts,
}
use ch_frb_l.SimulateL0.Packets.{choose_packets-asserts}
use ch_frb_l.SimulateL0.Streams.{Holds, owner, streams_partition}
use ch_frb_l.SimulateL0.Sending.{Ostream, Chunk, send_noise, piece}
use ch_frb_l.SimulateL0.Program.{Running, spawned, Step, send, join, end_stream, Reach, here, next}
use ch_frb_l.SimulateL0.Program.Order.{work, ended-sent}
use ch_frb_l.SimulateL0.Sending.Stamps.{
  send_noise-stamps, send_noise-overflows_iff, piece_stamp_iff,
}

-- The packet format that ch_frb_io documents: a header, and a body linear in the coarse frequencies.
-- A logarithm by halving.
abbrev pub log2_fuel : ℕ → ℕ → ℕ
log2_fuel zero x = 0
log2_fuel (suc f) x = elim (leb 2 x) [ true ↦ suc (log2_fuel f (x / 2)) | false ↦ 0 ]

log2_fuel-bounds : (f x : ℕ) → 1 ≤ x → x ≤ f → (2 ^ log2_fuel f x ≤ x) × (x < 2 * 2 ^ log2_fuel f x)
log2_fuel-bounds zero x h k = absurd (omega arith)
log2_fuel-bounds (suc f) x h k = elim (Bool-cases (leb 2 x)) [
  | inl e ↦
      let ih = log2_fuel-bounds f (x / 2) (ground arith) (ground arith) in
      rw (e, log2_fuel) (omega (arith, pow-suc 2 (log2_fuel f (x / 2)), ih.0, ih.1))
  | inr e ↦ rw (e, log2_fuel) (ground arith)
]

abbrev io : FrbIo
io = record {
  nfreq_coarse_tot = 1024;
  nt_per_assembled_chunk = 1024;
  packet_size = λ nb nf nu nt. 24 + 2 * nb + nf * (2 + 8 * nb + nb * nu * nt);
  floor_log2 = λ x. log2_fuel x x;
}

shared_header : (a b m : ℕ) → 0 < m → a + m * b ≤ m * (a + 1 * b)
shared_header a b m h =
    let one : 1 * b ≡ b = omega arith in
    rw (one, mul-add m a b) (omega (arith, le-mul_of_pos_right {m = m} a h, mul_comm a m))

io_laws : FrbIoLaws io
io_laws = record {
  nfreq_power = (10, refl);
  packet_positive = λ nb nf nu nt. omega arith;
  packet_shared = λ nb m nu nt h. shared_header (24 + 2 * nb) (2 + 8 * nb + nb * nu * nt) m h;
  log2_floor = λ x h l. log2_fuel-bounds x x h (omega arith);
}

abbrev raw : RawParams
raw = record {
  nbeams_tot = pos 4;
  nthreads_tot = pos 4;
  nfreq_fine = pos 16384;
  nt_per_packet = pos 16;
  fpga_counts_per_sample = pos 384;
  max_packet_size = pos 9000;
  initial_time_index = pos 0;
  ipaddr = txt "10.0.0.1" ∷ txt "10.0.0.2" ∷ [];
  port = pos 6677 ∷ pos 6677 ∷ [];
}

abbrev params : L0Params
params = record {
  nbeams_tot = 4;
  nthreads_tot = 4;
  nfreq_fine = 16384;
  nt_per_packet = 16;
  fpga_counts_per_sample = 384;
  max_packet_size = 9000;
  initial_time_index = 0;
  ipaddr = txt "10.0.0.1" ∷ txt "10.0.0.2" ∷ [];
  port = 6677 ∷ 6677 ∷ [];
  nstreams = 2;
  nfreq_coarse_per_packet = 0;
  nupfreq = 16;
  nbeams_per_stream = 2;
  nthreads_per_stream = 2;
  nfreq_coarse_per_thread = 512;
  packet_size = 0;
}

derived : derive io (txt "l0.yaml") raw ≡ ok params
unfolding derive is_power_of_two xdiv to_u64
derived = refl

streams_partition_example :
    (owner params 3 700 < params.nthreads_tot) × (Holds params 3 3 700 ↔ (3 ≡ owner params 3 700))
streams_partition_example =
    streams_partition io (txt "l0.yaml") raw params 3 700 3 derived (omega arith) (omega arith)
      (omega arith)

chosen : choose_packets io (txt "l0.yaml") params none ≡ ok 16
unfolding choose_packets round_down_to_power_of_two
chosen = refl

choose_packets-asserts_example : final_asserts (set_packets io params 16) ≡ ok tt
choose_packets-asserts_example =
    choose_packets-asserts io io_laws (txt "l0.yaml") raw none params 16 derived chosen

abbrev ostream : Ostream
ostream = record {
  nt_per_chunk = 16;
  fpga_counts_per_sample = 384;
  fpga_counts_per_chunk = 6144;
  target_is_positive = true;
}

send_noise-stamps_example :
    (stamps : List ℕ) × (send_noise ostream 1000 3 ≡ ok stamps)
    × (get_elem? stamps 2
        ≡ some ((1000 + 2 * ostream.nt_per_chunk) * ostream.fpga_counts_per_sample))
send_noise-stamps_example =
    send_noise-stamps ostream 1000 2 2 refl (omega arith) (omega arith) (omega arith) (omega arith)

-- A month of samples.
send_noise-overflows_iff_example :
    (send_noise ostream 1000 150000000 ≡ err undefined)
    ↔ (2 ^ 31 ≤ 149999999 * ostream.nt_per_chunk)
send_noise-overflows_iff_example = send_noise-overflows_iff ostream 1000 149999999 refl

abbrev chunk : Chunk
chunk = record { nt_coarse = 64; nt_per_packet = 16; fpga_begin = 393216 }

abbrev third : ℕ
third = 3

piece_stamp_iff_example :
    ((piece ostream chunk third).fpga_count
      ≡ chunk.fpga_begin
        + (piece ostream chunk third).first_sample * ostream.fpga_counts_per_sample)
    ↔ (third ≡ 0)
piece_stamp_iff_example =
    piece_stamp_iff ostream chunk third refl (omega arith) (omega arith) (omega arith)

-- Two threads that have sent everything, and a stream that has been ended.
abbrev sends : List (List ℕ)
sends = (5 ∷ 6 ∷ []) ∷ (7 ∷ []) ∷ []

abbrev halfway : Running
halfway = record { sent = sends; pending = [] ∷ [] ∷ []; joined = 2; ended = 1 }

way : Reach (spawned sends) halfway
way =
    next
      (next
        (next
          (next (next (next here (send _ 0 5 (6 ∷ []) refl)) (send _ 1 7 [] refl))
            (send _ 0 6 [] refl))
          (join _ refl))
        (join _ refl))
      (end_stream _ refl (omega arith))

ended-sent_example :
    (0 < halfway.ended → halfway.sent ≡ sends)
    × ((halfway.ended ≡ length halfway.pending) ⊎ ((t : Running) × Step halfway t))
    × ((t : Running) → Step halfway t → work t < work halfway)
ended-sent_example = ended-sent sends halfway way
