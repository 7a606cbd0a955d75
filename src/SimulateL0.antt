-- ===== src/SimulateL0.antt =====
-- simulate-l0.cpp: the parameters of a simulated L0 system, its output streams, and what it sends.
-- Random data, the contents of chunks and the console output are not modelled, and `gbps` (a double
-- that is only passed on) is left out of the parameters.
pub mod Constructor
pub mod Packets
pub mod Streams
pub mod Sending
pub mod Program
use ch_frb_l.Base.{
  ℕ, zero, suc, ◌+◌, ◌-◌, ◌*◌, ◌/◌, ◌%◌, ◌^◌, ◌≡◌, Bool, true, false, not, ◌&&◌, ◌||◌, List, [],
  ◌∷◌, ◌++◌, map, Option, none, some, if◌then◌else◌, Result, ok, err, Throws, Failure,
  runtime_error, assert, ◌>>=◌, ◌>>◌, throw_if, msg, txt, Text, ltb, leb, nat_beq, length, get_or,
  replicate, ℤ, pos, negsuc, pos_part, is_pos, to_string, int_to_string, min,
}
use ch_frb_l.FrbIo.{FrbIo}
use ch_frb_l.Util.{xdiv, is_power_of_two, round_down_to_power_of_two, vrange}

-- What the constructor reads before its checks.
pub record RawParams : Type 0 where
  pub nbeams_tot : ℤ
  pub nthreads_tot : ℤ
  pub nfreq_fine : ℤ
  pub nt_per_packet : ℤ
  pub fpga_counts_per_sample : ℤ
  pub max_packet_size : ℤ
  pub initial_time_index : ℤ
  pub ipaddr : List Text
  pub port : List ℤ

-- The object after the checks, its counts as natural numbers.
pub record L0Params : Type 0 where
  pub nbeams_tot : ℕ
  pub nthreads_tot : ℕ
  pub nfreq_fine : ℕ
  pub nt_per_packet : ℕ
  pub fpga_counts_per_sample : ℕ
  pub max_packet_size : ℕ
  pub initial_time_index : ℕ
  pub ipaddr : List Text
  pub port : List ℕ
  pub nstreams : ℕ
  pub nfreq_coarse_per_packet : ℕ
  pub nupfreq : ℕ
  pub nbeams_per_stream : ℕ
  pub nthreads_per_stream : ℕ
  pub nfreq_coarse_per_thread : ℕ
  pub packet_size : ℕ

-- The conversion of an `int` to a uint64_t.
unfoldable pub to_u64 : ℤ → ℕ
to_u64 (pos n) = n
to_u64 (negsuc n) = 2 ^ 64 - suc n

-- A list of length 1 is repeated to the length of the other one.
unfoldable pub spread : {A B : Type 0} → List A → List B → List A
spread (x ∷ []) (y ∷ z ∷ ys) = replicate (length (y ∷ z ∷ ys)) x
spread xs ys = xs

all_ports : List ℤ → Bool
all_ports [] = true
all_ports (p ∷ ports) = is_pos p && (ltb (pos_part p) 65536 && all_ports ports)

-- The tests on what was read, and the derived parameters; `name` is the file's name. The fields that
-- depend on the packets are still 0.
unfoldable pub derive : FrbIo → Text → RawParams → Throws L0Params
unfolding all_ports
derive io name r = do
  let nstreams = length r.ipaddr
  let nbeams = pos_part r.nbeams_tot
  let nthreads = pos_part r.nthreads_tot
  let nfreq = pos_part r.nfreq_fine
  let nt = pos_part r.nt_per_packet
  throw_if (not (nat_beq nstreams (length r.port)))
      (runtime_error (name ++ msg " expected 'ip_addr' and 'port' to be lists of equal length"))
  assert (ltb 0 nstreams)
  assert (is_pos r.nthreads_tot && (leb nthreads 32 && is_pos r.nbeams_tot))
  assert (is_pos r.nfreq_fine && (is_pos r.fpga_counts_per_sample && is_pos r.max_packet_size))
  assert (all_ports r.port)
  throw_if (not (is_pos r.nt_per_packet))
      (runtime_error (name ++ msg ": nt_per_packet must be a power of two"))
  nt_power ← is_power_of_two nt
  throw_if (not nt_power) (runtime_error (name ++ msg ": nt_per_packet must be a power of two"))
  throw_if (not (nat_beq (nbeams % nstreams) 0))
      (runtime_error (name ++ msg ": nbeams must be a multiple of nstreams"))
  throw_if (not (nat_beq (nthreads % nstreams) 0))
      (runtime_error (name ++ msg ": nthreads must be a multiple of nstreams"))
  nthreads_per_stream ← xdiv nthreads nstreams
  threads_power ← is_power_of_two nthreads_per_stream
  throw_if (not threads_power)
      (runtime_error (name ++ msg ": nthreads must be a power of two times nstreams"))
  throw_if (not (nat_beq (nfreq % io.nfreq_coarse_tot) 0))
      (runtime_error (name ++ msg ": nfreq must be a multiple of nfreq_coarse"))
  nbeams_per_stream ← xdiv nbeams nstreams
  nfreq_coarse_per_thread ← xdiv io.nfreq_coarse_tot nthreads_per_stream
  nupfreq ← xdiv nfreq io.nfreq_coarse_tot
  ok (record {
    nbeams_tot = nbeams;
    nthreads_tot = nthreads;
    nfreq_fine = nfreq;
    nt_per_packet = nt;
    fpga_counts_per_sample = pos_part r.fpga_counts_per_sample;
    max_packet_size = pos_part r.max_packet_size;
    initial_time_index = to_u64 r.initial_time_index;
    ipaddr = r.ipaddr;
    port = map pos_part r.port;
    nstreams = nstreams;
    nfreq_coarse_per_packet = 0;
    nupfreq = nupfreq;
    nbeams_per_stream = nbeams_per_stream;
    nthreads_per_stream = nthreads_per_stream;
    nfreq_coarse_per_thread = nfreq_coarse_per_thread;
    packet_size = 0;
  })

-- The size of a packet with `n` coarse frequencies.
abbrev pub size_of : FrbIo → L0Params → ℕ → ℕ
size_of io l n = io.packet_size l.nbeams_per_stream n l.nupfreq l.nt_per_packet

-- A value of nfreq_coarse_per_packet from the file.
check_given : FrbIo → Text → L0Params → ℤ → Throws ℕ
check_given io name l n = do
  throw_if (not (is_pos n && nat_beq (l.nfreq_coarse_per_thread % pos_part n) 0)) (
      runtime_error (
        name
        ++ msg ": nfreq_coarse_per_packet must be > 0 and evenly divide nfreq_coarse_per_thread"))
  throw_if (ltb l.max_packet_size (size_of io l (pos_part n)))
      (runtime_error (name ++ msg ": computed packet size exceeds max_packet_size"))
  ok (pos_part n)

-- The default: as many coarse frequencies as fit, rounded down to a power of two.
choose_default : FrbIo → Text → L0Params → Throws ℕ
choose_default io name l = do
  let p0 = size_of io l 1
  throw_if (ltb l.max_packet_size p0) (
      runtime_error (
        name
        ++ msg
            ": couldn't assign nfreq_coarse_per_packet: max_packet_size is exceeded for nfreq_coarse_per_packet=1!"))
  n ← round_down_to_power_of_two io.floor_log2 (l.max_packet_size / p0)
  ok (min n l.nfreq_coarse_per_thread)

-- nfreq_coarse_per_packet, with the file's value if it has one.
unfoldable pub choose_packets : FrbIo → Text → L0Params → Option ℤ → Throws ℕ
unfolding check_given choose_default
choose_packets io name l none = choose_default io name l
choose_packets io name l (some n) = check_given io name l n

unfoldable pub set_packets : FrbIo → L0Params → ℕ → L0Params
set_packets io l n = record l { nfreq_coarse_per_packet = n; packet_size = size_of io l n }

-- The assertions after the last check.
unfoldable pub final_asserts : L0Params → Throws Unit
final_asserts l = do
  assert (ltb 0 l.nfreq_coarse_per_packet)
  assert (nat_beq (l.nfreq_coarse_per_thread % l.nfreq_coarse_per_packet) 0)
  assert (ltb 0 l.nt_per_packet)
  nt_power ← is_power_of_two l.nt_per_packet
  assert nt_power
  assert (leb l.packet_size l.max_packet_size)

-- The initializer of an output stream: its destination, beams, coarse frequencies, and whether it
-- sends the end-of-stream packets. The other fields are copied from the parameters and are left out.
pub record Initializer : Type 0 where
  pub dst_ipaddr : Text
  pub dst_port : ℕ
  pub beam_ids : List ℕ
  pub coarse_freq_ids : List ℕ
  pub nfreq_coarse_per_packet : ℕ
  pub send_end_of_stream_packets : Bool

unfoldable pub make_ostream : L0Params → ℕ → Throws Initializer
make_ostream l ithread = do
  assert (ltb ithread l.nthreads_tot)
  let istream = ithread / l.nthreads_per_stream
  let jthread = ithread % l.nthreads_per_stream
  beams ← vrange (istream * l.nbeams_per_stream) ((istream + 1) * l.nbeams_per_stream)
  freqs ← vrange (jthread * l.nfreq_coarse_per_thread) ((jthread + 1) * l.nfreq_coarse_per_thread)
  ok (record {
    dst_ipaddr = get_or l.ipaddr istream [];
    dst_port = get_or l.port istream 0;
    beam_ids = beams;
    coarse_freq_ids = freqs;
    nfreq_coarse_per_packet = l.nfreq_coarse_per_packet;
    send_end_of_stream_packets = nat_beq jthread (l.nthreads_per_stream - 1);
  })

-- The loop of the constructor over the threads.
unfoldable pub make_streams : L0Params → List ℕ → Throws (List Initializer)
make_streams l [] = ok []
make_streams l (t ∷ threads) = do o ← make_ostream l t; rest ← make_streams l threads; ok (o ∷ rest)
