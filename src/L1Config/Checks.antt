-- ===== src/L1Config/Checks.antt =====
-- The checks on the parameters, in the order of the source. `name` is the file's name.
pub mod Sane
use ch_frb_l.Base.{
  ℕ, suc, ◌*◌, ◌%◌, Bool, true, false, not, ◌&&◌, ◌||◌, List, [], ◌∷◌, ◌++◌, Option, none, some,
  if◌then◌else◌, ok, err, Throws, runtime_error, ◌>>=◌, ◌>>◌, throw_if, msg, Text, ltb, leb,
  nat_beq, length, get_or, replicate, ℤ, pos, negsuc, pos_part, is_pos, is_neg, int_beq, to_string,
}
use ch_frb_l.FrbIo.{FrbIo}
use ch_frb_l.L1Config.{BonsaiConfig, Doubles, Settings}

int_ltb : ℤ → ℤ → Bool
int_ltb (pos a) (pos b) = ltb a b
int_ltb (pos a) (negsuc b) = false
int_ltb (negsuc a) (pos b) = true
int_ltb (negsuc a) (negsuc b) = ltb b a

-- If one of the lists has length 1, it is repeated to the length of the other.
unfoldable pub spread_streams : List Text → List ℤ → List Text × List ℤ
spread_streams ipaddr port =
    if nat_beq (length ipaddr) 1 && ltb 1 (length port)
    then (replicate (length port) (get_or ipaddr 0 []), port)
    else if ltb 1 (length ipaddr) && nat_beq (length port) 1
    then (ipaddr, replicate (length ipaddr) (get_or port 0 (pos 0)))
    else (ipaddr, port)

-- nfreq differs from the one of the bonsai file; without -t there is one.
nfreq_mismatch : Option BonsaiConfig → ℤ → Bool
nfreq_mismatch none nfreq = false
nfreq_mismatch (some b) nfreq = not (int_beq nfreq b.nfreq)

first_below : List ℤ → ℤ → Bool
unfolding int_ltb
first_below [] n = false
first_below (t ∷ ts) n = int_ltb t n

all_pos : List ℤ → Bool
all_pos [] = true
all_pos (t ∷ ts) = is_pos t && all_pos ts

module _ {D : Type 0} where
  unfoldable pub set_streams : Text → Settings D → Throws (Settings D)
  unfolding spread_streams
  set_streams name s = do
    let (ips, ports) = spread_streams s.ipaddr s.port
    throw_if (not (nat_beq (length ips) (length ports)))
        (runtime_error (name ++ msg ": expected 'ip_addr' and 'port' to be lists of equal length"))
    ok (record s { ipaddr = ips; port = ports })

  unfoldable pub check_counts : FrbIo → Option BonsaiConfig → Text → Settings D → Throws Unit
  unfolding nfreq_mismatch
  check_counts io bonsai name s = do
    throw_if (not (is_pos s.nbeams)) (runtime_error (name ++ msg ": 'nbeams' must be >= 1"))
    throw_if (is_neg s.nrfifreq) (
        runtime_error (
          name
          ++ msg
              ": 'nrfifreq' must be positive (or zero), and must match the number of downsampled frequencies in the RFI chain JSON file -- probably 1024."))
    throw_if (nfreq_mismatch bonsai s.nfreq) (
        runtime_error
          (msg "ch-frb-l1: 'nfreq' values in l1 config file and bonsai config file must match"))
    throw_if (not (is_pos s.nfreq)) (runtime_error (name ++ msg ": 'nfreq' must be >= 1"))
    throw_if (not (nat_beq (pos_part s.nfreq % io.nfreq_coarse_tot) 0)) (
        runtime_error
          (name ++ msg ": 'nfreq' must be a multiple of " ++ to_string io.nfreq_coarse_tot))
    throw_if (ltb 16384 (pos_part s.nfreq))
        (runtime_error (name ++ msg ": nfreq > 16384 is currently not allowed"))

  unfoldable pub check_streams : FrbIo → Text → Settings D → Throws Unit
  check_streams io name s = do
    let nstreams = length s.ipaddr
    let nt_c = io.nt_per_assembled_chunk
    throw_if (nat_beq nstreams 0)
        (runtime_error (name ++ msg ": 'ip_addr' and 'port' must have length >= 1"))
    throw_if (not (is_pos s.nt_per_packet))
        (runtime_error (name ++ msg ": 'nt_per_packet' must be >= 1"))
    throw_if (not (is_pos s.fpga_counts_per_sample))
        (runtime_error (name ++ msg ": 'fpga_counts_per_sample' must be >= 1"))
    throw_if (is_neg s.nt_align || not (nat_beq (pos_part s.nt_align % nt_c) 0))
        (runtime_error (name ++ msg ": 'nt_align' must be a multiple of " ++ to_string nt_c))
    throw_if (not (nat_beq (length s.rpc_address) nstreams)) (
        runtime_error (
          name
          ++ msg
              ": 'rpc_address' must be a list whose length is the number of (ip_addr,port) pairs"))
    throw_if (not (nat_beq (length s.prometheus_address) nstreams)) (
        runtime_error (
          name
          ++ msg
              ": 'prometheus_address' must be a list whose length is the number of (ip_addr,port) pairs"))

  unfoldable pub check_kernels : FrbIo → Doubles D → Text → Settings D → Throws Unit
  check_kernels io num name s = do
    let twice = 2 * io.nfreq_coarse_tot
    throw_if (not s.slow_kernels && not (int_beq s.nt_per_packet (pos 16))) (
        runtime_error
          (name ++ msg ": fast kernels (slow_kernels=false) currently require nt_per_packet=16"))
    throw_if (not s.slow_kernels && not (nat_beq (pos_part s.nfreq % twice) 0)) (
        runtime_error (
          name
          ++ msg ": fast kernels (slow_kernels=false) currently require nfreq divisible by "
          ++ to_string twice))
    throw_if (is_neg s.l1b_buffer_nsamples)
        (runtime_error (name ++ msg ": l1b_buffer_nsamples must be >= 0"))
    throw_if (num.negative s.l1b_pipe_timeout)
        (runtime_error (name ++ msg ": l1b_pipe_timeout must be >= 0.0"))

  unfoldable pub check_ringbufs : Doubles D → Text → Settings D → Throws Unit
  unfolding first_below all_pos int_ltb
  check_ringbufs num name s = do
    let telescoping = s.telescoping_ringbuf_nsamples
    throw_if (not (is_pos s.unassembled_ringbuf_nsamples))
        (runtime_error (name ++ msg ": 'unassembled_ringbuf_nsamples' must be >= 1"))
    throw_if (not (is_pos s.assembled_ringbuf_nsamples))
        (runtime_error (name ++ msg ": 'assembled_ringbuf_nsamples' must be >= 1"))
    throw_if (ltb 4 (length telescoping)) (
        runtime_error
          (name ++ msg ": 'telescoping_ringbuf_nsamples' must be a list of length <= 4"))
    throw_if (first_below telescoping s.assembled_ringbuf_nsamples) (
        runtime_error (
          name
          ++ msg
              ": if specified, 'telescoping_ringbuf_nsamples[0]' must be >= assembled_ringbuf_nsamples"))
    throw_if (num.negative s.write_staging_area_gb)
        (runtime_error (name ++ msg ": 'write_staging_area_gb' must be >= 0.0"))
    throw_if (not (all_pos telescoping))
        (runtime_error (name ++ msg ": all elements of 'telescoping_ringbuf_nsamples' must be > 0"))

  unfoldable pub check_beams_per_stream : Text → Settings D → Throws Unit
  check_beams_per_stream name s = throw_if (not (nat_beq (pos_part s.nbeams % length s.ipaddr) 0)) (
      runtime_error (
        name
        ++ msg ": nbeams (="
        ++ to_string (pos_part s.nbeams)
        ++ msg ") must be a multiple of nstreams (="
        ++ to_string (length s.ipaddr)
        ++ msg ", inferred from number of (ipaddr,port) pairs"))

  unfoldable pub check_settings :
      FrbIo → Doubles D → Option BonsaiConfig → Text → Settings D → Throws Unit
  unfolding nfreq_mismatch first_below all_pos int_ltb
  check_settings io num bonsai name s = do
    check_counts io bonsai name s
    check_streams io name s
    check_kernels io num name s
    check_ringbufs num name s
    check_beams_per_stream name s
