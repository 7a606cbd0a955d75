-- ===== src/SimulateL0/Constructor.antt =====
-- The constructor of l0_params: the reads from the YAML file between the checks, in their order.
use ch_frb_l.Base.{true, List, Option, none, some, if◌then◌else◌, ok, txt, Text, ℤ, pos}
use ch_frb_l.FrbIo.{FrbIo}
use ch_frb_l.Util.{counted}
use ch_frb_l.ParamFile.{
  Scalar, Reader, ◌>>=◌, ◌>>◌, pure, lift, has_param, read_scalar, read_vector,
  check_for_unused_params,
}
use ch_frb_l.SimulateL0.{
  RawParams, L0Params, Initializer, spread, derive, choose_packets, set_packets, final_asserts,
  make_streams,
}

module _ {Node : Type 0} where
  -- `if (p.has_param(k)) field = p.read_scalar<int>(k);`
  optional : Scalar Node ℤ → Text → ℤ → Reader Node ℤ
  optional int k default_val p = if has_param k p then read_scalar int k p else ok (default_val, p)

  unfoldable pub read_params : Scalar Node ℤ → Scalar Node Text → Reader Node RawParams
  unfolding optional
  read_params int string = do
    nbeams ← read_scalar int (txt "nbeams")
    nthreads ← read_scalar int (txt "nthreads")
    nfreq ← read_scalar int (txt "nfreq")
    nt ← read_scalar int (txt "nt_per_packet")
    fpga ← optional int (txt "fpga_counts_per_sample") (pos 384)
    size ← optional int (txt "max_packet_size") (pos 8900)
    start ← optional int (txt "initial_time_index") (pos 0)
    ipaddr ← read_vector string (txt "ipaddr")
    port ← read_vector int (txt "port")
    pure (record {
      nbeams_tot = nbeams;
      nthreads_tot = nthreads;
      nfreq_fine = nfreq;
      nt_per_packet = nt;
      fpga_counts_per_sample = fpga;
      max_packet_size = size;
      initial_time_index = start;
      ipaddr = spread ipaddr port;
      port = spread port ipaddr;
    })

  -- nfreq_coarse_per_packet, if the file has it.
  given_packets : Scalar Node ℤ → Reader Node (Option ℤ)
  given_packets int p =
      if has_param (txt "nfreq_coarse_per_packet") p
      then (do n ← read_scalar int (txt "nfreq_coarse_per_packet"); pure (some n)) p
      else ok (none, p)

  unfoldable pub l0_params :
      FrbIo → Scalar Node ℤ → Scalar Node Text → Reader Node (L0Params × List Initializer)
  unfolding given_packets
  l0_params io int string p =
      (do
        raw ← read_params int string
        derived ← lift (derive io p.filename raw)
        given ← given_packets int
        n ← lift (choose_packets io p.filename derived given)
        let l = set_packets io derived n
        check_for_unused_params true
        lift (final_asserts l)
        streams ← lift (make_streams l (counted 0 l.nthreads_tot))
        pure (l, streams))
        p
