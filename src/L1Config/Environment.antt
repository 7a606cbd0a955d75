-- ===== src/L1Config/Environment.antt =====
-- What the constructor asks of the libraries and the system, its result, and the steps that do not
-- read the parameter file. What they print is left out.
use ch_frb_l.Base.{
  ℕ, Bool, true, false, not, ◌&&◌, ◌||◌, List, [], ◌∷◌, ◌++◌, map, Option, none, some,
  if◌then◌else◌, Result, ok, err, Throws, exit, runtime_error, ◌>>=◌, ◌>>◌, throw_if, msg, Text,
  ltb, length, ℤ, pos, pos_part, int_beq, text_eq, int_eq,
}
use ch_frb_l.FrbIo.{FrbIo}
use ch_frb_l.ParamFile.{Document}
use ch_frb_l.L1Config.{Options, BonsaiConfig, Doubles, Settings, Buffers}
use ch_frb_l.L1Config.Addresses.{Address, read_interfaces, map_ipaddrs, map_rpc, map_prometheus}
use ch_frb_l.L1Config.Read.{Scalars}

pub record Environment (Node D : Type 0) : Type 0 where
  pub io : FrbIo
  pub slab_size : ℕ → ℕ → ℕ → ℕ
  pub num : Doubles D
  pub scalars : Scalars Node D
  pub load_yaml : Text → Option (Result Text (Document Node))
  pub opens : Text → Bool
  pub json_parses : Text → Bool
  pub make_chain : Text → Throws Unit
  pub bonsai_file : Text → Throws BonsaiConfig
  pub getifaddrs : Result Text (List (Text × Address))
  pub inet_aton : Text → Bool

-- The object. `nstreams` is the length of `settings.ipaddr`; there is a bonsai configuration unless
-- the server is a toy server.
pub record L1Config (D : Type 0) : Type 0 where
  pub options : Options
  pub bonsai : Option BonsaiConfig
  pub settings : Settings D
  pub beam_ids : List ℤ
  pub stream_devname : Text
  pub stream_acqname : Text
  pub stream_beam_ids : List ℤ
  pub buffers : Buffers
  pub l1b_pipe_capacity : ℕ
  pub stream_filename_pattern : Text

all_set : List Bool → Bool
all_set [] = true
all_set (b ∷ bs) = b && all_set bs

-- _have_warnings()
unfoldable pub have_warnings : Options → Throws Unit
have_warnings o = if o.fflag then ok tt else err (exit 1)

module _ {Node D : Type 0} (env : Environment Node D) where
  -- The RFI chain and the bonsai file, without -t.
  unfoldable pub load_files : Options → Throws (Option BonsaiConfig)
  unfolding all_set
  load_files o = if o.tflag then ok none else do
    throw_if (not (env.opens o.rfi_config_filename))
        (runtime_error (msg "ch-frb-l1: couldn't open file " ++ o.rfi_config_filename))
    throw_if (not (env.json_parses o.rfi_config_filename))
        (runtime_error (msg "ch-frb-l1: couldn't parse json file " ++ o.rfi_config_filename))
    env.make_chain o.rfi_config_filename
    b ← env.bonsai_file o.bonsai_config_filename
    throw_if (not (all_set b.transfer_matrices)) (
        runtime_error (
          o.bonsai_config_filename
          ++ msg
              ": transfer matrices not found.  Maybe you accidentally specified a .txt file instead of .hdf5?  See ch_frb_l1/MANUAL.md for more info"))
    ok (some b)

  -- The interfaces, and the three mappings of addresses.
  unfoldable pub map_addresses : Settings D → Throws (Settings D)
  map_addresses s = elim env.getifaddrs [
    | err e ↦ err (runtime_error (msg "Failed to get network interfaces -- getifaddrs(): " ++ e))
    | ok ifaces ↦ do
      interfaces ← read_interfaces ifaces []
      ips ← map_ipaddrs env.inet_aton interfaces s.ipaddr
      ok (record s {
        ipaddr = ips;
        rpc_address = map (map_rpc interfaces) s.rpc_address;
        prometheus_address = map (map_prometheus interfaces) s.prometheus_address;
      })
  ]

  -- The warnings that -f overrides; `clean` is the answer of check_for_unused_params.
  unfoldable pub warned : Option BonsaiConfig → Settings D → Bool → Bool
  warned bonsai s clean =
      not clean
      || (int_beq s.nrfifreq (pos 0)
          || ((ltb 0 (length s.l1b_executable_filename)
                && (int_beq s.l1b_buffer_nsamples (pos 0)
                    && env.num.at_most_micro s.l1b_pipe_timeout))
              || elim bonsai [
                | none ↦ false
                | some b ↦ ltb 4096 (pos_part b.nfreq) && s.slow_kernels
              ]))
