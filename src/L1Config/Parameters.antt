-- ===== src/L1Config/Parameters.antt =====
-- From the first read of the parameter file to the warnings: the reads between the checks, in their
-- order.
use ch_frb_l.Base.{
  Failure, Bool, true, false, not, ◌&&◌, List, [], ◌∷◌, ◌++◌, map, Option, none, some,
  if◌then◌else◌, ok, runtime_error, throw_if, msg, txt, Text, nat_beq, length, ℤ, pos, pos_part,
  ◌==◌, text_eq, int_eq,
}
use ch_frb_l.Util.{vrange, vcontains}
use ch_frb_l.ParamFile.{
  Reader, ◌>>=◌, ◌>>◌, pure, lift, read_scalar_or, read_vector_or, check_for_unused_params,
}
use ch_frb_l.L1Config.{Acquisition, Arguments, BonsaiConfig}
use ch_frb_l.L1Config.Read.{read_settings}
use ch_frb_l.L1Config.Checks.{set_streams, check_settings}
use ch_frb_l.L1Config.Derived.{derive_buffers, pipe_capacity}
use ch_frb_l.L1Config.Environment.{Environment, L1Config, have_warnings, map_addresses, warned}

-- The beam numbers of a list are among those of the node.
unfoldable pub subset : List ℤ → List ℤ → Bool
subset beams [] = true
subset beams (b ∷ bs) = vcontains beams b && subset beams bs

pub wrong_length : Text → Failure
wrong_length name = runtime_error (name ++ msg ": 'beam_ids' must have length 'nbeams'")

pub no_subset : Text → Failure
no_subset name = runtime_error (
    name
    ++ msg
        ": 'stream_beam_ids' must be a subset of 'beam_ids' (which defaults to [0,...,nbeams-1] if unspecified)")

module _ {Node D : Type 0} (env : Environment Node D) where
  -- stream_devname, stream_acqname and stream_beam_ids: from the command line if --acq is given, where
  -- "none" leaves them empty, else from the file.
  unfoldable pub stream_params : Option Acquisition → List ℤ → Reader Node (Text × Text × List ℤ)
  stream_params (some a) beam_ids =
      if a.acq_name == txt "none"
      then pure ([], [], [])
      else pure (if a.nfs then txt "nfs" else txt "ssd", a.acq_name, a.acq_beams)
  stream_params none beam_ids = do
    devname ← read_scalar_or env.scalars.string (txt "stream_devname") (txt "ssd")
    acqname ← read_scalar_or env.scalars.string (txt "stream_acqname") []
    beams ← read_vector_or env.scalars.int (txt "stream_beam_ids") beam_ids
    pure (devname, acqname, beams)

  -- From the reads of the file to the warnings.
  unfoldable pub read_config : Option BonsaiConfig → Arguments → Reader Node (L1Config D)
  read_config bonsai a =
      let o = a.options in
      let name = o.l1_config_filename in
      do
        given ← read_settings env.num env.scalars o.tflag
        mapped ← lift (map_addresses env given)
        s ← lift (set_streams name mapped)
        lift (check_settings env.io env.num bonsai name s)
        ids ← lift (vrange 0 (pos_part s.nbeams))
        beam_ids ← read_vector_or env.scalars.int (txt "beam_ids") (map pos ids)
        lift (throw_if (not (nat_beq (length beam_ids) (pos_part s.nbeams))) (wrong_length name))
        stream ← stream_params a.acq beam_ids
        lift (throw_if (not (subset beam_ids stream.2)) (no_subset name))
        buffers ← lift (derive_buffers env.io env.slab_size env.num s)
        capacity ← lift (pipe_capacity bonsai s)
        clean ← check_for_unused_params false
        lift (if warned env bonsai s clean then have_warnings o else ok tt)
        pure (record {
          options = o;
          bonsai = bonsai;
          settings = s;
          beam_ids = beam_ids;
          stream_devname = stream.0;
          stream_acqname = stream.1;
          stream_beam_ids = stream.2;
          buffers = buffers;
          l1b_pipe_capacity = capacity;
          stream_filename_pattern = [];
        })
