-- ===== src/L1Config/Constructor.antt =====
-- The constructor of l1_config: the files, the parameters, and last the directories of the acquisition.
pub mod Accepted
use ch_frb_l.Base.{
  ℕ, zero, ◌+◌, ◌-◌, Bool, true, false, not, ◌&&◌, ◌||◌, List, [], ◌∷◌, ◌++◌, map, Option, none,
  some, if◌then◌else◌, Result, ok, err, Throws, exit, runtime_error, ◌>>=◌, ◌>>◌, throw_if, msg,
  txt, Text, ltb, leb, nat_beq, length, ℤ, pos, pos_part, int_beq, ◌==◌, text_eq, int_eq,
}
use ch_frb_l.FrbIo.{FrbIo}
use ch_frb_l.FileUtils.System.{FileSystem}
use ch_frb_l.FileUtils.{file_exists, acqname_to_filename_pattern}
use ch_frb_l.Util.{vrange, vcontains}
use ch_frb_l.ParamFile.{
  ParamFile, Document, Reader, pure, lift, yaml_paramfile, read_scalar_or, read_vector_or,
  check_for_unused_params,
}
use ch_frb_l.L1Config.{Options, Acquisition, Arguments, BonsaiConfig, Doubles, Settings, Buffers}
use ch_frb_l.L1Config.Addresses.{Address, read_interfaces, map_ipaddrs, map_rpc, map_prometheus}
use ch_frb_l.L1Config.Read.{Scalars, read_settings}
use ch_frb_l.L1Config.Checks.{set_streams, check_settings}
use ch_frb_l.L1Config.Derived.{derive_buffers, pipe_capacity}
use ch_frb_l.L1Config.Environment.{Environment, L1Config, load_files}
use ch_frb_l.L1Config.Parameters.{read_config}

module _ {Node D : Type 0} (env : Environment Node D) where
  module _ (fs : FileSystem) where
    open fs use {State}

    unfoldable pub open_params : State → Options → Throws (ParamFile Node)
    open_params st o =
        yaml_paramfile o.l1_config_filename (pos (if leb 2 o.l1_verbosity then 1 else 0))
          (file_exists fs st o.l1_config_filename) (env.load_yaml o.l1_config_filename)

    unfoldable pub configure : State → Arguments → Throws (L1Config D)
    configure st a = do
      bonsai ← load_files env a.options
      p ← open_params st a.options
      (c, p') ← read_config env bonsai a p
      ok c

    -- The directories come last; an exception leaves those that have been made.
    unfoldable pub set_pattern : State → L1Config D → Throws (L1Config D) × State
    set_pattern st c = elim (vrange 1 (length c.settings.ipaddr + 1)) [
      | err e ↦ (err e, st)
      | ok ids ↦
          let (r, st') =
            acqname_to_filename_pattern fs st c.stream_devname c.stream_acqname (map pos ids)
              c.stream_beam_ids true in
          ((do pattern ← r; ok (record c { stream_filename_pattern = pattern })), st')
    ]

    unfoldable pub l1_config : State → Arguments → Throws (L1Config D) × State
    unfolding set_pattern
    l1_config st a = elim (configure st a) [ err e ↦ (err e, st) | ok c ↦ set_pattern st c ]
