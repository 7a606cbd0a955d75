-- ===== src/L1Config.antt =====
-- l1_config (ch-frb-l1.cpp): the configuration of the L1 server, from its command line and its YAML
-- file. The numbers of type `double` and `float` are a parameter type: the code only compares them
-- and scales one of them. The rf_pipelines and bonsai libraries are parameters too: what the
-- configuration uses of a bonsai file is the record `BonsaiConfig`.
pub mod CommandLine
pub mod Addresses
pub mod Read
pub mod Checks
pub mod Derived
pub mod Environment
pub mod Parameters
pub mod Constructor
use ch_frb_l.Base.{ℕ, Bool, false, List, [], Option, Text, ℤ}

-- The members that the command line sets.
pub record Options : Type 0 where
  pub l1_config_filename : Text
  pub rfi_config_filename : Text
  pub bonsai_config_filename : Text
  pub l1b_config_filename : Text
  pub tflag : Bool
  pub fflag : Bool
  pub l1b_pipe_io_debug : Bool
  pub memory_pool_debug : Bool
  pub write_chunk_debug : Bool
  pub deliberately_crash : Bool
  pub ignore_end_of_stream : Bool
  pub l1_verbosity : ℕ

-- The initializers of these members.
abbrev pub default_options : Options
default_options = record {
  l1_config_filename = [];
  rfi_config_filename = [];
  bonsai_config_filename = [];
  l1b_config_filename = [];
  tflag = false;
  fflag = false;
  l1b_pipe_io_debug = false;
  memory_pool_debug = false;
  write_chunk_debug = false;
  deliberately_crash = false;
  ignore_end_of_stream = false;
  l1_verbosity = 1;
}

-- An acquisition that the command line asks for, by --acq, --nfs and --beam.
pub record Acquisition : Type 0 where
  pub acq_name : Text
  pub nfs : Bool
  pub acq_beams : List ℤ

-- The command line: the options, and the acquisition if there is one.
pub record Arguments : Type 0 where
  pub options : Options
  pub acq : Option Acquisition

-- What the configuration reads of a bonsai file: of `transfer_matrices` whether the pointer is set.
pub record BonsaiConfig : Type 0 where
  pub nfreq : ℤ
  pub nt_chunk : ℕ
  pub transfer_matrices : List Bool
  pub ntriggers_per_chunk : List ℕ
  pub serialized_size : ℕ

-- What the code does with its numbers of type `double` and `float`: comparisons with 0.0 and with
-- 1.0e-6, the constants 0.0 and 1.0, and the number of slabs of `n` bytes that fit in `gb` gigabytes.
pub record Doubles (D : Type 0) : Type 0 where
  pub zero_point : D
  pub one_point : D
  pub negative : D → Bool
  pub at_most_micro : D → Bool
  pub staging_chunks : D → ℕ → ℕ

-- The parameters that are read right away.
pub record Settings (D : Type 0) : Type 0 where
  pub nbeams : ℤ
  pub nfreq : ℤ
  pub nt_per_packet : ℤ
  pub fpga_counts_per_sample : ℤ
  pub nt_align : ℤ
  pub nrfifreq : ℤ
  pub ipaddr : List Text
  pub port : List ℤ
  pub rpc_address : List Text
  pub prometheus_address : List Text
  pub logger_address : Text
  pub frame0_url : Text
  pub frame0_timeout : ℤ
  pub rfi_mask_meas_history : ℤ
  pub slow_kernels : Bool
  pub unassembled_ringbuf_nsamples : ℤ
  pub assembled_ringbuf_nsamples : ℤ
  pub telescoping_ringbuf_nsamples : List ℤ
  pub write_staging_area_gb : D
  pub output_device_names : List Text
  pub intensity_prescale : D
  pub l1b_executable_filename : Text
  pub l1b_search_path : Bool
  pub l1b_buffer_nsamples : ℤ
  pub l1b_pipe_timeout : D
  pub l1b_pipe_blocking : Bool
  pub force_asynchronous_dedispersion : Bool
  pub track_global_trigger_max : Bool

-- The derived parameters.
pub record Buffers : Type 0 where
  pub unassembled_ringbuf_capacity : ℕ
  pub unassembled_nbytes_per_list : ℕ
  pub unassembled_npackets_per_list : ℕ
  pub assembled_ringbuf_nchunks : ℕ
  pub telescoping_ringbuf_nchunks : List ℕ
  pub nbytes_per_memory_slab : ℕ
  pub total_memory_slabs : ℕ
