-- ===== src/Examples/L1Config.antt =====
-- The configuration of a toy server with two streams of two beams.
use ch_frb_l.Base.{
  ℕ, ◌+◌, ◌*◌, ◌≡◌, ◌⊎◌, inr, ◌↔◌, refl, Bool, true, false, List, [], ◌∷◌, ◌++◌, Option, some, none,
  ok, err, Failure, exit, undefined, runtime_error, if◌then◌else◌, ltb, leb, ◌/◌, Text, txt,
  text_eq, ℤ, pos, int_to_string, All, get_elem?, lookup, arith,
}
use ch_frb_l.FrbIo.{FrbIo}
use ch_frb_l.Util.{xdiv, vcontains}
use ch_frb_l.ParamFile.{Scalar, a_map}
use ch_frb_l.Examples.SimulateL0.{log2_fuel}
use ch_frb_l.L1Config.{Options, Arguments, default_options, Doubles, Settings, Buffers}
use ch_frb_l.L1Config.CommandLine.{scan}
use ch_frb_l.L1Config.CommandLine.Flags.{letters_of, positional, all_known, with_letters, scan_lem}
use ch_frb_l.L1Config.Addresses.{Address, null, inet, read_interfaces, map_ipaddrs, map_rpc}
use ch_frb_l.L1Config.Addresses.Rpc.{
  resolve, with_port, without_port, map_rpc-with_port, map_rpc-without_port,
}
use ch_frb_l.L1Config.Addresses.Ip.{
  resolves, resolved_all, any_null, inet_of, map_ipaddrs-cases, read_interfaces_lem,
}
use ch_frb_l.L1Config.Checks.{
  check_settings, check_counts, check_streams, check_kernels, check_ringbufs,
  check_beams_per_stream,
}
use ch_frb_l.L1Config.Checks.Sane.{IsSane, check_settings-IsSane}
use ch_frb_l.L1Config.Derived.{derive_buffers, pipe_capacity}
use ch_frb_l.L1Config.Derived.Bounds.{IsAdequate, derive_buffers-IsAdequate}
use ch_frb_l.L1Config.Environment.{Environment, L1Config, warned}
use ch_frb_l.L1Config.Constructor.{l1_config, set_pattern}
use ch_frb_l.L1Config.Constructor.Accepted.{IsAccepted, l1_config-cases}
use ch_frb_l.Examples.Files.{disk, local_disk}

abbrev argv : List Text
argv = txt "-vt" ∷ txt "l1.yaml" ∷ txt "-f" ∷ []

scan_lem_example : scan argv default_options [] ≡ (
    if all_known (letters_of argv)
    then ok (with_letters (letters_of argv) default_options, [] ++ positional argv)
    else err (exit 2))
scan_lem_example = scan_lem argv default_options []

abbrev pub interfaces : List (Text × Text)
interfaces = (txt "eno2", txt "10.7.100.15") ∷ []

map_rpc-with_port_example :
    map_rpc interfaces (with_port (txt "tcp:") (txt "eno2") (txt "5555"))
    ≡ with_port (txt "tcp:") (resolve interfaces (txt "eno2")) (txt "5555")
map_rpc-with_port_example =
    map_rpc-with_port interfaces (txt "tcp:") (txt "eno2") (txt "5555") refl refl (omega arith)

known : lookup (txt "eno2") interfaces ≡ some (txt "10.7.100.15")
unfolding lookup
known = refl

map_rpc-without_port_example :
    map_rpc interfaces (without_port (txt "tcp") (txt "eno2"))
    ≡ without_port (txt "tcp") (without_port (txt "10.7.100.15") (txt "eno2"))
map_rpc-without_port_example =
    map_rpc-without_port interfaces (txt "tcp") (txt "eno2") (txt "10.7.100.15") refl refl
      (omega arith) known

-- The test of inet_aton() for texts that begin with a digit.
abbrev pub dotted : Text → Bool
dotted [] = false
dotted (c ∷ t) = if ltb c 58 then leb 48 c else false

abbrev pub addresses : List Text
addresses = txt "eno2" ∷ txt "10.0.0.1" ∷ []

map_ipaddrs-cases_example :
    (All (λ a. resolves dotted interfaces a ≡ true) addresses
      × (map_ipaddrs dotted interfaces addresses ≡ ok (resolved_all dotted interfaces addresses)))
    ⊎ (((i : ℕ) × (a : Text) × (get_elem? addresses i ≡ some a)
          × (resolves dotted interfaces a ≡ false))
        × ((x : Text) × (map_ipaddrs dotted interfaces addresses ≡ err (runtime_error x))))
map_ipaddrs-cases_example = map_ipaddrs-cases dotted interfaces addresses

abbrev pub ifaces : List (Text × Address)
ifaces = (txt "tun0", null) ∷ (txt "eno2", inet (txt "10.7.100.15")) ∷ []

read_interfaces_lem_example :
    read_interfaces ifaces [] ≡ (if any_null ifaces then err undefined else ok (inet_of ifaces []))
read_interfaces_lem_example = read_interfaces_lem ifaces []

abbrev pub io : FrbIo
io = record {
  nfreq_coarse_tot = 1024;
  nt_per_assembled_chunk = 1024;
  packet_size = λ nb nf nu nt. 24 + 2 * nb + nf * (2 + 8 * nb + nb * nu * nt);
  floor_log2 = λ x. log2_fuel x x;
}

-- Numbers in millionths; a slab has a megabyte.
abbrev pub num : Doubles ℕ
num = record {
  zero_point = 0;
  one_point = 1000000;
  negative = λ d. false;
  at_most_micro = λ d. leb d 1;
  staging_chunks = λ gb n. gb * 1024 / 1000000;
}

abbrev pub settings : Settings ℕ
settings = record {
  nbeams = pos 4;
  nfreq = pos 16384;
  nt_per_packet = pos 16;
  fpga_counts_per_sample = pos 384;
  nt_align = pos 1024;
  nrfifreq = pos 1024;
  ipaddr = txt "10.0.0.1" ∷ txt "10.0.0.2" ∷ [];
  port = pos 6677 ∷ pos 6677 ∷ [];
  rpc_address = txt "tcp://10.0.0.1:5555" ∷ txt "tcp://10.0.0.2:5555" ∷ [];
  prometheus_address = txt "8888" ∷ txt "8889" ∷ [];
  logger_address = [];
  frame0_url = txt "http://fpga/frame0";
  frame0_timeout = pos 3000;
  rfi_mask_meas_history = pos 300;
  slow_kernels = false;
  unassembled_ringbuf_nsamples = pos 4096;
  assembled_ringbuf_nsamples = pos 5000;
  telescoping_ringbuf_nsamples = pos 6000 ∷ pos 9000 ∷ [];
  write_staging_area_gb = 1000000;
  output_device_names = txt "/ssd" ∷ txt "/nfs" ∷ [];
  intensity_prescale = 1000000;
  l1b_executable_filename = [];
  l1b_search_path = false;
  l1b_buffer_nsamples = pos 0;
  l1b_pipe_timeout = 0;
  l1b_pipe_blocking = false;
  force_asynchronous_dedispersion = false;
  track_global_trigger_max = false;
}

check_settings-IsSane_example :
    (check_settings io num none (txt "l1.yaml") settings ≡ ok tt) ↔ IsSane io num none settings
check_settings-IsSane_example = check_settings-IsSane io num none settings (txt "l1.yaml")

abbrev pub slab_size : ℕ → ℕ → ℕ → ℕ
slab_size nupfreq nt nrfi = 1024 * 1024

abbrev pub buffers : Buffers
buffers = record {
  unassembled_ringbuf_capacity = 37;
  unassembled_nbytes_per_list = 3999744;
  unassembled_npackets_per_list = 7168;
  assembled_ringbuf_nchunks = 5;
  telescoping_ringbuf_nchunks = 6 ∷ 5 ∷ [];
  nbytes_per_memory_slab = 1048576;
  total_memory_slabs = 1100;
}

derived : derive_buffers io slab_size num settings ≡ ok buffers
unfolding derive_buffers xdiv
derived = refl

derive_buffers-IsAdequate_example : IsAdequate io slab_size num settings buffers
derive_buffers-IsAdequate_example =
    derive_buffers-IsAdequate io slab_size num settings buffers (omega arith) (omega arith)
      (omega arith) derived

-- The values of a parameter file.
pub data Value : Type 0 where
  number : ℤ → Value
  word : Text → Value
  numbers : List ℤ → Value
  words : List Text → Value

abbrev integer : Scalar Value ℤ
integer = record {
  as_type = λ v. elim v [ number n ↦ some n | _ ↦ none ];
  as_vector = λ v. elim v [ numbers ns ↦ some ns | _ ↦ none ];
  type_name = txt "int";
  stringify = int_to_string;
}

abbrev string : Scalar Value Text
string = record {
  as_type = λ v. elim v [ word t ↦ some t | _ ↦ none ];
  as_vector = λ v. elim v [ words ts ↦ some ts | _ ↦ none ];
  type_name = txt "string";
  stringify = λ t. t;
}

abbrev boolean : Scalar Value Bool
boolean = record {
  as_type = λ v. none;
  as_vector = λ v. none;
  type_name = txt "bool";
  stringify = λ b. if b then txt "true" else txt "false";
}

abbrev real : Scalar Value ℕ
real = record {
  as_type = λ v. none;
  as_vector = λ v. none;
  type_name = txt "double";
  stringify = λ d. txt "0";
}

abbrev entries : List (Option Text × Value)
entries =
    (some (txt "nbeams"), number (pos 4))
    ∷ (some (txt "nfreq"), number (pos 16384))
    ∷ (some (txt "nt_per_packet"), number (pos 16))
    ∷ (some (txt "nt_align"), number (pos 1024))
    ∷ (some (txt "nrfifreq"), number (pos 1024))
    ∷ (some (txt "ipaddr"), words addresses)
    ∷ (some (txt "port"), numbers (pos 6677 ∷ pos 6678 ∷ []))
    ∷ (some (txt "rpc_address"), words (txt "tcp://eno2:5555" ∷ txt "tcp://10.0.0.1:5555" ∷ []))
    ∷ (some (txt "prometheus_address"), words (txt "eno2:8888" ∷ txt "8889" ∷ []))
    ∷ (some (txt "frame0_url"), word (txt "http://fpga/frame0"))
    ∷ (some (txt "output_devices"), words (txt "/ssd" ∷ []))
    ∷ (some (txt "beam_ids"), numbers (pos 10 ∷ pos 11 ∷ pos 12 ∷ pos 13 ∷ []))
    ∷ []

abbrev pub env : Environment Value ℕ
env = record {
  io = io;
  slab_size = slab_size;
  num = num;
  scalars = record { int = integer; bool = boolean; string = string; double = real; float = real };
  load_yaml = λ name. some (ok (a_map entries));
  opens = λ name. true;
  json_parses = λ name. true;
  make_chain = λ name. ok tt;
  bonsai_file = λ name. err (runtime_error (txt "no file"));
  getifaddrs = ok ((txt "eno2", inet (txt "10.7.100.15")) ∷ []);
  inet_aton = dotted;
}

abbrev pub options : Options
options = record default_options {
  tflag = true;
  fflag = true;
  l1_config_filename = txt "/local/acq_data";
}

abbrev arguments : Arguments
arguments = record { options = options; acq = none }

l1_config-cases_example :
    ((e : Failure) × (l1_config env disk local_disk arguments ≡ (err e, local_disk)))
    ⊎ ((c : L1Config ℕ) × IsAccepted env c
        × (l1_config env disk local_disk arguments ≡ set_pattern env disk local_disk c))
l1_config-cases_example = l1_config-cases env disk local_disk arguments

-- What the server below starts from.
abbrev pub config : L1Config ℕ
config = record {
  options = options;
  bonsai = none;
  settings = settings;
  beam_ids = pos 10 ∷ pos 11 ∷ pos 12 ∷ pos 13 ∷ [];
  stream_devname = txt "ssd";
  stream_acqname = [];
  stream_beam_ids = pos 11 ∷ pos 13 ∷ [];
  buffers = buffers;
  l1b_pipe_capacity = 0;
  stream_filename_pattern = [];
}

checked : check_settings io num none (txt "l1.yaml") settings ≡ ok tt
unfolding check_settings check_counts check_streams check_kernels check_ringbufs
    check_beams_per_stream
checked = refl

pub config-IsAccepted : IsAccepted env config
unfolding vcontains pipe_capacity warned
config-IsAccepted = record {
  sane = (check_settings-IsSane io num none settings (txt "l1.yaml")).0 checked;
  ports = refl;
  beams = refl;
  streamed = (refl, (refl, tt));
  derived = derived;
  capacity = refl;
  quiet = inr refl;
}
