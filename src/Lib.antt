-- ===== src/Lib.antt =====
-- ch_frb_l1: the L1 server of the CHIME FRB search. It receives packets of intensities from the L0
-- correlator nodes, keeps chunks of them in ring buffers, searches them in dedispersion threads, and
-- answers remote calls that look at the chunks or write them to disk. A program beside it simulates the
-- L0 nodes.
--
-- Which file models what:
--   * Base: shared tests, lists, integers, texts, dictionaries, results.
--   * Util (ch_frb_l1.hpp): xdiv, is_power_of_two, round_down_to_power_of_two, vrange, vconcat, vcontains.
--   * ParamFile (ch_frb_l1.hpp, yaml_paramfile.cpp): yaml_paramfile, its reads and its check for
--     parameters that nobody has asked for.
--   * FileUtils (file_utils.cpp): path checks, makedir, check_acqdir, the patterns of file names,
--     disk_space_used. FileUtils.System is the operating system, a parameter with the POSIX laws of
--     mkdir(2) as hypotheses.
--   * FrbIo: what is used of ch_frb_io, which is not part of the repository: constants and the size of a
--     packet, with its documented laws, and the rounded logarithm of the C library.
--   * SimulateL0 (simulate-l0.cpp, ch-frb-simulate-l0.cpp): the constructor of l0_params with all its checks, make_ostream, and
--     in SimulateL0.Sending the stamps and pieces that send_noise and send_chunks send;
--     SimulateL0.Program is ch-frb-simulate-l0.cpp with end_streams.
--   * Rpc (l1-rpc.cpp, l1-rpc.hpp, rpc.hpp): Object is a msgpack object, and Requests takes the arguments
--     of a request out of it; Backend is l1_backend_queue, chunk_status_map and status_changed; Server
--     is the state of L1RpcServer with its methods; Queries holds the contents of the replies that only
--     read; Handler is _handle_request; Run is the receive loop run.
--   * MaskStats (mask_stats.cpp, mask_stats.hpp): mask_stats_map.
--   * L1Config (ch-frb-l1.cpp): l1_config. CommandLine holds the two parsers, Addresses the mapping of the
--     names of interfaces, Read the reads of the YAML file, Checks the checks, Derived the ring buffers and
--     the memory, Environment what libraries and system provide, Parameters the reads between the checks,
--     Constructor the whole constructor.
--   * L1Server (ch-frb-l1.cpp): l1_server. Cores is the pinning of the threads, Phases the methods that
--     make the objects up to the dedispersion threads, Rpc the waiting for the dedispersers and the RPC
--     servers, Main the order of main() up to there, Ending the joining of the threads, the statistics
--     and main() as a whole. The constructors of ch_frb_io and bonsai, the memory pools and the web server
--     may each throw: they are the parameter Makers, and Phases.Libraries says how the phases depend
--     on it.
--   * Dedispersion (ch-frb-l1.cpp): dedispersion_thread_context. The mask counters of
--     _init_mask_counters, and in Threads what _thread_main, _toy_thread_main and
--     dedispersion_thread_main do.
--   * Prometheus (l1-prometheus.cpp): the tables of the metrics, in Handler the text that handleGet sends and
--     start_prometheus_server, in Families the metrics as Prometheus reads them.
--   * Examples: each theorem at a concrete input.
--
-- State and interaction: a method of the server is a function of its state that returns a result, or the
-- exception, beside the new state. The I/O threads act between two rounds of the receive loop, by calls
-- of status_changed; the queue and the status map keep their locks for a whole method, so each is one
-- step. The stream, the pipelines and /proc/stat are read through the record Queries.Readings; the calls
-- that change the stream and the logger are the list `calls`; a message that was sent is in `sent`.
-- A dedispersion thread is the list of its actions; its calls of set_bonsai() reach the server between two
-- polls of the waiting loop. The threads of the simulator run beside one another as a step relation.
--
-- Bounds and fuel: `check_backend_queue` has one round more than the queue has entries, and never runs
-- out, since nothing is added meanwhile; `replace_all` has as many rounds as the text has bytes, which is
-- enough where the replacement is shorter than what it replaces; `round_down_to_power_of_two` is
-- modelled at integers, which are all that the code passes to it. Unsigned words wrap with % 2 ^ 64; where
-- the source's `int` products could overflow, the theorems ask for room or the width is taken as 64 bits;
-- in L1Config.Derived and in send_noise such a product or sum is undefined from 2 ^ 31 on. The total of
-- the packets in Prometheus, a double in the source, is exact below 2 ^ 53. The waiting loop of L1Server.Rpc
-- takes the list of the calls that arrive before each of its polls, and is undecided when the list ends.
--
-- Not modelled: log output, except what a parameter file prints; the numbers inside the messages of the
-- exceptions of SimulateL0, whose texts are shortened; the transforms of a pipeline and the search, which
-- are the rf_pipelines and bonsai libraries; the vendored libraries; the toy client rpc_client.cpp; the
-- programs that test; the Python code.
pub mod Base
pub mod Util
pub mod FileUtils
pub mod ParamFile
pub mod FrbIo
pub mod SimulateL0
pub mod Rpc
pub mod MaskStats
pub mod L1Config
pub mod L1Server
pub mod Dedispersion
pub mod Prometheus
pub mod Examples
