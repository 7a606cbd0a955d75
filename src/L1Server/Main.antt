-- ===== src/L1Server/Main.antt =====
-- The construction of the server, and the phases in the order of main(). Logging, the joining of the
-- threads and the statistics at the end are left out.
pub mod Libraries
pub mod Order
pub mod Beams
pub mod Memory
use ch_frb_l.Base.{ℕ, List, [], ◌∷◌, ◌++◌, Option, none, some, Throws, ok, err, ◌>>=◌, txt, Text}
use ch_frb_l.FrbIo.{FrbIo}
use ch_frb_l.L1Config.Environment.{L1Config}
use ch_frb_l.L1Server.{L1Server, Makers}
use ch_frb_l.L1Server.Cores.{pin_cores}
use ch_frb_l.L1Server.Phases.{
  spawn_l1b_subprocesses, make_output_devices, make_memory_slab_pools, make_input_streams,
  make_mask_stats, make_prometheus_servers, spawn_dedispersion_threads,
}
use ch_frb_l.L1Server.Rpc.{Announcement, make_rpc_servers}

-- The arguments with spaces between them.
join_words : List Text → Text
join_words [] = []
join_words (a ∷ []) = a
join_words (a ∷ b ∷ argv) = a ++ (txt " " ++ join_words (b ∷ argv))

module _ {D Bonsai Pipeline : Type 0} where
  -- The constructor, after that of the configuration.
  unfoldable pub l1_server : ℕ → List Text → L1Config D → Throws (L1Server D Bonsai Pipeline)
  unfolding join_words
  l1_server concurrency argv c = do
    p ← pin_cores concurrency c
    ok (record {
      config = c;
      cores = p;
      command_line = join_words argv;
      l1b_subprocesses = [];
      output_devices = [];
      memory_slab_pools = [];
      input_streams = [];
      mask_stats_maps = 0;
      rpc_servers = [];
      prometheus_servers = [];
      dedispersion_threads = [];
      bonsai_dedispersers = [];
      latency_monitors_pre = [];
      latency_monitors_post = [];
    })

  -- The phases before the RPC servers.
  unfoldable pub start :
      Makers D → FrbIo → L1Server D Bonsai Pipeline → Throws (L1Server D Bonsai Pipeline)
  start mk io s0 = do
    s1 ← spawn_l1b_subprocesses mk s0
    s2 ← make_output_devices mk s1
    s3 ← make_memory_slab_pools mk s2
    s4 ← make_input_streams mk io s3
    s5 ← make_mask_stats s4
    s6 ← make_prometheus_servers mk s5
    spawn_dedispersion_threads s6

  -- main() up to the RPC servers; `none` while it waits for the dedispersers.
  unfoldable pub serve :
      Makers D
      → FrbIo
      → List (List (Announcement Bonsai Pipeline))
      → L1Server D Bonsai Pipeline
      → Option (Throws (L1Server D Bonsai Pipeline))
  serve mk io polls s = elim (start mk io s) [
    | err e ↦ some (err e)
    | ok t ↦ make_rpc_servers polls t
  ]
