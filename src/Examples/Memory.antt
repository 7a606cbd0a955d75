-- ===== src/Examples/Memory.antt =====
-- A toy server with 16 beams in four streams, on a node with two CPUs.
use ch_frb_l.Base.{ℕ, [], ◌∷◌, txt, pos, map, replicate}
use ch_frb_l.Util.{xdiv, counted, vrange, vconcat, vcontains}
use ch_frb_l.L1Config.{Settings, Buffers}
use ch_frb_l.L1Config.Environment.{L1Config}
use ch_frb_l.L1Config.Derived.{derive_buffers}
use ch_frb_l.L1Server.{L1Server}
use ch_frb_l.L1Server.Cores.{pin_cores, pinned16, init_20cores_16beams}
use ch_frb_l.L1Server.Vectors.{for_each, resize}
use ch_frb_l.L1Server.Phases.{
  spawn_l1b_subprocesses, make_output_devices, make_memory_slab_pools, make_pool,
  make_input_streams, make_stream, make_mask_stats, make_prometheus_servers,
  spawn_dedispersion_threads, make_context,
}
use ch_frb_l.L1Server.Phases.Libraries.{always}
use ch_frb_l.L1Server.Main.{l1_server, start}
use ch_frb_l.Examples.Dedispersion.{argv, returned_or, server}
use ch_frb_l.Examples.L1Config.{io, num, slab_size, settings, buffers, config}

abbrev settings16 : Settings ℕ
settings16 = record settings {
  nbeams = pos 16;
  ipaddr = txt "10.0.0.1" ∷ txt "10.0.0.2" ∷ txt "10.0.0.3" ∷ txt "10.0.0.4" ∷ [];
  port = replicate 4 (pos 6677);
  rpc_address = txt "tcp://a:1" ∷ txt "tcp://b:1" ∷ txt "tcp://c:1" ∷ txt "tcp://d:1" ∷ [];
  prometheus_address = txt "1" ∷ txt "2" ∷ txt "3" ∷ txt "4" ∷ [];
}

abbrev buffers16 : Buffers
unfolding derive_buffers xdiv
buffers16 = returned_or (derive_buffers io slab_size num settings16) buffers

abbrev config16 : L1Config ℕ
config16 = record config {
  settings = settings16;
  beam_ids =
      map pos (10 ∷ 11 ∷ 12 ∷ 13 ∷ 14 ∷ 15 ∷ 16 ∷ 17 ∷ 18 ∷ 19 ∷ 20 ∷ 21 ∷ 22 ∷ 23 ∷ 24 ∷ 25 ∷ []);
  buffers = buffers16;
}

abbrev server16 : L1Server ℕ ℕ ℕ
unfolding l1_server pin_cores init_20cores_16beams vrange counted vconcat pinned16
server16 = returned_or (l1_server 40 argv config16) server

abbrev started16 : L1Server ℕ ℕ ℕ
unfolding start spawn_l1b_subprocesses make_output_devices make_memory_slab_pools make_pool
    make_input_streams make_stream make_mask_stats make_prometheus_servers
    spawn_dedispersion_threads make_context for_each counted xdiv vcontains resize server16
started16 = returned_or (start always io server16) server
