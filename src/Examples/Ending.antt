-- ===== src/Examples/Ending.antt =====
-- main() of the server of the examples: the calls at its end.
use ch_frb_l.Base.{◌≡◌, refl, List, [], ◌∷◌, some, ok, Text, txt, to_string, int_to_string, lookup}
use ch_frb_l.L1Server.Phases.{
  spawn_l1b_subprocesses, make_output_devices, make_memory_slab_pools, make_input_streams,
  make_stream, make_mask_stats, make_prometheus_servers, spawn_dedispersion_threads, make_context,
}
use ch_frb_l.L1Server.Vectors.{for_each, resize}
use ch_frb_l.Util.{counted, xdiv, vcontains}
use ch_frb_l.L1Server.Rpc.{
  set_bonsai, announce, gotn, all_created, wait, latency_of, make_rpc, before_rpc, after_wait,
  make_rpc_servers, concat,
}
use ch_frb_l.L1Server.Phases.Libraries.{always}
use ch_frb_l.L1Server.Main.{start, serve}
use ch_frb_l.L1Server.Ending.{
  Ending, joined_dedispersion, ended_stream, joined_device, shut_down, joined_rpc, reset_prometheus,
  end_devices, join_all_threads, stat_of, to_int, stream_lines, print_statistics, main,
}
use ch_frb_l.L1Server.Ending.Stages.{IsOrderly}
use ch_frb_l.L1Server.Ending.Orderly.{main-IsOrderly}
use ch_frb_l.Examples.L1Config.{env, io}
use ch_frb_l.Examples.Dedispersion.{
  argv, real_config, server, built, real-IsAccepted, first, later, stream_statistics, workfrac,
}

abbrev endings : List Ending
endings =
    joined_dedispersion 0
    ∷ joined_dedispersion 1
    ∷ joined_dedispersion 2
    ∷ joined_dedispersion 3
    ∷ ended_stream 0
    ∷ joined_device 0
    ∷ ended_stream 1
    ∷ joined_device 1
    ∷ shut_down 0
    ∷ shut_down 1
    ∷ joined_rpc 0
    ∷ joined_rpc 1
    ∷ reset_prometheus 0
    ∷ reset_prometheus 1
    ∷ []

abbrev lines : List Text
lines =
    txt "stream 0: ipaddr=10.0.0.1, udp_port=6677"
    ∷ txt "    count_packets_good: 17"
    ∷ txt "    assembler_thread_workfrac: 0.5"
    ∷ txt "stream 1: ipaddr=10.0.0.2, udp_port=6677"
    ∷ txt "    count_packets_good: 17"
    ∷ txt "    assembler_thread_workfrac: 0.5"
    ∷ []

comes_to_end :
    main workfrac always io (first ∷ later) stream_statistics server ≡ some (ok (endings, lines))
unfolding start spawn_l1b_subprocesses make_output_devices make_memory_slab_pools make_input_streams
    make_stream make_mask_stats make_prometheus_servers spawn_dedispersion_threads make_context
    for_each counted xdiv vcontains resize set_bonsai announce gotn all_created wait latency_of
    make_rpc before_rpc after_wait make_rpc_servers concat serve end_devices join_all_threads
    stat_of to_int stream_lines print_statistics main to_string int_to_string lookup
comes_to_end = refl

main-IsOrderly_example : IsOrderly 4 2 2 2 endings
main-IsOrderly_example =
    main-IsOrderly env always 8 argv real_config server (first ∷ later) workfrac stream_statistics
      endings lines real-IsAccepted built comes_to_end
