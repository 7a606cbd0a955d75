-- ===== src/Examples/Rpc.antt =====
-- A server of two beams with one client.
use ch_frb_l.Base.{
  ℕ, ◌≡◌, refl, true, false, ◌&&◌, ◌||◌, List, [], ◌∷◌, ◌++◌, map, none, some, if◌then◌else◌, Text,
  txt, text_eq, ◌==◌, length, ok, runtime_error, throws, msg, pos, int_eq, contains, nat_beq, arith,
}
use ch_frb_l.Examples.Files.{disk, local_disk}
use ch_frb_l.Rpc.Object.{Object, int, str, array}
use ch_frb_l.Rpc.Data.{Chunk, WriteReply, Entry, WriteRequest, StatusChange}
use ch_frb_l.Rpc.Backend.{Backend, dequeue_write_reply, get_status, entry_of, status_changed}
use ch_frb_l.Rpc.Backend.Order.{
  enqueue_all, dequeue_many, dequeue_many-enqueue_all, status_changed-effects,
}
use ch_frb_l.Rpc.Server.{Server, Env, delivered, is_shutdown, check_backend_queue}
use ch_frb_l.Rpc.Server.Draining.{messages_of, check_backend_queue-drains}
use ch_frb_l.Rpc.Queries.{Readings}
use ch_frb_l.Rpc.Requests.{WriteChunks, StreamRequest, stream_beams}
use ch_frb_l.Rpc.Replace.{find, replace_all, replace_all_total}
use ch_frb_l.Rpc.Handler.{set_stream, write_each, handle_request}
use ch_frb_l.Rpc.Handler.Beams.{stream_beams_iff}
use ch_frb_l.Rpc.Handler.Stream.{Ended, set_stream-Ended}
use ch_frb_l.Rpc.Handler.Writes.{
  request_of, accepted, said, expected, with_queue, write_each-answers,
}
use ch_frb_l.Rpc.Handler.Answers.{Replied}
use ch_frb_l.Rpc.Handler.Replies.{asks_shutdown, handle_request-Replied}
use ch_frb_l.Rpc.Run.{socket_threw, Round, timed_out, threw, run}
use ch_frb_l.Rpc.Run.Loop.{SocketThrew, run-survives}

abbrev env : Env ℕ
env = record {
  beam_ids = pos 3 ∷ pos 5 ∷ [];
  stream_id = pos 1;
  nrfifreq = pos 0;
  fpga_counts_per_sample = 384;
  deliver = λ _. delivered;
  enqueue = λ queued w. (
    nat_beq (length queued) 0,
    record { finished = false; success = true; state = txt "QUEUED"; error_message = [] } ∷ [],
  );
  ringbuf_snapshots = λ beams lo hi.
      ((record { beam_id = 3; fpga_begin = 0; fpga_end = 1024; ichunk = 0 }, 1) ∷ []) ∷ [];
  all_ringbuf_snapshots = λ beams. [];
  format_filename = λ c pattern. pattern;
  can_open = λ _. true;
}

abbrev readings : Readings ℕ
readings = record {
  beam_ids = pos 3 ∷ pos 5 ∷ [];
  streaming = record {
    filename = [];
    beams = [];
    priority = pos 0;
    chunks_written = pos 0;
    bytes_written = 0;
  };
  nfs_gb_free = none;
  ssd_gb_free = none;
  double_of_int = λ i. 0;
  rate = λ n d. n;
  packet_rates = λ s p. none;
  packet_rate_history = λ s e p. [];
  statistics = [] ∷ [];
  procstat_time = 0;
  procstat = [];
  stoll = λ t. throws (msg "stoll");
  ringbuf_snapshots = λ beams. [];
  masks = [];
  packet_max_fpga_seen = 0;
  flushed = 0 ∷ 0 ∷ [];
  retrieved = 0 ∷ 0 ∷ [];
  latencies = [];
  bonsais = [];
  fpga_counts_per_sample = 384;
  first_fpga_count = λ _. 0;
}

abbrev backend : Backend
backend = record { entries = []; statuses = [] }

abbrev server : Server ℕ disk
server = record {
  backend = backend;
  queued = [];
  shutdown = false;
  calls = [];
  sent = [];
  files = local_disk;
}

abbrev chunks : List Chunk
chunks =
    record { beam_id = 3; fpga_begin = 0; fpga_end = 1024; ichunk = 0 }
    ∷ record { beam_id = 5; fpga_begin = 0; fpga_end = 1024; ichunk = 0 }
    ∷ []

abbrev entries : List Entry
entries =
    record {
      client = some (txt "c");
      token = 7;
      reply = record {
        beam = 3;
        fpga0 = 0;
        fpga_n = 1024;
        filename = txt "a";
        success = true;
        error_message = [];
      };
    }
    ∷ record {
      client = none;
      token = 8;
      reply = record {
        beam = 5;
        fpga0 = 0;
        fpga_n = 1024;
        filename = txt "b";
        success = false;
        error_message = txt "full";
      };
    }
    ∷ []

abbrev full_server : Server ℕ disk
full_server = record server { backend = record { entries = entries; statuses = [] } }

abbrev shutdown_request : List (Object ℕ)
shutdown_request = array (str (txt "shutdown") ∷ int (pos 9) ∷ []) ∷ []

abbrev written : WriteChunks
written = record {
  beams = pos 3 ∷ [];
  min_fpga = 0;
  max_fpga = 2048;
  filename_pattern = txt "f";
  priority = pos 0;
  need_rfi = false;
}

abbrev streaming : StreamRequest
streaming = record {
  acq_name = txt "new";
  acq_dev = [];
  acq_meta = txt "{}";
  acq_new = true;
  beams = pos 5 ∷ pos 8 ∷ [];
}

abbrev write_request : WriteRequest
write_request =
    request_of env (txt "c") 7 written
      (record { beam_id = 3; fpga_begin = 0; fpga_end = 1024; ichunk = 0 })

abbrev done : StatusChange
done = record { finished = true; success = true; state = txt "SUCCEEDED"; error_message = [] }

abbrev idle_round : Round ℕ
idle_round = record { finished = []; env = env; readings = readings; arrival = timed_out }

handle_request-Replied_example :
    Replied
      (txt "c")
      (asks_shutdown shutdown_request)
      server
      (handle_request env readings (txt "c") shutdown_request server)
handle_request-Replied_example =
    handle_request-Replied env readings (txt "c") shutdown_request server

write_each-answers_example :
    (rs : List WriteReply) × (b : Backend) × (write_each env (txt "c") 7 written chunks server ≡ (
      ok rs,
      with_queue
          (server.queued ++ accepted (map (request_of env (txt "c") 7 written) chunks) rs)
          b
          server,
    ))
    × (map said rs ≡ map (expected env written) chunks)
write_each-answers_example = write_each-answers env (txt "c") 7 written chunks server

check_backend_queue-drains_example :
    check_backend_queue env full_server
    ≡ some (record full_server {
      backend = record { entries = []; statuses = full_server.backend.statuses };
      sent = full_server.sent ++ messages_of env full_server.backend.entries;
    })
check_backend_queue-drains_example = check_backend_queue-drains env full_server

set_stream-Ended_example : Ended env streaming server (set_stream env streaming server)
set_stream-Ended_example = set_stream-Ended env streaming server

dequeue_many-enqueue_all_example :
    (b' : Backend) × (enqueue_all entries backend ≡ ok b')
    × (dequeue_many (length entries) b' ≡ (entries, backend))
dequeue_many-enqueue_all_example = dequeue_many-enqueue_all entries backend refl

status_changed-effects_example :
    (b' : Backend) × (status_changed write_request done backend ≡ ok b')
    × ((name : Text)
        → get_status name b' ≡ (
            if write_request.filename == name
            then (true, done.state, done.error_message)
            else get_status name backend))
    × (b'.entries ≡ (
        if done.finished
        then backend.entries ++ entry_of write_request done.success done.error_message ∷ []
        else backend.entries))
status_changed-effects_example = status_changed-effects write_request done backend

abbrev broken_round : Round ℕ
broken_round = record idle_round { arrival = socket_threw (runtime_error (txt "x")) }

breaks : (run (idle_round ∷ broken_round ∷ []) server).0 ≡ threw (runtime_error (txt "x"))
unfolding run is_shutdown check_backend_queue dequeue_write_reply
breaks = refl

run-survives_example : SocketThrew (runtime_error (txt "x")) (idle_round ∷ broken_round ∷ [])
run-survives_example = run-survives (idle_round ∷ broken_round ∷ []) server (txt "x") breaks

replace_all_total_example :
    (t : Text) × (replace_all (txt "/frb-archiver-(STREAM)/a") (txt "(STREAM)") (txt "1") ≡ some t)
    × (find (txt "(STREAM)") t ≡ none)
replace_all_total_example =
    replace_all_total (txt "/frb-archiver-(STREAM)/a") (txt "(STREAM)") (txt "1") (omega arith)

stream_beams_iff_example : contains (pos 5) (stream_beams env.beam_ids streaming.beams) ≡ (
    contains (pos 5) env.beam_ids
    && (nat_beq (length streaming.beams) 0 || contains (pos 5) streaming.beams))
stream_beams_iff_example = stream_beams_iff env.beam_ids streaming.beams (pos 5)
