-- ===== src/Rpc/Handler.antt =====
-- L1RpcServer::_handle_request. A request is the list of the objects that unpacking its bytes one after
-- another gives. The result is `true` for 0 and `false` for -1.
pub mod Beams
pub mod Stream
pub mod Answers
pub mod Replies
pub mod Writes
use ch_frb_l.Base.{
  ℕ, suc, ◌+◌, ◌-◌, ◌%◌, ◌^◌, map, ◌<◌, Bool, true, false, not, ◌&&◌, ◌||◌, List, [], ◌∷◌, ◌++◌,
  Option, none, some, if◌then◌else◌, Result, ok, err, Throws, Failure, runtime_error, undefined,
  throws, msg, txt, Text, text_eq, int_eq, ◌==◌, contains, ℤ, pos, is_pos, nat_beq, length,
  int_to_string,
}
use ch_frb_l.FileUtils.System.{FileSystem}
use ch_frb_l.FileUtils.{acqname_to_filename_pattern, acq_pattern_to_dir}
use ch_frb_l.Rpc.Method.{Method, return, lift, ◌>>=◌, ◌>>◌}
use ch_frb_l.Rpc.Object.{
  Object, bool, str, array, as_text, as_bool, as_int, as_uint, as_double, as_ints, as_texts,
  via_array, as_array, unpack, nil, int, double, Items,
}
use ch_frb_l.Rpc.Data.{Chunk, WriteReply, WriteRequest}
use ch_frb_l.Rpc.Backend.{get_status}
use ch_frb_l.Rpc.Server.{
  Server, Env, Call, stream_to_files, add_log_server, remove_log_server, write_metadata, pack_reply,
  get_chunks, call, do_shutdown, send_frontend_message, pool_enqueue,
}
use ch_frb_l.Rpc.Queries.{
  Readings, stream_status, packet_rate, packet_rate_history, statistics, list_chunks,
  writechunk_status, masked_frequencies, max_fpga_counts,
}
use ch_frb_l.Rpc.Requests.{
  WriteChunks, StreamRequest, stream_beams, rpc_header, write_chunks_request, stream_request,
  rate_request, history_request,
}
use ch_frb_l.Rpc.Replace.{replace_all}

-- The directory of the metadata: "(STREAM)" becomes the stream's id, a few digits, so that the fuel of
-- replace_all is enough.
unfoldable pub metadata_dir : Text → ℤ → Text
metadata_dir acqdir stream_id =
    elim (replace_all acqdir (txt "(STREAM)") (int_to_string stream_id)) [
      | none ↦ acqdir
      | some dir ↦ dir
    ]

module _ {D : Type 0} {fs : FileSystem} where
  -- Packs `content` and sends it to the client of the request.
  unfoldable pub reply : Env D → Text → ℕ → Object D → Method (Server D fs) Bool
  reply env client token content s =
      let (sent, s') = send_frontend_message env client token content s in (ok sent, s')

  -- acqname_to_filename_pattern, which may change the file system.
  unfoldable pub filename_pattern : Env D → Text → Text → Bool → Method (Server D fs) Text
  filename_pattern env acq_dev acq_name acq_new s =
      let (r, files) =
        acqname_to_filename_pattern fs s.files acq_dev acq_name (env.stream_id ∷ []) env.beam_ids
          acq_new in
      (r, record s { files = files })

  -- The metadata file of a new acquisition: a failure to open it is only logged.
  unfoldable pub write_meta : Env D → Text → Text → Method (Server D fs) Unit
  unfolding metadata_dir
  write_meta env pattern acq_meta = do
    acqdir ← lift (acq_pattern_to_dir pattern)
    let fn = metadata_dir acqdir env.stream_id ++ txt "/metadata.json"
    if env.can_open fn then call (write_metadata fn acq_meta) else return tt

  -- The `try` block: the new pattern.
  unfoldable pub start_stream : Env D → StreamRequest → Method (Server D fs) Text
  unfolding filename_pattern write_meta
  start_stream env r = do
    pattern ←
        filename_pattern env (if nat_beq (length r.acq_dev) 0 then txt "ssd" else r.acq_dev)
          r.acq_name r.acq_new
    _ ←
        (if r.acq_new && not (nat_beq (length r.acq_meta) 0)
          then write_meta env pattern r.acq_meta
          else return tt)
    _ ←
        call (
          stream_to_files pattern (stream_beams env.beam_ids r.beams) (pos 0) (is_pos env.nrfifreq))
    return pattern

  -- `catch (const std::exception &)`: the text of the exception is part of the reply.
  unfoldable pub caught : Method (Server D fs) Text → Method (Server D fs) (Bool × Text)
  caught m s =
      let (r, s') = m s in
      elim r [
        | ok t ↦ (ok (true, t), s')
        | err (runtime_error t) ↦ (ok (false, t), s')
        | err e ↦ (err e, s')
      ]

  -- The pair `result` of the reply.
  unfoldable pub set_stream : Env D → StreamRequest → Method (Server D fs) (Bool × Text)
  unfolding caught start_stream
  set_stream env r =
      if nat_beq (length r.acq_name) 0
      then (call (stream_to_files [] [] (pos 0) false) >>= λ _. return (true, []))
      else caught (start_stream env r)

  unfoldable pub handle_stream : Env D → Text → ℕ → Object D → Method (Server D fs) Bool
  unfolding set_stream reply
  handle_stream env client token o = do
    os ← lift (via_array o)
    if nat_beq (length os) 5
        then (do
          r ← lift (stream_request os)
          result ← set_stream env r
          reply env client token (array (bool result.0 ∷ str result.1 ∷ [])))
        else return false

  -- The loop of "write_chunks" over the chunks: one reply for each, whose error message stays empty.
  unfoldable pub write_each :
      Env D → Text → ℕ → WriteChunks → List Chunk → Method (Server D fs) (List WriteReply)
  write_each env client token w [] = return []
  write_each env client token w (c ∷ chunks) = do
    let filename = env.format_filename c w.filename_pattern
    success ← pool_enqueue env (record {
      chunk = c;
      filename = filename;
      priority = w.priority;
      need_rfi_mask = w.need_rfi;
      client = some client;
      token = token;
    })
    replies ← write_each env client token w chunks
    return (
        record {
          beam = c.beam_id;
          fpga0 = c.fpga_begin;
          fpga_n = (c.fpga_end + 2 ^ 64 - c.fpga_begin) % 2 ^ 64;
          filename = filename;
          success = success;
          error_message = [];
        }
        ∷ replies)

  unfoldable pub handle_write_chunks : Env D → Text → ℕ → Object D → Method (Server D fs) Bool
  unfolding write_each reply
  handle_write_chunks env client token o = do
    w ← lift (write_chunks_request o)
    replies ← write_each env client token w (get_chunks env w.beams w.min_fpga w.max_fpga)
    reply env client token (array (map pack_reply replies))

  unfoldable pub handle_packet_rate :
      Env D → Readings D → Text → ℕ → Object D → Method (Server D fs) Bool
  unfolding reply
  handle_packet_rate env q client token o = do
    os ← lift (via_array o)
    if nat_beq (length os) 2
        then (do
          (start, period) ← lift (rate_request q.double_of_int os)
          reply env client token (packet_rate q start period))
        else return false

  unfoldable pub handle_history :
      Env D → Readings D → Text → ℕ → Object D → Method (Server D fs) Bool
  unfolding reply
  handle_history env q client token o = do
    os ← lift (via_array o)
    if nat_beq (length os) 4
        then (do
          (start, end_time, period, l0) ← lift (history_request q.double_of_int os)
          reply env client token (packet_rate_history q start end_time period l0))
        else return false

  -- The requests that take no more objects.
  unfoldable pub answer : Env D → Text → ℕ → Throws (Object D) → Method (Server D fs) Bool
  unfolding reply
  answer env client token r = do content ← lift r; reply env client token content

  -- "get_writechunk_status": the status map is read.
  unfoldable pub handle_status : Env D → Text → ℕ → Object D → Method (Server D fs) Bool
  unfolding reply
  handle_status env client token o s =
      (do
        pathname ← lift (as_text o)
        reply env client token (writechunk_status s.backend pathname))
        s

  unfoldable pub handle_logging : (Text → Call) → Object D → Method (Server D fs) Bool
  handle_logging change o = do addr ← lift (as_text o); _ ← call (change addr); return true

  -- The functions that take an argument, given what follows the header.
  unfoldable pub with_argument :
      (Object D → Method (Server D fs) Bool) → List (Object D) → Method (Server D fs) Bool
  with_argument f os = do (o, rest) ← lift (unpack os); f o

  -- The chain of tests of the function's name.
  unfoldable pub dispatch :
      Env D → Readings D → Text → Text → ℕ → List (Object D) → Method (Server D fs) Bool
  unfolding with_argument handle_logging handle_stream answer handle_packet_rate handle_history
      handle_write_chunks handle_status
  dispatch env q client funcname token os =
      if funcname == txt "shutdown"
      then (do_shutdown >>= λ _. return true)
      else if funcname == txt "start_logging"
      then with_argument (handle_logging add_log_server) os
      else if funcname == txt "stop_logging"
      then with_argument (handle_logging remove_log_server) os
      else if funcname == txt "stream"
      then with_argument (handle_stream env client token) os
      else if funcname == txt "stream_status"
      then answer env client token (ok (stream_status q))
      else if funcname == txt "get_packet_rate"
      then with_argument (handle_packet_rate env q client token) os
      else if funcname == txt "get_packet_rate_history"
      then with_argument (handle_history env q client token) os
      else if funcname == txt "get_statistics"
      then answer env client token (statistics q)
      else if funcname == txt "list_chunks"
      then answer env client token (ok (list_chunks q))
      else if funcname == txt "write_chunks"
      then with_argument (handle_write_chunks env client token) os
      else if funcname == txt "get_writechunk_status"
      then with_argument (handle_status env client token) os
      else if funcname == txt "get_masked_frequencies"
      then answer env client token (ok (masked_frequencies q))
      else if funcname == txt "get_max_fpga_counts"
      then answer env client token (max_fpga_counts q)
      else return false

  unfoldable pub handle_request :
      Env D → Readings D → Text → List (Object D) → Method (Server D fs) Bool
  unfolding dispatch
  handle_request env q client request = do
    (header, rest) ← lift (unpack request)
    (funcname, token) ← lift (rpc_header header)
    dispatch env q client funcname token rest
