-- ===== src/Rpc/Server.antt =====
-- The state of an L1RpcServer, what it uses of the libraries, and its methods but for the handler of
-- requests and the receive loop.
pub mod Draining
use ch_frb_l.Base.{
  ℕ, zero, suc, ◌+◌, Bool, true, false, List, [], ◌∷◌, ◌++◌, map, Option, none, some, if◌then◌else◌,
  Result, ok, err, Throws, Failure, runtime_error, throws, msg, txt, Text, ℤ, pos, length,
}
use ch_frb_l.Rpc.Method.{Method, return, lift, ◌>>=◌, ◌>>◌}
use ch_frb_l.FileUtils.System.{FileSystem}
use ch_frb_l.Rpc.Object.{Object, nil, bool, int, double, str, array}
use ch_frb_l.Rpc.Data.{Chunk, WriteReply, Entry, WriteRequest, StatusChange}
use ch_frb_l.Rpc.Backend.{Backend, dequeue_write_reply, status_changed}

-- What sending three message parts to a client on the frontend socket does.
pub data Delivery : Type 0 where
  delivered refused zmq_error : Delivery

-- A call of the stream or of the logger that changes them.
pub data Call : Type 0 where
  end_stream join_threads : Call
  stream_to_files : Text → List ℤ → ℤ → Bool → Call
  add_log_server remove_log_server : Text → Call
  write_metadata : Text → Text → Call

-- A delivered reply: the client's identity, the token, the content.
pub record Message (D : Type 0) : Type 0 where
  pub client : Text
  pub token : ℕ
  pub content : Object D

-- What the server uses of ch_frb_io, ZeroMQ and the other libraries during one call. `enqueue` is the
-- pool of output devices: it is given the requests that it has and a new one, and answers whether it
-- was queued and the status_changed() calls that it made before it returned.
pub record Env (D : Type 0) : Type 0 where
  pub beam_ids : List ℤ
  pub stream_id : ℤ
  pub nrfifreq : ℤ
  pub fpga_counts_per_sample : ℕ
  pub deliver : Text → Delivery
  pub enqueue : List WriteRequest → WriteRequest → Bool × List StatusChange
  pub ringbuf_snapshots : List ℤ → ℕ → ℕ → List (List (Chunk × ℕ))
  pub all_ringbuf_snapshots : List ℤ → List (List (Chunk × ℕ))
  pub format_filename : Chunk → Text → Text
  pub can_open : Text → Bool

pub record Server (D : Type 0) (fs : FileSystem) : Type 0 where
  pub backend : Backend
  pub queued : List WriteRequest
  pub shutdown : Bool
  pub calls : List Call
  pub sent : List (Message D)
  pub files : fs.State

-- msgpack::pack of a WriteChunks_Reply.
unfoldable pub pack_reply : {D : Type 0} → WriteReply → Object D
pack_reply r = array (
    int (pos r.beam)
    ∷ int (pos r.fpga0)
    ∷ int (pos r.fpga_n)
    ∷ str r.filename
    ∷ bool r.success
    ∷ str r.error_message
    ∷ [])

flatten_chunks : List (Chunk × ℕ) → List Chunk
flatten_chunks snapshot = map (λ c. c.0) snapshot

collapse : List (List (Chunk × ℕ)) → List Chunk
collapse [] = []
collapse (beam ∷ beams) = flatten_chunks beam ++ collapse beams

unfoldable pub get_chunks : {D : Type 0} → Env D → List ℤ → ℕ → ℕ → List Chunk
unfolding collapse flatten_chunks
get_chunks env beams min_fpga max_fpga = collapse (env.ringbuf_snapshots beams min_fpga max_fpga)

module _ {D : Type 0} {fs : FileSystem} where
  unfoldable pub is_shutdown : Server D fs → Bool
  is_shutdown s = s.shutdown

  unfoldable pub call : Call → Method (Server D fs) Unit
  call c s = (ok tt, record s { calls = s.calls ++ c ∷ [] })

  unfoldable pub do_shutdown : Method (Server D fs) Unit
  unfolding call
  do_shutdown s =
      (ok tt, record s { shutdown = true; calls = s.calls ++ end_stream ∷ join_threads ∷ [] })

  -- 0 on success and -1 (`false`) on an error, which is only logged.
  unfoldable pub send_frontend_message :
      Env D → Text → ℕ → Object D → Server D fs → Bool × Server D fs
  send_frontend_message env client token content s = elim (env.deliver client) [
    | delivered ↦ (
      true,
      record s {
        sent = s.sent ++ record { client = client; token = token; content = content } ∷ [];
      },
    )
    | refused ↦ (false, s)
    | zmq_error ↦ (false, s)
  ]

  -- The reply of an entry goes to its client, if it has one.
  unfoldable pub forward : Env D → Entry → Server D fs → Server D fs
  forward env e s = elim e.client [
    | none ↦ s
    | some client ↦ (send_frontend_message env client e.token (pack_reply e.reply) s).1
  ]

  -- The loop of _check_backend_queue, at most `fuel` rounds; `none` means that the fuel ran out.
  unfoldable pub drain : Env D → ℕ → Server D fs → Option (Server D fs)
  unfolding forward
  drain env zero s = none
  drain env (suc fuel) s =
      let (front, backend) = dequeue_write_reply s.backend in
      elim front [
        | none ↦ some s
        | some e ↦ drain env fuel (forward env e (record s { backend = backend }))
      ]

  -- One round more than there are entries.
  unfoldable pub check_backend_queue : Env D → Server D fs → Option (Server D fs)
  unfolding drain
  check_backend_queue env s = drain env (suc (length s.backend.entries)) s

  -- The calls of status_changed() that an I/O thread or the pool makes.
  unfoldable pub change_statuses : WriteRequest → List StatusChange → Method (Server D fs) Unit
  change_statuses w [] s = (ok tt, s)
  change_statuses w (c ∷ changes) s = elim (status_changed w c s.backend) [
    | err e ↦ (err e, s)
    | ok b ↦ change_statuses w changes (record s { backend = b })
  ]

  -- output_device_pool::enqueue_write_request
  unfoldable pub pool_enqueue : Env D → WriteRequest → Method (Server D fs) Bool
  unfolding change_statuses
  pool_enqueue env w s =
      let (success, changes) = env.enqueue s.queued w in
      let queued = if success then s.queued ++ w ∷ [] else s.queued in
      (do _ ← change_statuses w changes; return success) (record s { queued = queued })

  -- The method of the same name, for tests: no client waits for the reply.
  unfoldable pub enqueue_write_request : Env D → Chunk → Text → ℤ → Method (Server D fs) Unit
  enqueue_write_request env chunk filename priority = do
    success ← pool_enqueue env (record {
      chunk = chunk;
      filename = filename;
      priority = priority;
      need_rfi_mask = false;
      client = none;
      token = 0;
    })
    if success
        then return tt
        else lift (
            throws (
              msg "L1RpcServer::enqueue_write_request: filename '"
              ++ filename
              ++ msg "' failed to queue"))
