-- ===== src/Rpc/Backend.antt =====
-- The queue of replies between the I/O threads and the server (l1_backend_queue), the map of the write
-- statuses (chunk_status_map), and the call that fills both (l1_write_request::status_changed).
pub mod Order
use ch_frb_l.Base.{
  ℕ, ◌+◌, ◌-◌, ◌%◌, ◌^◌, Bool, true, false, List, [], ◌∷◌, ◌++◌, Option, none, some, if◌then◌else◌,
  ok, err, Throws, throws, msg, txt, Text, text_eq, lookup, insert,
}
use ch_frb_l.Rpc.Data.{Chunk, WriteReply, Entry, WriteRequest, StatusChange}

-- The objects that the I/O threads and the server share.
pub record Backend : Type 0 where
  pub entries : List Entry
  pub statuses : List (Text × (Text × Text))

unfoldable pub enqueue_write_reply : Option Entry → Backend → Throws Backend
enqueue_write_reply none b =
    throws (msg "internal error: null pointer in l1_backend_queue::enqueue_write_reply()")
enqueue_write_reply (some e) b = ok (record b { entries = b.entries ++ e ∷ [] })

-- Never waits: the empty pointer `none` on an empty queue.
unfoldable pub dequeue_write_reply : Backend → Option Entry × Backend
dequeue_write_reply b = elim b.entries [
  | [] ↦ (none, b)
  | e ∷ rest ↦ (some e, record b { entries = rest })
]

-- chunk_status_map::set
unfoldable pub set_status : Text → Text → Text → Backend → Backend
set_status filename status error_message b = record b {
  statuses = insert filename (status, error_message) b.statuses;
}

-- chunk_status_map::get: found or not, the status and the error message.
unfoldable pub get_status : Text → Backend → Bool × Text × Text
get_status filename b = elim (lookup filename b.statuses) [
  | none ↦ (false, txt "UNKNOWN", [])
  | some (status, error_message) ↦ (true, status, error_message)
]

-- The reply for a finished request; the width of the chunk is a difference of 64-bit words.
unfoldable pub reply_of : WriteRequest → Bool → Text → WriteReply
reply_of w success error_message = record {
  beam = w.chunk.beam_id;
  fpga0 = w.chunk.fpga_begin;
  fpga_n = (w.chunk.fpga_end + 2 ^ 64 - w.chunk.fpga_begin) % 2 ^ 64;
  filename = w.filename;
  success = success;
  error_message = error_message;
}

unfoldable pub entry_of : WriteRequest → Bool → Text → Entry
entry_of w success error_message = record {
  client = w.client;
  token = w.token;
  reply = reply_of w success error_message;
}

unfoldable pub status_changed : WriteRequest → StatusChange → Backend → Throws Backend
status_changed w c b =
    let b' = set_status w.filename c.state c.error_message b in
    if c.finished
    then enqueue_write_reply (some (entry_of w c.success c.error_message)) b'
    else ok b'
