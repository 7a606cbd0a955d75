-- ===== src/Rpc/Handler/Writes.antt =====
-- The loop of a "write_chunks" request: what it queues and what it answers.
use ch_frb_l.Base.{
  ℕ, ◌+◌, ◌-◌, ◌%◌, ◌^◌, ◌≡◌, refl, ap, ◌∙◌, Bool, true, false, List, [], ◌∷◌, ◌++◌, map,
  append-nil, append_assoc, some, if◌then◌else◌, Text, ok,
}
use ch_frb_l.FileUtils.System.{FileSystem}
use ch_frb_l.Rpc.Method.{Method, return, ◌>>=◌, returns-bind}
use ch_frb_l.Rpc.Data.{Chunk, WriteReply, WriteRequest, StatusChange}
use ch_frb_l.Rpc.Backend.{Backend}
use ch_frb_l.Rpc.Backend.Order.{status_changed-effects}
use ch_frb_l.Rpc.Server.{Server, Env, pool_enqueue, change_statuses}
use ch_frb_l.Rpc.Requests.{WriteChunks}
use ch_frb_l.Rpc.Handler.{write_each}

-- The write request for one chunk.
unfoldable pub request_of : {D : Type 0} → Env D → Text → ℕ → WriteChunks → Chunk → WriteRequest
request_of env client token w c = record {
  chunk = c;
  filename = env.format_filename c w.filename_pattern;
  priority = w.priority;
  need_rfi_mask = w.need_rfi;
  client = some client;
  token = token;
}

-- The requests whose reply says success.
unfoldable pub accepted : List WriteRequest → List WriteReply → List WriteRequest
accepted [] rs = []
accepted (w ∷ ws) [] = []
accepted (w ∷ ws) (r ∷ rs) = if r.success then w ∷ accepted ws rs else accepted ws rs

-- What a reply says of its chunk, and what it should say: beam, first sample and width in FPGA counts,
-- file name, no error message.
unfoldable pub said : WriteReply → ℕ × ℕ × ℕ × Text × Text
said r = (r.beam, r.fpga0, r.fpga_n, r.filename, r.error_message)

unfoldable pub expected : {D : Type 0} → Env D → WriteChunks → Chunk → ℕ × ℕ × ℕ × Text × Text
expected env w c = (
  c.beam_id,
  c.fpga_begin,
  (c.fpga_end + 2 ^ 64 - c.fpga_begin) % 2 ^ 64,
  env.format_filename c w.filename_pattern,
  [],
)

queue_of :
    (success : Bool) (w : WriteRequest) (queued rest : List WriteRequest)
    → (if success then queued ++ w ∷ [] else queued) ++ rest
      ≡ queued ++ (if success then w ∷ rest else rest)
queue_of true w queued rest = append_assoc queued (w ∷ []) rest
queue_of false w queued rest = refl

module _ {D : Type 0} {fs : FileSystem} where
  unfoldable pub with_queue : List WriteRequest → Backend → Server D fs → Server D fs
  with_queue queued b s = record s { queued = queued; backend = b }

  change_statuses-returns :
      (w : WriteRequest) (changes : List StatusChange) (s : Server D fs)
      → (b : Backend) × (change_statuses w changes s ≡ (ok tt, record s { backend = b }))
  unfolding change_statuses
  change_statuses-returns w [] s = (s.backend, refl)
  change_statuses-returns w (c ∷ changes) s =
      let (b, e, _, _) = status_changed-effects w c s.backend in
      let (b', rest) = change_statuses-returns w changes (record s { backend = b }) in
      (b', rw (change_statuses, e, rest))

  pool_enqueue-returns :
      (env : Env D) (w : WriteRequest) (s : Server D fs)
      → (b : Backend) × (pool_enqueue env w s ≡ (
        ok (env.enqueue s.queued w).0,
        with_queue (if (env.enqueue s.queued w).0 then s.queued ++ w ∷ [] else s.queued) b s,
      ))
  unfolding pool_enqueue with_queue
  pool_enqueue-returns env w s =
      let (b, e) = change_statuses-returns w (env.enqueue s.queued w).1 (record s {
        queued = if (env.enqueue s.queued w).0 then s.queued ++ w ∷ [] else s.queued;
      }) in
      (b, returns-bind (λ _. return (env.enqueue s.queued w).0) e)

  -- The loop over the chunks of a write request always ends without an exception: its replies are those
  -- of the chunks, in their order, with the chunk's own beam, FPGA counts and file name and no error
  -- message; the requests queued are those that the replies call a success, in the same order; and of
  -- the server only the queue and the backend change.
  pub write_each-answers :
      (env : Env D) (client : Text) (token : ℕ) (w : WriteChunks) (chunks : List Chunk)
      (s : Server D fs)
      → (rs : List WriteReply) × (b : Backend) × (write_each env client token w chunks s ≡ (
        ok rs,
        with_queue (s.queued ++ accepted (map (request_of env client token w) chunks) rs) b s,
      ))
        × (map said rs ≡ map (expected env w) chunks)
  unfolding write_each with_queue accepted request_of said expected
  write_each-answers env client token w [] s = ([], s.backend, rw (append-nil s.queued), refl)
  write_each-answers env client token w (c ∷ chunks) s =
      let r = request_of env client token w c in
      let success = (env.enqueue s.queued r).0 in
      let queued = if success then s.queued ++ r ∷ [] else s.queued in
      let (b, e) = pool_enqueue-returns env r s in
      let (rs, b', rest, says) =
        write_each-answers env client token w chunks (with_queue queued b s) in
      (
        reply_to c success ∷ rs,
        b',
        returns-bind (each c chunks) e
            ∙ returns-bind (λ rs. return (reply_to c success ∷ rs)) rest
            ∙ ap (λ queued. (ok (reply_to c success ∷ rs), with_queue queued b' s))
                (queue_of success r s.queued
                  (accepted (map (request_of env client token w) chunks) rs)),
        ap (λ answers. expected env w c ∷ answers) says,
      )
    where
      reply_to : Chunk → Bool → WriteReply
      reply_to c success = record {
        beam = c.beam_id;
        fpga0 = c.fpga_begin;
        fpga_n = (c.fpga_end + 2 ^ 64 - c.fpga_begin) % 2 ^ 64;
        filename = env.format_filename c w.filename_pattern;
        success = success;
        error_message = [];
      }

      each : Chunk → List Chunk → Bool → Method (Server D fs) (List WriteReply)
      each c chunks success =
          write_each env client token w chunks >>= λ rs. return (reply_to c success ∷ rs)
