-- ===== src/Rpc/Handler/Replies.antt =====
-- How a request can end: at most one reply, to its own client, and a shutdown only where it is asked for.
use ch_frb_l.Base.{
  ℕ, refl, ap, Bool, true, false, List, [], ◌∷◌, map, Text, txt, text_eq, ◌==◌, if◌then◌else◌,
  Throws, ok, err, Result-cases, nat_beq, length, inl, inr, Bool-cases, arith, pos,
}
use ch_frb_l.FileUtils.System.{FileSystem}
use ch_frb_l.Rpc.Method.{Method, return, ◌>>=◌, if-cases}
use ch_frb_l.Rpc.Object.{Object, bool, str, array, as_text, via_array, unpack}
use ch_frb_l.Rpc.Data.{Chunk}
use ch_frb_l.Rpc.Server.{
  Server, Env, Call, stream_to_files, add_log_server, remove_log_server, call, do_shutdown,
  get_chunks, pack_reply,
}
use ch_frb_l.Rpc.Requests.{
  StreamRequest, WriteChunks, rpc_header, write_chunks_request, stream_request, rate_request,
  history_request,
}
use ch_frb_l.Rpc.Queries.{
  Readings, stream_status, packet_rate, packet_rate_history, statistics, list_chunks,
  writechunk_status, masked_frequencies, max_fpga_counts,
}
use ch_frb_l.Rpc.Handler.{
  filename_pattern, write_meta, start_stream, caught, set_stream, handle_stream, write_each,
  handle_write_chunks, handle_packet_rate, handle_history, answer, handle_status, handle_logging,
  with_argument, dispatch, handle_request,
}
use ch_frb_l.Rpc.Handler.Writes.{write_each-answers, with_queue}
use ch_frb_l.Rpc.Handler.Answers.{
  Quiet, Silent, Answers, Replied, silent, bind-Answers, lift-Answers, if-Answers, return-Answers,
  reply-Answers,
}

-- The request's header reads and names "shutdown".
unfoldable pub asks_shutdown : {D : Type 0} → List (Object D) → Bool
asks_shutdown [] = false
asks_shutdown (o ∷ rest) = elim (rpc_header o) [
  | ok (funcname, _) ↦ funcname == txt "shutdown"
  | err _ ↦ false
]

module _ {D : Type 0} {fs : FileSystem} where
  write_meta-Quiet :
      (env : Env D) (pattern meta : Text) (s : Server D fs)
      → Quiet s (write_meta env pattern meta s)
  unfolding write_meta call
  write_meta-Quiet env pattern meta s = ground arith

  start_stream-Quiet :
      (env : Env D) (r : StreamRequest) (s : Server D fs) → Quiet s (start_stream env r s)
  unfolding start_stream filename_pattern call write_meta
  start_stream-Quiet env r s = ground arith

  caught-Quiet :
      (s : Server D fs) (m : Method (Server D fs) Text) → Quiet s (m s) → Quiet s (caught m s)
  unfolding caught
  caught-Quiet s m q = ground arith

  set_stream-Quiet :
      (env : Env D) (r : StreamRequest) (s : Server D fs) → Quiet s (set_stream env r s)
  unfolding set_stream call
  set_stream-Quiet env r s =
      if-cases (Quiet s) (nat_beq (length r.acq_name) 0)
        (call (stream_to_files [] [] (pos 0) false) >>= λ _. return (true, []))
        (caught (start_stream env r)) s (refl, refl)
        (caught-Quiet s (start_stream env r) (start_stream-Quiet env r s))

  write_each-Quiet :
      (env : Env D) (client : Text) (token : ℕ) (w : WriteChunks) (chunks : List Chunk)
      (s : Server D fs)
      → Quiet s (write_each env client token w chunks s)
  unfolding with_queue
  write_each-Quiet env client token w chunks s =
      let (rs, b, e, _) = write_each-answers env client token w chunks s in
      (ap (λ o. o.1.sent) e, ap (λ o. o.1.shutdown) e)

  set_stream-Silent :
      (env : Env D) (r : StreamRequest) → Silent {D = D} {fs = fs} (set_stream env r)
  set_stream-Silent env r = record { quiet = set_stream-Quiet env r }

  write_each-Silent :
      (env : Env D) (client : Text) (token : ℕ) (w : WriteChunks) (chunks : List Chunk)
      → Silent {D = D} {fs = fs} (write_each env client token w chunks)
  write_each-Silent env client token w chunks = record {
    quiet = write_each-Quiet env client token w chunks;
  }

  call-Silent : (c : Call) → Silent {D = D} {fs = fs} (call c)
  unfolding call
  call-Silent c = record { quiet = λ s. (refl, refl) }

  answer-Answers :
      (env : Env D) (client : Text) (token : ℕ) (r : Throws (Object D))
      → Answers {D = D} {fs = fs} client (answer env client token r)
  unfolding answer
  answer-Answers env client token r = lift-Answers client r _ (reply-Answers env client token)

  handle_stream-Answers :
      (env : Env D) (client : Text) (token : ℕ) (o : Object D)
      → Answers {D = D} {fs = fs} client (handle_stream env client token o)
  unfolding handle_stream
  handle_stream-Answers env client token o = lift-Answers client (via_array o) _ (λ os.
      if-Answers client (nat_beq (length os) 5) _ (return false)
        (lift-Answers client (stream_request os) _ (λ r.
          bind-Answers client (set_stream env r) _ (set_stream-Silent env r)
            (λ result. reply-Answers env client token (array (bool result.0 ∷ str result.1 ∷ [])))))
        (return-Answers client false))

  handle_write_chunks-Answers :
      (env : Env D) (client : Text) (token : ℕ) (o : Object D)
      → Answers {D = D} {fs = fs} client (handle_write_chunks env client token o)
  unfolding handle_write_chunks
  handle_write_chunks-Answers env client token o =
      lift-Answers client (write_chunks_request o) _ (λ w.
        bind-Answers client
          (write_each env client token w (get_chunks env w.beams w.min_fpga w.max_fpga)) _
          (write_each-Silent env client token w (get_chunks env w.beams w.min_fpga w.max_fpga))
          (λ rs. reply-Answers env client token (array (map pack_reply rs))))

  handle_packet_rate-Answers :
      (env : Env D) (q : Readings D) (client : Text) (token : ℕ) (o : Object D)
      → Answers {D = D} {fs = fs} client (handle_packet_rate env q client token o)
  unfolding handle_packet_rate
  handle_packet_rate-Answers env q client token o = lift-Answers client (via_array o) _ (λ os.
      if-Answers client (nat_beq (length os) 2) _ (return false)
        (lift-Answers client (rate_request q.double_of_int os) _
          (λ args. reply-Answers env client token (packet_rate q args.0 args.1)))
        (return-Answers client false))

  handle_history-Answers :
      (env : Env D) (q : Readings D) (client : Text) (token : ℕ) (o : Object D)
      → Answers {D = D} {fs = fs} client (handle_history env q client token o)
  unfolding handle_history
  handle_history-Answers env q client token o = lift-Answers client (via_array o) _ (λ os.
      if-Answers client (nat_beq (length os) 4) _ (return false)
        (lift-Answers client (history_request q.double_of_int os) _
          (λ (a, b, c, l0). reply-Answers env client token (packet_rate_history q a b c l0)))
        (return-Answers client false))

  handle_status-Answers :
      (env : Env D) (client : Text) (token : ℕ) (o : Object D)
      → Answers {D = D} {fs = fs} client (handle_status env client token o)
  unfolding handle_status
  handle_status-Answers env client token o = record {
    sound = λ s.
        (lift-Answers client (as_text o) _ (λ pathname.
            reply-Answers env client token (writechunk_status s.backend pathname))).sound
          s;
  }

  handle_logging-Answers :
      (client : Text) (change : Text → Call) (o : Object D)
      → Answers {D = D} {fs = fs} client (handle_logging change o)
  unfolding handle_logging
  handle_logging-Answers client change o = lift-Answers client (as_text o) _ (λ addr.
      bind-Answers client (call (change addr)) _ (call-Silent (change addr))
        (λ _. return-Answers client true))

  with_argument-Answers :
      (client : Text) (f : Object D → Method (Server D fs) Bool) (os : List (Object D))
      → ((o : Object D) → Answers {D = D} {fs = fs} client (f o))
      → Answers {D = D} {fs = fs} client (with_argument f os)
  unfolding with_argument
  with_argument-Answers client f os h = lift-Answers client (unpack os) _ (λ arg. h arg.0)

  dispatch-Replied :
      (env : Env D) (q : Readings D) (client funcname : Text) (token : ℕ) (os : List (Object D))
      (s : Server D fs)
      → Replied client (funcname == txt "shutdown") s (dispatch env q client funcname token os s)
  unfolding dispatch do_shutdown
  dispatch-Replied env q client funcname token os s =
      elim (Bool-cases (funcname == txt "shutdown")) [
        | inl e ↦ rw e (silent (ok true) (do_shutdown s).1 refl refl)
        | inr e ↦ rw e (
            (otherwise (funcname == txt "start_logging")
                (with_argument-Answers client _ os (handle_logging-Answers client add_log_server))
                (otherwise (funcname == txt "stop_logging")
                  (with_argument-Answers client _ os
                    (handle_logging-Answers client remove_log_server))
                  (otherwise (funcname == txt "stream")
                    (with_argument-Answers client _ os (handle_stream-Answers env client token))
                    (otherwise (funcname == txt "stream_status")
                      (answer-Answers env client token (ok (stream_status q)))
                      (otherwise (funcname == txt "get_packet_rate")
                        (with_argument-Answers client _ os
                          (handle_packet_rate-Answers env q client token))
                        (otherwise (funcname == txt "get_packet_rate_history")
                          (with_argument-Answers client _ os
                            (handle_history-Answers env q client token))
                          (otherwise (funcname == txt "get_statistics")
                            (answer-Answers env client token (statistics q))
                            (otherwise (funcname == txt "list_chunks")
                              (answer-Answers env client token (ok (list_chunks q)))
                              (otherwise (funcname == txt "write_chunks")
                                (with_argument-Answers client _ os
                                  (handle_write_chunks-Answers env client token))
                                (otherwise (funcname == txt "get_writechunk_status")
                                  (with_argument-Answers client _ os
                                    (handle_status-Answers env client token))
                                  (otherwise (funcname == txt "get_masked_frequencies")
                                    (answer-Answers env client token (ok (masked_frequencies q)))
                                    (otherwise (funcname == txt "get_max_fpga_counts")
                                      (answer-Answers env client token (max_fpga_counts q))
                                      (return-Answers client false))))))))))))).sound
              s)
      ]
    where
      otherwise :
          {m n : Method (Server D fs) Bool} (b : Bool)
          → Answers client m
          → Answers client n
          → Answers {D = D} {fs = fs} client (if b then m else n)
      otherwise {m} {n} b p r = if-Answers client b m n p r

  -- However a request ends (with a result, or with an exception): either nothing is sent, or the result
  -- is 0 and exactly one message is sent, to the client of the request; and the server is told to shut
  -- down if and only if it was before or the request is a readable "shutdown".
  pub handle_request-Replied :
      (env : Env D) (q : Readings D) (client : Text) (request : List (Object D)) (s : Server D fs)
      → Replied client (asks_shutdown request) s (handle_request env q client request s)
  unfolding asks_shutdown handle_request
  handle_request-Replied env q client [] s = silent _ s refl refl
  handle_request-Replied env q client (o ∷ rest) s = elim (Result-cases (rpc_header o)) [
    | inl (h, e) ↦ rw (asks_shutdown, e) (dispatch-Replied env q client h.0 h.1 rest s)
    | inr (x, e) ↦ rw (asks_shutdown, e) (silent (err x) s refl refl)
  ]
