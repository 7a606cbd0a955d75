-- ===== src/Rpc/Server/Draining.antt =====
-- What _check_backend_queue does with the replies of the I/O threads.
use ch_frb_l.Base.{
  suc, ◌≡◌, refl, List, [], ◌∷◌, ◌++◌, append-nil, append_assoc, none, some, Text, length,
  Option-cases, inl, inr, ap, ◌∙◌,
}
use ch_frb_l.FileUtils.System.{FileSystem}
use ch_frb_l.Rpc.Data.{Entry}
use ch_frb_l.Rpc.Backend.{dequeue_write_reply}
use ch_frb_l.Rpc.Server.{
  Server, Env, Message, Delivery, delivered, refused, zmq_error, pack_reply, send_frontend_message,
  check_backend_queue, forward, drain,
}

module _ {D : Type 0} where
  message_of : Env D → Entry → List (Message D)
  message_of env e = elim e.client [
    | none ↦ []
    | some client ↦ elim (env.deliver client) [
      | delivered ↦ record { client = client; token = e.token; content = pack_reply e.reply } ∷ []
      | refused ↦ []
      | zmq_error ↦ []
    ]
  ]

  -- One message for each reply that has a client to which messages can be sent, in the order of the
  -- replies.
  unfoldable pub messages_of : Env D → List Entry → List (Message D)
  unfolding message_of
  messages_of env [] = []
  messages_of env (e ∷ es) = message_of env e ++ messages_of env es

module _ {D : Type 0} {fs : FileSystem} where
  forward_lem :
      (env : Env D) (e : Entry) (s : Server D fs)
      → forward env e s ≡ record s { sent = s.sent ++ message_of env e }
  unfolding forward send_frontend_message message_of
  forward_lem env e s = elim (Option-cases e.client) [
    | inl h ↦ rw (h, append-nil s.sent)
    | inr (client, h) ↦ sent client h (env.deliver client) refl
  ]
    where
      sent :
          (client : Text)
          → e.client ≡ some client
          → (d : Delivery) → env.deliver client ≡ d
          → forward env e s ≡ record s { sent = s.sent ++ message_of env e }
      sent client h delivered k = rw (forward, message_of, h, send_frontend_message, k)
      sent client h refused k =
          rw (forward, message_of, h, send_frontend_message, k, append-nil s.sent)
      sent client h zmq_error k =
          rw (forward, message_of, h, send_frontend_message, k, append-nil s.sent)

  with_backend : List Entry → List (Text × (Text × Text)) → Server D fs → Server D fs
  with_backend es statuses s = record s { backend = record { entries = es; statuses = statuses } }

  drain_lem :
      (env : Env D) (es : List Entry) (statuses : List (Text × (Text × Text))) (s : Server D fs)
      → drain env (suc (length es)) (with_backend es statuses s)
        ≡ some (with_backend [] statuses (record s { sent = s.sent ++ messages_of env es }))
  unfolding drain dequeue_write_reply messages_of with_backend
  drain_lem env [] statuses s = rw (append-nil s.sent)
  drain_lem env (e ∷ es) statuses s =
      ap (drain env (suc (length es))) (forward_lem env e (with_backend es statuses s))
      ∙ drain_lem env es statuses (record s { sent = s.sent ++ message_of env e })
      ∙ ap (λ sent. some (with_backend [] statuses (record s { sent = sent })))
          (append_assoc s.sent (message_of env e) (messages_of env es))

  -- The loop over the queue of replies ends, with the queue empty; each reply whose client takes messages
  -- was sent to it once, in the order of the queue, and nothing else has changed.
  pub check_backend_queue-drains :
      (env : Env D) (s : Server D fs)
      → check_backend_queue env s
        ≡ some (record s {
          backend = record { entries = []; statuses = s.backend.statuses };
          sent = s.sent ++ messages_of env s.backend.entries;
        })
  unfolding check_backend_queue with_backend
  check_backend_queue-drains env s = drain_lem env s.backend.entries s.backend.statuses s
