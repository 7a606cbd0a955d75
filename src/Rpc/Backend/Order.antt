-- ===== src/Rpc/Backend/Order.antt =====
-- What l1_backend_queue and chunk_status_map promise: replies leave in the order in which they came, and
-- a status that was set is the one that is read.
use ch_frb_l.Base.{
  ℕ, zero, suc, append-nil, append_assoc, Bool-cases, ◌≡◌, refl, Bool, true, false, List, [], ◌∷◌,
  ◌++◌, none, some, if◌then◌else◌, ok, err, Text, text_eq, txt, inl, inr, ◌==◌, lookup, insert,
  lookup-insert, length, arith, Throws,
}
use ch_frb_l.Rpc.Data.{Entry, WriteRequest, StatusChange}
use ch_frb_l.Rpc.Backend.{
  Backend, enqueue_write_reply, dequeue_write_reply, set_status, get_status, entry_of,
  status_changed,
}

-- The replies of `es`, enqueued one after another.
unfoldable pub enqueue_all : List Entry → Backend → Throws Backend
enqueue_all [] b = ok b
enqueue_all (e ∷ es) b = elim (enqueue_write_reply (some e) b) [
  | err f ↦ err f
  | ok b' ↦ enqueue_all es b'
]

-- As many calls of dequeue_write_reply() as `n`; an empty pointer ends them.
unfoldable pub dequeue_many : ℕ → Backend → List Entry × Backend
dequeue_many zero b = ([], b)
dequeue_many (suc n) b =
    let (front, b') = dequeue_write_reply b in
    let rest = dequeue_many n b' in elim front [ none ↦ ([], b) | some e ↦ (e ∷ rest.0, rest.1) ]

enqueue_all-entries :
    (es : List Entry) (b : Backend) → enqueue_all es b ≡ ok (record b { entries = b.entries ++ es })
unfolding enqueue_all enqueue_write_reply
enqueue_all-entries [] b = rw (append-nil b.entries)
enqueue_all-entries (e ∷ es) b = rw (
  enqueue_all-entries es (record b { entries = b.entries ++ e ∷ [] }),
  append_assoc b.entries (e ∷ []) es,
)

dequeue_many-entries :
    (es : List Entry) (b : Backend)
    → b.entries ≡ es
    → dequeue_many (length es) b ≡ (es, record b { entries = [] })
unfolding dequeue_many dequeue_write_reply
dequeue_many-entries [] b h = cc
dequeue_many-entries (e ∷ es) b h = rw (h, dequeue_many-entries es (record b { entries = es }) refl)

-- Replies that are enqueued on an empty queue are dequeued in the same order, which leaves it empty, and
-- the statuses are as before.
pub dequeue_many-enqueue_all :
    (es : List Entry) (b : Backend)
    → b.entries ≡ []
    → (b' : Backend) × (enqueue_all es b ≡ ok b') × (dequeue_many (length es) b' ≡ (es, b))
dequeue_many-enqueue_all es b h = (
  record b { entries = es },
  rw (enqueue_all-entries es b, h),
  rw (dequeue_many-entries es (record b { entries = es }) refl, h),
)

-- A status change sets the status of its own file and of no other, and adds a reply to the queue, behind
-- the others, exactly when the request is finished.
pub status_changed-effects :
    (w : WriteRequest) (c : StatusChange) (b : Backend)
    → (b' : Backend) × (status_changed w c b ≡ ok b')
      × ((name : Text)
          → get_status name b'
            ≡ (if w.filename == name then (true, c.state, c.error_message) else get_status name b))
      × (b'.entries ≡ (
          if c.finished then b.entries ++ entry_of w c.success c.error_message ∷ [] else b.entries))
unfolding status_changed set_status get_status enqueue_write_reply
status_changed-effects w c b = elim (Bool-cases c.finished) [
  | inl e ↦ (
    record b {
      entries = b.entries ++ entry_of w c.success c.error_message ∷ [];
      statuses = insert w.filename (c.state, c.error_message) b.statuses;
    },
    rw e,
    λ name. status_of name,
    rw e,
  )
  | inr e ↦ (
    record b { statuses = insert w.filename (c.state, c.error_message) b.statuses },
    rw e,
    λ name. status_of name,
    rw e,
  )
]
  where
    status_of :
        (name : Text)
        → elim (lookup name (insert w.filename (c.state, c.error_message) b.statuses))
            as (λ _. Bool × Text × Text) [
              | none ↦ (false, txt "UNKNOWN", [])
              | some (status, error_message) ↦ (true, status, error_message)
            ]
          ≡ (if w.filename == name then (true, c.state, c.error_message) else get_status name b)
    status_of name =
        ground (lookup-insert w.filename name (c.state, c.error_message) b.statuses, arith)
