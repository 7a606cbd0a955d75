-- ===== src/Rpc/Run.antt =====
-- L1RpcServer::run: the receive loop. What the other threads and the clients do between two rounds is the
-- list of the rounds; each begins with the status changes that the I/O threads made since the last one.
pub mod Loop
use ch_frb_l.Base.{
  ℕ, suc, Bool, true, false, List, [], ◌∷◌, Option, none, some, if◌then◌else◌, ok, err, Throws,
  Failure, runtime_error, Text, length,
}
use ch_frb_l.FileUtils.System.{FileSystem}
use ch_frb_l.Rpc.Object.{Object}
use ch_frb_l.Rpc.Data.{WriteRequest, StatusChange}
use ch_frb_l.Rpc.Backend.{Backend}
use ch_frb_l.Rpc.Server.{Server, Env, is_shutdown, check_backend_queue, change_statuses}
use ch_frb_l.Rpc.Queries.{Readings}
use ch_frb_l.Rpc.Handler.{handle_request}

-- What the frontend socket receives in one round: nothing within the timeout, an error, a message of one
-- part, a second part that is not received, more than two parts (all of them are read), or a request;
-- or a call of recv() or getsockopt() throws, which is outside the `try`.
pub data Arrival (D : Type 0) : Type 0 where
  timed_out receive_error only_one_part no_second_part extra_parts : Arrival D
  request : Text → List (Object D) → Arrival D
  socket_threw : Failure → Arrival D

pub record Round (D : Type 0) : Type 0 where
  pub finished : List (WriteRequest × List StatusChange)
  pub env : Env D
  pub readings : Readings D
  pub arrival : Arrival D

-- How a run ends: the loop is left, on a shutdown or on an error of the socket; an exception leaves
-- it, that of the socket or one that is no std::exception; or the given rounds are over and it waits for more.
pub data RunEnd : Type 0 where
  stopped socket_failed waiting : RunEnd
  threw : Failure → RunEnd

module _ {D : Type 0} {fs : FileSystem} where
  -- The I/O threads between two rounds.
  unfoldable pub io_threads : List (WriteRequest × List StatusChange) → Server D fs → Server D fs
  io_threads [] s = s
  io_threads ((w, changes) ∷ rest) s = io_threads rest (change_statuses w changes s).1

  -- The `try` of a request: a std::exception is only logged. `some` is an exception that leaves the loop.
  unfoldable pub try_request :
      Env D → Readings D → Text → List (Object D) → Server D fs → Option Failure × Server D fs
  try_request env q client os s =
      let (r, s') = handle_request env q client os s in
      elim r [ ok _ ↦ (none, s') | err (runtime_error t) ↦ (none, s') | err e ↦ (some e, s') ]

  -- The queue of replies, its loop bounded by the length of the queue (see check_backend_queue).
  unfoldable pub forward_replies : Env D → Server D fs → Server D fs
  forward_replies env s = elim (check_backend_queue env s) [ none ↦ s | some s' ↦ s' ]

  -- The body of the loop; `none` goes on with the next round.
  unfoldable pub round : Round D → Server D fs → Option RunEnd × Server D fs
  unfolding io_threads forward_replies try_request
  round r s =
      let s1 = forward_replies r.env (io_threads r.finished s) in
      elim r.arrival [
        | timed_out ↦ (none, s1)
        | receive_error ↦ (some socket_failed, s1)
        | only_one_part ↦ (none, s1)
        | no_second_part ↦ (none, s1)
        | extra_parts ↦ (none, s1)
        | socket_threw e ↦ (some (threw e), s1)
        | request client os ↦
            let (threw_out, s2) = try_request r.env r.readings client os s1 in
            (elim threw_out [ none ↦ none | some e ↦ some (threw e) ], s2)
      ]

  -- `while (!is_shutdown()) { ... }`
  unfoldable pub run : List (Round D) → Server D fs → RunEnd × Server D fs
  unfolding round
  run [] s = (if is_shutdown s then stopped else waiting, s)
  run (r ∷ rounds) s =
      let (left, s') = round r s in
      let rest = run rounds s' in
      if is_shutdown s then (stopped, s) else elim left [ none ↦ rest | some e ↦ (e, s') ]
