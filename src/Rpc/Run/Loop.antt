-- ===== src/Rpc/Run/Loop.antt =====
-- How the receive loop ends, and what it never does.
use ch_frb_l.Base.{
  ◌≡◌, ◌≢◌, sym, ap, ◌∙◌, true, false, List, [], ◌∷◌, Failure, runtime_error, Text, text_eq, inl,
  inr, ◌⊎◌, Bool-cases, none, some, Option-cases, arith,
}
use ch_frb_l.FileUtils.System.{FileSystem}
use ch_frb_l.Rpc.Object.{Object}
use ch_frb_l.Rpc.Server.{Server, is_shutdown}
use ch_frb_l.Rpc.Run.{
  socket_threw, Round, RunEnd, stopped, waiting, threw, io_threads, try_request, forward_replies,
  round, run,
}

-- A call on the socket threw this in one of the rounds.
abbrev pub SocketThrew : {D : Type 0} → Failure → List (Round D) → Type 0
SocketThrew e [] = ⊥
SocketThrew e (r ∷ rounds) = (r.arrival ≡ socket_threw e) ⊎ SocketThrew e rounds

module _ {D : Type 0} {fs : FileSystem} where
  -- The state of a round before it handles a request.
  unfoldable pub at_request : Round D → Server D fs → Server D fs
  at_request r s = forward_replies r.env (io_threads r.finished s)

  run-stopped :
      (rounds : List (Round D)) (s : Server D fs) → s.shutdown ≡ true → run rounds s ≡ (stopped, s)
  unfolding run is_shutdown
  run-stopped [] s h = rw h
  run-stopped (r ∷ rounds) s h = rw h

  run-goes_on :
      (r : Round D) (rounds : List (Round D)) (s : Server D fs)
      → s.shutdown ≡ false
      → (round r s).0 ≡ none
      → run (r ∷ rounds) s ≡ run rounds (round r s).1
  unfolding run is_shutdown
  run-goes_on r rounds s h e = simp (h, e)

  run-leaves :
      (r : Round D) (rounds : List (Round D)) (s : Server D fs) (e : RunEnd)
      → s.shutdown ≡ false
      → (round r s).0 ≡ some e
      → run (r ∷ rounds) s ≡ (e, (round r s).1)
  unfolding run is_shutdown
  run-leaves r rounds s e h k = simp (h, k)

  -- The body of the loop is left by an error of the socket, by an exception of the socket or by one that
  -- is no std::exception.
  round-leaves :
      (r : Round D) (s : Server D fs) (e : RunEnd)
      → (round r s).0 ≡ some e
      → (e ≢ waiting)
        × ((t : Text) → e ≡ threw (runtime_error t) → r.arrival ≡ socket_threw (runtime_error t))
  unfolding round try_request
  round-leaves r s e h = ground arith

  -- A std::exception that leaves the loop was thrown by a call on the socket: one that a request
  -- throws is only logged.
  pub run-survives :
      (rounds : List (Round D)) (s : Server D fs) (t : Text)
      → (run rounds s).0 ≡ threw (runtime_error t)
      → SocketThrew (runtime_error t) rounds
  unfolding run is_shutdown
  run-survives [] s t h = ground arith
  run-survives (r ∷ rounds) s t h = elim (Bool-cases s.shutdown) [
    | inl e ↦ absurd (stopped_threw (sym (ap (λ o. o.0) (run-stopped (r ∷ rounds) s e)) ∙ h))
    | inr e ↦ elim (Option-cases (round r s).0) [
      | inl on ↦ inr (
          run-survives rounds (round r s).1 t
            (sym (ap (λ o. o.0) (run-goes_on r rounds s e on)) ∙ h))
      | inr (ended, k) ↦ inl (
          (round-leaves r s ended k).1 t
            (sym (ap (λ o. o.0) (run-leaves r rounds s ended e k)) ∙ h))
    ]
  ]
    where
      stopped_threw : ◌≡◌ {A = RunEnd} stopped (threw (runtime_error t)) → ⊥
      stopped_threw h = absurd cc
