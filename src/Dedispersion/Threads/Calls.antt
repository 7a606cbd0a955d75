-- ===== src/Dedispersion/Threads/Calls.antt =====
-- The calls of set_bonsai() that a thread makes.
use ch_frb_l.Base.{
  ℕ, ◌≡◌, ◌⊎◌, refl, ap, subst, ◌∙◌, true, false, List, [], ◌∷◌, ◌++◌, Option, none, some, ok, err,
  Throws, Failure, arith, Result-cases, Bool-cases, inl, inr, ok_injective,
}
use ch_frb_l.MaskStats.{MaskStats}
use ch_frb_l.L1Config.Environment.{L1Config}
use ch_frb_l.L1Server.{Context}
use ch_frb_l.L1Server.Rpc.{Announcement}
use ch_frb_l.Dedispersion.{RuntimeAttrs}
use ch_frb_l.Dedispersion.Threads.{
  Action, pinned, mask_counters, called_set_bonsai, run_pipeline, report_max, wait_for_child,
  started_stream, get_assembled_chunk, usleep, Libraries, Run, ◌>>=◌, lift, act, Prepared,
  before_run, finish, thread_main, toy_loop, run_toy, toy_start, toy_thread_main,
  dedispersion_thread_main,
}

module _ {D Bonsai Pipeline Ring : Type 0} where
  abbrev pub calls_of : List (Action D Bonsai Pipeline Ring) → List (Announcement Bonsai Pipeline)
  calls_of [] = []
  calls_of (called_set_bonsai a ∷ actions) = a ∷ calls_of actions
  calls_of (pinned cores ∷ actions) = calls_of actions
  calls_of (mask_counters attrs ms_map ∷ actions) = calls_of actions
  calls_of (run_pipeline p ∷ actions) = calls_of actions
  calls_of (report_max ∷ actions) = calls_of actions
  calls_of (wait_for_child pipe ∷ actions) = calls_of actions
  calls_of (started_stream i ∷ actions) = calls_of actions
  calls_of (get_assembled_chunk i ∷ actions) = calls_of actions
  calls_of (usleep n ∷ actions) = calls_of actions

  calls_of-append :
      (xs ys : List (Action D Bonsai Pipeline Ring))
      → calls_of (xs ++ ys) ≡ calls_of xs ++ calls_of ys
  calls_of-append [] ys = refl
  calls_of-append (called_set_bonsai a ∷ xs) ys = ap (◌∷◌ a) (calls_of-append xs ys)
  calls_of-append (pinned cores ∷ xs) ys = calls_of-append xs ys
  calls_of-append (mask_counters attrs ms_map ∷ xs) ys = calls_of-append xs ys
  calls_of-append (run_pipeline p ∷ xs) ys = calls_of-append xs ys
  calls_of-append (report_max ∷ xs) ys = calls_of-append xs ys
  calls_of-append (wait_for_child pipe ∷ xs) ys = calls_of-append xs ys
  calls_of-append (started_stream i ∷ xs) ys = calls_of-append xs ys
  calls_of-append (get_assembled_chunk i ∷ xs) ys = calls_of-append xs ys
  calls_of-append (usleep n ∷ xs) ys = calls_of-append xs ys

  calls_of-bind :
      {A B : Type 0} (m : Run (Action D Bonsai Pipeline Ring) A)
      (f : A → Run (Action D Bonsai Pipeline Ring) B) (a : A)
      → m.1 ≡ ok a
      → calls_of (m >>= f).0 ≡ calls_of m.0 ++ calls_of (f a).0
  unfolding ◌>>=◌
  calls_of-bind (actions, ok b) f a e = rw (ok_injective e) (calls_of-append actions (f a).0)
  calls_of-bind (actions, err x) f a e = absurd (ground arith)

  calls_of-stop :
      {A B : Type 0} (m : Run (Action D Bonsai Pipeline Ring) A)
      (f : A → Run (Action D Bonsai Pipeline Ring) B) (x : Failure)
      → m.1 ≡ err x
      → calls_of (m >>= f).0 ≡ calls_of m.0
  unfolding ◌>>=◌
  calls_of-stop (actions, ok b) f x e = absurd (ground arith)
  calls_of-stop (actions, err y) f x e = refl

  -- A part that makes no call, and whose result satisfies `P`.
  record Silent {A : Type 0} (P : A → Type 0) (r : Run (Action D Bonsai Pipeline Ring) A)
      : Type 0 where
    silent : calls_of r.0 ≡ []
    returns : (a : A) → r.1 ≡ ok a → P a

  Silent-bind :
      {A B : Type 0} {Q : B → Type 0} {m : Run (Action D Bonsai Pipeline Ring) A}
      {f : A → Run (Action D Bonsai Pipeline Ring) B}
      → Silent (λ _. Unit) m
      → ((a : A) → Silent Q (f a))
      → Silent Q (m >>= f)
  unfolding ◌>>=◌
  Silent-bind {m = (actions, ok a)} {f} h k =
      let e : calls_of (actions ++ (f a).0) ≡ [] =
        rw (calls_of-append actions (f a).0, h.silent, (k a).silent) refl in
      record { silent = e; returns = (k a).returns }
  Silent-bind {m = (actions, err e)} h k = record { silent = h.silent; returns = λ a f. cc }

  Silent-lift : {A : Type 0} (r : Throws A) → Silent (λ _. Unit) (lift r)
  unfolding lift
  Silent-lift r = record { silent = refl; returns = λ a e. tt }

  Silent-pinned : (cores : List ℕ) → Silent (λ _. Unit) (act (pinned cores))
  unfolding act
  Silent-pinned cores = record { silent = refl; returns = λ a e. tt }

  Silent-counters :
      (attrs : List RuntimeAttrs) (ms_map : MaskStats Ring)
      → Silent (λ _. Unit) (act (mask_counters attrs ms_map))
  unfolding act
  Silent-counters attrs ms_map = record { silent = refl; returns = λ a e. tt }

  Silent-started_stream : (i : ℕ) → Silent (λ _. Unit) (act (started_stream i))
  unfolding act
  Silent-started_stream i = record { silent = refl; returns = λ a e. tt }

  Silent-return : {A : Type 0} (P : A → Type 0) (a : A) → P a → Silent P (lift (ok a))
  unfolding lift
  Silent-return P a p = record { silent = refl; returns = λ b e. subst P (ground (arith, e)) p }

module _ {D Bonsai Pipeline Ring : Type 0} (lib : Libraries D Bonsai Pipeline Ring)
    (c : L1Config D) where
  before_run-Silent :
      (k : Context D) (ms_map : MaskStats Ring)
      → Silent (λ p. p.announcement.beam ≡ k.ibeam) (before_run lib c k ms_map)
  unfolding before_run
  before_run-Silent k ms_map =
      search (Silent-bind, Silent-lift, Silent-pinned, Silent-counters, Silent-return) depth 40

  toy_start-Silent : (k : Context D) → Silent (λ _. Unit) (toy_start lib c k)
  unfolding toy_start
  toy_start-Silent k =
      search (Silent-bind, Silent-lift, Silent-pinned, Silent-started_stream) depth 40

  finish_calls :
      (k : Context D) (p : Prepared Bonsai Pipeline)
      → calls_of (finish lib c k p).0 ≡ p.announcement ∷ []
  unfolding finish ◌>>=◌ lift act
  finish_calls k p = ground arith

  thread_calls :
      (k : Context D) (ms_map : MaskStats Ring) (p : Prepared Bonsai Pipeline)
      → (before_run lib c k ms_map).1 ≡ ok p
      → calls_of (thread_main lib c k ms_map).0 ≡ p.announcement ∷ []
  unfolding thread_main
  thread_calls k ms_map p e =
      calls_of-bind (before_run lib c k ms_map) (finish lib c k) p e
      ∙ rw (before_run-Silent k ms_map).silent (finish_calls k p)

  thread_no_calls :
      (k : Context D) (ms_map : MaskStats Ring) (x : Failure)
      → (before_run lib c k ms_map).1 ≡ err x
      → calls_of (thread_main lib c k ms_map).0 ≡ []
  unfolding thread_main
  thread_no_calls k ms_map x e =
      calls_of-stop (before_run lib c k ms_map) (finish lib c k) x e
      ∙ (before_run-Silent k ms_map).silent

  toy_loop_calls :
      {Chunk : Type 0} (i ibeam : ℕ) (chunks : List (Option Chunk))
      → calls_of {D = D} {Bonsai = Bonsai} {Pipeline = Pipeline} {Ring = Ring}
          (toy_loop i ibeam chunks).0
        ≡ []
  unfolding toy_loop
  toy_loop_calls i ibeam [] = refl
  toy_loop_calls i ibeam (none ∷ chunks) = refl
  toy_loop_calls i ibeam (some chunk ∷ chunks) = toy_loop_calls i ibeam chunks

  run_toy_calls :
      {Chunk : Type 0} (ibeam : ℕ) (chunks : List (Option Chunk))
      (r : Run (Action D Bonsai Pipeline Ring) ℕ)
      → calls_of r.0 ≡ []
      → calls_of (run_toy ibeam chunks r).0 ≡ []
  unfolding run_toy
  run_toy_calls ibeam chunks (actions, err e) h = h
  run_toy_calls ibeam chunks (actions, ok i) h =
      calls_of-append actions (toy_loop i ibeam chunks).0
      ∙ rw (h, toy_loop_calls i ibeam chunks) refl

  -- The calls of a thread: none in the toy server; else one for its beam, if its preparations return.
  pub thread_calls_cases :
      {Chunk : Type 0} (k : Context D) (ms_map : MaskStats Ring) (chunks : List (Option Chunk))
      → ((c.options.tflag ≡ true)
          × (calls_of (dedispersion_thread_main lib c k ms_map chunks).0 ≡ []))
        ⊎ (((c.options.tflag ≡ false)
              × (p : Prepared Bonsai Pipeline) × ((before_run lib c k ms_map).1 ≡ ok p)
              × (calls_of (dedispersion_thread_main lib c k ms_map chunks).0 ≡ p.announcement ∷ [])
              × (p.announcement.beam ≡ k.ibeam))
            ⊎ ((c.options.tflag ≡ false)
                × (x : Failure) × ((before_run lib c k ms_map).1 ≡ err x)
                × (calls_of (dedispersion_thread_main lib c k ms_map chunks).0 ≡ [])))
  unfolding dedispersion_thread_main toy_thread_main
  thread_calls_cases k ms_map chunks = elim (Bool-cases c.options.tflag) [
    | inl toy ↦ inl (
      toy,
      simp toy (run_toy_calls k.ibeam chunks (toy_start lib c k) (toy_start-Silent k).silent),
    )
    | inr real ↦ elim (Result-cases (before_run lib c k ms_map).1) [
      | inl (p, e) ↦ inr (
          inl (
            real,
            p,
            e,
            simp real (thread_calls k ms_map p e),
            (before_run-Silent k ms_map).returns p e,
          ))
      | inr (x, e) ↦ inr (inr (real, x, e, simp real (thread_no_calls k ms_map x e)))
    ]
  ]
