-- ===== src/Rpc/Handler/Answers.antt =====
-- Methods that send at most one reply, to one client, and how they are put together.
use ch_frb_l.Base.{
  ℕ, ◌≡◌, refl, ap, subst, ◌∙◌, Bool, true, false, ◌||◌, [], ◌∷◌, ◌++◌, Text, text_eq,
  if◌then◌else◌, Throws, ok, err,
}
use ch_frb_l.FileUtils.System.{FileSystem}
use ch_frb_l.Rpc.Method.{Method, return, lift, ◌>>=◌, bind-cases}
use ch_frb_l.Rpc.Object.{Object}
use ch_frb_l.Rpc.Server.{
  Server, Env, Delivery, delivered, refused, zmq_error, send_frontend_message,
}
use ch_frb_l.Rpc.Handler.{reply}

module _ {D : Type 0} {fs : FileSystem} where
  -- A step after which nothing more is sent, and which leaves the shutdown flag.
  abbrev pub Quiet : {A : Type 0} → Server D fs → Throws A × Server D fs → Type 0
  Quiet s o = (o.1.sent ≡ s.sent) × (o.1.shutdown ≡ s.shutdown)

  pub data Replied (client : Text) (stop : Bool) (s : Server D fs)
      : Throws Bool × Server D fs → Type 0 where
    silent :
        (r : Throws Bool) (s' : Server D fs)
        → s'.sent ≡ s.sent
        → s'.shutdown ≡ (stop || s.shutdown)
        → Replied client stop s (r, s')
    replied :
        (s' : Server D fs) (token : ℕ) (content : Object D)
        → s'.sent ≡ s.sent ++ record { client = client; token = token; content = content } ∷ []
        → s'.shutdown ≡ (stop || s.shutdown)
        → Replied client stop s (ok true, s')

  -- A method that sends nothing and leaves the shutdown flag.
  pub record Silent {A : Type 0} (m : Method (Server D fs) A) : Type 0 where
    pub quiet : (s : Server D fs) → Quiet s (m s)

  -- A method with at most one reply, to `client`, that leaves the shutdown flag.
  pub record Answers (client : Text) (m : Method (Server D fs) Bool) : Type 0 where
    pub sound : (s : Server D fs) → Replied client false s (m s)

  -- What a quiet step before it does not change.
  keeps_before :
      (client : Text) (s s1 : Server D fs) (o : Throws Bool × Server D fs)
      → Quiet {A = Unit} s (ok tt, s1)
      → Replied client false s1 o
      → Replied client false s o
  keeps_before client s s1 _ (h, k) (silent r s2 sent down) = silent r s2 (sent ∙ h) (down ∙ k)
  keeps_before client s s1 _ (h, k) (replied s2 token content sent down) =
      replied s2 token content
        (sent
          ∙ ap (λ sent. sent ++ record { client = client; token = token; content = content } ∷ [])
              h)
        (down ∙ k)

  pub bind-Answers :
      {A : Type 0} (client : Text) (m : Method (Server D fs) A) (f : A → Method (Server D fs) Bool)
      → Silent m
      → ((a : A) → Answers client (f a))
      → Answers client (m >>= f)
  bind-Answers client m f q next = record {
    sound = λ s.
        bind-cases (Replied client false s) m f s
          (λ a s1 h.
            keeps_before client s s1 (f a s1) (subst (Quiet s) h (q.quiet s)) ((next a).sound s1))
          (λ e s1 h.
            let (sent, shutdown) = subst (Quiet s) h (q.quiet s) in
            silent (err e) s1 sent shutdown);
  }

  pub lift-Answers :
      {A : Type 0} (client : Text) (r : Throws A) (f : A → Method (Server D fs) Bool)
      → ((a : A) → Answers client (f a))
      → Answers client (lift r >>= f)
  lift-Answers client (ok a) f next = record { sound = λ s. (next a).sound s }
  lift-Answers client (err e) f next = record { sound = λ s. silent (err e) s refl refl }

  pub if-Answers :
      (client : Text) (b : Bool) (m n : Method (Server D fs) Bool)
      → Answers client m
      → Answers client n
      → Answers client (if b then m else n)
  if-Answers client true m n p q = p
  if-Answers client false m n p q = q

  pub return-Answers : (client : Text) (b : Bool) → Answers client (return b)
  return-Answers client b = record { sound = λ s. silent (ok b) s refl refl }

  pub reply-Answers :
      (env : Env D) (client : Text) (token : ℕ) (content : Object D)
      → Answers client (reply env client token content)
  unfolding reply send_frontend_message
  reply-Answers env client token content = record { sound = λ s. at s (env.deliver client) }
    where
      at :
          (s : Server D fs) (d : Delivery)
          → Replied client false s (reply (record env { deliver = λ _. d }) client token content s)
      at s delivered = replied _ token content refl refl
      at s refused = silent (ok false) s refl refl
      at s zmq_error = silent (ok false) s refl refl
