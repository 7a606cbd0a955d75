-- ===== src/L1Config/CommandLine/Flags.antt =====
-- What the low-budget parser makes of its arguments, described without the loop.
use ch_frb_l.Base.{
  ℕ, ◌≡◌, refl, Bool, true, false, ◌&&◌, ◌||◌, List, some, none, [], ◌∷◌, ◌++◌, if◌then◌else◌, ok,
  err, exit, Text, nat_beq, arith, append-nil, append_assoc, Bool-cases, inl, inr,
}
use ch_frb_l.L1Config.{Options}
use ch_frb_l.L1Config.CommandLine.{set_flag, set_flags, scan}

abbrev is_option : Text → Bool
is_option [] = false
is_option (c ∷ letters) = nat_beq c b'-'

-- The letters after the dashes, in order.
abbrev pub letters_of : List Text → Text
letters_of [] = []
letters_of ([] ∷ argv) = letters_of argv
letters_of ((c ∷ letters) ∷ argv) =
    let rest = letters_of argv in if nat_beq c b'-' then letters ++ rest else rest

-- The arguments that are no options, in order.
abbrev pub positional : List Text → List Text
positional [] = []
positional (a ∷ argv) = let rest = positional argv in if is_option a then rest else a ∷ rest

abbrev given : ℕ → Text → Bool
given x [] = false
given x (c ∷ letters) = nat_beq c x || given x letters

unfoldable pub known : ℕ → Bool
known c = given c (b'v' ∷ b'f' ∷ b'p' ∷ b'i' ∷ b'm' ∷ b'w' ∷ b'c' ∷ b't' ∷ [])

abbrev pub all_known : Text → Bool
all_known [] = true
all_known (c ∷ letters) = known c && all_known letters

-- The options, each set if its letter is given anywhere.
abbrev pub with_letters : Text → Options → Options
with_letters t o = record o {
  l1_verbosity = if given b'v' t then 2 else o.l1_verbosity;
  fflag = given b'f' t || o.fflag;
  l1b_pipe_io_debug = given b'p' t || o.l1b_pipe_io_debug;
  ignore_end_of_stream = given b'i' t || o.ignore_end_of_stream;
  memory_pool_debug = given b'm' t || o.memory_pool_debug;
  write_chunk_debug = given b'w' t || o.write_chunk_debug;
  deliberately_crash = given b'c' t || o.deliberately_crash;
  tflag = given b't' t || o.tflag;
}

set_flag_lem :
    (c : ℕ) (o : Options)
    → set_flag c o ≡ (if known c then some (with_letters (c ∷ []) o) else none)
unfolding set_flag known
set_flag_lem c o = ground arith

with_letters-cons :
    (c : ℕ) (t : Text) (o : Options)
    → with_letters t (with_letters (c ∷ []) o) ≡ with_letters (c ∷ t) o
with_letters-cons c t o = ground arith

set_flags_lem :
    (t : Text) (o : Options)
    → set_flags t o ≡ (if all_known t then ok (with_letters t o) else err (exit 2))
unfolding set_flags
set_flags_lem [] o = refl
set_flags_lem (c ∷ t) o =
    rw (set_flags, set_flag_lem c o)
      (elim (Bool-cases (known c)) [
        | inl h ↦ rw (h, set_flags_lem t (with_letters (c ∷ []) o), with_letters-cons c t o) refl
        | inr h ↦ rw h refl
      ])

all_known-append : (s t : Text) → all_known (s ++ t) ≡ (all_known s && all_known t)
all_known-append [] t = refl
all_known-append (c ∷ s) t = ground (arith, all_known-append s t)

given-append : (x : ℕ) (s t : Text) → given x (s ++ t) ≡ (given x s || given x t)
given-append x [] t = refl
given-append x (c ∷ s) t = ground (arith, given-append x s t)

either : (x : ℕ) (s t : Text) (b : Bool) → (given x t || (given x s || b)) ≡ (given x (s ++ t) || b)
either x s t b = rw (given-append x s t) (ground arith)

either_value :
    (x : ℕ) (s t : Text) (n : ℕ)
    → (if given x t then 2 else if given x s then 2 else n) ≡ (if given x (s ++ t) then 2 else n)
either_value x s t n = rw (given-append x s t) (ground arith)

with_letters-append :
    (s t : Text) (o : Options) → with_letters t (with_letters s o) ≡ with_letters (s ++ t) o
with_letters-append s t o =
    rw
      (
        either b'f' s t o.fflag,
        either b'p' s t o.l1b_pipe_io_debug,
        either b'i' s t o.ignore_end_of_stream,
        either b'm' s t o.memory_pool_debug,
        either b'w' s t o.write_chunk_debug,
        either b'c' s t o.deliberately_crash,
        either b't' s t o.tflag,
        either_value b'v' s t o.l1_verbosity,
      )
      refl

-- The parser accepts exactly the arguments whose letters it knows. Then an option is set if its letter
-- stands in any of them, in any order, and the other arguments are the positional ones, in order.
pub scan_lem :
    (argv : List Text) (o : Options) (args : List Text)
    → scan argv o args ≡ (
        if all_known (letters_of argv)
        then ok (with_letters (letters_of argv) o, args ++ positional argv)
        else err (exit 2))
unfolding scan
scan_lem [] o args = rw (append-nil args) refl
scan_lem ([] ∷ argv) o args =
    rw (scan_lem argv o (args ++ [] ∷ []), append_assoc args ([] ∷ []) (positional argv)) refl
scan_lem ((c ∷ letters) ∷ argv) o args = elim (Bool-cases (nat_beq c b'-')) [
  | inl h ↦
      rw (h, set_flags_lem letters o, all_known-append letters (letters_of argv))
        (elim (Bool-cases (all_known letters)) [
          | inl k ↦
              rw
                (
                  k,
                  scan_lem argv (with_letters letters o) args,
                  with_letters-append letters (letters_of argv) o,
                )
                refl
          | inr k ↦ rw k refl
        ])
  | inr h ↦
      rw
        (
          h,
          scan_lem argv o (args ++ (c ∷ letters) ∷ []),
          append_assoc args ((c ∷ letters) ∷ []) (positional argv),
        )
        refl
]
