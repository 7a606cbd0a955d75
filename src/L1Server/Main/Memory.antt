-- ===== src/L1Server/Main/Memory.antt =====
-- Where the threads of a started server run, and where the memory of a stream is.
use ch_frb_l.Base.{
  ℕ, ◌/◌, ◌<◌, ◌≡◌, Bool, true, not, ◌||◌, List, [], ◌∷◌, some, get_elem?, get_or, nat_beq,
}
use ch_frb_l.FrbIo.{FrbIo}
use ch_frb_l.L1Config.Environment.{Environment, L1Config}
use ch_frb_l.L1Server.{L1Server, InputStream}
use ch_frb_l.L1Server.Cores.{pinned16}
use ch_frb_l.L1Server.Cores.Pinning.{within, two_cpus}

abbrev assembler_table : List (List ℕ)
assembler_table = (8 ∷ 28 ∷ []) ∷ (8 ∷ 28 ∷ []) ∷ (18 ∷ 38 ∷ []) ∷ (18 ∷ 38 ∷ []) ∷ []

-- What is said of a stream, as tests on the tables.
abbrev assembler_fits : ℕ → Bool
assembler_fits i = within (get_or assembler_table i []) (get_or two_cpus (i / 2) [])

abbrev beam_fits : ℕ → ℕ → Bool
beam_fits i b =
    not (nat_beq (b / 4) i) || within (get_or (pinned16 16) b []) (get_or two_cpus (i / 2) [])

module _ {D Bonsai Pipeline : Type 0} where
  -- The stream `i` of a server with four beams to a stream: its assembler thread and the dedispersion
  -- threads of its beams have their cores on the CPU where its memory pool has been allocated.
  pub record IsLocal (t : L1Server D Bonsai Pipeline) (i : ℕ) : Type 0 where
    pub stream : InputStream
    pub reads : get_elem? t.input_streams i ≡ some stream
    pub assembler : within stream.assembler_thread_cores stream.memory_pool.allocation_cores ≡ true
    pub beams :
        (b : ℕ)
        → b < 16
        → b / 4 ≡ i
        → within (get_or t.cores.dedispersion_cores b []) stream.memory_pool.allocation_cores ≡ true
