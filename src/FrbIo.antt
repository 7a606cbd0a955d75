-- ===== src/FrbIo.antt =====
-- What the program uses of the ch_frb_io library, as a parameter: its constants, and the size in bytes
-- of a packet with given numbers of beams, coarse frequencies, fine per coarse frequency, and time
-- samples; and the `int(floor(log2(x)))` of the C library, at an integer `x`.
use ch_frb_l.Base.{ℕ, ◌*◌, ◌^◌, ◌≤◌, ◌<◌, ◌≡◌}

pub record FrbIo : Type 0 where
  pub nfreq_coarse_tot : ℕ
  pub nt_per_assembled_chunk : ℕ
  pub packet_size : ℕ → ℕ → ℕ → ℕ → ℕ
  pub floor_log2 : ℕ → ℕ

-- The number of coarse frequencies is a power of two. A packet is a header and a body that is linear
-- in the number of coarse frequencies: so `m` frequencies in one packet take no more room than in `m`
-- packets, and no packet is empty. The logarithm of a positive integer below 1e9 is exact enough for
-- its floor.
pub record FrbIoLaws (io : FrbIo) : Type 0 where
  pub nfreq_power : (k : ℕ) × (io.nfreq_coarse_tot ≡ 2 ^ k)
  pub packet_positive : (nb nf nu nt : ℕ) → 0 < io.packet_size nb nf nu nt
  pub packet_shared :
      (nb m nu nt : ℕ) → 0 < m → io.packet_size nb m nu nt ≤ m * io.packet_size nb 1 nu nt
  pub log2_floor :
      (x : ℕ) → 1 ≤ x → x < 1000000000 → (2 ^ io.floor_log2 x ≤ x) × (x < 2 * 2 ^ io.floor_log2 x)
