-- ===== src/SimulateL0/Packets.antt =====
-- The number of coarse frequencies in a packet: whatever the file says, the assertions at the end of
-- the constructor hold.
use native.Mathlib.Nat.{pow-suc, mul-mod_left, mod_self, mul-le-mul_right, div-mul-le_self}
use native.Mathlib.Decide.{dec_le}
use ch_frb_l.Base.{
  Bool-cases, inl, inr, leb, ltb, ◌&&◌, inl, inr, Result-cases, ℕ, zero, suc, ◌*◌, ◌/◌, ◌%◌, ◌^◌,
  ◌≤◌, ◌<◌, ◌≡◌, ap, sym, ◌∙◌, true, Option, none, some, ok, Text, ℤ, min, arith,
}
use ch_frb_l.FrbIo.{FrbIo, FrbIoLaws}
use ch_frb_l.Util.{xdiv, is_power_of_two, round_down_to_power_of_two}
use ch_frb_l.Util.Power.{is_power_of_two_iff}
use ch_frb_l.Util.Vectors.{xdiv_iff}
use ch_frb_l.Util.Power.{power-pos}
use ch_frb_l.SimulateL0.{
  RawParams, L0Params, derive, size_of, check_given, choose_default, choose_packets, set_packets,
  final_asserts,
}

pub derive_steps :
    (io : FrbIo) (name : Text) (r : RawParams) (l : L0Params)
    → derive io name r ≡ ok l
    → (is_power_of_two l.nt_per_packet ≡ ok true)
      × (is_power_of_two l.nthreads_per_stream ≡ ok true)
      × (xdiv io.nfreq_coarse_tot l.nthreads_per_stream ≡ ok l.nfreq_coarse_per_thread)
      × (xdiv l.nbeams_tot l.nstreams ≡ ok l.nbeams_per_stream)
      × (xdiv l.nthreads_tot l.nstreams ≡ ok l.nthreads_per_stream)
unfolding derive
derive_steps io name r l h = ground arith

-- A factor of a power of two by a power of two is a power of two.
power_factor : (j k q : ℕ) → q * 2 ^ j ≡ 2 ^ k → (i : ℕ) × (q ≡ 2 ^ i)
power_factor zero k q h = (k, omega (arith, h))
power_factor (suc j) zero q h = absurd (odd q (2 ^ j) (ap (◌*◌ q) (sym (pow-suc 2 j)) ∙ h))
  where
    odd : (a b : ℕ) → a * (b * 2) ≡ 1 → ⊥
    odd a b e = omega arith
power_factor (suc j) (suc k) q h =
    power_factor j k q (halve q (2 ^ j) (2 ^ k) (ap (◌*◌ q) (sym (pow-suc 2 j)) ∙ h ∙ pow-suc 2 k))
  where
    halve : (a b c : ℕ) → a * (b * 2) ≡ c * 2 → a * b ≡ c
    halve a b c e = omega arith

-- The smaller of two powers of two divides the larger.
power_divides : (a b : ℕ) → 2 ^ a ≤ 2 ^ b → (c : ℕ) × (2 ^ b ≡ c * 2 ^ a)
power_divides zero b h = (2 ^ b, omega arith)
power_divides (suc a) zero h = absurd (omega (arith, pow-suc 2 a, power-pos a))
power_divides (suc a) (suc b) h =
    let (c, e) = power_divides a b (omega (arith, pow-suc 2 a, pow-suc 2 b)) in
    (c, pow-suc 2 b ∙ omega (arith, e, ap (◌*◌ c) (pow-suc 2 a)))

min_divides : (a b : ℕ) → 2 ^ b % min (2 ^ a) (2 ^ b) ≡ 0
min_divides a b = elim (dec_le (2 ^ a) (2 ^ b)) [
  | yes h ↦
      let small : min (2 ^ a) (2 ^ b) ≡ 2 ^ a = omega arith in
      let (c, e) = power_divides a b h in rw (small, e) (mul-mod_left c (2 ^ a))
  | no h ↦ let small : min (2 ^ a) (2 ^ b) ≡ 2 ^ b = omega arith in rw small (mod_self (2 ^ b))
]

-- What `derive` leaves for the choice of the packets.
record IsReady (l : L0Params) : Type 0 where
  nt_power : is_power_of_two l.nt_per_packet ≡ ok true
  thread_power : (j : ℕ) × (l.nfreq_coarse_per_thread ≡ 2 ^ j)

nt_pos : (n : ℕ) → is_power_of_two n ≡ ok true → 0 < n
unfolding is_power_of_two
nt_pos n h = ground arith

module _ (io : FrbIo) (laws : FrbIoLaws io) where
  rounded_power :
      (m x : ℕ)
      → round_down_to_power_of_two io.floor_log2 m ≡ ok x
      → (k : ℕ) × (x ≡ 2 ^ k) × (2 ^ k ≤ m)
  unfolding round_down_to_power_of_two
  rounded_power m x h = elim (Bool-cases (leb 1 m && ltb m 1000000000)) [
    | inl e ↦ (io.floor_log2 m, ground arith, (laws.log2_floor m (ground arith) (ground arith)).0)
    | inr e ↦ absurd (ground arith)
  ]

  derive-IsReady :
      (name : Text) (r : RawParams) (l : L0Params) → derive io name r ≡ ok l → IsReady l
  derive-IsReady name r l h =
      let (nt, threads, freqs, _, _) = derive_steps io name r l h in
      let (j, e) = (is_power_of_two_iff l.nthreads_per_stream).0.0 threads in
      let (k, f) = laws.nfreq_power in
      let product =
        ((xdiv_iff io.nfreq_coarse_tot l.nthreads_per_stream l.nfreq_coarse_per_thread).0
          freqs).0 in
      record {
        nt_power = nt;
        thread_power = power_factor j k l.nfreq_coarse_per_thread (rw (← e, ← f) product);
      }

  -- With a value from the file: the tests are the assertions.
  given_asserts :
      (name : Text) (l : L0Params) (g : ℤ) (n : ℕ)
      → check_given io name l g ≡ ok n
      → (0 < n) × (l.nfreq_coarse_per_thread % n ≡ 0) × (size_of io l n ≤ l.max_packet_size)
  unfolding check_given
  given_asserts name l g n h = ground arith

  fits :
      (l : L0Params) (n : ℕ)
      → 0 < n
      → n ≤ l.max_packet_size / size_of io l 1
      → size_of io l n ≤ l.max_packet_size
  fits l n p h = omega (
    arith,
    laws.packet_shared l.nbeams_per_stream n l.nupfreq l.nt_per_packet p,
    mul-le-mul_right (size_of io l 1) h,
    div-mul-le_self l.max_packet_size (size_of io l 1),
  )

  -- By default: a power of two that fits.
  default_asserts :
      (name : Text) (l : L0Params) (n : ℕ)
      → IsReady l
      → choose_default io name l ≡ ok n
      → (0 < n) × (l.nfreq_coarse_per_thread % n ≡ 0) × (size_of io l n ≤ l.max_packet_size)
  unfolding choose_default
  default_asserts name l n r h =
      elim (Result-cases
        (round_down_to_power_of_two io.floor_log2 (l.max_packet_size / size_of io l 1))) [
          | inl (x, e) ↦
              let (k, power, le) = rounded_power (l.max_packet_size / size_of io l 1) x e in
              let (j, thread) = r.thread_power in
              let least : n ≡ min (2 ^ k) (2 ^ j) = ground arith in
              let positive : 0 < n = omega (arith, power-pos k, power-pos j) in
              let few : n ≤ l.max_packet_size / size_of io l 1 = omega arith in
              (positive, rw (thread, least) (min_divides k j), fits l n positive few)
          | inr (x, e) ↦ absurd (ground arith)
        ]

  -- Once the file's parameters have passed the checks and a number of coarse frequencies per packet is
  -- chosen, by the file or by default, every assertion at the end of the constructor holds: the number
  -- divides the thread's frequencies, and the packet is within the maximal size.
  pub choose_packets-asserts :
      (name : Text) (r : RawParams) (given : Option ℤ) (l : L0Params) (n : ℕ)
      → derive io name r ≡ ok l
      → choose_packets io name l given ≡ ok n
      → final_asserts (set_packets io l n) ≡ ok tt
  unfolding choose_packets set_packets final_asserts
  choose_packets-asserts name r none l n d h =
      let ready = derive-IsReady name r l d in
      ground (
        arith,
        default_asserts name l n ready h,
        ready.nt_power,
        nt_pos l.nt_per_packet ready.nt_power,
      )
  choose_packets-asserts name r (some g) l n d h =
      let ready = derive-IsReady name r l d in
      ground
        (arith, given_asserts name l g n h, ready.nt_power, nt_pos l.nt_per_packet ready.nt_power)
