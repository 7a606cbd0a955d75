-- ===== src/SimulateL0/Sending/Stamps.antt =====
-- The time stamps: those of the noise chunks follow on one another; those of the pieces of a chunk
-- do not.
use native.Mathlib.Nat.{mod-eq_of_lt, mul-le-mul_right}
use ch_frb_l.Base.{
  ℕ, zero, suc, ◌+◌, ◌*◌, ◌%◌, ◌^◌, ◌≤◌, ◌<◌, ◌≡◌, ◌↔◌, refl, ap, sym, ◌∙◌, true, List, some, ok,
  err, undefined, get_elem?, arith, lt→ltb, ok_injective, assert, ◌>>◌, Failure, Throws, Bool-cases,
  Result-cases, inl, inr, ltb,
}
use ch_frb_l.Util.{counted, int_result}
use ch_frb_l.L1Server.Vectors.{for_each}
use ch_frb_l.L1Server.Vectors.Loops.{for_each-counted, for_each-get_elem?, for_each-throws}
use ch_frb_l.SimulateL0.Sending.{Ostream, Chunk, noise_count, send_noise, piece}

wrap_twice : (x s : ℕ) → 0 < s → x * s < 2 ^ 64 → x % 2 ^ 64 * s % 2 ^ 64 ≡ x * s
wrap_twice x zero p h = elim p [ ]
wrap_twice x (suc t) p h =
    let small : x < 2 ^ 64 = omega arith in rw (mod-eq_of_lt small) (mod-eq_of_lt h)

noise_count_lem :
    (o : Ostream) (start k : ℕ)
    → k * o.nt_per_chunk < 2 ^ 31
    → 0 < o.fpga_counts_per_sample
    → (k * o.nt_per_chunk + start) * o.fpga_counts_per_sample < 2 ^ 64
    → noise_count o start k ≡ ok ((start + k * o.nt_per_chunk) * o.fpga_counts_per_sample)
unfolding noise_count int_result
noise_count_lem o start k int p h =
    let wrapped = wrap_twice (k * o.nt_per_chunk + start) o.fpga_counts_per_sample p h in
    rw (lt→ltb (k * o.nt_per_chunk) (2 ^ 31) int) (ap ok (wrapped ∙ omega arith))

noise_count-returns :
    (o : Ostream) (start k : ℕ)
    → k * o.nt_per_chunk < 2 ^ 31
    → (stamp : ℕ) × (noise_count o start k ≡ ok stamp)
unfolding noise_count int_result
noise_count-returns o start k int = (
  (k * o.nt_per_chunk + start) % 2 ^ 64 * o.fpga_counts_per_sample % 2 ^ 64,
  rw (lt→ltb (k * o.nt_per_chunk) (2 ^ 31) int) refl,
)

noise_count-overflows :
    (o : Ostream) (start k : ℕ)
    → 2 ^ 31 ≤ k * o.nt_per_chunk
    → noise_count o start k ≡ err undefined
unfolding noise_count int_result
noise_count-overflows o start k h = ground (arith, h)

noise_count-throws :
    (o : Ostream) (start k : ℕ) (e : Failure) → noise_count o start k ≡ err e → e ≡ undefined
unfolding noise_count int_result
noise_count-throws o start k e h = ground (arith, h)

ok_not_err : {A : Type 0} {a : A} {e : Failure} → ◌≡◌ {A = Throws A} (ok a) (err e) → ⊥
ok_not_err h = absurd cc

send_noise_loop :
    (o : Ostream) (start n : ℕ)
    → o.target_is_positive ≡ true
    → send_noise o start n ≡ for_each (noise_count o start) (counted 0 n)
unfolding send_noise
send_noise_loop o start n positive =
    ap (λ b. assert b >> for_each (noise_count o start) (counted 0 n)) positive

earlier : (j k n : ℕ) → j ≤ k → k * n < 2 ^ 31 → j * n < 2 ^ 31
earlier j k n h p = omega (arith, p, mul-le-mul_right {m = j} {n = k} n h)

-- The product of three factors, one of them taken twice and at least 2.
no_skip : (i n s : ℕ) → 2 ≤ n → 0 < s → i * n * (n * s) ≡ i * n * s → i ≡ 0
no_skip zero n s p q h = refl
no_skip (suc i) zero s p q h = absurd (omega arith)
no_skip (suc i) (suc zero) s p q h = absurd (omega arith)
no_skip (suc i) (suc (suc n)) zero p q h = absurd (omega arith)
no_skip (suc i) (suc (suc n)) (suc s) p q h = absurd (omega arith)

-- Chunks of which the last one begins less than 2^31 samples after the first: they are sent, and while
-- the counts fit in 64 bits, the noise chunk `k` is stamped with its first sample, counted from
-- initial_time_index, times the counts of a sample: consecutive chunks are nt_per_chunk samples apart.
pub send_noise-stamps :
    (o : Ostream) (start n k : ℕ)
    → o.target_is_positive ≡ true
    → k ≤ n
    → n * o.nt_per_chunk < 2 ^ 31
    → (k * o.nt_per_chunk + start) * o.fpga_counts_per_sample < 2 ^ 64
    → 0 < o.fpga_counts_per_sample
    → (stamps : List ℕ) × (send_noise o start (suc n) ≡ ok stamps)
      × (get_elem? stamps k ≡ some ((start + k * o.nt_per_chunk) * o.fpga_counts_per_sample))
send_noise-stamps o start n k positive h int fits pos =
    let (stamps, sent, _) =
      for_each-counted (noise_count o start) 0 (suc n)
        (λ j lo hi. noise_count-returns o start j (earlier j n o.nt_per_chunk (omega arith) int)) in
    let (stamp, there, made) =
      for_each-get_elem? (noise_count o start) 0 (suc n) k stamps sent (omega arith) in
    let index : 0 + k ≡ k = omega arith in
    let computed = noise_count_lem o start k (earlier k n o.nt_per_chunk h int) pos fits in
    let same = ok_injective (sym (ap (noise_count o start) (sym index) ∙ made) ∙ computed) in
    (stamps, send_noise_loop o start (suc n) positive ∙ sent, there ∙ ap some same)

-- The loop over one chunk or more has undefined behaviour exactly if the last chunk begins 2^31 samples
-- or more after the first: the `int` product overflows.
pub send_noise-overflows_iff :
    (o : Ostream) (start n : ℕ)
    → o.target_is_positive ≡ true
    → (send_noise o start (suc n) ≡ err undefined) ↔ (2 ^ 31 ≤ n * o.nt_per_chunk)
send_noise-overflows_iff o start n positive =
    let f = noise_count o start in
    let loop : send_noise o start (suc n) ≡ for_each f (counted 0 (suc n)) =
      send_noise_loop o start (suc n) positive in
    (
      λ h. elim (Bool-cases (ltb (n * o.nt_per_chunk) (2 ^ 31))) [
        | inl small ↦
            let int : n * o.nt_per_chunk < 2 ^ 31 = ground arith in
            let (stamps, sent, _) = for_each-counted f 0 (suc n) (λ j lo hi.
              noise_count-returns o start j (earlier j n o.nt_per_chunk (omega arith) int)) in
            absurd (ok_not_err (sym sent ∙ sym loop ∙ h))
        | inr large ↦ ground arith
      ],
      λ large. loop ∙ elim (Result-cases (for_each f (counted 0 (suc n)))) [
        | inl (stamps, sent) ↦
            let (stamp, there, made) = for_each-get_elem? f 0 (suc n) n stamps sent (omega arith) in
            let index : 0 + n ≡ n = omega arith in
            absurd (ok_not_err (sym made ∙ ap f index ∙ noise_count-overflows o start n large))
        | inr (e, thrown) ↦
            let (j, round) = for_each-throws f (counted 0 (suc n)) e thrown in
            thrown ∙ ap err (noise_count-throws o start j e round)
      ],
    )

-- The stamp of a piece is wrong for all pieces of a chunk but the first: `i * nt_per_chunk` samples are
-- skipped, and the stamp skips as many whole chunks. The hypothesis on fpga_counts_per_chunk is what
-- ch_frb_io says of it; the counts fit in 64 bits.
pub piece_stamp_iff :
    (o : Ostream) (c : Chunk) (i : ℕ)
    → o.fpga_counts_per_chunk ≡ o.nt_per_chunk * o.fpga_counts_per_sample
    → 2 ≤ o.nt_per_chunk
    → 0 < o.fpga_counts_per_sample
    → c.fpga_begin + i * o.nt_per_chunk * o.fpga_counts_per_chunk < 2 ^ 64
    → ((piece o c i).fpga_count
        ≡ c.fpga_begin + (piece o c i).first_sample * o.fpga_counts_per_sample)
      ↔ (i ≡ 0)
unfolding piece
piece_stamp_iff o c i per two pos fits = (
  (λ h.
      no_skip i o.nt_per_chunk o.fpga_counts_per_sample two pos
        (ap (◌*◌ (i * o.nt_per_chunk)) (sym per) ∙ omega arith)),
  λ e. rw e (omega (arith, rw e at fits)),
)
