-- ===== src/Padding/NextPower.antt =====
-- `nextPowerOfTwo` of libkbfs/crypto_common.go is a search for the least power of two above a number.
use native.Mathlib.Nat.{pow-suc}
use kbfs.Prelude.{
  ℕ, zero, suc, max, ◌+◌, ◌*◌, ◌%◌, ◌^◌, ◌<◌, ◌≤◌, ◌≡◌, sym, ap, ◌∙◌, ltb, if◌then◌else◌, arith,
  leb_cases, inl, inr,
}
use kbfs.Padding.{word32, next_power_of_two}
use kbfs.Padding.Lengths.{next_power_of_two-two_pow, two_pow_le}

-- The first of `p`, `2 * p`, `4 * p`, … that is above `n`, after at most `fuel` doublings
abbrev pub double_until_above : ℕ → ℕ → ℕ → ℕ
double_until_above zero p n = p
double_until_above (suc fuel) p n =
    let rest = double_until_above fuel (p * 2) n in if ltb n p then p else rest

double_until_above-here : (fuel p n : ℕ) → n < p → double_until_above (suc fuel) p n ≡ p
double_until_above-here fuel p n h = ground arith

double_until_above-two_pow :
    (fuel j k n : ℕ)
    → j ≤ suc k
    → suc k ≤ j + fuel
    → 2 ^ k ≤ n
    → n < 2 ^ suc k
    → double_until_above fuel (2 ^ j) n ≡ 2 ^ suc k
double_until_above-two_pow zero j k n h l a b =
    let last : j ≡ suc k = omega (arith, h, l) in ap (λ i. 2 ^ i) last
double_until_above-two_pow (suc fuel) j k n h l a b = elim (leb_cases j k) [
  | inl more ↦
      let rest =
        double_until_above-two_pow fuel (suc j) k n (omega (arith, more)) (omega (arith, l)) a b in
      let double = ap (λ p. double_until_above fuel p n) (pow-suc 2 j) in
      ground (arith, rest, double, two_pow_le j k more)
  | inr done ↦ let last : j ≡ suc k = omega (arith, h, done) in ground (arith, ap (λ i. 2 ^ i) last)
]

-- A number from 256 on has a first digit.
pub two_pow_around :
    (d n : ℕ)
    → 256 ≤ n
    → n < 2 ^ (8 + d)
    → (k : ℕ) × (8 ≤ k) × (suc k ≤ 8 + d) × (2 ^ k ≤ n) × (n < 2 ^ suc k)
two_pow_around zero n h l = absurd (omega (arith, h, l))
two_pow_around (suc d) n h l = elim (leb_cases (2 ^ (8 + d)) n) [
  | inl here ↦
      let next : 8 + suc d ≡ suc (8 + d) = omega arith in
      (8 + d, omega arith, omega arith, here, omega (arith, l, ap (λ i. 2 ^ i) next))
  | inr below ↦ let (k, a, b, c, e) = two_pow_around d n h below in (k, a, omega (arith, b), c, e)
]

-- For every uint32, `nextPowerOfTwo` is the first of 2^8, 2^9, …, 2^32 that is above it, as a uint32: from
-- 2^31 on it is 0.
pub next_power_of_two-double_until_above :
    (n : ℕ) → n < word32 → next_power_of_two n ≡ double_until_above 24 256 n % word32
unfolding next_power_of_two
next_power_of_two-double_until_above n l = elim (leb_cases 256 n) [
  | inl long ↦
      let (k, a, b, c, e) = two_pow_around 24 n long l in
      next_power_of_two-two_pow k n a (omega (arith, b)) c e
      ∙ ap (λ x. x % word32)
          (sym (double_until_above-two_pow 24 8 k n (omega (arith, a)) (omega (arith, b)) c e))
  | inr short ↦ ground (arith, ap (λ x. x % word32) (double_until_above-here 23 256 n short))
]

-- For a length below 2^31, `nextPowerOfTwo` is a power of two, from 2^8 on.
pub next_power_of_two-power :
    (n : ℕ) → n < 2 ^ 31 → (k : ℕ) × (8 ≤ k) × (256 ≤ 2 ^ k) × (next_power_of_two n ≡ 2 ^ k)
unfolding next_power_of_two
next_power_of_two-power n l = elim (leb_cases 256 n) [
  | inl long ↦
      let (k, a, b, c, e) = two_pow_around 23 n long l in
      let whole = next_power_of_two-two_pow k n a (omega (arith, b)) c e in
      let small = two_pow_le (suc k) 31 b in
      (
        suc k,
        omega (arith, a),
        two_pow_le 8 (suc k) (omega (arith, a)),
        omega (arith, whole, small),
      )
  | inr short ↦ (8, omega arith, omega arith, ground arith)
]

-- For a length below 2^31, `nextPowerOfTwo` is more than the length, and at most twice the length or 256.
pub next_power_of_two-bounds :
    (n : ℕ) → n < 2 ^ 31 → (n < next_power_of_two n) × (next_power_of_two n ≤ max 256 (2 * n))
unfolding next_power_of_two
next_power_of_two-bounds n l = elim (leb_cases 256 n) [
  | inl long ↦
      let (k, a, b, c, e) = two_pow_around 23 n long l in
      let whole = next_power_of_two-two_pow k n a (omega (arith, b)) c e in
      let small = two_pow_le (suc k) 31 b in
      (omega (arith, whole, small, c, e), omega (arith, whole, small, c, e))
  | inr short ↦ (ground arith, ground arith)
]
