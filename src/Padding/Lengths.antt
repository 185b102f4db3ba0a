-- ===== src/Padding/Lengths.antt =====
-- The length that a block is padded to.
use Prim.Native.Nat.{bit_or, bit_and}
use native.Mathlib.Nat.{pow-suc, pow-le-pow_right}
use kbfs.Prelude.{
  ℕ, zero, suc, ◌+◌, ◌-◌, ◌*◌, ◌/◌, ◌%◌, ◌^◌, ◌<◌, ◌≤◌, ◌≡◌, ◌≢◌, ap, ◌==◌, arith, Bool-cases,
  leb_cases, inl, inr,
}
use kbfs.Prelude.Bits.{bit_and-two_pow, le-bit_or, bit_or-upper, bit_or-lower}
use kbfs.Padding.{word32, smear, smear_all, next_power_of_two}

-- `x` has `k` digits, and the first `s` of them are ones.
abbrev Filled : ℕ → ℕ → ℕ → Type 0
Filled k s x = (2 ^ k ≤ x + 2 ^ (k - s)) × (x < 2 ^ k)

two_pow_split : (s k : ℕ) → s ≤ k → 2 ^ k ≡ 2 ^ s * 2 ^ (k - s)
two_pow_split zero k h = let same : k - 0 ≡ k = omega arith in omega (arith, ap (λ i. 2 ^ i) same)
two_pow_split (suc s) zero h = absurd (omega (arith, h))
two_pow_split (suc s) (suc k) h =
    let rest = two_pow_split s k (omega (arith, h)) in
    let y = 2 ^ (k - s) in
    let less : suc k - suc s ≡ k - s = omega arith in
    let double : 2 ^ suc s * y ≡ 2 ^ s * y * 2 = grind (arith, pow-suc 2 s) in
    omega (arith, rest, double, ap (λ i. 2 ^ suc s * 2 ^ i) less)

-- One shift by `s` fills the next `s` digits.
smear-bounds :
    (s k m x b : ℕ)
    → 2 ^ k ≡ m * 2 ^ (k - s) + 2 ^ (k - s)
    → Filled k s x
    → b < 2 ^ (k - s)
    → (2 ^ k + b ≤ bit_or x b + 2 ^ (k - s)) × (bit_or x b < 2 ^ k)
smear-bounds s k m x b e (h, l) u =
    let t = k - s in
    let r : m * 2 ^ t + (x - m * 2 ^ t) ≡ x = omega (arith, h, l, e) in
    let lower = bit_or-lower t m (x - m * 2 ^ t) b (omega (arith, l, e)) u in
    (omega (arith, lower, e, ap (λ y. bit_or y b) r), bit_or-upper k x b l (omega (arith, u, e)))

smear-Filled_1 : (k x : ℕ) → 9 ≤ k → Filled k 1 x → Filled k 2 (smear 1 x)
smear-Filled_1 k x h f =
    let e = two_pow_split 1 k (omega (arith, h)) in
    let e' = two_pow_split 2 k (omega (arith, h)) in
    let (lower, upper) = smear-bounds 1 k 1 x (x / 2) (omega (arith, e)) f (omega (arith, f, e)) in
    (omega (arith, lower, f, e, e'), upper)

smear-Filled_2 : (k x : ℕ) → 9 ≤ k → Filled k 2 x → Filled k 4 (smear 2 x)
smear-Filled_2 k x h f =
    let e = two_pow_split 2 k (omega (arith, h)) in
    let e' = two_pow_split 4 k (omega (arith, h)) in
    let (lower, upper) = smear-bounds 2 k 3 x (x / 4) (omega (arith, e)) f (omega (arith, f, e)) in
    (omega (arith, lower, f, e, e'), upper)

smear-Filled_4 : (k x : ℕ) → 9 ≤ k → Filled k 4 x → Filled k 8 (smear 4 x)
smear-Filled_4 k x h f =
    let e = two_pow_split 4 k (omega (arith, h)) in
    let e' = two_pow_split 8 k (omega (arith, h)) in
    let (lower, upper) =
      smear-bounds 4 k 15 x (x / 16) (omega (arith, e)) f (omega (arith, f, e)) in
    (omega (arith, lower, f, e, e'), upper)

pub two_pow_le : (t s : ℕ) → t ≤ s → 2 ^ t ≤ 2 ^ s
two_pow_le t s h = pow-le-pow_right (omega arith) h

-- No digit is left to fill.
two_pow_none : (s k : ℕ) → k ≤ s → 2 ^ (k - s) ≡ 1
two_pow_none s k h = let none_left : k - s ≡ 0 = omega (arith, h) in ap (λ i. 2 ^ i) none_left

smear-Filled_8 : (k x : ℕ) → 9 ≤ k → Filled k 8 x → Filled k 16 (smear 8 x)
smear-Filled_8 k x h f =
    let e = two_pow_split 8 k (omega (arith, h)) in
    let (lower, upper) =
      smear-bounds 8 k 255 x (x / 256) (omega (arith, e)) f (omega (arith, f, e)) in
    elim (leb_cases 16 k) [
      | inl long ↦ (omega (arith, lower, f, e, two_pow_split 16 k long), upper)
      | inr short ↦ (
        omega (
          arith,
          lower,
          f,
          e,
          two_pow_none 16 k (omega (arith, short)),
          two_pow_le (k - 8) 8 (omega (arith, short)),
        ),
        upper,
      )
    ]

smear-Filled_16 : (k x : ℕ) → 9 ≤ k → k ≤ 32 → Filled k 16 x → smear 16 x + 1 ≡ 2 ^ k
smear-Filled_16 k x h l f = elim (leb_cases 16 k) [
  | inl long ↦
      let e = two_pow_split 16 k long in
      let (lower, upper) =
        smear-bounds 16 k 65535 x (x / 65536) (omega (arith, e)) f (omega (arith, f, e)) in
      omega (arith, lower, upper, f, e, two_pow_le (k - 16) 16 (omega (arith, l)))
  | inr short ↦
      let one_left = two_pow_none 16 k (omega (arith, short)) in
      omega (
        arith,
        one_left,
        f,
        le-bit_or x (x / 65536),
        bit_or-upper k x (x / 65536) f.1 (omega (arith, f)),
      )
]

-- All digits are ones after the five shifts.
smear_all-two_pow :
    (j x : ℕ) → 8 ≤ j → j ≤ 31 → 2 ^ j ≤ x → x < 2 ^ suc j → smear_all x + 1 ≡ 2 ^ suc j
unfolding smear_all
smear_all-two_pow j x g m a b =
    let k = suc j in
    let h : 9 ≤ k = omega (arith, g) in
    let l : k ≤ 32 = omega (arith, m) in
    let less : k - 1 ≡ j = omega arith in
    let first : Filled k 1 x =
      (omega (arith, two_pow_split 1 k (omega (arith, h)), ap (λ i. 2 ^ i) less, a), b) in
    let f2 = smear-Filled_1 k x h first in
    let f4 = smear-Filled_2 k (smear 1 x) h f2 in
    let f8 = smear-Filled_4 k (smear 2 (smear 1 x)) h f4 in
    let f16 = smear-Filled_8 k (smear 4 (smear 2 (smear 1 x))) h f8 in
    smear-Filled_16 k (smear 8 (smear 4 (smear 2 (smear 1 x)))) h l f16

-- A length of `k + 1` digits is padded to one more digit.
pub next_power_of_two-two_pow :
    (k n : ℕ)
    → 8 ≤ k
    → k ≤ 31
    → 2 ^ k ≤ n
    → n < 2 ^ suc k
    → next_power_of_two n ≡ 2 ^ suc k % word32
unfolding next_power_of_two
next_power_of_two-two_pow k n h l a b =
    let big = two_pow_le 8 k h in
    let small = two_pow_le (suc k) 32 (omega (arith, l)) in
    let whole = smear_all-two_pow k n h l a b in
    elim (Bool-cases (bit_and n (n - 1) == 0)) [
      | inl power ↦ ground (arith, whole, big, small)
      | inr between ↦
          let differs : n ≢ 2 ^ k = λ e.
            absurd (ground (arith, between, ap (λ z. bit_and z (z - 1)) e, bit_and-two_pow k)) in
          let less =
            smear_all-two_pow k (n - 1) h l (omega (arith, differs, a)) (omega (arith, b)) in
          ground (arith, less, big, small)
    ]
