-- ===== src/Prelude/Bits.antt =====
-- The binary or of native numbers: its digits, and bounds on it.
use Prim.Native.Nat.{
  ℕ, zero, suc, ◌+◌, ◌-◌, ◌*◌, ◌/◌, ◌%◌, ◌^◌, ◌≤◌, ◌<◌, min, max, bit_or, bit_or-bitwise, bit_and,
  bit_and-bitwise, digits,
}
use mathlib.Core.Path.{◌≡◌, refl, sym, ap, ◌∙◌}
use native.Mathlib.Omega.{arith}
use native.Mathlib.Nat.{pow-suc, mul_assoc}

-- A count of digits that is large enough can be replaced by another one.
digits_fuel :
    (z : ℕ → ℕ) (f : ℕ → ℕ → ℕ) (n m a b : ℕ) → a ≤ n → a ≤ m → digits z f n a b ≡ digits z f m a b
digits_fuel z f zero zero zero b h k = refl
digits_fuel z f zero (suc m) zero b h k = refl
digits_fuel z f (suc n) zero zero b h k = refl
digits_fuel z f (suc n) (suc m) zero b h k = refl
digits_fuel z f zero m (suc a) b h k = absurd (omega (arith, h))
digits_fuel z f (suc n) zero (suc a) b h k = absurd (omega (arith, k))
digits_fuel z f (suc n) (suc m) (suc a) b h k =
    ap (λ x. x * 2 + f (suc a % 2) (b % 2))
      (digits_fuel z f n m (suc a / 2) (b / 2) (omega (arith, h)) (omega (arith, k)))

bit_or-zero : (b : ℕ) → bit_or 0 b ≡ b
bit_or-zero b = bit_or-bitwise 0 b

bit_or-halves : (a b : ℕ) → bit_or a b ≡ bit_or (a / 2) (b / 2) * 2 + max (a % 2) (b % 2)
bit_or-halves zero b = omega (arith, bit_or-zero b, bit_or-zero (b / 2))
bit_or-halves (suc a) b =
    bit_or-bitwise (suc a) b
    ∙ ap (λ x. x * 2 + max (suc a % 2) (b % 2))
        (digits_fuel (λ b. b) max a (suc a / 2) (suc a / 2) (b / 2) (omega arith) (omega arith)
          ∙ sym (bit_or-bitwise (suc a / 2) (b / 2)))

bit_or-left : (n a b : ℕ) → a ≤ n → a ≤ bit_or a b
bit_or-left zero a b h = omega (arith, h)
bit_or-left (suc n) zero b h = omega arith
bit_or-left (suc n) (suc a) b h =
    let rest = bit_or-left n (suc a / 2) (b / 2) (omega (arith, h)) in
    omega (arith, rest, bit_or-halves (suc a) b)

-- An or is no less than its first number.
pub le-bit_or : (a b : ℕ) → a ≤ bit_or a b
le-bit_or a b = bit_or-left a a b (omega arith)

-- An or has no more digits than its numbers.
pub bit_or-upper : (j a b : ℕ) → a < 2 ^ j → b < 2 ^ j → bit_or a b < 2 ^ j
bit_or-upper zero zero b h k = omega (arith, bit_or-zero b, k)
bit_or-upper zero (suc a) b h k = absurd (omega (arith, h))
bit_or-upper (suc j) a b h k =
    let rest = bit_or-upper j (a / 2) (b / 2) (omega (arith, h)) (omega (arith, k)) in
    omega (arith, rest, bit_or-halves a b)

-- A number with its last digits replaced by those of another one is no more than their or.
pub bit_or-lower : (j m r b : ℕ) → r < 2 ^ j → b < 2 ^ j → m * 2 ^ j + b ≤ bit_or (m * 2 ^ j + r) b
bit_or-lower zero m r b h k = omega (arith, h, k, le-bit_or (m * 1 + r) b)
bit_or-lower (suc j) m r b h k =
    let double : m * 2 ^ suc j ≡ m * 2 ^ j * 2 =
      ap (λ x. m * x) (pow-suc 2 j) ∙ sym (mul_assoc m (2 ^ j) 2) in
    let half : (m * 2 ^ suc j + r) / 2 ≡ m * 2 ^ j + r / 2 = omega (arith, double) in
    let rest = bit_or-lower j m (r / 2) (b / 2) (omega (arith, h)) (omega (arith, k)) in
    let halves = bit_or-halves (m * 2 ^ suc j + r) b in
    omega (arith, double, rest, halves, ap (λ x. bit_or x (b / 2)) half)

bit_and-zero : (b : ℕ) → bit_and 0 b ≡ 0
bit_and-zero b = bit_and-bitwise 0 b

bit_and-halves : (a b : ℕ) → bit_and a b ≡ bit_and (a / 2) (b / 2) * 2 + min (a % 2) (b % 2)
bit_and-halves zero b = omega (arith, bit_and-zero b, bit_and-zero (b / 2))
bit_and-halves (suc a) b =
    bit_and-bitwise (suc a) b
    ∙ ap (λ x. x * 2 + min (suc a % 2) (b % 2))
        (digits_fuel (λ b. zero) min a (suc a / 2) (suc a / 2) (b / 2) (omega arith) (omega arith)
          ∙ sym (bit_and-bitwise (suc a / 2) (b / 2)))

-- A power of two has no digit in common with its predecessor.
pub bit_and-two_pow : (k : ℕ) → bit_and (2 ^ k) (2 ^ k - 1) ≡ 0
bit_and-two_pow zero = bit_and-bitwise 1 0
bit_and-two_pow (suc k) =
    let half : 2 ^ suc k / 2 ≡ 2 ^ k = omega arith in
    let half' : (2 ^ suc k - 1) / 2 ≡ 2 ^ k - 1 = omega arith in
    let both : bit_and (2 ^ suc k / 2) ((2 ^ suc k - 1) / 2) ≡ bit_and (2 ^ k) (2 ^ k - 1) =
      ap (λ x. bit_and x ((2 ^ suc k - 1) / 2)) half ∙ ap (λ y. bit_and (2 ^ k) y) half' in
    omega (arith, bit_and-halves (2 ^ suc k) (2 ^ suc k - 1), both, bit_and-two_pow k)
