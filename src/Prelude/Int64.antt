-- ===== src/Prelude/Int64.antt =====
-- An `int64` as the bit pattern below 2^64 that stands for it: sums wrap around, and the patterns from
-- 2^63 on are negative.
use Prim.Native.Nat.{ℕ, ◌+◌, ◌-◌, ◌/◌, ◌%◌, ◌^◌}
use mathlib.Core.Bool.{Bool, ◌&&◌}
use kbfs.Prelude.Tests.{ltb, leb, if◌then◌else◌}

abbrev pub word : ℕ
word = 2 ^ 64

abbrev pub half_word : ℕ
half_word = 2 ^ 63

abbrev pub add64 : ℕ → ℕ → ℕ
add64 a b = (a + b) % word

abbrev pub sub64 : ℕ → ℕ → ℕ
sub64 a b = (a + word - b) % word

abbrev pub neg64 : ℕ → ℕ
neg64 a = (word - a) % word

abbrev pub is_negative : ℕ → Bool
is_negative a = leb half_word a

abbrev pub is_positive : ℕ → Bool
is_positive a = ltb 0 a && ltb a half_word

-- `a < b` on signed values
abbrev pub lt64 : ℕ → ℕ → Bool
lt64 a b = ltb ((a + half_word) % word) ((b + half_word) % word)

-- `a / 2` on signed values, which rounds towards 0
abbrev pub halve64 : ℕ → ℕ
halve64 a = if is_negative a then neg64 (neg64 a / 2) else a / 2
