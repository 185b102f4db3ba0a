-- ===== src/Padding.antt =====
-- Blocks are padded before they are encrypted: `padBlock`, `depadBlock` and `nextPowerOfTwo` of
-- libkbfs/crypto_common.go. Lengths are uint32 values.
pub mod Lengths
pub mod NextPower
pub mod Depad
use Prim.Native.Nat.{bit_or, bit_and}
use kbfs.Prelude.{
  ℕ, ◌+◌, ◌-◌, ◌*◌, ◌/◌, ◌%◌, ◌^◌, Bool, true, false, ◌==◌, ltb, if◌then◌else◌, List, [], ◌∷◌, ◌++◌,
  Result, ok, err, io_fault, short_rand_read, padded_block_read, length, take,
}
use kbfs.FileStore.{Bytes}

abbrev pub min_block_size : ℕ
min_block_size = 256

abbrev pub pad_prefix_size : ℕ
pad_prefix_size = 4

abbrev pub word32 : ℕ
word32 = 2 ^ 32

-- `n | (n >> k)`
abbrev pub smear : ℕ → ℕ → ℕ
smear k n = bit_or n (n / 2 ^ k)

unfoldable pub smear_all : ℕ → ℕ
smear_all n = smear 16 (smear 8 (smear 4 (smear 2 (smear 1 n))))

unfoldable pub next_power_of_two : ℕ → ℕ
unfolding smear_all
next_power_of_two n =
    if ltb n min_block_size
    then min_block_size
    else let m = if bit_and n (n - 1) == 0 then (n + 1) % word32 else n in
      (smear_all ((m + word32 - 1) % word32) + 1) % word32

-- `binary.Write` of a uint32, the lowest byte first
abbrev pub little_endian : ℕ → Bytes
little_endian n = n % 256 ∷ n / 256 % 256 ∷ n / 65536 % 256 ∷ n / 16777216 % 256 ∷ []

-- How many bytes of padding a block of `n` bytes gets
unfoldable pub pad_len : ℕ → ℕ
unfolding next_power_of_two
pad_len n = (next_power_of_two n + word32 - n) % word32

-- `padBlock`; `random n` is what `io.CopyN` copies from rand.Reader, `n` bytes unless it fails.
unfoldable pub pad_block : (ℕ → Result Bytes) → Bytes → Result Bytes
unfolding pad_len
pad_block random block =
    let block_len = length block % word32 in
    elim (random (pad_len block_len)) [
      | err e ↦ err e
      | ok padding ↦
          if length padding == pad_len block_len
          then ok (little_endian block_len ++ block ++ padding)
          else err short_rand_read
    ]

-- `depadBlock`; the sum of lengths is a uint32.
unfoldable pub depad_block : Bytes → Result Bytes
depad_block (a ∷ b ∷ c ∷ d ∷ rest) =
    let block_len = (a + 256 * b + 65536 * c + 16777216 * d) % word32 in
    let block_end_pos = (block_len + pad_prefix_size) % word32 in
    if ltb (4 + length rest) block_end_pos then err padded_block_read else ok (take block_len rest)
depad_block _ = err io_fault
