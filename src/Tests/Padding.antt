-- ===== src/Tests/Padding.antt =====
-- Padding at concrete inputs.
use kbfs.Prelude.{
  ℕ, ◌+◌, ◌*◌, ◌%◌, ◌^◌, ◌<◌, ◌≤◌, ◌≡◌, refl, max, [], ◌∷◌, ◌++◌, ok, length, replicate,
  length-replicate, arith,
}
use kbfs.FileStore.{Bytes}
use kbfs.Padding.{
  word32, smear_all, next_power_of_two, pad_block, depad_block, pad_len, little_endian,
}
use kbfs.Padding.NextPower.{
  double_until_above, next_power_of_two-double_until_above, next_power_of_two-bounds,
}
use kbfs.Padding.Depad.{depad_block-pad_block, length-pad_block, depad_block_wraps}

powers :
    (next_power_of_two 300 ≡ 512)
    × (next_power_of_two 512 ≡ 1024)
    × (next_power_of_two (2 ^ 31) ≡ 0)
unfolding next_power_of_two smear_all
powers = (refl, refl, refl)

next_power_of_two-double_until_above_example :
    next_power_of_two 1000 ≡ double_until_above 24 256 1000 % word32
next_power_of_two-double_until_above_example =
    next_power_of_two-double_until_above 1000 (omega arith)

next_power_of_two-bounds_example :
    (1000 < next_power_of_two 1000) × (next_power_of_two 1000 ≤ max 256 (2 * 1000))
next_power_of_two-bounds_example = next_power_of_two-bounds 1000 (omega arith)

abbrev zeros : ℕ → Bytes
zeros n = replicate n 0

abbrev small_block : Bytes
small_block = 7 ∷ 8 ∷ 9 ∷ []

depad_block-pad_block_example :
    (padded : Bytes) × (pad_block (λ n. ok (zeros n)) small_block ≡ ok padded)
    × (depad_block padded ≡ ok small_block)
depad_block-pad_block_example =
    depad_block-pad_block zeros small_block (λ n. length-replicate n 0) (omega arith)

abbrev small_padded : Bytes
small_padded = little_endian 3 ++ small_block ++ zeros 253

length-pad_block_example :
    (length small_padded ≡ 4 + next_power_of_two (length small_block))
    × ((k : ℕ) × (8 ≤ k) × (length small_padded ≡ 4 + 2 ^ k))
    × (260 ≤ length small_padded)
    × (length small_block + 4 < length small_padded)
    × (length small_padded ≤ 4 + max 256 (2 * length small_block))
unfolding pad_block pad_len next_power_of_two
length-pad_block_example =
    length-pad_block (λ n. ok (zeros n)) small_block small_padded (omega arith) refl

depad_block_wraps_example : depad_block (little_endian 4294967295 ++ small_block) ≡ ok small_block
depad_block_wraps_example =
    depad_block_wraps 4294967295 small_block (omega arith) (omega arith) (omega arith)
