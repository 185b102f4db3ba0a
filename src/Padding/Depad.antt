-- ===== src/Padding/Depad.antt =====
-- What `depadBlock` of libkbfs/crypto_common.go makes of the output of `padBlock`, and of other bytes.
use kbfs.Prelude.{
  ℕ, zero, suc, ◌+◌, ◌-◌, ◌*◌, ◌/◌, ◌%◌, ◌^◌, ◌<◌, ◌≤◌, ◌≡◌, refl, ap, ◌∙◌, max, arith, leb_cases,
  inl, inr, ◌⊎◌, [], ◌∷◌, ◌++◌, Result, ok, err, padded_block_read, length, take, length-append,
}
use kbfs.Prelude.Chain.{Result-cases}
use kbfs.FileStore.{Bytes}
use kbfs.Padding.{pad_len, word32, pad_block, depad_block, next_power_of_two, little_endian}
use kbfs.Padding.NextPower.{next_power_of_two-bounds, next_power_of_two-power}

take-append : (xs ys : Bytes) → take (length xs) (xs ++ ys) ≡ xs
take-append [] ys = refl
take-append (x ∷ xs) ys = ap (λ z. x ∷ z) (take-append xs ys)

take-all : (n : ℕ) (xs : Bytes) → length xs ≤ n → take n xs ≡ xs
take-all zero [] h = refl
take-all zero (x ∷ xs) h = absurd (omega (arith, h))
take-all (suc n) [] h = refl
take-all (suc n) (x ∷ xs) h = ap (λ z. x ∷ z) (take-all n xs (omega (arith, h)))

-- What a successful `pad_block` returns
pad_block-ok :
    (random : ℕ → Result Bytes) (block padded : Bytes)
    → length block < word32
    → pad_block random block ≡ ok padded
    → (padding : Bytes) × (padded ≡ little_endian (length block) ++ block ++ padding)
      × (length padding ≡ pad_len (length block))
unfolding pad_block
pad_block-ok random block padded l h =
    let n : length block % word32 ≡ length block = omega (arith, l) in
    elim (Result-cases (random (pad_len (length block % word32)))) [
      | inl (padding, e) ↦ (padding, ground (arith, e, h, n), ground (arith, e, h, n))
      | inr (x, e) ↦ absurd (ground (arith, e, h))
    ]

-- Reading back the length prefix
prefix-little_endian :
    (n : ℕ)
    → n < word32
    → (n % 256
          + 256 * (n / 256 % 256)
          + 65536 * (n / 65536 % 256)
          + 16777216 * (n / 16777216 % 256))
        % word32
      ≡ n
prefix-little_endian n h = omega (arith, h)

depad_block-short :
    (n : ℕ) (rest : Bytes)
    → n + 4 < word32
    → length rest < n
    → depad_block (little_endian n ++ rest) ≡ err padded_block_read
unfolding depad_block
depad_block-short n rest h l =
    let whole = prefix-little_endian n (omega (arith, h)) in ground (arith, whole)

depad_block-little_endian :
    (n : ℕ) (rest : Bytes)
    → n + 4 < word32
    → n ≤ length rest
    → depad_block (little_endian n ++ rest) ≡ ok (take n rest)
unfolding depad_block
depad_block-little_endian n rest h l =
    let whole = prefix-little_endian n (omega (arith, h)) in ground (arith, whole)

-- `padBlock` succeeds if the random source gives what it is asked for.
pub pad_block-returns :
    (random : ℕ → Bytes) (block : Bytes)
    → ((n : ℕ) → length (random n) ≡ n)
    → (padded : Bytes) × (pad_block (λ n. ok (random n)) block ≡ ok padded)
unfolding pad_block
pad_block-returns random block fills =
    let n = length block % word32 in
    (
      little_endian n ++ block ++ random (pad_len n),
      ground (arith, fills (pad_len (length block % word32))),
    )

-- If the random source gives as many bytes as it is asked for, then `padBlock` of a block of less than
-- 2^32 - 4 bytes succeeds, and `depadBlock` gets the block back from the result.
pub depad_block-pad_block :
    (random : ℕ → Bytes) (block : Bytes)
    → ((n : ℕ) → length (random n) ≡ n)
    → length block + 4 < word32
    → (padded : Bytes) × (pad_block (λ n. ok (random n)) block ≡ ok padded)
      × (depad_block padded ≡ ok block)
depad_block-pad_block random block fills l =
    let (padded, h) = pad_block-returns random block fills in
    let (padding, e, _) = pad_block-ok (λ n. ok (random n)) block padded (omega (arith, l)) h in
    let long = length-append block padding in
    (
      padded,
      h,
      ap depad_block e
          ∙ depad_block-little_endian (length block) (block ++ padding) l (omega (arith, long))
          ∙ ap ok (take-append block padding),
    )

-- A padded block of a length below 2^31 has four bytes more than `nextPowerOfTwo` of the length, which is a
-- power of two from 2^8 on: at least 260, more than the block and its prefix, and at most 4 more than twice
-- the block or 256.
pub length-pad_block :
    (random : ℕ → Result Bytes) (block padded : Bytes)
    → length block < 2 ^ 31
    → pad_block random block ≡ ok padded
    → (length padded ≡ 4 + next_power_of_two (length block))
      × ((k : ℕ) × (8 ≤ k) × (length padded ≡ 4 + 2 ^ k))
      × (260 ≤ length padded)
      × (length block + 4 < length padded)
      × (length padded ≤ 4 + max 256 (2 * length block))
length-pad_block random block padded l h =
    let (padding, e, n) = pad_block-ok random block padded (omega (arith, l)) h in
    let (a, b) = next_power_of_two-bounds (length block) l in
    let m : pad_len (length block)
        ≡ (next_power_of_two (length block) + word32 - length block) % word32 =
      (unfold pad_len in refl) in
    let all : length padded ≡ 4 + next_power_of_two (length block) =
      omega (arith, ap length e, length-append block padding, n, m, a, b, l) in
    let (k, from_8, from_256, power) = next_power_of_two-power (length block) l in
    (
      all,
      (k, from_8, omega (arith, all, power)),
      omega (arith, all, power, from_256),
      omega (arith, all, a),
      omega (arith, all, b),
    )

-- Bytes whose length prefix is `n` are refused if less than `n` bytes follow, for any `n` below 2^32 - 4;
-- otherwise the block is the `n` bytes that follow.
pub depad_block_lem :
    (n : ℕ) (rest : Bytes)
    → n + 4 < word32
    → ((length rest < n) × (depad_block (little_endian n ++ rest) ≡ err padded_block_read))
      ⊎ ((n ≤ length rest) × (depad_block (little_endian n ++ rest) ≡ ok (take n rest)))
depad_block_lem n rest h = elim (leb_cases n (length rest)) [
  | inl l ↦ inr (l, depad_block-little_endian n rest h l)
  | inr s ↦ inl (s, depad_block-short n rest h s)
]

-- A prefix of 2^32 - 4 or more is never refused: the sum of the lengths wraps around, and all that follows
-- is returned as the block, however short it is.
pub depad_block_wraps :
    (n : ℕ) (rest : Bytes)
    → word32 ≤ n + 4
    → n < word32
    → length rest ≤ n
    → depad_block (little_endian n ++ rest) ≡ ok rest
unfolding depad_block
depad_block_wraps n rest h k l = ground (arith, prefix-little_endian n k, take-all n rest l)
