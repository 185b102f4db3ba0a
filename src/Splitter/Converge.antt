-- ===== src/Splitter/Converge.antt =====
-- The maximum size that `NewBlockSplitterSimple` of libkbfs/bsplitter_simple.go finds.
use Prim.Native.Nat.{bit_and}
use kbfs.Prelude.{
  ℕ, zero, suc, ◌+◌, ◌-◌, ◌^◌, ◌<◌, ◌≤◌, ◌≡◌, ◌≢◌, refl, ap, ◌∙◌, sym, subst, ◌==◌, ok, length,
  take, arith, Bool-cases, inl, inr, ==_iff,
}
use kbfs.Prelude.Chain.{Result-cases}
use kbfs.Prelude.Bits.{bit_and-two_pow}
use kbfs.Prelude.Int64.{add64, sub64}
use kbfs.FileStore.{Bytes}
use kbfs.Codec.{Codec}
use kbfs.Blocks.{FileBlock}
use kbfs.Padding.Depad.{pad_block-returns, length-pad_block}
use kbfs.Padding.Lengths.{two_pow_le, next_power_of_two-two_pow}
use kbfs.Padding.{pad_block, next_power_of_two}
use kbfs.Splitter.{
  BlockSplitterSimple, adjusted_size, varying_data, direct_block, find_max_size,
  new_block_splitter_simple,
}

pub length-varying_data : (n i : ℕ) → length (varying_data n i) ≡ n
length-varying_data zero i = refl
length-varying_data (suc n) i = ap suc (length-varying_data n (suc i))

-- The last encoding has the desired length, or the last length it was given stays.
find_max_size-length :
    (codec : Codec FileBlock) (full_data : Bytes) (rounds max_size encoded_len m e : ℕ)
    → find_max_size codec full_data rounds max_size encoded_len ≡ ok (m, e)
    → e ≡ length full_data
    → encoded_len ≢ length full_data
    → (m ≤ length full_data)
      × (encoded : Bytes) × (codec.encode (direct_block (take m full_data)) ≡ ok encoded)
      × (length encoded ≡ length full_data)
unfolding find_max_size
find_max_size-length codec full_data zero max_size encoded_len m e h f g = absurd (ground arith)
find_max_size-length codec full_data (suc rounds) max_size encoded_len m e h f g =
    elim (Result-cases (codec.encode (direct_block (take max_size full_data)))) [
      | inr (x, er) ↦ absurd (ground (arith, h, er))
      | inl (encoded, en) ↦ elim (Bool-cases (length encoded == length full_data)) [
        | inl same ↦
            let m_max : max_size ≡ m = ground (arith, h, en, same) in
            (
              ground (arith, h, en),
              encoded,
              subst (λ n. codec.encode (direct_block (take n full_data)) ≡ ok encoded) m_max en,
              (==_iff (length encoded) (length full_data)).0 same,
            )
        | inr differs ↦
            find_max_size-length codec full_data rounds
              (add64 max_size (sub64 (length full_data) (length encoded))) (length encoded) m e
              (ground (arith, h, en, differs)) f (ground (arith, differs))
      ]
    ]

positive-≢ : {n : ℕ} → 0 < n → 0 ≢ n
positive-≢ p e = absurd (omega (arith, p, e))

-- A loop over `d` bytes that ends with the length `d`
found-encodes :
    (codec : Codec FileBlock) (d m e : ℕ)
    → 0 < d
    → find_max_size codec (varying_data d 0) 10 d 0 ≡ ok (m, e)
    → e ≡ d
    → (m ≤ d)
      × (encoded : Bytes) × (codec.encode (direct_block (take m (varying_data d 0))) ≡ ok encoded)
      × (length encoded ≡ d)
found-encodes codec d m e p h e_d =
    let l = length-varying_data d 0 in
    let (a, encoded, enc, le) =
      find_max_size-length codec (varying_data d 0) 10 d 0 m e h (e_d ∙ sym l)
        (λ z. positive-≢ p (z ∙ l)) in
    (subst (λ n. m ≤ n) l a, encoded, enc, le ∙ l)

-- What the constructor does with the end of its loop
new_block_splitter_simple-found :
    (codec : Codec FileBlock) (size embed : ℕ) (b : BlockSplitterSimple)
    → new_block_splitter_simple codec size embed ≡ ok b
    → find_max_size codec (varying_data (adjusted_size size) 0) 10 (adjusted_size size) 0
      ≡ ok (b.max_size, adjusted_size size)
unfolding new_block_splitter_simple
new_block_splitter_simple-found codec size embed b h =
    elim (Result-cases
      (find_max_size codec (varying_data (adjusted_size size) 0) 10 (adjusted_size size) 0)) [
        | inr (x, er) ↦ absurd (ground (arith, h, er))
        | inl ((m, e), en) ↦ ground (arith, h, en)
      ]

-- What a successful `new_block_splitter_simple` has found
new_block_splitter_simple-ok :
    (codec : Codec FileBlock) (size embed : ℕ) (b : BlockSplitterSimple)
    → 0 < adjusted_size size
    → new_block_splitter_simple codec size embed ≡ ok b
    → (b.max_size ≤ adjusted_size size)
      × (encoded : Bytes) × (codec.encode
            (direct_block (take b.max_size (varying_data (adjusted_size size) 0)))
          ≡ ok encoded)
      × (length encoded ≡ adjusted_size size)
new_block_splitter_simple-ok codec size embed b p h =
    found-encodes codec (adjusted_size size) b.max_size (adjusted_size size) p
      (new_block_splitter_simple-found codec size embed b h) refl

adjusted_size-two_pow : (k : ℕ) → k ≤ 62 → adjusted_size (2 ^ k) ≡ 2 ^ k - 1
unfolding adjusted_size
adjusted_size-two_pow k h =
    let small = two_pow_le k 62 h in
    let positive = two_pow_le 0 k (omega arith) in
    let less : sub64 (2 ^ k) 1 ≡ 2 ^ k - 1 = omega (arith, small, positive) in
    ground (arith, less, ap (λ n. bit_and (2 ^ k) n) less, bit_and-two_pow k)

next_power_of_two-pred : (j : ℕ) → 8 ≤ j → j ≤ 30 → next_power_of_two (2 ^ suc j - 1) ≡ 2 ^ suc j
next_power_of_two-pred j h l =
    let small = two_pow_le (suc j) 31 (omega (arith, l)) in
    let whole =
      next_power_of_two-two_pow j (2 ^ suc j - 1) h (omega (arith, l))
        (omega (arith, two_pow_le 0 j (omega arith)))
        (omega (arith, two_pow_le 0 j (omega arith))) in
    omega (arith, whole, small)

-- For a desired size of 2^k from 2^9 to 2^31, and a random source that gives as many bytes as it is asked
-- for: if `NewBlockSplitterSimple` succeeds, then the maximum size is below 2^k, the file block of that size
-- that it tried encodes to exactly 2^k - 1 bytes, and padding succeeds and makes these 2^k + 4 bytes.
pub new_block_splitter_simple-pad_block :
    (codec : Codec FileBlock) (k embed : ℕ) (b : BlockSplitterSimple) (random : ℕ → Bytes)
    → 9 ≤ k
    → k ≤ 31
    → ((n : ℕ) → length (random n) ≡ n)
    → new_block_splitter_simple codec (2 ^ k) embed ≡ ok b
    → (b.max_size < 2 ^ k)
      × (encoded padded : Bytes) × (codec.encode
            (direct_block (take b.max_size (varying_data (2 ^ k - 1) 0)))
          ≡ ok encoded)
      × (length encoded ≡ 2 ^ k - 1)
      × (pad_block (λ n. ok (random n)) encoded ≡ ok padded)
      × (length padded ≡ 4 + 2 ^ k)
new_block_splitter_simple-pad_block codec zero embed b random h l fills e =
    absurd (omega (arith, h))
new_block_splitter_simple-pad_block codec (suc j) embed b random h l fills e =
    let size = adjusted_size-two_pow (suc j) (omega (arith, l)) in
    let big = two_pow_le 9 (suc j) h in
    let small = two_pow_le (suc j) 31 l in
    let (a, encoded, enc, le) =
      new_block_splitter_simple-ok codec (2 ^ suc j) embed b (omega (arith, size, big)) e in
    let (padded, pads) = pad_block-returns random encoded fills in
    let (whole, _, _, _, _) =
      length-pad_block (λ n. ok (random n)) encoded padded (omega (arith, le, size, small)) pads in
    (
      omega (arith, a, size, big),
      encoded,
      padded,
      subst (λ n. codec.encode (direct_block (take b.max_size (varying_data n 0))) ≡ ok encoded)
          size enc,
      le ∙ size,
      pads,
      whole
          ∙ ap (λ n. 4 + next_power_of_two n) (le ∙ size)
          ∙ ap (λ n. 4 + n) (next_power_of_two-pred j (omega (arith, h)) (omega (arith, l))),
    )
