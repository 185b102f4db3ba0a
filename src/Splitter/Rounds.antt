-- ===== src/Splitter/Rounds.antt =====
-- The loop of `NewBlockSplitterSimple` of libkbfs/bsplitter_simple.go ends well where the overhead of the
-- encoding is the same for all sizes near the desired one.
use kbfs.Prelude.{
  ℕ, suc, ◌+◌, ◌-◌, ◌*◌, ◌<◌, ◌≤◌, ◌≡◌, ap, ◌∙◌, sym, subst, ok, length, take, arith, leb_cases,
  inl, inr, length-take,
}
use kbfs.Prelude.Int64.{half_word, add64, sub64}
use kbfs.FileStore.{Bytes}
use kbfs.Codec.{Codec}
use kbfs.Blocks.{FileBlock}
use kbfs.Splitter.{
  adjusted_size, varying_data, direct_block, find_max_size, new_block_splitter_simple,
}
use kbfs.Splitter.Converge.{length-varying_data}

-- A round that ends the loop, and one that does not
find_max_size-done :
    (codec : Codec FileBlock) (full encoded : Bytes) (rounds max_size encoded_len : ℕ)
    → codec.encode (direct_block (take max_size full)) ≡ ok encoded
    → length encoded ≡ length full
    → 0 < length full
    → max_size ≤ length full
    → length full * 2 < half_word
    → find_max_size codec full (suc rounds) max_size encoded_len ≡ ok (max_size, length full)
unfolding find_max_size
find_max_size-done codec full encoded rounds max_size encoded_len en e p h l = ground (arith, en)

find_max_size-again :
    (codec : Codec FileBlock) (full encoded : Bytes) (rounds max_size encoded_len : ℕ)
    → codec.encode (direct_block (take max_size full)) ≡ ok encoded
    → length full < length encoded
    → length encoded < length full * 2
    → max_size ≤ length full
    → length full * 2 < half_word
    → find_max_size codec full (suc rounds) max_size encoded_len
      ≡ find_max_size codec full rounds
          (add64 max_size (sub64 (length full) (length encoded)))
          (length encoded)
unfolding find_max_size
find_max_size-again codec full encoded rounds max_size encoded_len en e p h l = ground (arith, en)

find_max_size-converges :
    (codec : Codec FileBlock) (full : Bytes) (c : ℕ)
    → c < length full
    → length full * 2 < half_word
    → ((contents : Bytes)
        → length full ≤ length contents + c
        → length contents ≤ length full
        → (encoded : Bytes) × (codec.encode (direct_block contents) ≡ ok encoded)
          × (length encoded ≡ length contents + c))
    → find_max_size codec full 10 (length full) 0 ≡ ok (length full - c, length full)
find_max_size-converges codec full c h l overhead =
    let d = length full in
    let (first, e1, l1) =
      overhead (take d full) (omega (arith, length-take d full))
        (omega (arith, length-take d full)) in
    let (second, e2, l2) =
      overhead (take (d - c) full) (omega (arith, h, length-take (d - c) full))
        (omega (arith, length-take (d - c) full)) in
    elim (leb_cases c 0) [
      | inl none_over ↦
          let same : d ≡ d - c = omega (arith, none_over) in
          find_max_size-done codec full first 9 d 0 e1
            (omega (arith, l1, length-take d full, none_over)) (omega (arith, h)) (omega arith) l
          ∙ ap (λ m. ok (m, d)) same
      | inr some_over ↦
          let next : add64 d (sub64 d (length first)) ≡ d - c =
            omega (arith, l1, length-take d full, h, l) in
          find_max_size-again codec full first 9 d 0 e1
            (omega (arith, l1, length-take d full, some_over))
            (omega (arith, l1, length-take d full, h)) (omega arith) l
          ∙ ap (λ m. find_max_size codec full 9 m (length first)) next
          ∙ find_max_size-done codec full second 8 (d - c) (length first) e2
              (omega (arith, l2, length-take (d - c) full, h)) (omega (arith, h)) (omega arith) l
    ]

-- If every file block that is up to `c` bytes shorter than the adjusted size encodes to `c` bytes more
-- than it holds, with `c` below that size and the size below 2^62, then the search of
-- `NewBlockSplitterSimple` ends within its ten rounds, and the maximum size is the adjusted size less `c`.
pub new_block_splitter_simple-converges :
    (codec : Codec FileBlock) (size embed c : ℕ)
    → c < adjusted_size size
    → adjusted_size size * 2 < half_word
    → ((contents : Bytes)
        → adjusted_size size ≤ length contents + c
        → length contents ≤ adjusted_size size
        → (encoded : Bytes) × (codec.encode (direct_block contents) ≡ ok encoded)
          × (length encoded ≡ length contents + c))
    → new_block_splitter_simple codec size embed
      ≡ ok (record { max_size = adjusted_size size - c; block_change_embed_max_size = embed })
unfolding new_block_splitter_simple
new_block_splitter_simple-converges codec size embed c h l overhead =
    let d = adjusted_size size in
    let same = length-varying_data d 0 in
    let found =
      find_max_size-converges codec (varying_data d 0) c (subst (λ n. c < n) (sym same) h)
        (subst (λ n. n * 2 < half_word) (sym same) l)
        (λ contents a b.
          overhead contents (subst (λ n. n ≤ length contents + c) same a)
            (subst (λ n. length contents ≤ n) same b)) in
    let found' : find_max_size codec (varying_data d 0) 10 d 0 ≡ ok (d - c, d) =
      subst (λ n. find_max_size codec (varying_data d 0) 10 n 0 ≡ ok (n - c, n)) same found in
    ground (arith, found')
