-- ===== src/Splitter/Copy.antt =====
-- What `CopyUntilSplit` of libkbfs/bsplitter_simple.go copies, and where.
use kbfs.Prelude.{
  ℕ, ◌+◌, ◌-◌, ◌*◌, ◌<◌, ◌≤◌, ◌≡◌, ap, ◌∙◌, sym, subst, ok, length, replicate, arith, leb_cases,
  inl, inr, ◌⊎◌, length-append, length-replicate,
}
use kbfs.Prelude.Int64.{half_word, sub64}
use kbfs.FileStore.{Bytes}
use kbfs.Splitter.Splice.{
  byte_at, splice, byte_at-splice, length-splice, byte_at-extended, extended-zero,
}
use kbfs.Splitter.{BlockSplitterSimple, copy_into, extended, copy_until_split}
use kbfs.Splitter.Branches.{
  copied_count, grown_len, copy_into-splice, copy_into-past, copy-inside, copy-full, copy-cut,
  copy-fits,
}

-- What a call leaves: a block of the right length, whose bytes are those of the data in a range of `count`
-- bytes from `off` on, and else the old ones (0 past their end).
pub record IsCopied (max_size : ℕ) (contents data_ : Bytes) (off count : ℕ) (after : Bytes)
    : Type 0 where
  pub within : count ≤ length data_
  pub size : length after ≡ grown_len max_size (length contents) (length data_) off
  pub before : (i : ℕ) → i < off → byte_at after i ≡ byte_at contents i
  pub inside : (i : ℕ) → i < count → byte_at after (off + i) ≡ byte_at data_ i
  pub past : (i : ℕ) → off + count ≤ i → byte_at after i ≡ byte_at contents i

length-extended : (xs : Bytes) (n : ℕ) → length (extended xs n) ≡ length xs + n
length-extended xs n = omega (arith, length-append xs (replicate n 0), length-replicate {A = ℕ} n 0)

splice-IsCopied :
    (max_size : ℕ) (contents data_ : Bytes) (off count more : ℕ)
    → length contents + more ≡ grown_len max_size (length contents) (length data_) off
    → off + count ≤ length contents + more
    → count ≤ length data_
    → IsCopied max_size contents data_ off count (splice (extended contents more) data_ off count)
splice-IsCopied max_size contents data_ off count more e h k =
    let l = length-extended contents more in
    let grown = extended contents more in
    let (before, inside, past) = byte_at-splice grown data_ off count (omega (arith, l, h)) k in
    record {
      within = k;
      size = omega (arith, length-splice grown data_ off count (omega (arith, l, h)) k, l, e);
      before = λ i u. before i u ∙ byte_at-extended contents more i;
      inside = inside;
      past = λ i u. past i u ∙ byte_at-extended contents more i;
    }

extended-IsCopied :
    (max_size : ℕ) (contents data_ : Bytes) (off more : ℕ)
    → length contents + more ≡ grown_len max_size (length contents) (length data_) off
    → IsCopied max_size contents data_ off 0 (extended contents more)
extended-IsCopied max_size contents data_ off more e = record {
  within = omega arith;
  size = omega (arith, length-extended contents more, e);
  before = λ i u. byte_at-extended contents more i;
  inside = λ i u. absurd (omega (arith, u));
  past = λ i u. byte_at-extended contents more i;
}

module _ (b : BlockSplitterSimple) (contents data_ : Bytes) (off : ℕ)
    (h1 : b.max_size * 2 < half_word) (h2 : length contents * 2 < half_word)
    (h3 : length data_ * 2 < half_word) (h4 : off * 2 < half_word) where
  abbrev Returns : ℕ → Type 0
  Returns count =
      (after : Bytes) × (copy_until_split b contents data_ off ≡ ok (count, after))
      × IsCopied b.max_size contents data_ off count after

  Returns-splice :
      (count more : ℕ)
      → copy_until_split b contents data_ off ≡ copy_into (extended contents more) data_ off count
      → length contents + more ≡ grown_len b.max_size (length contents) (length data_) off
      → off + count ≤ length contents + more
      → count ≤ length data_
      → Returns count
  Returns-splice count more e g h k =
      let l = length-extended contents more in
      (
        splice (extended contents more) data_ off count,
        e
            ∙ copy_into-splice (extended contents more) data_ off count
                (omega (arith, l, g, h1, h2, h4, h3)) (omega (arith, h3)) (omega (arith, l, h))
                (omega (arith, l, h)) k,
        splice-IsCopied b.max_size contents data_ off count more g h k,
      )

  Returns-nothing :
      (more : ℕ)
      → copy_until_split b contents data_ off ≡ ok (0, extended contents more)
      → length contents + more ≡ grown_len b.max_size (length contents) (length data_) off
      → Returns 0
  Returns-nothing more e g =
      (extended contents more, e, extended-IsCopied b.max_size contents data_ off more g)

  Returns-at :
      (count : ℕ)
      → copied_count b.max_size (length contents) (length data_) off ≡ count
      → Returns count
      → Returns (copied_count b.max_size (length contents) (length data_) off)
  Returns-at count e r = subst Returns (sym e) r

  -- With sizes and an offset below 2^62, `CopyUntilSplit` does not panic. It returns how many bytes fit, and
  -- the block then has its old length, or the end of the write, or the maximum size, and has the first bytes
  -- of the data from the offset on and its old bytes elsewhere.
  pub copy_until_split-IsCopied :
      (after : Bytes) × (copy_until_split b contents data_ off
        ≡ ok (copied_count b.max_size (length contents) (length data_) off, after))
      × IsCopied b.max_size contents data_ off
          (copied_count b.max_size (length contents) (length data_) off)
          after
  copy_until_split-IsCopied =
      let n = length data_ in
      let same = extended-zero contents in
      elim (leb_cases (off + n) (length contents)) [
        | inl inside ↦ Returns-at n (ground arith) (
            Returns-splice n 0
              (copy-inside b contents data_ off h1 h2 h3 h4 inside
                ∙ ap (λ c. copy_into c data_ off n) (sym same))
              (omega (arith, inside)) (omega (arith, inside)) (omega arith))
        | inr outside ↦ elim (leb_cases (length contents) b.max_size) [
          | inr full ↦ Returns-at 0 (ground arith) (
              Returns-nothing 0
                (copy-full b contents data_ off h1 h2 h3 h4 full outside
                  ∙ ap (λ c. ok (0, c)) (sym same))
                (omega (arith, full)))
          | inl room ↦ elim (leb_cases (off + n) b.max_size) [
            | inl fits ↦ Returns-at n (ground arith) (
                Returns-splice n (off + n - length contents)
                  (copy-fits b contents data_ off h1 h2 h3 h4 outside fits)
                  (omega (arith, outside, fits)) (omega (arith, outside)) (omega arith))
            | inr cut ↦ elim (leb_cases off b.max_size) [
              | inl some_room ↦
                  let count : sub64 b.max_size off ≡ b.max_size - off =
                    omega (arith, some_room, h1) in
                  Returns-at (b.max_size - off) (ground arith) (
                    Returns-splice (b.max_size - off) (b.max_size - length contents)
                      (copy-cut b contents data_ off h1 h2 h3 h4 room cut
                        ∙ ap
                            (copy_into (extended contents (b.max_size - length contents)) data_ off)
                            count)
                      (omega (arith, room, cut)) (omega (arith, room, some_room))
                      (omega (arith, cut, some_room)))
              | inr past ↦
                  let l = length-extended contents (b.max_size - length contents) in
                  Returns-at 0 (ground arith) (
                    Returns-nothing (b.max_size - length contents)
                      (copy-cut b contents data_ off h1 h2 h3 h4 room cut
                        ∙ copy_into-past (extended contents (b.max_size - length contents)) data_
                            off (sub64 b.max_size off) (omega (arith, h4))
                            (omega (arith, l, room, past)))
                      (omega (arith, room, cut)))
            ]
          ]
        ]
      ]

  -- With sizes below 2^62, a write of some bytes at an offset below the maximum size, to a block that is
  -- not longer than that, copies at least one byte, and less than all only if it fills the block.
  pub copy_until_split-progress :
      length contents ≤ b.max_size
      → off < b.max_size
      → 0 < length data_
      → (count : ℕ) × (after : Bytes) × (copy_until_split b contents data_ off ≡ ok (count, after))
        × (0 < count)
        × ((count ≡ length data_) ⊎ ((off + count ≡ b.max_size) × (length after ≡ b.max_size)))
  copy_until_split-progress fits below some_data =
      let (after, e, c) = copy_until_split-IsCopied in
      (
        copied_count b.max_size (length contents) (length data_) off,
        after,
        e,
        ground arith,
        elim (leb_cases (off + length data_) b.max_size) [
          | inl all ↦ inl (ground arith)
          | inr cut ↦ inr (ground arith, ground (arith, c.size))
        ],
      )
