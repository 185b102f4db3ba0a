-- ===== src/Splitter/Branches.antt =====
-- The branches of `CopyUntilSplit` of libkbfs/bsplitter_simple.go.
use kbfs.Prelude.{
  ℕ, ◌+◌, ◌-◌, ◌*◌, ◌%◌, ◌<◌, ◌≤◌, ◌≡◌, ap, max, min, ◌||◌, ltb, leb, if◌then◌else◌, ok, length,
  arith,
}
use kbfs.Prelude.Int64.{word, half_word, add64, sub64}
use kbfs.FileStore.{Bytes}
use kbfs.Splitter.Splice.{splice}
use kbfs.Splitter.{BlockSplitterSimple, copy_into, extended, copy_until_split}

-- How many bytes a write of `n` bytes copies
abbrev pub copied_count : ℕ → ℕ → ℕ → ℕ → ℕ
copied_count max_size curr n off =
    if leb (off + n) curr
    then n
    else if ltb max_size curr || ltb max_size off
    then 0
    else min n (max_size - off)

-- How long the block is afterwards
abbrev pub grown_len : ℕ → ℕ → ℕ → ℕ → ℕ
grown_len max_size curr n off = max curr (min (off + n) max_size)

pub copy_into-splice :
    (contents data_ : Bytes) (off count : ℕ)
    → length contents < half_word
    → length data_ < half_word
    → off ≤ length contents
    → off + count ≤ length contents
    → count ≤ length data_
    → copy_into contents data_ off count ≡ ok (count, splice contents data_ off count)
unfolding copy_into
copy_into-splice contents data_ off count a b c d e =
    let whole : (off + count) % word ≡ off + count = omega (arith, a, d) in ground (arith, whole)

pub copy_into-past :
    (contents data_ : Bytes) (off count : ℕ)
    → off < half_word
    → length contents < off
    → copy_into contents data_ off count ≡ ok (0, contents)
unfolding copy_into
copy_into-past contents data_ off count a b = ground arith

module _ (b : BlockSplitterSimple) (contents data_ : Bytes) (off : ℕ)
    (h1 : b.max_size * 2 < half_word) (h2 : length contents * 2 < half_word)
    (h3 : length data_ * 2 < half_word) (h4 : off * 2 < half_word) where
  -- A write that ends inside the block
  pub copy-inside :
      off + length data_ ≤ length contents
      → copy_until_split b contents data_ off ≡ copy_into contents data_ off (length data_)
  unfolding copy_until_split
  copy-inside h = ground arith

  -- A write past the end of a block that is too long
  pub copy-full :
      b.max_size < length contents
      → length contents < off + length data_
      → copy_until_split b contents data_ off ≡ ok (0, contents)
  unfolding copy_until_split
  copy-full h k = ground arith

  -- A write past the maximum size
  pub copy-cut :
      length contents ≤ b.max_size
      → b.max_size < off + length data_
      → copy_until_split b contents data_ off
        ≡ copy_into
            (extended contents (b.max_size - length contents))
            data_
            off
            (sub64 b.max_size off)
  unfolding copy_until_split
  copy-cut h k =
      let more : sub64 b.max_size (length contents) ≡ b.max_size - length contents =
        omega (arith, h, h1) in
      ground
        (arith, ap (λ m. copy_into (extended contents m) data_ off (sub64 b.max_size off)) more)

  -- A write that makes the block longer
  pub copy-fits :
      length contents < off + length data_
      → off + length data_ ≤ b.max_size
      → copy_until_split b contents data_ off
        ≡ copy_into
            (extended contents (off + length data_ - length contents))
            data_
            off
            (length data_)
  unfolding copy_until_split
  copy-fits h k =
      let more : sub64 (add64 (length data_) off) (length contents)
          ≡ off + length data_ - length contents =
        omega (arith, h, h3, h4) in
      ground (arith, ap (λ m. copy_into (extended contents m) data_ off (length data_)) more)
