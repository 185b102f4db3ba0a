-- ===== src/Splitter.antt =====
-- `BlockSplitterSimple` of libkbfs/bsplitter_simple.go: how much of a write goes into a block. Sizes are
-- int64 values as bit patterns; the codec that encodes file blocks is a parameter.
pub mod Splice
pub mod Branches
pub mod Copy
pub mod Converge
pub mod Rounds
use Prim.Native.Nat.{bit_and}
use kbfs.Prelude.{
  ℕ, zero, suc, ◌+◌, ◌*◌, ◌%◌, Bool, true, false, ◌==◌, ◌||◌, leb, ltb, not, if◌then◌else◌, List,
  [], ◌∷◌, ◌++◌, Result, ok, err, panicked, block_too_large, no_convergence, length, take, drop,
  replicate,
}
use kbfs.Prelude.Chain.{◌>>=◌}
use kbfs.Prelude.Int64.{word, add64, sub64, lt64, is_negative}
use kbfs.FileStore.{Bytes}
use kbfs.Codec.{Codec}
use kbfs.Blocks.{FileBlock}

pub record BlockSplitterSimple : Type 0 where
  pub max_size : ℕ
  pub block_change_embed_max_size : ℕ

-- A size that is a power of two is taken down by one.
unfoldable pub adjusted_size : ℕ → ℕ
adjusted_size desired = if bit_and desired (sub64 desired 1) == 0 then sub64 desired 1 else desired

-- `fullData`, from byte `i` on
abbrev pub varying_data : ℕ → ℕ → Bytes
varying_data zero i = []
varying_data (suc n) i = i % 256 ∷ varying_data n (suc i)

-- A new file block with these contents
abbrev pub direct_block : Bytes → FileBlock
direct_block contents = record { is_ind = false; contents = contents; encoded_size = 0 }

abbrev pub result_length : Result Bytes → ℕ
result_length (ok encoded) = length encoded
result_length (err e) = 0

-- The loop of `NewBlockSplitterSimple`: at most `rounds` rounds, from a size and the last encoded length;
-- the slice of `fullData` panics if the size is negative or past its end.
unfoldable pub find_max_size : Codec FileBlock → Bytes → ℕ → ℕ → ℕ → Result (ℕ × ℕ)
find_max_size codec full_data zero max_size encoded_len = ok (max_size, encoded_len)
find_max_size codec full_data (suc rounds) max_size encoded_len =
    let desired = length full_data in
    let attempt = codec.encode (direct_block (take max_size full_data)) in
    let len = result_length attempt in
    let rest = find_max_size codec full_data rounds (add64 max_size (sub64 desired len)) len in
    if is_negative max_size || ltb desired max_size
    then err panicked
    else attempt >>= λ encoded.
        if not (lt64 len (2 * desired % word))
        then err block_too_large
        else if len == desired
        then ok (max_size, len)
        else rest

unfoldable pub new_block_splitter_simple : Codec FileBlock → ℕ → ℕ → Result BlockSplitterSimple
unfolding adjusted_size find_max_size
new_block_splitter_simple codec desired_block_size embed_max_size =
    let desired = adjusted_size desired_block_size in
    if is_negative desired
    then err panicked
    else find_max_size codec (varying_data desired 0) 10 desired 0 >>= λ found.
        let (max_size, encoded_len) = found in
        if not (encoded_len == desired)
        then err no_convergence
        else ok (record { max_size = max_size; block_change_embed_max_size = embed_max_size })

-- The end of `CopyUntilSplit`, on contents that have been extended: the bounds of the slices are checked.
unfoldable pub copy_into : Bytes → Bytes → ℕ → ℕ → Result (ℕ × Bytes)
copy_into contents data_ off to_copy =
    let stop = add64 off to_copy in
    if lt64 (length contents) off
    then ok (0, contents)
    else if is_negative off
        || lt64 stop off
        || lt64 (length contents) stop
        || is_negative to_copy
        || lt64 (length data_) to_copy
    then err panicked
    else ok (to_copy, take off contents ++ (take to_copy data_ ++ drop stop contents))

-- `append(block.Contents, make([]byte, moreNeeded)...)`
abbrev pub extended : Bytes → ℕ → Bytes
extended contents more = contents ++ replicate more 0

-- `CopyUntilSplit`: how many bytes were copied, and the contents of the block afterwards
unfoldable pub copy_until_split : BlockSplitterSimple → Bytes → Bytes → ℕ → Result (ℕ × Bytes)
unfolding copy_into
copy_until_split b contents data_ off =
    let n = length data_ in
    let curr_len = length contents in
    let more_needed = sub64 (add64 n off) curr_len in
    if lt64 curr_len (add64 off n)
    then if lt64 b.max_size (add64 more_needed curr_len)
      then if is_negative (sub64 b.max_size curr_len)
        then ok (0, contents)
        else copy_into (extended contents (sub64 b.max_size curr_len)) data_ off
            (sub64 b.max_size off)
      else copy_into (extended contents more_needed) data_ off n
    else copy_into contents data_ off n

abbrev pub check_split : FileBlock → ℕ
check_split block = 0

-- `ShouldEmbedBlockChanges`, of changes with an estimated size
unfoldable pub should_embed_block_changes : BlockSplitterSimple → ℕ → Bool
should_embed_block_changes b size_estimate = leb size_estimate b.block_change_embed_max_size
