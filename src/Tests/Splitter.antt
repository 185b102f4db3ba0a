-- ===== src/Tests/Splitter.antt =====
-- The block splitter at concrete inputs.
use kbfs.Prelude.{
  ℕ, ◌+◌, ◌-◌, ◌^◌, ◌<◌, ◌≡◌, refl, ◌==◌, if◌then◌else◌, [], ◌∷◌, Result, ok, err, codec_fault,
  length, take, replicate, length-replicate, arith, ◌⊎◌,
}
use kbfs.FileStore.{Bytes}
use kbfs.Codec.{Codec}
use kbfs.Blocks.{FileBlock}
use kbfs.Padding.{pad_block}
use kbfs.Splitter.{
  BlockSplitterSimple, adjusted_size, varying_data, direct_block, find_max_size,
  new_block_splitter_simple, copy_into, copy_until_split,
}
use kbfs.Splitter.Branches.{copied_count}
use kbfs.Splitter.Copy.{IsCopied, copy_until_split-IsCopied, copy_until_split-progress}
use kbfs.Splitter.Converge.{new_block_splitter_simple-pad_block}
use kbfs.Splitter.Rounds.{new_block_splitter_simple-converges}

abbrev encode_file : FileBlock → Bytes
encode_file b = (if b.is_ind then 1 else 0) ∷ b.encoded_size ∷ b.contents

abbrev decode_file : Bytes → Result FileBlock
decode_file (a ∷ n ∷ rest) = ok (record { is_ind = a == 1; contents = rest; encoded_size = n })
decode_file _ = err codec_fault

decode-encode_file :
    (b : FileBlock) (bs : Bytes) → ok (encode_file b) ≡ ok bs → decode_file bs ≡ ok b
decode-encode_file b bs h = ground arith

abbrev file_codec : Codec FileBlock
file_codec = record {
  encode = λ b. ok (encode_file b);
  decode = decode_file;
  decode-encode = decode-encode_file;
}

abbrev small_splitter : BlockSplitterSimple
small_splitter = record { max_size = 6; block_change_embed_max_size = 100 }

abbrev old_contents : Bytes
old_contents = 1 ∷ 2 ∷ 3 ∷ []

abbrev new_data : Bytes
new_data = 7 ∷ 8 ∷ 9 ∷ []

copies_cut :
    copy_until_split small_splitter old_contents new_data 4 ≡ ok (2, 1 ∷ 2 ∷ 3 ∷ 0 ∷ 7 ∷ 8 ∷ [])
unfolding copy_until_split copy_into
copies_cut = refl

copy_until_split-IsCopied_example :
    (after : Bytes) × (copy_until_split small_splitter old_contents new_data 4
      ≡ ok (copied_count 6 3 3 4, after))
    × IsCopied 6 old_contents new_data 4 (copied_count 6 3 3 4) after
copy_until_split-IsCopied_example =
    copy_until_split-IsCopied small_splitter old_contents new_data 4 (omega arith) (omega arith)
      (omega arith) (omega arith)

copy_until_split-progress_example :
    (count : ℕ) × (after : Bytes) × (copy_until_split small_splitter old_contents new_data 4
      ≡ ok (count, after))
    × (0 < count)
    × ((count ≡ length new_data) ⊎ ((4 + count ≡ 6) × (length after ≡ 6)))
copy_until_split-progress_example =
    copy_until_split-progress small_splitter old_contents new_data 4 (omega arith) (omega arith)
      (omega arith) (omega arith) (omega arith) (omega arith) (omega arith)

converges_512 :
    new_block_splitter_simple file_codec (2 ^ 9) 100
    ≡ ok (record { max_size = 509; block_change_embed_max_size = 100 })
unfolding new_block_splitter_simple find_max_size adjusted_size
converges_512 = refl

abbrev zero_bytes : ℕ → Bytes
zero_bytes n = replicate n 0

length-zero_bytes : (n : ℕ) → length (zero_bytes n) ≡ n
length-zero_bytes n = length-replicate {A = ℕ} n 0

new_block_splitter_simple-pad_block_example :
    (509 < 2 ^ 9)
    × (encoded padded : Bytes) × (file_codec.encode
          (direct_block (take 509 (varying_data (2 ^ 9 - 1) 0)))
        ≡ ok encoded)
    × (length encoded ≡ 2 ^ 9 - 1)
    × (pad_block (λ n. ok (zero_bytes n)) encoded ≡ ok padded)
    × (length padded ≡ 4 + 2 ^ 9)
new_block_splitter_simple-pad_block_example =
    new_block_splitter_simple-pad_block file_codec 9 100
      (record { max_size = 509; block_change_embed_max_size = 100 }) zero_bytes (omega arith)
      (omega arith) length-zero_bytes converges_512

file_codec-overhead :
    (contents : Bytes)
    → (encoded : Bytes) × (file_codec.encode (direct_block contents) ≡ ok encoded)
      × (length encoded ≡ length contents + 2)
file_codec-overhead contents = (encode_file (direct_block contents), refl, omega arith)

size_300 : adjusted_size 300 ≡ 300
unfolding adjusted_size
size_300 = refl

new_block_splitter_simple-converges_example :
    new_block_splitter_simple file_codec 300 100
    ≡ ok (record { max_size = adjusted_size 300 - 2; block_change_embed_max_size = 100 })
new_block_splitter_simple-converges_example =
    new_block_splitter_simple-converges file_codec 300 100 2 (omega (arith, size_300))
      (omega (arith, size_300)) (λ contents a b. file_codec-overhead contents)
