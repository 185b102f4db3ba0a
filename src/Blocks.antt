-- ===== src/Blocks.antt =====
-- `BlockPointer` of libkbfs/data_types.go and the blocks of libkbfs/block_types.go, as far as the
-- caches read them.
use kbfs.Prelude.{ℕ, Bool, true, ◌&&◌, ◌==◌, ◌≡◌, ◌↔◌, arith, length, ◌%◌, ◌^◌, if◌then◌else◌}
use kbfs.Prelude.Dict.{Key}
use kbfs.FileStore.{Bytes}
use kbfs.BlockServer.Refs.{BlockContext, same_context}

pub record BlockPointer : Type 0 where
  pub id : ℕ
  pub key_gen : ℕ
  pub data_ver : ℕ
  pub context : BlockContext

-- `==` on pointers
abbrev pub same_pointer : BlockPointer → BlockPointer → Bool
same_pointer p q =
    (p.id == q.id)
    && (p.key_gen == q.key_gen)
    && (p.data_ver == q.data_ver)
    && same_context p.context q.context

pub same_pointer_iff : (p q : BlockPointer) → (same_pointer p q ≡ true) ↔ (p ≡ q)
same_pointer_iff p q = (λ h. ground arith, λ h. ground arith)

instance abbrev pub pointer_key : Key BlockPointer
pointer_key = record { same = same_pointer; same_iff = same_pointer_iff }

-- `is_ind` marks an indirect block, and `encoded_size` is the cached size of its encoding. What pointers
-- and directory entries a block holds is not read here.
pub record FileBlock : Type 0 where
  pub is_ind : Bool
  pub contents : Bytes
  pub encoded_size : ℕ

pub data Block : Type 0 where
  file_block : FileBlock → Block
  dir_block : ℕ → Block

-- `getCachedBlockSize` of libkbfs/bcache.go, a uint32
unfoldable pub get_cached_block_size : Block → ℕ
get_cached_block_size (file_block b) =
    if b.is_ind then b.encoded_size else length b.contents % 2 ^ 32
get_cached_block_size (dir_block size) = size
