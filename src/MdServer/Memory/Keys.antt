-- ===== src/MdServer/Memory/Keys.antt =====
-- The keys of the maps of `MDServerMemory` (libkbfs/mdserver_memory.go).
use kbfs.Prelude.{ℕ, Bool, true, ◌&&◌, ◌==◌, ◌≡◌, ◌↔◌, Option, none, some, arith}
use kbfs.Prelude.Int.{ℤ, pos}
use kbfs.Prelude.Dict.{Key}
use kbfs.FileStore.{bytes_key}
use kbfs.RootMetadata.{RootMetadata}

pub record MdBlockKey : Type 0 where
  pub tlf_id : ℕ
  pub branch_id : ℕ

pub record MdBranchKey : Type 0 where
  pub tlf_id : ℕ
  pub device_kid : ℕ

abbrev pub same_block_key : MdBlockKey → MdBlockKey → Bool
same_block_key a b = (a.tlf_id == b.tlf_id) && (a.branch_id == b.branch_id)

pub same_block_key_iff : (a b : MdBlockKey) → (same_block_key a b ≡ true) ↔ (a ≡ b)
same_block_key_iff a b = (λ h. ground arith, λ h. ground arith)

abbrev pub same_branch_key : MdBranchKey → MdBranchKey → Bool
same_branch_key a b = (a.tlf_id == b.tlf_id) && (a.device_kid == b.device_kid)

pub same_branch_key_iff : (a b : MdBranchKey) → (same_branch_key a b ≡ true) ↔ (a ≡ b)
same_branch_key_iff a b = (λ h. ground arith, λ h. ground arith)

instance abbrev pub block_key : Key MdBlockKey
block_key = record { same = same_block_key; same_iff = same_block_key_iff }

instance abbrev pub branch_key : Key MdBranchKey
branch_key = record { same = same_branch_key; same_iff = same_branch_key_iff }

-- A write to a map that may be nil; no caller writes to a nil map.
abbrev pub map_some : {A : Type 0} → (A → A) → Option A → Option A
map_some f none = none
map_some f (some a) = some (f a)

-- The revision of a head, 0 if there is none
abbrev pub head_revision : Option RootMetadata → ℤ
head_revision none = pos 0
head_revision (some md) = md.revision
