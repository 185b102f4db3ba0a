-- ===== src/Chains.antt =====
-- `crChain` and `crChains` of libkbfs/cr_chains.go. A chain is an object that two maps share: `objects`
-- is the heap, and the maps hold its addresses. `mostRecentMD` is left out.
pub mod Collapse
pub mod Make
pub mod Follow
pub mod Actions
pub mod Build
pub mod NewOp
use kbfs.Prelude.{
  ℕ, zero, ◌+◌, ◌==◌, Bool, true, false, not, ◌&&◌, ◌||◌, List, [], ◌∷◌, ◌++◌, Result, ok, err,
  if◌then◌else◌, Option, none, some, no_chain_found, chain_exists,
}
use kbfs.Prelude.Dict.{find, store, discard}
use kbfs.FileStore.{Bytes}
use kbfs.Blocks.{BlockPointer, same_pointer, pointer_key}
use kbfs.Ops.Path.{zero_ptr, is_initialized}
use kbfs.Ops.Op.{Op}

pub record CrChain : Type 0 where
  pub ops : List Op
  pub original : BlockPointer
  pub most_recent : BlockPointer
  pub file : Bool

-- `crChain{}`
abbrev pub zero_chain : CrChain
zero_chain = record { ops = []; original = zero_ptr; most_recent = zero_ptr; file = false }

pub record RenameInfo : Type 0 where
  pub original_old_parent : BlockPointer
  pub old_name : Bytes
  pub original_new_parent : BlockPointer
  pub new_name : Bytes

abbrev pub PtrMap : Type 0 → Type 0
PtrMap V = List (BlockPointer × V)

pub record CrChains : Type 0 where
  pub objects : ℕ → CrChain
  pub next : ℕ
  pub by_original : PtrMap ℕ
  pub by_most_recent : PtrMap ℕ
  pub original_root : BlockPointer
  pub deleted_originals : PtrMap Bool
  pub created_originals : PtrMap Bool
  pub renamed_originals : PtrMap RenameInfo
  pub block_change_pointers : PtrMap Bool
  pub to_unref_pointers : PtrMap Bool
  pub originals : PtrMap BlockPointer

abbrev pub new_cr_chains_empty : CrChains
new_cr_chains_empty = record {
  objects = λ a. zero_chain;
  next = 0;
  by_original = [];
  by_most_recent = [];
  original_root = zero_ptr;
  deleted_originals = [];
  created_originals = [];
  renamed_originals = [];
  block_change_pointers = [];
  to_unref_pointers = [];
  originals = [];
}

-- An assignment to the object at an address.
abbrev pub set_object : ℕ → CrChain → CrChains → CrChains
set_object a c ccs = record ccs { objects = λ b. if a == b then c else ccs.objects b }

unfoldable pub most_recent_from_original : BlockPointer → CrChains → Result BlockPointer
most_recent_from_original original ccs = elim (find original ccs.by_original) [
  | none ↦ err no_chain_found
  | some a ↦ ok (ccs.objects a).most_recent
]

-- The one error of the call before is `NoChainFoundError`.
unfoldable pub most_recent_from_original_or_same : BlockPointer → CrChains → BlockPointer
unfolding most_recent_from_original
most_recent_from_original_or_same original ccs = elim (most_recent_from_original original ccs) [
  | ok ptr ↦ ptr
  | err e ↦ original
]

unfoldable pub original_from_most_recent : BlockPointer → CrChains → Result BlockPointer
original_from_most_recent most_recent ccs = elim (find most_recent ccs.by_most_recent) [
  | none ↦ err no_chain_found
  | some a ↦ ok (ccs.objects a).original
]

unfoldable pub original_from_most_recent_or_same : BlockPointer → CrChains → BlockPointer
unfolding original_from_most_recent
original_from_most_recent_or_same most_recent ccs =
    elim (original_from_most_recent most_recent ccs) [ ok ptr ↦ ptr | err e ↦ most_recent ]

-- A read of a Go map of Booleans
abbrev is_marked : BlockPointer → PtrMap Bool → Bool
is_marked ptr m = elim (find ptr m) [ none ↦ false | some b ↦ b ]

abbrev pub is_created : BlockPointer → CrChains → Bool
is_created original ccs = is_marked original ccs.created_originals

abbrev pub is_deleted : BlockPointer → CrChains → Bool
is_deleted original ccs = is_marked original ccs.deleted_originals

-- `none` where the Go function returns false
abbrev pub renamed_parent_and_name : BlockPointer → CrChains → Option (BlockPointer × Bytes)
renamed_parent_and_name original ccs = elim (find original ccs.renamed_originals) [
  | none ↦ none
  | some info ↦ some (info.original_new_parent, info.new_name)
]

abbrev pub remove_chain : BlockPointer → CrChains → CrChains
remove_chain ptr ccs = record ccs {
  by_original = discard ptr ccs.by_original;
  by_most_recent = discard ptr ccs.by_most_recent;
}

-- The entry of a map under `old`, if there is one, is put under `new`.
abbrev move_key : {V : Type 0} → BlockPointer → BlockPointer → PtrMap V → PtrMap V
move_key old new m = elim (find old m) [ none ↦ m | some v ↦ store new v (discard old m) ]

abbrev move_mark : BlockPointer → BlockPointer → PtrMap Bool → PtrMap Bool
move_mark old new m = elim (find old m) [ none ↦ m | some v ↦ store new true (discard old m) ]

-- The first half of `changeOriginal`, on the chain at `a`
change_pointers : BlockPointer → BlockPointer → ℕ → CrChains → CrChains
change_pointers old new a ccs =
    let chain = ccs.objects a in
    let moved = same_pointer chain.most_recent old in
    record (set_object a
      (record chain { original = new; most_recent = (if moved then new else chain.most_recent) })
      ccs) {
        by_original = store new a (discard old ccs.by_original);
        by_most_recent =
            (if moved then store new a (discard old ccs.by_most_recent) else ccs.by_most_recent);
        originals = store old new ccs.originals;
      }

unfoldable pub change_original : BlockPointer → BlockPointer → CrChains → Result CrChains
unfolding change_pointers move_key move_mark
change_original old new ccs = elim (find old ccs.by_original) [
  | none ↦ err no_chain_found
  | some a ↦ elim (find new ccs.by_original) [
    | some b ↦ err chain_exists
    | none ↦
        let ccs' = change_pointers old new a ccs in
        ok (record ccs' {
          deleted_originals = move_mark old new ccs.deleted_originals;
          created_originals = move_mark old new ccs.created_originals;
          renamed_originals = move_key old new ccs.renamed_originals;
        })
  ]
]
