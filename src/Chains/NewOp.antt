-- ===== src/Chains/NewOp.antt =====
-- `makeChainForNewOp` of libkbfs/cr_chains.go: a chain for an op whose pointers are not set yet. An update
-- of the op is changed for the duration of the call; the chain, which holds the op itself, has the old
-- update again afterwards.
use kbfs.Prelude.{
  List, [], ◌∷◌, Result, ok, err, none, some, chain_missing, chain_length, unknown_operation,
}
use kbfs.Prelude.Chain.{◌>>=◌}
use kbfs.Prelude.Dict.{find}
use kbfs.Blocks.{BlockPointer, pointer_key}
use kbfs.Ops.Update.{BlockUpdate, make_block_update}
use kbfs.Ops.Op.{Op, create_op, rm_op, rename_op, sync_op, set_attr_op, file_type}
use kbfs.Ops.Op.New.{new_create_op}
use kbfs.Chains.{CrChains, set_object}
use kbfs.Chains.Make.{make_chain_for_op}

abbrev with_last : Op → List Op → List Op
with_last o [] = []
with_last o (p ∷ []) = o ∷ []
with_last o (p ∷ q ∷ ops) = p ∷ with_last o (q ∷ ops)

-- The op that was added last to the chain of `ptr` is `o`.
abbrev reset_op : BlockPointer → Op → CrChains → CrChains
reset_op ptr o ccs = elim (find ptr ccs.by_most_recent) [
  | none ↦ ccs
  | some a ↦
      let chain = ccs.objects a in set_object a (record chain { ops = with_last o chain.ops }) ccs
]

-- `put u` is the op with the update `u`, and `at u` the pointer under which its chain is found.
unfoldable pub make_chain_for_new_op_with_update :
    BlockPointer
    → BlockUpdate
    → (BlockUpdate → Op)
    → (BlockUpdate → BlockPointer)
    → CrChains
    → Result CrChains
unfolding with_last reset_op
make_chain_for_new_op_with_update target_ptr u put at ccs = do
  u' ← make_block_update target_ptr u.unref
  ccs' ← make_chain_for_op (put u') ccs
  ok (reset_op (at u') (put u) ccs')

-- The chain of one op gets the rename op in its place.
unfoldable pub overwrite_op : BlockPointer → Op → CrChains → Result CrChains
overwrite_op target_ptr o ccs = elim (find target_ptr ccs.by_most_recent) [
  | none ↦ err chain_missing
  | some a ↦
      let chain = ccs.objects a in
      elim chain.ops [
        | [] ↦ err chain_length
        | p ∷ ps ↦ elim ps [
          | [] ↦ ok (set_object a (record chain { ops = o ∷ [] }) ccs)
          | q ∷ qs ↦ err chain_length
        ]
      ]
]

unfoldable pub make_chain_for_new_op : BlockPointer → Op → CrChains → Result CrChains
make_chain_for_new_op target_ptr (create_op o) ccs =
    make_chain_for_new_op_with_update target_ptr o.dir (λ u. create_op (record o { dir = u }))
      (λ u. u.ref) ccs
make_chain_for_new_op target_ptr (rm_op o) ccs =
    make_chain_for_new_op_with_update target_ptr o.dir (λ u. rm_op (record o { dir = u }))
      (λ u. u.ref) ccs
make_chain_for_new_op target_ptr (rename_op o) ccs = do
  co ← new_create_op o.new_name o.new_dir.unref file_type
  ccs' ←
      make_chain_for_new_op_with_update target_ptr co.dir (λ u. create_op (record co { dir = u }))
        (λ u. u.ref) ccs
  overwrite_op target_ptr (rename_op o) ccs'
make_chain_for_new_op target_ptr (set_attr_op o) ccs =
    make_chain_for_new_op_with_update target_ptr o.dir (λ u. set_attr_op (record o { dir = u }))
      (λ u. o.file) ccs
make_chain_for_new_op target_ptr (sync_op o) ccs =
    make_chain_for_new_op_with_update target_ptr o.file (λ u. sync_op (record o { file = u }))
      (λ u. u.ref) ccs
make_chain_for_new_op target_ptr _ ccs = err unknown_operation
