-- ===== src/Chains/Actions.antt =====
-- `getActionsToMerge` and `copyOpAndRevertUnrefsToOriginals` of libkbfs/cr_chains.go.
use kbfs.Prelude.{
  Bool, true, false, ◌&&◌, ◌==◌, List, [], ◌∷◌, ◌++◌, Result, ok, if◌then◌else◌, Option, none, some,
}
use kbfs.Prelude.Chain.{◌>>=◌}
use kbfs.Prelude.Dict.{find}
use kbfs.FileStore.{Bytes}
use kbfs.Blocks.{BlockPointer, pointer_key}
use kbfs.Ops.Path.{FilePath}
use kbfs.Ops.Update.{BlockUpdate}
use kbfs.Ops.Op.{Op, create_op, rm_op, rename_op, sync_op, set_attr_op, gc_op}
use kbfs.Ops.Conflict.{CrAction, drop_unmerged, check_conflict, get_default_action}
use kbfs.Ops.WriteRange.{WriteRange, is_truncate}
use kbfs.Chains.{CrChain, CrChains}
use kbfs.Chains.Collapse.{get_collapsed_write_range}

abbrev pub is_sync : Op → Bool
is_sync (sync_op o) = true
is_sync _ = false

-- Both branches only truncate the file, at the same place.
unfoldable pub truncates_agree : List WriteRange → List WriteRange → Bool
truncates_agree (w ∷ []) (v ∷ []) = is_truncate w && is_truncate v && (w.off == v.off)
truncates_agree _ _ = false

-- The drop actions of the sync ops
abbrev pub drop_syncs : List Op → List (Option CrAction)
drop_syncs [] = []
drop_syncs (o ∷ ops) =
    let rest = drop_syncs ops in if is_sync o then some (drop_unmerged o) ∷ rest else rest

module _ (conflict_rename : Op → Bytes → Bytes) (file : Bool) (merged_path : FilePath) where
  -- The conflicts of one op with the ops of the merged chain
  unfoldable pub conflicts_with : Op → List Op → Result (List (Option CrAction))
  conflicts_with o [] = ok []
  conflicts_with o (merged ∷ ops) =
      let rest = conflicts_with o ops in
      check_conflict conflict_rename o merged file >>= λ action.
      rest >>= λ actions. ok (elim action [ none ↦ actions | some a ↦ some a ∷ actions ])

  -- The default action, which may be nil, where there is no conflict
  unfoldable pub actions_for : Op → List Op → Result (List (Option CrAction))
  actions_for o merged_ops = conflicts_with o merged_ops >>= λ conflicts. elim conflicts [
    | [] ↦ get_default_action merged_path o >>= (λ action. ok (action ∷ []))
    | c ∷ cs ↦ ok (c ∷ cs)
  ]

  -- The loop over the unmerged ops; `skip_syncs` says that the sync ops are in `toSkip`.
  unfoldable pub actions_loop : Bool → List Op → List Op → Result (List (Option CrAction))
  actions_loop skip_syncs [] merged_ops = ok []
  actions_loop skip_syncs (o ∷ ops) merged_ops =
      let rest = actions_loop skip_syncs ops merged_ops in
      if skip_syncs && is_sync o
      then rest
      else actions_for o merged_ops >>= (λ actions. rest >>= λ more. ok (actions ++ more))

-- `merged_chain` is `none` where it is nil.
unfoldable pub get_actions_to_merge :
    (Op → Bytes → Bytes) → FilePath → CrChain → Option CrChain → Result (List (Option CrAction))
get_actions_to_merge conflict_rename merged_path chain none =
    actions_loop conflict_rename chain.file merged_path false chain.ops []
get_actions_to_merge conflict_rename merged_path chain (some merged_chain) =
    let mine = get_collapsed_write_range chain.file chain.ops in
    let theirs = get_collapsed_write_range merged_chain.file merged_chain.ops in
    let skip = chain.file && truncates_agree mine theirs in
    actions_loop conflict_rename chain.file merged_path skip chain.ops merged_chain.ops
    >>= λ actions. ok ((if skip then drop_syncs chain.ops else []) ++ actions)

-- `*unref = original`, if there is one
abbrev pub reverted : CrChains → BlockPointer → BlockPointer
reverted ccs ptr = elim (find ptr ccs.originals) [ none ↦ ptr | some original ↦ original ]

abbrev pub revert_update : CrChains → BlockUpdate → BlockUpdate
revert_update ccs u = record u { unref = reverted ccs u.unref }

-- `none` is the nil op, for resolution and rekey ops.
unfoldable pub copy_op_and_revert_unrefs_to_originals : CrChains → Op → Option Op
copy_op_and_revert_unrefs_to_originals ccs (create_op o) =
    some (create_op (record o { dir = revert_update ccs o.dir }))
copy_op_and_revert_unrefs_to_originals ccs (rm_op o) =
    some (rm_op (record o { dir = revert_update ccs o.dir }))
copy_op_and_revert_unrefs_to_originals ccs (rename_op o) = some (
    rename_op (record o {
      old_dir = revert_update ccs o.old_dir;
      new_dir = revert_update ccs o.new_dir;
      renamed = reverted ccs o.renamed;
    }))
copy_op_and_revert_unrefs_to_originals ccs (sync_op o) =
    some (sync_op (record o { file = revert_update ccs o.file }))
copy_op_and_revert_unrefs_to_originals ccs (set_attr_op o) =
    some (set_attr_op (record o { dir = revert_update ccs o.dir; file = reverted ccs o.file }))
copy_op_and_revert_unrefs_to_originals ccs (gc_op o) = some (gc_op o)
copy_op_and_revert_unrefs_to_originals ccs _ = none
