-- ===== src/Chains/Make.antt =====
-- `makeChainForOp` of libkbfs/cr_chains.go. A new op gets its block pointers before it is put into its
-- chain, where the source adds them after; what a failed call has done is thrown away by the callers.
use kbfs.Prelude.{
  ℕ, suc, Bool, true, not, List, [], ◌∷◌, ◌++◌, Result, ok, err, if◌then◌else◌, none, some,
  chain_missing,
}
use kbfs.Prelude.Chain.{◌>>=◌}
use kbfs.Prelude.Dict.{find, store, discard}
use kbfs.Blocks.{BlockPointer, same_pointer, pointer_key}
use kbfs.Ops.Path.{is_initialized}
use kbfs.Ops.Update.{BlockUpdate, is_zero_update, set_ref, zero_common}
use kbfs.Ops.Op.{RenameOp, Op, create_op, rm_op, rename_op, sync_op, set_attr_op, refs, unrefs}
use kbfs.Ops.Op.New.{new_create_op, new_rm_op}
use kbfs.Ops.Op.Pointers.{all_updates}
use kbfs.Chains.{CrChains, PtrMap, RenameInfo, zero_chain, set_object}

unfoldable pub add_op : BlockPointer → Op → CrChains → Result CrChains
add_op ptr o ccs = elim (find ptr ccs.by_most_recent) [
  | none ↦ err chain_missing
  | some a ↦
      let chain = ccs.objects a in
      ok (set_object a (record chain { ops = chain.ops ++ (o ∷ []) }) ccs)
]

-- `&crChain{original: ptr}`, put into `byOriginal`
abbrev pub start_chain : BlockPointer → CrChains → CrChains
start_chain ptr ccs = record (set_object ccs.next (record zero_chain { original = ptr }) ccs) {
  next = suc ccs.next;
  by_original = store ptr ccs.next ccs.by_original;
}

-- The rest of the first loop, on the chain at `a`
unfoldable pub point_chain : ℕ → BlockPointer → CrChains → CrChains
point_chain a ref ccs =
    let chain = ccs.objects a in
    record (set_object a (record chain { most_recent = ref }) ccs) {
      by_most_recent = store ref a (
          if is_initialized chain.most_recent
          then discard chain.most_recent ccs.by_most_recent
          else ccs.by_most_recent);
      originals =
          (if not (same_pointer chain.original ref)
            then store ref chain.original ccs.originals
            else ccs.originals);
    }

unfoldable pub note_update : BlockUpdate → CrChains → CrChains
note_update u ccs = elim (find u.unref ccs.by_most_recent) [
  | none ↦ point_chain ccs.next u.ref (start_chain u.unref ccs)
  | some a ↦ point_chain a u.ref ccs
]

unfoldable pub note_updates : List BlockUpdate → CrChains → CrChains
note_updates [] ccs = ccs
note_updates (u ∷ us) ccs = note_updates us (note_update u ccs)

abbrev pub note_refs : List BlockPointer → PtrMap Bool → PtrMap Bool
note_refs [] m = m
note_refs (ptr ∷ ptrs) m = note_refs ptrs (store ptr true m)

-- The original pointer of the chain whose most recent pointer is `ptr`, or `ptr`
abbrev pub original_or : BlockPointer → CrChains → BlockPointer
original_or ptr ccs = elim (find ptr ccs.by_most_recent) [
  | none ↦ ptr
  | some a ↦ (ccs.objects a).original
]

abbrev pub note_unrefs : List BlockPointer → CrChains → PtrMap Bool → PtrMap Bool
note_unrefs [] ccs m = m
note_unrefs (ptr ∷ ptrs) ccs m = note_unrefs ptrs ccs (store (original_or ptr ccs) true m)

-- The three loops at the start
unfoldable pub note_pointers : Op → CrChains → CrChains
note_pointers o ccs =
    let ccs' = note_updates (all_updates o) ccs in
    record ccs' {
      created_originals = note_refs (refs o) ccs'.created_originals;
      deleted_originals = note_unrefs (unrefs o) ccs' ccs'.deleted_originals;
    }

-- The directory into which a rename moves its entry: `ndu` and `ndr`
abbrev pub new_dir_of : RenameOp → BlockUpdate
new_dir_of o = if is_zero_update o.new_dir then o.old_dir else o.new_dir

-- The rm op of the old name
unfoldable pub add_rename_rm : RenameOp → CrChains → Result CrChains
add_rename_rm o ccs = do
  ro ← new_rm_op o.old_name o.old_dir.unref
  add_op o.old_dir.ref
      (rm_op (record ro {
        common = record zero_common { writer_info = o.common.writer_info };
        dir = record ro.dir { ref = o.old_dir.ref };
      }))
      ccs

-- The rm op of an entry that the rename overwrites
unfoldable pub add_overwrite_rm : RenameOp → CrChains → Result CrChains
add_overwrite_rm o ccs = elim o.common.unref_blocks [
  | [] ↦ ok ccs
  | ptr ∷ ptrs ↦ do
    ro ← new_rm_op o.new_name (new_dir_of o).unref
    dir ← set_ref (new_dir_of o).ref ro.dir
    add_op (new_dir_of o).ref
        (rm_op (record ro {
          common = record zero_common {
            writer_info = o.common.writer_info;
            unref_blocks = o.common.unref_blocks;
          };
          dir = dir;
        }))
        ccs
]

-- The rename of the node is kept from its first old place to its last new one.
unfoldable pub note_rename : RenameOp → ℕ → ℕ → CrChains → CrChains
note_rename o old_parent new_parent ccs =
    let renamed_original = original_or o.renamed ccs in
    let info : RenameInfo = elim (find renamed_original ccs.renamed_originals) [
      | some ri ↦ record ri {
        original_new_parent = (ccs.objects new_parent).original;
        new_name = o.new_name;
      }
      | none ↦ record {
        original_old_parent = (ccs.objects old_parent).original;
        old_name = o.old_name;
        original_new_parent = (ccs.objects new_parent).original;
        new_name = o.new_name;
      }
    ] in
    record ccs { renamed_originals = store renamed_original info ccs.renamed_originals }

-- The chains of the two parents, where the renamed node is known
unfoldable pub note_parents : RenameOp → CrChains → Result CrChains
note_parents o ccs =
    if is_initialized o.renamed
    then (elim (find (new_dir_of o).ref ccs.by_most_recent) [
      | none ↦ err chain_missing
      | some new_parent ↦ elim (find o.old_dir.ref ccs.by_most_recent) [
        | none ↦ err chain_missing
        | some old_parent ↦ ok (note_rename o old_parent new_parent ccs)
      ]
    ])
    else ok ccs

-- The create op of the new name
unfoldable pub add_rename_create : RenameOp → CrChains → Result CrChains
add_rename_create o ccs = do
  co ← new_create_op o.new_name (new_dir_of o).unref o.renamed_type
  let renamed_original = original_or o.renamed ccs
  ccs' ←
      add_op (new_dir_of o).ref
        (create_op (record co {
          common = record zero_common {
            writer_info = o.common.writer_info;
            ref_blocks = (if is_initialized o.renamed then renamed_original ∷ [] else []);
          };
          renamed = true;
          dir = record co.dir { ref = (new_dir_of o).ref };
        }))
        ccs
  note_parents o ccs'

-- The file of the op has no new pointer, so it may need a chain of its own.
unfoldable pub ensure_chain : BlockPointer → CrChains → CrChains
ensure_chain ptr ccs = elim (find ptr ccs.by_most_recent) [
  | some a ↦ ccs
  | none ↦
      record (set_object ccs.next (record zero_chain { original = ptr; most_recent = ptr }) ccs) {
        next = suc ccs.next;
        by_original = store ptr ccs.next ccs.by_original;
        by_most_recent = store ptr ccs.next ccs.by_most_recent;
      }
]

-- The switch on the type of the op
unfoldable pub add_to_chains : Op → CrChains → Result CrChains
add_to_chains (create_op c) ccs = add_op c.dir.ref (create_op c) ccs
add_to_chains (rm_op r) ccs = add_op r.dir.ref (rm_op r) ccs
add_to_chains (rename_op r) ccs = do
  removed ← add_rename_rm r ccs
  overwritten ← add_overwrite_rm r removed
  add_rename_create r overwritten
add_to_chains (sync_op s) ccs = add_op s.file.ref (sync_op s) ccs
add_to_chains (set_attr_op s) ccs = add_op s.file (set_attr_op s) (ensure_chain s.file ccs)
add_to_chains _ ccs = ok ccs

unfoldable pub make_chain_for_op : Op → CrChains → Result CrChains
make_chain_for_op o ccs = add_to_chains o (note_pointers o ccs)

-- The loop over the ops of one revision
unfoldable pub make_chains_for_ops : List Op → CrChains → Result CrChains
make_chains_for_ops [] ccs = ok ccs
make_chains_for_ops (o ∷ ops) ccs = make_chain_for_op o ccs >>= make_chains_for_ops ops
