-- ===== src/Ops/Invert.antt =====
-- `invertOpForLocalNotifications` of libkbfs/ops.go.
pub mod Reverse
use kbfs.Prelude.{List, [], ◌∷◌, Result, ok, err, panicked}
use kbfs.Prelude.Chain.{◌>>=◌}
use kbfs.Ops.Update.{BlockUpdate}
use kbfs.Ops.Op.{file_type, Op, create_op, rm_op, rename_op, sync_op, set_attr_op, gc_op}
use kbfs.Ops.Op.New.{new_create_op, new_rm_op, new_rename_op, new_sync_op, new_set_attr_op}
use kbfs.Ops.Op.Pointers.{add_update, all_updates}

-- The switch on the type of the op; an op of any other type is a panic.
unfoldable pub opposite_op : Op → Result Op
opposite_op (create_op o) = new_rm_op o.new_name o.dir.ref >>= (λ r. ok (rm_op r))
opposite_op (rm_op o) = new_create_op o.old_name o.dir.ref file_type >>= (λ c. ok (create_op c))
opposite_op (rename_op o) =
    new_rename_op o.new_name o.new_dir.ref o.old_name o.old_dir.ref o.renamed o.renamed_type
    >>= (λ r. ok (rename_op r))
opposite_op (sync_op o) =
    new_sync_op o.file.ref >>= (λ so. ok (sync_op (record so { writes = o.writes })))
opposite_op (set_attr_op o) =
    new_set_attr_op o.name o.dir.ref o.attr o.file >>= (λ sao. ok (set_attr_op sao))
opposite_op (gc_op o) = ok (gc_op o)
opposite_op _ = err panicked

-- The loop that reverses the block updates.
unfoldable pub reverse_updates : List BlockUpdate → Op → Result Op
reverse_updates [] o = ok o
reverse_updates (u ∷ us) o = add_update u.ref u.unref o >>= reverse_updates us

unfoldable pub invert_op_for_local_notifications : Op → Result Op
invert_op_for_local_notifications old_op =
    opposite_op old_op >>= reverse_updates (all_updates old_op)
