-- ===== src/Ops/Op/Pointers.antt =====
-- `AddUpdate`, `AllUpdates`, `SizeExceptUpdates` and `checkValid` of the ops of libkbfs/ops.go. Lengths are
-- taken not to reach the bounds of Go's `int`.
use kbfs.Prelude.{
  ℕ, ◌+◌, ◌*◌, ◌%◌, ◌^◌, not, ◌&&◌, List, [], ◌∷◌, ◌++◌, Result, ok, err, panicked, if◌then◌else◌,
  length,
}
use kbfs.Prelude.Chain.{◌>>=◌, ◌>>◌}
use kbfs.Blocks.{BlockPointer, same_pointer}
use kbfs.Ops.Update.{
  BlockUpdate, is_zero_update, check_valid, set_ref, append_update, check_updates_valid,
}
use kbfs.Ops.Op.{
  GcOp, CreateOp, RmOp, RenameOp, SyncOp, SetAttrOp, Op, create_op, rm_op, rename_op, sync_op,
  set_attr_op, resolution_op, rekey_op, gc_op, on_common,
}

-- The panic on an error of `setRef`
abbrev or_panic : Result BlockUpdate → Result BlockUpdate
or_panic (ok u) = ok u
or_panic (err e) = err panicked

abbrev pub create_add_update : BlockPointer → BlockPointer → CreateOp → Result CreateOp
create_add_update old_ptr new_ptr co =
    if is_zero_update co.dir
    then err panicked
    else if same_pointer old_ptr co.dir.unref
    then or_panic (set_ref new_ptr co.dir) >>= (λ dir. ok (record co { dir = dir }))
    else ok (record co { common = append_update old_ptr new_ptr co.common })

abbrev pub rm_add_update : BlockPointer → BlockPointer → RmOp → Result RmOp
rm_add_update old_ptr new_ptr ro =
    if same_pointer old_ptr ro.dir.unref
    then or_panic (set_ref new_ptr ro.dir) >>= (λ dir. ok (record ro { dir = dir }))
    else ok (record ro { common = append_update old_ptr new_ptr ro.common })

abbrev pub rename_add_update : BlockPointer → BlockPointer → RenameOp → Result RenameOp
rename_add_update old_ptr new_ptr ro =
    if same_pointer old_ptr ro.old_dir.unref
    then or_panic (set_ref new_ptr ro.old_dir) >>= (λ dir. ok (record ro { old_dir = dir }))
    else if not (is_zero_update ro.new_dir) && same_pointer old_ptr ro.new_dir.unref
    then or_panic (set_ref new_ptr ro.new_dir) >>= (λ dir. ok (record ro { new_dir = dir }))
    else ok (record ro { common = append_update old_ptr new_ptr ro.common })

abbrev pub sync_add_update : BlockPointer → BlockPointer → SyncOp → Result SyncOp
sync_add_update old_ptr new_ptr so =
    if same_pointer old_ptr so.file.unref
    then or_panic (set_ref new_ptr so.file) >>= (λ file. ok (record so { file = file }))
    else ok (record so { common = append_update old_ptr new_ptr so.common })

abbrev pub set_attr_add_update : BlockPointer → BlockPointer → SetAttrOp → Result SetAttrOp
set_attr_add_update old_ptr new_ptr sao =
    if same_pointer old_ptr sao.dir.unref
    then or_panic (set_ref new_ptr sao.dir) >>= (λ dir. ok (record sao { dir = dir }))
    else ok (record sao { common = append_update old_ptr new_ptr sao.common })

-- `AddUpdate(oldPtr, newPtr)`
unfoldable pub add_update : BlockPointer → BlockPointer → Op → Result Op
unfolding or_panic
add_update old_ptr new_ptr (create_op o) =
    create_add_update old_ptr new_ptr o >>= (λ o'. ok (create_op o'))
add_update old_ptr new_ptr (rm_op o) = rm_add_update old_ptr new_ptr o >>= (λ o'. ok (rm_op o'))
add_update old_ptr new_ptr (rename_op o) =
    rename_add_update old_ptr new_ptr o >>= (λ o'. ok (rename_op o'))
add_update old_ptr new_ptr (sync_op o) =
    sync_add_update old_ptr new_ptr o >>= (λ o'. ok (sync_op o'))
add_update old_ptr new_ptr (set_attr_op o) =
    set_attr_add_update old_ptr new_ptr o >>= (λ o'. ok (set_attr_op o'))
add_update old_ptr new_ptr o = ok (on_common (append_update old_ptr new_ptr) o)

-- `SizeExceptUpdates` of each op; `bp_size` is the size of a Go BlockPointer.
abbrev pub create_size : CreateOp → ℕ
create_size o = length o.new_name

abbrev pub rm_size : RmOp → ℕ
rm_size o = length o.old_name

abbrev pub rename_size : RenameOp → ℕ
rename_size o = length o.new_name + length o.new_name

abbrev pub sync_size_of : SyncOp → ℕ
sync_size_of o = length o.writes * 16

abbrev pub set_attr_size : SetAttrOp → ℕ
set_attr_size o = length o.name

abbrev pub gc_size : ℕ → GcOp → ℕ
gc_size bp_size o = bp_size * length o.common.unref_blocks % 2 ^ 64

unfoldable pub size_except_updates : ℕ → Op → ℕ
size_except_updates bp_size (create_op o) = create_size o
size_except_updates bp_size (rm_op o) = rm_size o
size_except_updates bp_size (rename_op o) = rename_size o
size_except_updates bp_size (sync_op o) = sync_size_of o
size_except_updates bp_size (set_attr_op o) = set_attr_size o
size_except_updates bp_size (gc_op o) = gc_size bp_size o
size_except_updates bp_size _ = 0

-- `AllUpdates` of each op
abbrev pub create_all_updates : CreateOp → List BlockUpdate
create_all_updates o = o.common.updates ++ (o.dir ∷ [])

abbrev pub rm_all_updates : RmOp → List BlockUpdate
rm_all_updates o = o.common.updates ++ (o.dir ∷ [])

abbrev pub rename_all_updates : RenameOp → List BlockUpdate
rename_all_updates o =
    if not (is_zero_update o.new_dir)
    then o.common.updates ++ (o.new_dir ∷ o.old_dir ∷ [])
    else o.common.updates ++ (o.old_dir ∷ [])

abbrev pub sync_all_updates : SyncOp → List BlockUpdate
sync_all_updates o = o.common.updates ++ (o.file ∷ [])

abbrev pub set_attr_all_updates : SetAttrOp → List BlockUpdate
set_attr_all_updates o = o.common.updates ++ (o.dir ∷ [])

abbrev pub gc_all_updates : GcOp → List BlockUpdate
gc_all_updates o = o.common.updates

unfoldable pub all_updates : Op → List BlockUpdate
all_updates (create_op o) = create_all_updates o
all_updates (rm_op o) = rm_all_updates o
all_updates (rename_op o) = rename_all_updates o
all_updates (sync_op o) = sync_all_updates o
all_updates (set_attr_op o) = set_attr_all_updates o
all_updates (resolution_op c) = c.updates
all_updates (rekey_op c) = c.updates
all_updates (gc_op o) = gc_all_updates o

-- `checkValid` of each op
abbrev pub create_check_valid : CreateOp → Result (Unit {0})
create_check_valid o = elim o.new_name [
  | [] ↦ ok tt
  | b ∷ bs ↦ check_valid o.dir >> check_updates_valid o.common.updates
]

abbrev pub rm_check_valid : RmOp → Result (Unit {0})
rm_check_valid o = check_valid o.dir >> check_updates_valid o.common.updates

abbrev pub rename_check_valid : RenameOp → Result (Unit {0})
rename_check_valid o = do
  check_valid o.old_dir
  (if not (is_zero_update o.new_dir) then check_valid o.new_dir else ok tt)
  check_updates_valid o.common.updates

abbrev pub sync_check_valid : SyncOp → Result (Unit {0})
sync_check_valid o = check_valid o.file >> check_updates_valid o.common.updates

abbrev pub set_attr_check_valid : SetAttrOp → Result (Unit {0})
set_attr_check_valid o = check_valid o.dir >> check_updates_valid o.common.updates

unfoldable pub check_op_valid : Op → Result (Unit {0})
check_op_valid (create_op o) = create_check_valid o
check_op_valid (rm_op o) = rm_check_valid o
check_op_valid (rename_op o) = rename_check_valid o
check_op_valid (sync_op o) = sync_check_valid o
check_op_valid (set_attr_op o) = set_attr_check_valid o
check_op_valid (resolution_op c) = check_updates_valid c.updates
check_op_valid (rekey_op c) = check_updates_valid c.updates
check_op_valid (gc_op o) = check_updates_valid o.common.updates
