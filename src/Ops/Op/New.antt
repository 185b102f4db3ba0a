-- ===== src/Ops/Op/New.antt =====
-- The constructors `new…Op` of libkbfs/ops.go, and the writes that a sync op collects.
use kbfs.Prelude.{ℕ, false, not, [], ◌∷◌, ◌++◌, Result, ok, if◌then◌else◌}
use kbfs.Prelude.Chain.{◌>>=◌}
use kbfs.Prelude.Int.{ℤ}
use kbfs.FileStore.{Bytes}
use kbfs.Blocks.{BlockPointer, same_pointer}
use kbfs.Ops.WriteRange.{WriteRange}
use kbfs.Ops.Update.{zero_update, set_unref, OpCommon, zero_common}
use kbfs.Ops.Op.{EntryType, dir_type, AttrChange, CreateOp, RmOp, RenameOp, SyncOp, SetAttrOp, GcOp}

unfoldable pub new_create_op : Bytes → BlockPointer → EntryType → Result CreateOp
new_create_op name old_dir t = do
  dir ← set_unref old_dir zero_update
  ok (record {
    common = zero_common;
    new_name = name;
    dir = dir;
    entry_type = t;
    renamed = false;
    force_copy = false;
    cr_sym_path = [];
  })

abbrev pub new_create_op_for_root_dir : CreateOp
new_create_op_for_root_dir = record {
  common = zero_common;
  new_name = [];
  dir = zero_update;
  entry_type = dir_type;
  renamed = false;
  force_copy = false;
  cr_sym_path = [];
}

unfoldable pub new_rm_op : Bytes → BlockPointer → Result RmOp
new_rm_op name old_dir = do
  dir ← set_unref old_dir zero_update
  ok (record { common = zero_common; old_name = name; dir = dir; drop_this = false })

unfoldable pub new_rename_op :
    Bytes → BlockPointer → Bytes → BlockPointer → BlockPointer → EntryType → Result RenameOp
new_rename_op old_name old_old_dir new_name old_new_dir renamed renamed_type = do
  old_dir ← set_unref old_old_dir zero_update
  new_dir ←
      (if not (same_pointer old_old_dir old_new_dir)
        then set_unref old_new_dir zero_update
        else ok zero_update)
  ok (record {
    common = zero_common;
    old_name = old_name;
    old_dir = old_dir;
    new_name = new_name;
    new_dir = new_dir;
    renamed = renamed;
    renamed_type = renamed_type;
  })

abbrev pub reset_update_state : SyncOp → SyncOp
reset_update_state so = record so { common = record so.common { updates = [] } }

unfoldable pub new_sync_op : BlockPointer → Result SyncOp
new_sync_op old_file = do
  file ← set_unref old_file zero_update
  ok (reset_update_state (record { common = zero_common; file = file; writes = [] }))

abbrev pub add_write : ℕ → ℕ → SyncOp → WriteRange × SyncOp
add_write off len so =
    let latest_write : WriteRange = record { off = off; len = len } in
    (latest_write, record so { writes = so.writes ++ (latest_write ∷ []) })

abbrev pub add_truncate : ℕ → SyncOp → WriteRange × SyncOp
add_truncate off so =
    let latest_write : WriteRange = record { off = off; len = 0 } in
    (latest_write, record so { writes = so.writes ++ (latest_write ∷ []) })

unfoldable pub new_set_attr_op : Bytes → BlockPointer → AttrChange → BlockPointer → Result SetAttrOp
new_set_attr_op name old_dir attr file = do
  dir ← set_unref old_dir zero_update
  ok (record { common = zero_common; name = name; dir = dir; attr = attr; file = file })

abbrev pub new_resolution_op : OpCommon
new_resolution_op = zero_common

abbrev pub new_rekey_op : OpCommon
new_rekey_op = zero_common

abbrev pub new_gc_op : ℤ → GcOp
new_gc_op latest_rev = record { common = zero_common; latest_rev = latest_rev }
