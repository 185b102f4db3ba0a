-- ===== src/Ops/Op.antt =====
-- The operations of libkbfs/ops.go as data, and the methods that they have from `OpCommon`.
pub mod New
pub mod Pointers
use kbfs.Prelude.{
  ℕ, ◌+◌, ◌*◌, ◌%◌, ◌^◌, Bool, true, false, not, ◌&&◌, List, [], ◌∷◌, ◌++◌, Result, ok, err,
  panicked, if◌then◌else◌, length,
}
use kbfs.Prelude.Chain.{◌>>=◌, ◌>>◌, fail_if}
use kbfs.Prelude.Int.{ℤ}
use kbfs.FileStore.{Bytes}
use kbfs.Blocks.{BlockPointer, same_pointer}
use kbfs.Ops.Path.{FilePath, zero_ptr}
use kbfs.Ops.WriteRange.{WriteRange}
use kbfs.Ops.Update.{
  BlockUpdate, zero_update, is_zero_update, check_valid, set_unref, set_ref, OpCommon, zero_common,
  WriterInfo, append_update, append_ref_block, append_unref_block, check_updates_valid,
}

pub data EntryType : Type 0 where
  file_type exec_type dir_type sym_type : EntryType

pub data AttrChange : Type 0 where
  ex_attr mtime_attr size_attr : AttrChange

pub record CreateOp : Type 0 where
  pub common : OpCommon
  pub new_name : Bytes
  pub dir : BlockUpdate
  pub entry_type : EntryType
  pub renamed : Bool
  pub force_copy : Bool
  pub cr_sym_path : Bytes

pub record RmOp : Type 0 where
  pub common : OpCommon
  pub old_name : Bytes
  pub dir : BlockUpdate
  pub drop_this : Bool

pub record RenameOp : Type 0 where
  pub common : OpCommon
  pub old_name : Bytes
  pub old_dir : BlockUpdate
  pub new_name : Bytes
  pub new_dir : BlockUpdate
  pub renamed : BlockPointer
  pub renamed_type : EntryType

pub record SyncOp : Type 0 where
  pub common : OpCommon
  pub file : BlockUpdate
  pub writes : List WriteRange

pub record SetAttrOp : Type 0 where
  pub common : OpCommon
  pub name : Bytes
  pub dir : BlockUpdate
  pub attr : AttrChange
  pub file : BlockPointer

pub record GcOp : Type 0 where
  pub common : OpCommon
  pub latest_rev : ℤ

pub data Op : Type 0 where
  create_op : CreateOp → Op
  rm_op : RmOp → Op
  rename_op : RenameOp → Op
  sync_op : SyncOp → Op
  set_attr_op : SetAttrOp → Op
  resolution_op : OpCommon → Op
  rekey_op : OpCommon → Op
  gc_op : GcOp → Op

abbrev pub op_common : Op → OpCommon
op_common (create_op o) = o.common
op_common (rm_op o) = o.common
op_common (rename_op o) = o.common
op_common (sync_op o) = o.common
op_common (set_attr_op o) = o.common
op_common (resolution_op c) = c
op_common (rekey_op c) = c
op_common (gc_op o) = o.common

-- A call of a method that an op has from its `OpCommon`.
abbrev pub on_common : (OpCommon → OpCommon) → Op → Op
on_common f (create_op o) = create_op (record o { common = f o.common })
on_common f (rm_op o) = rm_op (record o { common = f o.common })
on_common f (rename_op o) = rename_op (record o { common = f o.common })
on_common f (sync_op o) = sync_op (record o { common = f o.common })
on_common f (set_attr_op o) = set_attr_op (record o { common = f o.common })
on_common f (resolution_op c) = resolution_op (f c)
on_common f (rekey_op c) = rekey_op (f c)
on_common f (gc_op o) = gc_op (record o { common = f o.common })

abbrev pub add_ref_block : BlockPointer → Op → Op
add_ref_block ptr = on_common (append_ref_block ptr)

abbrev pub add_unref_block : BlockPointer → Op → Op
add_unref_block ptr = on_common (append_unref_block ptr)

abbrev pub set_writer_info : WriterInfo → Op → Op
set_writer_info info = on_common (λ c. record c { writer_info = info })

abbrev pub get_writer_info : Op → WriterInfo
get_writer_info o = (op_common o).writer_info

abbrev pub set_final_path : FilePath → Op → Op
set_final_path p = on_common (λ c. record c { final_path = p })

abbrev pub get_final_path : Op → FilePath
get_final_path o = (op_common o).final_path

abbrev pub refs : Op → List BlockPointer
refs o = (op_common o).ref_blocks

abbrev pub unrefs : Op → List BlockPointer
unrefs o = (op_common o).unref_blocks
