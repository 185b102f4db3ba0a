-- ===== src/Ops/Conflict.antt =====
-- `CheckConflict` and `GetDefaultAction` of libkbfs/ops.go, with the actions of libkbfs/cr_actions.go as
-- data. Names are given to conflicting entries by `renamer`, the argument of the calls.
use kbfs.Prelude.{
  Bool, true, false, not, ◌&&◌, ◌||◌, List, [], ◌∷◌, Result, ok, err, if◌then◌else◌, Option, none,
  some, unexpected_conflict_check,
}
use kbfs.Prelude.Chain.{◌>>=◌}
use kbfs.FileStore.{Bytes, same_bytes}
use kbfs.Blocks.{BlockPointer}
use kbfs.Ops.Path.{FilePath, zero_ptr, tail_name, tail_pointer, parent_path}
use kbfs.Ops.Op.{
  RmOp, EntryType, dir_type, AttrChange, ex_attr, mtime_attr, size_attr, CreateOp, SyncOp,
  SetAttrOp, Op, create_op, rm_op, rename_op, sync_op, set_attr_op, get_final_path,
}

-- `unmergedEntry` is left out: it is the zero entry until the action is done.
pub record CopyUnmergedEntry : Type 0 where
  pub from_name : Bytes
  pub to_name : Bytes
  pub sym_path : Bytes
  pub size_only : Bool
  pub unique : Bool
  pub attr : List AttrChange

pub record CopyUnmergedAttr : Type 0 where
  pub from_name : Bytes
  pub to_name : Bytes
  pub attr : List AttrChange
  pub moved : Bool

pub record RenameUnmerged : Type 0 where
  pub from_name : Bytes
  pub to_name : Bytes
  pub sym_path : Bytes
  pub caused_by_attr : AttrChange
  pub moved : Bool
  pub unmerged_parent_most_recent : BlockPointer
  pub merged_parent_most_recent : BlockPointer

pub record RenameMerged : Type 0 where
  pub from_name : Bytes
  pub to_name : Bytes
  pub sym_path : Bytes

pub data CrAction : Type 0 where
  copy_unmerged_entry : CopyUnmergedEntry → CrAction
  copy_unmerged_attr : CopyUnmergedAttr → CrAction
  rm_merged_entry : Bytes → CrAction
  rename_unmerged : RenameUnmerged → CrAction
  rename_merged : RenameMerged → CrAction
  drop_unmerged : Op → CrAction

abbrev pub is_dir : EntryType → Bool
is_dir dir_type = true
is_dir _ = false

abbrev pub same_attr : AttrChange → AttrChange → Bool
same_attr ex_attr ex_attr = true
same_attr mtime_attr mtime_attr = true
same_attr size_attr size_attr = true
same_attr _ _ = false

-- `s != ""`
abbrev pub is_set : Bytes → Bool
is_set [] = false
is_set (b ∷ bs) = true

abbrev pub simple_rename : Bytes → Bytes → Bytes → RenameUnmerged
simple_rename from to sym_path = record {
  from_name = from;
  to_name = to;
  sym_path = sym_path;
  caused_by_attr = ex_attr;
  moved = false;
  unmerged_parent_most_recent = zero_ptr;
  merged_parent_most_recent = zero_ptr;
}

abbrev pub simple_copy : Bytes → Bytes → Bytes → Bool → CopyUnmergedEntry
simple_copy from to sym_path unique = record {
  from_name = from;
  to_name = to;
  sym_path = sym_path;
  size_only = false;
  unique = unique;
  attr = [];
}

module _ (conflict_rename : Op → Bytes → Bytes) where
  -- A create op against a merged create op; the second `CreateOp` is the merged one.
  unfoldable pub create_conflict : CreateOp → CreateOp → Option CrAction
  create_conflict co merged =
      if same_bytes merged.new_name co.new_name
        && (not (is_dir merged.entry_type) || not (is_dir co.entry_type))
      then (if not (is_dir merged.entry_type) && (is_dir co.entry_type || is_set co.cr_sym_path)
          then some (
              rename_merged (record {
                from_name = co.new_name;
                to_name = conflict_rename (create_op merged) co.new_name;
                sym_path = co.cr_sym_path;
              }))
          else some (
              rename_unmerged (
                simple_rename co.new_name (conflict_rename (create_op co) co.new_name)
                  co.cr_sym_path)))
      else if same_bytes merged.new_name co.new_name
          && is_dir merged.entry_type
          && is_dir co.entry_type
          && (merged.renamed || co.renamed)
      then some (
          copy_unmerged_entry (
            simple_copy co.new_name (conflict_rename (create_op co) co.new_name) co.cr_sym_path
              true))
      else none

  -- The parts of a path that a conflict between two files needs.
  parent_pointer : Op → Result BlockPointer
  parent_pointer o = parent_path (get_final_path o) >>= tail_pointer

  unfoldable pub sync_conflict : SyncOp → Op → Result (Option CrAction)
  unfolding parent_pointer
  sync_conflict so merged = do
    from ← tail_name (get_final_path (sync_op so))
    merged_name ← tail_name (get_final_path merged)
    unmerged_parent ← parent_pointer (sync_op so)
    merged_parent ← parent_pointer merged
    ok (
        some (
          rename_unmerged
            (record (simple_rename from (conflict_rename (sync_op so) merged_name) []) {
              unmerged_parent_most_recent = unmerged_parent;
              merged_parent_most_recent = merged_parent;
            })))

  -- A directory becomes a symbolic link with the unmerged attribute.
  unfoldable pub set_attr_conflict : SetAttrOp → Op → Bool → Result (Option CrAction)
  unfolding parent_pointer
  set_attr_conflict sao merged is_file = do
    sym_path ← (if not is_file then tail_name (get_final_path merged) else ok [])
    from ← tail_name (get_final_path (set_attr_op sao))
    merged_name ← tail_name (get_final_path merged)
    unmerged_parent ← parent_pointer (set_attr_op sao)
    merged_parent ← parent_pointer merged
    ok (
        some (
          rename_unmerged
            (record (simple_rename from (conflict_rename (set_attr_op sao) merged_name) sym_path) {
              caused_by_attr = (if not is_file then sao.attr else ex_attr);
              unmerged_parent_most_recent = unmerged_parent;
              merged_parent_most_recent = merged_parent;
            })))

  -- `CheckConflict` of each op with a merged op
  unfoldable pub create_check_conflict : CreateOp → Op → Option CrAction
  create_check_conflict co (create_op merged) = create_conflict co merged
  create_check_conflict co merged = none

  unfoldable pub rm_check_conflict : RmOp → Op → Option CrAction
  rm_check_conflict ro (create_op merged) =
      if same_bytes merged.new_name ro.old_name then some (drop_unmerged (rm_op ro)) else none
  rm_check_conflict ro (rm_op merged) =
      if same_bytes merged.old_name ro.old_name then some (drop_unmerged (rm_op ro)) else none
  rm_check_conflict ro merged = none

  unfoldable pub sync_check_conflict : SyncOp → Op → Result (Option CrAction)
  sync_check_conflict so (sync_op merged) = sync_conflict so (sync_op merged)
  sync_check_conflict so (set_attr_op merged) = do
    from ← tail_name (get_final_path (sync_op so))
    to ← tail_name (get_final_path (set_attr_op merged))
    ok (
        some (
          copy_unmerged_attr
            (record { from_name = from; to_name = to; attr = size_attr ∷ []; moved = false })))
  sync_check_conflict so merged = ok none

  unfoldable pub set_attr_check_conflict : SetAttrOp → Op → Bool → Result (Option CrAction)
  set_attr_check_conflict sao (set_attr_op merged) is_file =
      if same_attr merged.attr sao.attr
      then set_attr_conflict sao (set_attr_op merged) is_file
      else ok none
  set_attr_check_conflict sao merged is_file = ok none

  unfoldable pub check_conflict : Op → Op → Bool → Result (Option CrAction)
  check_conflict (create_op co) merged is_file = ok (create_check_conflict co merged)
  check_conflict (rm_op ro) merged is_file = ok (rm_check_conflict ro merged)
  check_conflict (rename_op ro) merged is_file = err unexpected_conflict_check
  check_conflict (sync_op so) merged is_file = sync_check_conflict so merged
  check_conflict (set_attr_op sao) merged is_file = set_attr_check_conflict sao merged is_file
  check_conflict unmerged merged is_file = ok none

-- `GetDefaultAction` of each op; the result `none` is the nil action.
abbrev pub create_default_action : CreateOp → CrAction
create_default_action co =
    if co.force_copy
    then rename_unmerged (simple_rename co.new_name co.new_name co.cr_sym_path)
    else copy_unmerged_entry (simple_copy co.new_name co.new_name co.cr_sym_path false)

abbrev pub rm_default_action : RmOp → CrAction
rm_default_action ro =
    if ro.drop_this then drop_unmerged (rm_op ro) else rm_merged_entry ro.old_name

abbrev pub sync_default_action : FilePath → SyncOp → Result (Option CrAction)
sync_default_action merged_path so = do
  from ← tail_name (get_final_path (sync_op so))
  to ← tail_name merged_path
  ok (some (copy_unmerged_entry (simple_copy from to [] false)))

abbrev pub set_attr_default_action : FilePath → SetAttrOp → Result (Option CrAction)
set_attr_default_action merged_path sao = do
  from ← tail_name (get_final_path (set_attr_op sao))
  to ← tail_name merged_path
  ok (
      some (
        copy_unmerged_attr
          (record { from_name = from; to_name = to; attr = sao.attr ∷ []; moved = false })))

unfoldable pub get_default_action : FilePath → Op → Result (Option CrAction)
get_default_action merged_path (create_op co) = ok (some (create_default_action co))
get_default_action merged_path (rm_op ro) = ok (some (rm_default_action ro))
get_default_action merged_path (sync_op so) = sync_default_action merged_path so
get_default_action merged_path (set_attr_op sao) = set_attr_default_action merged_path sao
get_default_action merged_path _ = ok none
