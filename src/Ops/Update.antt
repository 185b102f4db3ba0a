-- ===== src/Ops/Update.antt =====
-- `blockUpdate` and `OpCommon` of libkbfs/ops.go.
use kbfs.Prelude.{ℕ, Bool, List, [], ◌∷◌, ◌++◌, Result, ok, nil_unref, nil_ref, nil_ptr, ◌&&◌}
use kbfs.Prelude.Chain.{◌>>=◌, ◌>>◌, fail_if}
use kbfs.Blocks.{BlockPointer, same_pointer}
use kbfs.Ops.Path.{zero_ptr, FilePath}

pub record BlockUpdate : Type 0 where
  pub unref : BlockPointer
  pub ref : BlockPointer

-- `blockUpdate{}`
abbrev pub zero_update : BlockUpdate
zero_update = record { unref = zero_ptr; ref = zero_ptr }

abbrev pub is_zero_update : BlockUpdate → Bool
is_zero_update u = same_pointer u.unref zero_ptr && same_pointer u.ref zero_ptr

abbrev pub check_valid : BlockUpdate → Result (Unit {0})
check_valid u = do
  fail_if (same_pointer u.unref zero_ptr) nil_unref
  fail_if (same_pointer u.ref zero_ptr) nil_ref

abbrev pub set_unref : BlockPointer → BlockUpdate → Result BlockUpdate
set_unref ptr u = do fail_if (same_pointer ptr zero_ptr) nil_ptr; ok (record u { unref = ptr })

abbrev pub set_ref : BlockPointer → BlockUpdate → Result BlockUpdate
set_ref ptr u = do fail_if (same_pointer ptr zero_ptr) nil_ptr; ok (record u { ref = ptr })

unfoldable pub make_block_update : BlockPointer → BlockPointer → Result BlockUpdate
make_block_update unref ref = do bu ← set_unref unref zero_update; set_ref ref bu

-- The three fields are only printed or compared.
pub record WriterInfo : Type 0 where
  pub name : ℕ
  pub kid : ℕ
  pub device_name : ℕ

pub record OpCommon : Type 0 where
  pub ref_blocks : List BlockPointer
  pub unref_blocks : List BlockPointer
  pub updates : List BlockUpdate
  pub writer_info : WriterInfo
  pub final_path : FilePath

-- `OpCommon{}`
abbrev pub zero_common : OpCommon
zero_common = record {
  ref_blocks = [];
  unref_blocks = [];
  updates = [];
  writer_info = record { name = 0; kid = 0; device_name = 0 };
  final_path = record { tlf = 0; branch = 0; nodes = [] };
}

abbrev pub append_ref_block : BlockPointer → OpCommon → OpCommon
append_ref_block ptr oc = record oc { ref_blocks = oc.ref_blocks ++ (ptr ∷ []) }

abbrev pub append_unref_block : BlockPointer → OpCommon → OpCommon
append_unref_block ptr oc = record oc { unref_blocks = oc.unref_blocks ++ (ptr ∷ []) }

-- `OpCommon.AddUpdate`
abbrev pub append_update : BlockPointer → BlockPointer → OpCommon → OpCommon
append_update old_ptr new_ptr oc = record oc {
  updates = oc.updates ++ (record { unref = old_ptr; ref = new_ptr } ∷ []);
}

-- `checkUpdatesValid`
abbrev pub check_updates_valid : List BlockUpdate → Result (Unit {0})
check_updates_valid [] = ok tt
check_updates_valid (u ∷ us) = let rest = check_updates_valid us in check_valid u >> rest
