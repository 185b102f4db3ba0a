-- ===== src/Tests/Ops.antt =====
-- The ops at concrete inputs.
use kbfs.Prelude.{List, [], ◌∷◌, false, none, refl, ◌≡◌, arith}
use kbfs.Ops.Path.{zero_ptr}
use kbfs.Ops.Update.{zero_common}
use kbfs.Ops.Op.{Op, rm_op}
use kbfs.Ops.Invert.{invert_op_for_local_notifications}
use kbfs.Ops.Invert.Reverse.{Inverse, invert_op_for_local_notifications-Inverse}
use kbfs.Ops.WriteRange.{
  WriteRange, collapse_write_range, add_to_collapsed_write_range, split_head, add_truncate_to,
  add_write_to, split_mid, affects, coalesce_writes, new_end, new_off,
}
use kbfs.Ops.WriteRange.Dirt.{Dirt, make_writes}
use kbfs.Ops.WriteRange.Collapse.{StandsFor, collapse_write_range-StandsFor}

abbrev some_writes : List WriteRange
some_writes =
    record { off = 0; len = 10 }
    ∷ record { off = 20; len = 5 }
    ∷ record { off = 22; len = 0 }
    ∷ record { off = 8; len = 6 }
    ∷ []

abbrev clean : Dirt
clean = record { covered = λ x. false; cut = none }

collapse_write_range_run :
    collapse_write_range some_writes []
    ≡ record { off = 0; len = 14 }
      ∷ record { off = 20; len = 2 }
      ∷ record { off = 22; len = 0 }
      ∷ []
unfolding collapse_write_range add_to_collapsed_write_range split_head add_truncate_to add_write_to
    split_mid affects coalesce_writes new_end new_off
collapse_write_range_run = refl

collapse_write_range-StandsFor_example :
    StandsFor (collapse_write_range some_writes []) (make_writes some_writes clean)
collapse_write_range-StandsFor_example =
    collapse_write_range-StandsFor some_writes [] clean (omega arith) (tt, λ x. refl, refl)

-- The removal of a file from the directory at 1, whose new pointer is 2.
abbrev removal : Op
removal = rm_op (record {
  common = zero_common;
  old_name = 97 ∷ [];
  dir = record { unref = record zero_ptr { id = 1 }; ref = record zero_ptr { id = 2 } };
  drop_this = false;
})

invert_op_for_local_notifications-Inverse_example :
    Inverse removal (invert_op_for_local_notifications removal)
invert_op_for_local_notifications-Inverse_example =
    invert_op_for_local_notifications-Inverse removal (refl, refl, tt)
