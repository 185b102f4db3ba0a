-- ===== src/Tests/Chains.antt =====
-- The chains of ops at concrete inputs.
use kbfs.Prelude.{ℕ, List, [], ◌∷◌, Bool, false, refl, ◌≡◌, ok}
use kbfs.FileStore.{Bytes}
use kbfs.Blocks.{BlockPointer, pointer_key}
use kbfs.Ops.Path.{zero_ptr}
use kbfs.Ops.Update.{BlockUpdate, zero_common}
use kbfs.Ops.Op.{Op, create_op, rm_op, rename_op, sync_op, set_attr_op, file_type, ex_attr}
use kbfs.Ops.Op.Pointers.{all_updates}
use kbfs.Chains.{CrChains, new_cr_chains_empty, most_recent_from_original_or_same}
use kbfs.Chains.Make.{make_chains_for_ops}
use kbfs.Chains.Follow.{follow}
use kbfs.Chains.Follow.Latest.{history_of, is_new, most_recent-make_chains_for_ops}
use kbfs.Chains.Collapse.{collapse, note_ops, note_op, keep_ops}
use kbfs.Chains.Collapse.Replay.{replay, entry_before}
use kbfs.Chains.Collapse.Correct.{replay-collapse}

abbrev ptr : ℕ → BlockPointer
ptr n = record zero_ptr { id = n }

abbrev replaces : ℕ → ℕ → BlockUpdate
replaces a b = record { unref = ptr a; ref = ptr b }

abbrev create_at : Bytes → BlockUpdate → Bool → Op
create_at name dir renamed = create_op (record {
  common = zero_common;
  new_name = name;
  dir = dir;
  entry_type = file_type;
  renamed = renamed;
  force_copy = false;
  cr_sym_path = [];
})

abbrev rm_at : Bytes → BlockUpdate → Op
rm_at name dir =
    rm_op (record { common = zero_common; old_name = name; dir = dir; drop_this = false })

-- A file is created, removed and created again.
abbrev three_ops : List Op
three_ops =
    create_at (97 ∷ []) (replaces 1 2) false
    ∷ rm_at (97 ∷ []) (replaces 2 3)
    ∷ create_at (97 ∷ []) (replaces 3 4) false
    ∷ []

collapse_run : collapse three_ops ≡ create_at (97 ∷ []) (replaces 3 4) false ∷ []
unfolding collapse note_ops note_op keep_ops
collapse_run = refl

replay-collapse_example :
    replay (97 ∷ []) (collapse three_ops) (entry_before false)
    ≡ replay (97 ∷ []) three_ops (entry_before false)
replay-collapse_example = replay-collapse (97 ∷ []) false three_ops (λ h. tt, (tt, (λ h. tt, tt)))

-- The file at 9 of the directory at 1 is written and then moved to the directory at 5.
abbrev moves : List Op
moves =
    sync_op (record {
      common = record zero_common { updates = replaces 1 2 ∷ [] };
      file = replaces 9 10;
      writes = [];
    })
    ∷ rename_op (record {
      common = zero_common;
      old_name = 97 ∷ [];
      old_dir = replaces 2 3;
      new_name = 98 ∷ [];
      new_dir = replaces 5 6;
      renamed = ptr 10;
      renamed_type = file_type;
    })
    ∷ set_attr_op (record {
      common = zero_common;
      name = 98 ∷ [];
      dir = replaces 6 7;
      attr = ex_attr;
      file = ptr 10;
    })
    ∷ []

most_recent-make_chains_for_ops_example :
    (ccs : CrChains) × (make_chains_for_ops moves new_cr_chains_empty ≡ ok ccs)
    × ((p : BlockPointer)
        → is_new p (history_of moves) ≡ false
        → most_recent_from_original_or_same p ccs ≡ follow p (history_of moves))
unfolding all_updates
most_recent-make_chains_for_ops_example =
    most_recent-make_chains_for_ops moves (tt, ((refl, refl, λ h. refl), (tt, tt)))
      (
        (refl, refl, refl, refl),
        (
          (refl, refl, refl, refl),
          (
            (refl, refl, refl, refl),
            ((refl, refl, refl, refl), ((refl, refl, refl, refl), (refl, tt))),
          ),
        ),
      )
