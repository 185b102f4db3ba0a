-- ===== src/Ops/Path.antt =====
-- `path` of libkbfs/data_types.go. File names are bytes; the zero pointer has 0 in all its fields.
use kbfs.Prelude.{ℕ, ◌==◌, Bool, not, List, [], ◌∷◌, ◌++◌, Result, ok, err, panicked, length, take}
use kbfs.FileStore.{Bytes}
use kbfs.Blocks.{BlockPointer}

abbrev pub zero_ptr : BlockPointer
zero_ptr = record {
  id = 0;
  key_gen = 0;
  data_ver = 0;
  context = record { creator = 0; writer = 0; ref_nonce = 0 };
}

abbrev pub is_initialized : BlockPointer → Bool
is_initialized p = not (p.id == 0)

pub record PathNode : Type 0 where
  pub pointer : BlockPointer
  pub name : Bytes

pub record FilePath : Type 0 where
  pub tlf : ℕ
  pub branch : ℕ
  pub nodes : List PathNode

-- `p.path[len(p.path)-1]`, which panics on an empty path
abbrev pub tail_node : List PathNode → Result PathNode
tail_node [] = err panicked
tail_node (n ∷ []) = ok n
tail_node (n ∷ m ∷ ns) = tail_node (m ∷ ns)

abbrev pub tail_name : FilePath → Result Bytes
tail_name p = elim (tail_node p.nodes) [ ok n ↦ ok n.name | err e ↦ err e ]

abbrev pub tail_pointer : FilePath → Result BlockPointer
tail_pointer p = elim (tail_node p.nodes) [ ok n ↦ ok n.pointer | err e ↦ err e ]

-- `p.path[:len(p.path)-1]`, which panics on an empty path
abbrev pub parent_path : FilePath → Result FilePath
parent_path p = elim p.nodes [
  | [] ↦ err panicked
  | n ∷ ns ↦ ok (record p { nodes = take (length ns) p.nodes })
]

abbrev pub child_path : FilePath → Bytes → BlockPointer → FilePath
child_path p name ptr = record p { nodes = p.nodes ++ (record { pointer = ptr; name = name } ∷ []) }

abbrev pub child_path_no_ptr : FilePath → Bytes → FilePath
child_path_no_ptr p name = child_path p name zero_ptr
