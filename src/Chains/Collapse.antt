-- ===== src/Chains/Collapse.antt =====
-- `crChain.collapse` and `getCollapsedWriteRange` of libkbfs/cr_chains.go.
pub mod Replay
pub mod Sound
pub mod Effect
pub mod Step
pub mod Correct
use kbfs.Prelude.{
  ℕ, suc, Bool, true, false, ◌==◌, List, [], ◌∷◌, if◌then◌else◌, Option, none, some, ltb, length,
}
use kbfs.Prelude.Maps.{Map, lookup, insert}
use kbfs.Prelude.Dict.{find, store, discard}
use kbfs.FileStore.{Bytes, bytes_key}
use kbfs.Ops.Op.{Op, create_op, rm_op, sync_op}
use kbfs.Ops.WriteRange.{WriteRange, collapse_write_range}

-- `createsSeen` and `indicesToRemove`
pub record Collapsing : Type 0 where
  pub creates_seen : List (Bytes × ℕ)
  pub indices_to_remove : Map Bool

-- One round of the loop, for the op at index `i`
unfoldable pub note_op : ℕ → Op → Collapsing → Collapsing
note_op i (create_op o) s = record {
  creates_seen = store o.new_name i s.creates_seen;
  indices_to_remove = (elim (find o.new_name s.creates_seen) [
    | none ↦ s.indices_to_remove
    | some prev ↦ if o.renamed then insert prev true s.indices_to_remove else s.indices_to_remove
  ]);
}
note_op i (rm_op o) s = elim (find o.old_name s.creates_seen) [
  | none ↦ s
  | some prev ↦ record {
    creates_seen = discard o.old_name s.creates_seen;
    indices_to_remove = insert i true (insert prev true s.indices_to_remove);
  }
]
note_op i _ s = s

unfoldable pub note_ops : ℕ → List Op → Collapsing → Collapsing
note_ops i [] s = s
note_ops i (o ∷ ops) s = note_ops (suc i) ops (note_op i o s)

-- `indicesToRemove[i]`
abbrev pub is_removed : ℕ → Map Bool → Bool
is_removed i m = elim (lookup i m) [ none ↦ false | some b ↦ b ]

-- The loop that copies the ops that stay.
unfoldable pub keep_ops : ℕ → List Op → Map Bool → List Op
keep_ops i [] m = []
keep_ops i (o ∷ ops) m =
    let rest = keep_ops (suc i) ops m in if is_removed i m then rest else o ∷ rest

unfoldable pub collapse : List Op → List Op
collapse ops =
    let removed =
      (note_ops 0 ops (record { creates_seen = []; indices_to_remove = [] })).indices_to_remove in
    if ltb 0 (length removed) then keep_ops 0 ops removed else ops

-- `getCollapsedWriteRange` of the ops of a chain; `file` is its type, and the result for a directory is
-- empty.
collapse_syncs : List Op → List WriteRange → List WriteRange
collapse_syncs [] wr = wr
collapse_syncs (sync_op o ∷ ops) wr = collapse_syncs ops (collapse_write_range o.writes wr)
collapse_syncs (o ∷ ops) wr = collapse_syncs ops wr

unfoldable pub get_collapsed_write_range : Bool → List Op → List WriteRange
unfolding collapse_syncs
get_collapsed_write_range file ops = if file then collapse_syncs ops [] else []
