-- ===== src/MdServer/Memory/Put.antt =====
-- `Put` of libkbfs/mdserver_memory.go: its checks, and its writes.
use kbfs.Prelude.{
  ℕ, Bool, true, false, not, ◌&&◌, if◌then◌else◌, Option, none, some, [], ◌∷◌, ◌++◌, Result, ok,
  err, err_shutdown, unauthorized, bad_request,
}
use kbfs.Prelude.Action.{Action, ◌>>◌}
use kbfs.Prelude.Chain.{◌>>=◌ as bind, ◌>>◌ as seq, fail_if}
use kbfs.Prelude.Dict.{find, store}
use kbfs.FileStore.{Bytes}
use kbfs.Revision.{previous_revision}
use kbfs.RootMetadata.{RootMetadata, MergeStatus, merged_status, merged, unmerged}
use kbfs.MdServer.TlfStorage.{MdParams, null_branch_id, is_writer_or_valid_rekey, wrap}
use kbfs.MdServer.TlfStorage.Put.{has_right_branch, the_one, check_successor}
use kbfs.MdServer.Updates.{UpdateManager, set_head}
use kbfs.MdServer.Memory.Keys.{block_key, branch_key}
use kbfs.MdServer.Memory.{
  MdServerMemory, MdBlockMemList, MdSession, get_md_key, get_branch_key, head_for_tlf, get_md_range,
}

-- A new head of the main branch is told to the observers, unless it is only a rekey.
unfoldable pub notify_observers : ℕ → RootMetadata → MergeStatus → UpdateManager → UpdateManager
unfolding set_head
notify_observers server md merged m =
    if md.is_rekey_set && md.is_writer_metadata_copied then m else set_head md.tlf_id server m
notify_observers server md unmerged m = m

-- `blockList.blocks = append(blockList.blocks, block)`, or a new list
abbrev pub add_block : RootMetadata → Bytes → Option MdBlockMemList → MdBlockMemList
add_block md b none = record { initial_revision = md.revision; blocks = b ∷ [] }
add_block md b (some l) = record l { blocks = l.blocks ++ b ∷ [] }

-- `md.branchDb[branchKey] = bid`
unfoldable pub record_branch : MdSession → RootMetadata → Action MdServerMemory (Unit {0})
record_branch u md s = elim (wrap (get_branch_key u md.tlf_id)) [
  | err e ↦ (err e, s)
  | ok key ↦ elim s.branch_db [
    | none ↦ (err err_shutdown, s)
    | some branches ↦ (ok tt, record s { branch_db = some (store key md.branch_id branches) })
  ]
]

module _ (p : MdParams) where
  -- The predecessor that `Put` checks against, and whether the branch is new
  unfoldable pub find_put_head :
      MdSession → RootMetadata → MdServerMemory → Result (Option RootMetadata × Bool)
  unfolding head_for_tlf get_md_range
  find_put_head u md s =
      bind (wrap (head_for_tlf p md.tlf_id md.branch_id (merged_status md) s)) λ head. elim head [
        | some h ↦ ok (some h, false)
        | none ↦ elim (merged_status md) [
          | merged ↦ ok (none, false)
          | unmerged ↦
              let prev = previous_revision md.revision in
              bind (wrap (get_md_range p u md.tlf_id null_branch_id merged prev prev s))
                λ mds. bind (the_one p mds) (λ h. ok (some h, true))
        ]
      ]

  -- The checks of `Put`: the result tells whether the branch is new.
  unfoldable pub check_memory_put : MdSession → RootMetadata → MdServerMemory → Result Bool
  unfolding find_put_head is_writer_or_valid_rekey
  check_memory_put u md s = seq (fail_if (not (has_right_branch p md)) bad_request) (
      bind (wrap u.current_uid) λ uid.
        bind (wrap (head_for_tlf p md.tlf_id null_branch_id merged s)) λ merged_head.
          bind (wrap (is_writer_or_valid_rekey p uid merged_head md)) λ yes.
            seq (fail_if (not yes) unauthorized) (
              bind (find_put_head u md s)
                λ found. let (head, is_new) = found in seq (check_successor p head md) (ok is_new)))

  -- The last part of `Put`
  unfoldable pub store_memory_md : MdSession → RootMetadata → Action MdServerMemory (Unit {0})
  unfolding get_md_key notify_observers
  store_memory_md u md s = elim (wrap (p.codec.encode md)) [
    | err e ↦ (err e, s)
    | ok b ↦ elim (wrap (get_md_key md.tlf_id md.branch_id (merged_status md))) [
      | err e ↦ (err e, s)
      | ok key ↦ (
        ok tt,
        record s {
          md_db = store key (add_block md b (find key s.md_db)) s.md_db;
          updates = notify_observers u.server md (merged_status md) s.updates;
        },
      )
    ]
  ]

  -- `Put`
  unfoldable pub memory_put : MdSession → RootMetadata → Action MdServerMemory (Unit {0})
  unfolding check_memory_put record_branch store_memory_md
  memory_put u md s = elim (check_memory_put u md s) [
    | err e ↦ (err e, s)
    | ok is_new ↦
        (if is_new then record_branch u md >> store_memory_md u md else store_memory_md u md) s
  ]
