-- ===== src/MdServer/Memory.antt =====
-- `MDServerMemory` of libkbfs/mdserver_memory.go. The lock is left out: each call runs alone. The call that
-- adds an assertion for tests is left out.
mod Keys
pub mod Sessions
pub mod Put
pub mod Revisions
pub mod Heads
pub mod Preserve
pub mod Range
pub mod Runs
pub use Keys.*
use kbfs.Prelude.{
  ℕ, zero, suc, ◌-◌, ◌+◌, Bool, true, false, not, ◌==◌, ◌&&◌, ◌||◌, ltb, if◌then◌else◌, Option,
  none, some, List, [], ◌∷◌, ◌++◌, Error, Result, ok, err, err_shutdown, md_server_error,
  unauthorized, bad_request, inconsistent_branch, panicked, length, take, drop,
}
use kbfs.Prelude.Action.{Action, ◌>>=◌, ◌>>◌, pure, reads, raise_if, modify}
use kbfs.Prelude.Chain.{◌>>=◌ as bind, ◌>>◌ as seq, fail_if}
use kbfs.Prelude.Int.{ℤ, pos, negsuc, pos_part, ◌-ℤ◌, ◌+ℤ◌, ltb_ℤ, eqb_ℤ}
use kbfs.Prelude.Maps.{Map, lookup, insert}
use kbfs.Prelude.Dict.{find, store, discard}
use kbfs.FileStore.{Bytes}
use kbfs.Codec.{Codec}
use kbfs.Revision.{wrap_int64, next_revision, revision_uninitialized}
use kbfs.RootMetadata.{
  RootMetadata, MergeStatus, merged, unmerged, BareTlfHandle, is_handle_reader, is_public,
}
use kbfs.MdServer.TlfStorage.{MdParams, null_branch_id, is_reader, wrap}
use kbfs.MdServer.Locks.{TruncateLocks, new_truncate_lock_manager, truncate_lock, truncate_unlock}
use kbfs.MdServer.Updates.{UpdateManager, new_update_manager, register_for_update}

-- The time stamps of the blocks are left out: nothing reads them.
pub record MdBlockMemList : Type 0 where
  pub initial_revision : ℤ
  pub blocks : List Bytes

-- `none` is a map that `Shutdown` has set to nil.
pub record MdServerMemory : Type 0 where
  pub handle_db : Option (List (Bytes × ℕ))
  pub latest_handle_db : Option (Map BareTlfHandle)
  pub md_db : List (MdBlockKey × MdBlockMemList)
  pub branch_db : Option (List (MdBranchKey × ℕ))
  pub truncate_locks : Option TruncateLocks
  pub updates : UpdateManager

unfoldable pub new_md_server_memory : MdServerMemory
new_md_server_memory = record {
  handle_db = some [];
  latest_handle_db = some [];
  md_db = [];
  branch_db = some [];
  truncate_locks = some new_truncate_lock_manager;
  updates = new_update_manager;
}

-- What `KBPKI` tells of the session of a caller, and the caller's copy of the server
pub record MdSession : Type 0 where
  pub server : ℕ
  pub current_uid : Result ℕ
  pub device_kid : Result ℕ

-- `getMDKey`
unfoldable pub get_md_key : ℕ → ℕ → MergeStatus → Result MdBlockKey
get_md_key tlf bid merged =
    if bid == null_branch_id
    then ok (record { tlf_id = tlf; branch_id = bid })
    else err inconsistent_branch
get_md_key tlf bid unmerged =
    if bid == null_branch_id
    then err inconsistent_branch
    else ok (record { tlf_id = tlf; branch_id = bid })

-- `getBranchKey`, with `getCurrentDeviceKID`
abbrev pub get_branch_key : MdSession → ℕ → Result MdBranchKey
get_branch_key u tlf = bind u.device_kid (λ kid. ok (record { tlf_id = tlf; device_kid = kid }))

-- `getBranchID`
unfoldable pub get_branch_id : MdSession → ℕ → MdServerMemory → Result ℕ
get_branch_id u tlf s = bind (wrap (get_branch_key u tlf)) λ key. elim s.branch_db [
  | none ↦ err err_shutdown
  | some branches ↦ elim (find key branches) [ none ↦ ok null_branch_id | some bid ↦ ok bid ]
]

-- `blocks[len(blocks)-1]`
abbrev pub last_block : List Bytes → Result Bytes
last_block [] = err panicked
last_block (b ∷ []) = ok b
last_block (b ∷ c ∷ bs) = last_block (c ∷ bs)

-- `rev + n` on an int64
abbrev pub advance_revision : ℕ → ℤ → ℤ
advance_revision zero r = r
advance_revision (suc n) r = advance_revision n (next_revision r)

-- The blocks of the revisions from `start` to `stop`, and the first of these revisions; a negative index is
-- set to 0, or ends the loop at once.
abbrev pub blocks_between : ℤ → ℤ → MdBlockMemList → ℤ × List Bytes
blocks_between start stop l =
    let start_i = pos_part (wrap_int64 (start -ℤ l.initial_revision)) in
    let end_i = pos_part (wrap_int64 (wrap_int64 (stop -ℤ l.initial_revision) +ℤ pos 1)) in
    (advance_revision start_i l.initial_revision, take (end_i - start_i) (drop start_i l.blocks))

-- There is no branch to read.
abbrev pub is_no_branch : MergeStatus → ℕ → Bool
is_no_branch merged bid = false
is_no_branch unmerged bid = bid == null_branch_id

module _ (p : MdParams) where
  -- `getHeadForTLF`
  unfoldable pub head_for_tlf : ℕ → ℕ → MergeStatus → MdServerMemory → Result (Option RootMetadata)
  unfolding get_md_key
  head_for_tlf tlf bid status s = bind (get_md_key tlf bid status) λ key. elim (find key s.md_db) [
    | none ↦ ok none
    | some l ↦ bind (last_block l.blocks) λ b. bind (p.codec.decode b) (λ md. ok (some md))
  ]

  -- `checkGetParams`: the branch to read
  unfoldable pub check_params : MdSession → ℕ → ℕ → MergeStatus → MdServerMemory → Result ℕ
  unfolding head_for_tlf is_reader get_branch_id
  check_params u tlf bid status s =
      let is_lost = elim status as (λ x. Bool) [
        | merged ↦ not (bid == null_branch_id)
        | unmerged ↦ false
      ] in
      let is_missing = elim status as (λ x. Bool) [
        | merged ↦ false
        | unmerged ↦ bid == null_branch_id
      ] in
      seq (fail_if is_lost bad_request) (
        bind (wrap (head_for_tlf tlf null_branch_id merged s)) λ head.
          bind (wrap u.current_uid) λ uid. bind (wrap (is_reader p uid head)) λ yes.
            seq (fail_if (not yes) unauthorized)
              (if is_missing then get_branch_id u tlf s else ok bid))

  -- `GetForTLF`
  unfoldable pub get_for_tlf :
      MdSession → ℕ → ℕ → MergeStatus → MdServerMemory → Result (Option RootMetadata)
  unfolding check_params head_for_tlf
  get_for_tlf u tlf bid status s =
      bind (check_params u tlf bid status s)
        λ bid'. if is_no_branch status bid' then ok none else wrap (head_for_tlf tlf bid' status s)

  -- The loop of `GetRange`, over the blocks from the one of revision `expected` on
  unfoldable pub read_blocks : ℤ → List Bytes → Result (List RootMetadata)
  read_blocks expected [] = ok []
  read_blocks expected (b ∷ bs) = bind (wrap (p.codec.decode b)) λ md.
      seq (fail_if (not (eqb_ℤ expected md.revision)) panicked)
        (bind (read_blocks (next_revision expected) bs) (λ mds. ok (md ∷ mds)))

  -- `GetRange`
  unfoldable pub get_md_range :
      MdSession → ℕ → ℕ → MergeStatus → ℤ → ℤ → MdServerMemory → Result (List RootMetadata)
  unfolding check_params get_md_key read_blocks
  get_md_range u tlf bid status start stop s = bind (check_params u tlf bid status s) λ bid'.
      if is_no_branch status bid'
      then ok []
      else bind (wrap (get_md_key tlf bid' status)) λ key. elim (find key s.md_db) [
        | none ↦ ok []
        | some l ↦ let (first, bs) = blocks_between start stop l in read_blocks first bs
      ]

-- `Shutdown`: the metadata stay.
unfoldable pub shutdown_memory : MdServerMemory → MdServerMemory
shutdown_memory s = record s {
  handle_db = none;
  latest_handle_db = none;
  branch_db = none;
  truncate_locks = none;
}

abbrev pub is_shutdown_memory : MdServerMemory → Bool
is_shutdown_memory s = elim s.handle_db [ none ↦ true | some handles ↦ false ]
