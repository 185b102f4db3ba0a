-- ===== src/BlockServer/Memory.antt =====
-- `BlockServerMemory` of libkbfs/bserver_memory.go. Locks are left out: each call runs alone. The hash
-- `MakePermanentBlockID` is a parameter.
pub mod Calls
pub mod Invariant
pub mod Remove
pub mod Runs
use kbfs.Prelude.{
  ℕ, ◌≡◌, true, false, not, ◌==◌, if◌then◌else◌, Option, none, some, List, [], ◌∷◌, Result, ok, err,
  length, err_shutdown, block_non_existent, block_archived, tlf_mismatch, half_mismatch,
  id_mismatch, creator_mismatch, nonzero_nonce, Error,
}
use kbfs.Prelude.Maps.{Map, lookup, insert, erase}
use kbfs.Prelude.Action.{Action, ◌>>=◌, ◌>>◌, pure, reads, raise_if, modify}
use kbfs.Prelude.Chain.{◌>>=◌ as bind, ◌>>◌ as seq, fail_if}
use kbfs.FileStore.{Bytes}
use kbfs.BlockServer.Refs.{
  BlockContext, BlockRefMap, RefStatus, live_block_ref, archived_block_ref, get_creator, get_writer,
  get_ref_nonce, check_exists, has_non_archived_ref, get_statuses, put_ref, remove_ref,
}

pub record BlockMemEntry : Type 0 where
  pub tlf_id : ℕ
  pub block_data : Bytes
  pub key_server_half : ℕ
  pub refs : BlockRefMap

-- `m` is `none` after `Shutdown`.
pub record BlockServerMemory : Type 0 where
  pub m : Option (Map BlockMemEntry)

abbrev pub new_block_server_memory : BlockServerMemory
new_block_server_memory = record { m = some [] }

-- The guard `if b.m == nil` that begins every call.
abbrev pub opened : Action BlockServerMemory (Map BlockMemEntry)
opened s = elim s.m [ none ↦ (err err_shutdown, s) | some m ↦ (ok m, s) ]

-- `b.m[id] = entry`, and an update of the references of the entry `b.m[id]`, which the map shares.
abbrev pub set_entry : ℕ → BlockMemEntry → BlockServerMemory → BlockServerMemory
set_entry id entry s = elim s.m [ none ↦ s | some m ↦ record s { m = some (insert id entry m) } ]

abbrev pub delete_entry : ℕ → BlockServerMemory → BlockServerMemory
delete_entry id s = elim s.m [ none ↦ s | some m ↦ record s { m = some (erase id m) } ]

-- `m[id]`, with the error of the caller if it is missing, and the check of the folder.
abbrev pub find_entry : ℕ → ℕ → Map BlockMemEntry → Result BlockMemEntry
find_entry id tlf m = elim (lookup id m) [
  | none ↦ err block_non_existent
  | some entry ↦ if not (entry.tlf_id == tlf) then err tlf_mismatch else ok entry
]

-- `refs.put` on the references of a stored entry.
unfoldable pub put_entry_ref :
    ℕ → BlockMemEntry → BlockContext → RefStatus → Action BlockServerMemory (Unit {0})
put_entry_ref id entry context status = do
  refs ← reads (λ _. put_ref entry.refs context status)
  modify (set_entry id (record entry { refs = refs }))

unfoldable pub get : ℕ → ℕ → BlockContext → BlockServerMemory → Result (Bytes × ℕ)
get id tlf context s = elim s.m [
  | none ↦ err err_shutdown
  | some m ↦
      bind (find_entry id tlf m) λ entry.
        seq (check_exists entry.refs context) (ok (entry.block_data, entry.key_server_half))
]

unfoldable pub add_block_reference : ℕ → ℕ → BlockContext → Action BlockServerMemory (Unit {0})
unfolding put_entry_ref
add_block_reference id tlf context = do
  m ← opened
  entry ← reads (λ _. find_entry id tlf m)
  raise_if (not (has_non_archived_ref entry.refs)) block_archived
  put_entry_ref id entry context live_block_ref

-- The loop of `removeBlockReferences`: the map as it is left, also after an error.
unfoldable pub remove_refs : List BlockContext → Action BlockRefMap (Unit {0})
remove_refs [] refs = (ok tt, refs)
remove_refs (c ∷ cs) refs = elim (remove_ref refs c) [
  | ok refs' ↦ remove_refs cs refs'
  | err e ↦ (err e, refs)
]

-- The end of `removeBlockReferences`: what is stored, and the count.
unfoldable pub finish_remove :
    ℕ → BlockMemEntry → Result (Unit {0}) × BlockRefMap → Action BlockServerMemory ℕ
finish_remove id entry (err e, refs) s = (err e, set_entry id (record entry { refs = refs }) s)
finish_remove id entry (ok _, []) s = (ok 0, delete_entry id s)
finish_remove id entry (ok _, r ∷ refs) s =
    (ok (length (r ∷ refs)), set_entry id (record entry { refs = r ∷ refs }) s)

unfoldable pub remove_block_references : ℕ → ℕ → List BlockContext → Action BlockServerMemory ℕ
remove_block_references id tlf contexts s = elim s.m [
  | none ↦ (err err_shutdown, s)
  | some m ↦ elim (lookup id m) [
    | none ↦ (ok 0, s)
    | some entry ↦
        if not (entry.tlf_id == tlf)
        then (err tlf_mismatch, s)
        else finish_remove id entry (remove_refs contexts entry.refs) s
  ]
]

unfoldable pub archive_block_reference : ℕ → ℕ → BlockContext → Action BlockServerMemory (Unit {0})
unfolding put_entry_ref
archive_block_reference id tlf context = do
  m ← opened
  entry ← reads (λ _. find_entry id tlf m)
  reads (λ _. check_exists entry.refs context)
  put_entry_ref id entry context archived_block_ref

-- `RemoveBlockReference`, over the blocks in the order in which the map of contexts is walked: the counts,
-- or the first error.
unfoldable pub remove_block_reference :
    ℕ → List (ℕ × List BlockContext) → Action BlockServerMemory (Map ℕ)
remove_block_reference tlf [] s = (ok [], s)
remove_block_reference tlf ((id, contexts) ∷ rest) s =
    let (r, s1) = remove_block_references id tlf contexts s in
    elim r [
      | err e ↦ (err e, s1)
      | ok count ↦
          let (r', s2) = remove_block_reference tlf rest s1 in
          elim r' [ err e ↦ (err e, s2) | ok counts ↦ (ok ((id, count) ∷ counts), s2) ]
    ]

-- The inner loop of `ArchiveBlockReferences`, over the contexts of one block.
unfoldable pub archive_contexts : ℕ → ℕ → List BlockContext → Action BlockServerMemory (Unit {0})
archive_contexts id tlf [] s = (ok tt, s)
archive_contexts id tlf (c ∷ cs) s =
    let (r, s1) = archive_block_reference id tlf c s in
    elim r [ err e ↦ (err e, s1) | ok _ ↦ archive_contexts id tlf cs s1 ]

-- `ArchiveBlockReferences`, over the blocks in the order of the walk.
unfoldable pub archive_block_references :
    ℕ → List (ℕ × List BlockContext) → Action BlockServerMemory (Unit {0})
unfolding archive_contexts
archive_block_references tlf [] s = (ok tt, s)
archive_block_references tlf ((id, contexts) ∷ rest) s =
    let (r, s1) = archive_contexts id tlf contexts s in
    elim r [ err e ↦ (err e, s1) | ok _ ↦ archive_block_references tlf rest s1 ]

-- The loop of `getAll`: the blocks of the folder, with the status of each reference.
unfoldable pub statuses_of : ℕ → Map BlockMemEntry → Map (Map RefStatus)
statuses_of tlf [] = []
statuses_of tlf ((id, entry) ∷ m) =
    let rest = statuses_of tlf m in
    if not (entry.tlf_id == tlf) then rest else (id, get_statuses entry.refs) ∷ rest

unfoldable pub get_all : ℕ → BlockServerMemory → Result (Map (Map RefStatus))
unfolding statuses_of
get_all tlf s = elim s.m [ none ↦ err err_shutdown | some m ↦ ok (statuses_of tlf m) ]

unfoldable pub num_blocks : BlockServerMemory → ℕ
num_blocks s = elim s.m [ none ↦ 0 | some m ↦ length m ]

unfoldable pub shutdown : BlockServerMemory → BlockServerMemory
shutdown s = record s { m = none }

module _ (make_permanent_block_id : Bytes → Result ℕ) where
  unfoldable pub validate_block_server_put : ℕ → BlockContext → Bytes → Result (Unit {0})
  validate_block_server_put id context buf =
      seq (fail_if (not (get_creator context == get_writer context)) creator_mismatch) (
        seq (fail_if (not (get_ref_nonce context == 0)) nonzero_nonce)
          (bind (make_permanent_block_id buf) λ buf_id. fail_if (not (id == buf_id)) id_mismatch))

  -- The entry that `Put` works on: the stored one, checked, or a new one without references, which is
  -- stored at once.
  unfoldable pub find_or_add : ℕ → ℕ → Bytes → ℕ → Action BlockServerMemory BlockMemEntry
  find_or_add id tlf buf half = do
    m ← opened
    elim (lookup id m) [
      | none ↦
          let entry : BlockMemEntry = record {
            tlf_id = tlf;
            block_data = buf;
            key_server_half = half;
            refs = [];
          } in
          modify (set_entry id entry) >> pure entry
      | some entry ↦ do
        raise_if (not (entry.tlf_id == tlf)) tlf_mismatch
        raise_if (not (entry.key_server_half == half)) half_mismatch
        pure entry
    ]

  unfoldable pub put : ℕ → ℕ → BlockContext → Bytes → ℕ → Action BlockServerMemory (Unit {0})
  unfolding find_or_add put_entry_ref
  put id tlf context buf half = do
    reads (λ _. validate_block_server_put id context buf)
    entry ← find_or_add id tlf buf half
    put_entry_ref id entry context live_block_ref
