-- ===== src/BlockServer/TlfJournal/Calls.antt =====
-- The calls of `bserverTlfJournal` that change its state, and `getData`. The codec and the hash
-- `MakePermanentBlockID` are parameters.
use kbfs.Prelude.{
  ℕ, Bool, true, false, not, ◌&&◌, ◌==◌, if◌then◌else◌, none, some, List, [], ◌∷◌, Result, ok, err,
  length, err_shutdown, block_non_existent, block_archived, id_mismatch, panicked,
}
use kbfs.Prelude.Maps.{Map, lookup}
use kbfs.Prelude.Action.{Action, ◌>>◌, pure, reads}
use kbfs.Prelude.Chain.{◌>>=◌ as bind, ◌>>◌ as seq, fail_if}
use kbfs.FileStore.{Bytes, Store, read_file, write_file, mkdir_all}
use kbfs.Codec.{Codec}
use kbfs.DiskJournal.{Journal, append_journal_entry}
use kbfs.BlockServer.Refs.{
  BlockContext, BlockRefEntry, BlockRefMap, live_block_ref, archived_block_ref, get_ref_nonce,
  check_context, same_context, has_non_archived_ref,
}
use kbfs.BlockServer.Memory.{validate_block_server_put, remove_refs}
use kbfs.BlockServer.TlfJournal.{
  BserverTlfJournal, BserverJournalEntry, BserverOp, block_put_op, add_ref_op, remove_refs_op,
  archive_refs_op, RefsMap, BlockFile, block_path, block_data_path, key_server_half_path,
  block_file_eq, remove_block, on_journal, on_blocks, check_open, set_refs, get_ref_entry,
  missing_block, unmarshal_half, check_existing, put_ref_entry, archive_loop,
}
use kbfs.BlockServer.TlfJournal.Replay.{read_journal}

-- `reflect.DeepEqual` on two maps of references: as many keys, and every entry of one in the other.
unfoldable pub same_status : BlockRefEntry → BlockRefEntry → Bool
same_status a b = elim a.status [
  | live_block_ref ↦ elim b.status [ live_block_ref ↦ true | archived_block_ref ↦ false ]
  | archived_block_ref ↦ elim b.status [ live_block_ref ↦ false | archived_block_ref ↦ true ]
]

unfoldable pub same_entry : BlockRefEntry → BlockRefEntry → Bool
unfolding same_status
same_entry a b = same_status a b && same_context a.context b.context

unfoldable pub within {ℓ} : {V : Type ℓ} → (V → V → Bool) → Map V → Map V → Bool
within same [] m = true
within same ((k, v) ∷ l) m =
    let rest = within same l m in
    elim (lookup k m) [ none ↦ false | some w ↦ if same v w then rest else false ]

unfoldable pub deep_equal : RefsMap → RefsMap → Bool
unfolding within same_entry
deep_equal a b =
    length a == length b && within (λ x y. length x == length y && within same_entry x y) a b

module _ (codec : Codec BserverJournalEntry) (hash : Bytes → Result ℕ) where
  -- `appendJournalEntryLocked`
  unfoldable pub append_entry :
      BserverOp → ℕ → List BlockContext → Action BserverTlfJournal (Unit {0})
  append_entry op id contexts =
      on_journal
        (append_journal_entry codec none (record { op = op; id = id; contexts = contexts }))

  -- `getDataLocked`
  unfoldable pub get_data_locked : ℕ → BlockContext → BserverTlfJournal → Result (Bytes × Bytes)
  get_data_locked id context s = bind (get_ref_entry id (get_ref_nonce context) s.refs) λ entry.
      seq (check_context entry context) (
        bind (missing_block (read_file (block_data_path id) s.blocks)) λ content.
          bind (missing_block (read_file (key_server_half_path id) s.blocks)) λ buf.
            bind (hash content) λ data_id.
              seq (fail_if (not (id == data_id)) id_mismatch)
                (bind (unmarshal_half buf) λ half. ok (content, half)))

  unfoldable pub get_data : ℕ → BlockContext → BserverTlfJournal → Result (Bytes × Bytes)
  unfolding get_data_locked
  get_data id context s = if s.is_shutdown then err err_shutdown else get_data_locked id context s

  -- The writes of `putData`
  unfoldable pub write_block : ℕ → Bytes → Bytes → Action BserverTlfJournal (Unit {0})
  write_block id buf half = do
    on_blocks (mkdir_all (block_path id))
    on_blocks (write_file (block_data_path id) buf)
    on_blocks (write_file (key_server_half_path id) half)

  unfoldable pub put_data : ℕ → BlockContext → Bytes → Bytes → Action BserverTlfJournal (Unit {0})
  unfolding append_entry
  put_data id context buf half = do
    reads (λ _. validate_block_server_put hash id context buf)
    check_open
    reads (λ s. check_existing (get_data_locked id context s) half)
    write_block id buf half
    put_ref_entry id (record { status = live_block_ref; context = context })
    append_entry block_put_op id (context ∷ [])

  -- The guards of `addReference`
  abbrev pub check_live : ℕ → RefsMap → Result (Unit {0})
  check_live id refs = elim (lookup id refs) [
    | none ↦ err block_non_existent
    | some block_refs ↦ if not (has_non_archived_ref block_refs) then err block_archived else ok tt
  ]

  unfoldable pub add_reference : ℕ → BlockContext → Action BserverTlfJournal (Unit {0})
  unfolding append_entry
  add_reference id context = do
    check_open
    reads (λ s. check_live id s.refs)
    put_ref_entry id (record { status = live_block_ref; context = context })
    append_entry add_ref_op id (context ∷ [])

  -- The end of `removeReferences`, on what its loop left: the files of a block without references go.
  unfoldable pub finish_removal : ℕ → List BlockContext → BlockRefMap → Action BserverTlfJournal ℕ
  unfolding append_entry
  finish_removal id contexts block_refs = do
    (if length block_refs == 0 then on_blocks (remove_block id) else pure tt)
    append_entry remove_refs_op id contexts
    pure (length block_refs)

  unfoldable pub remove_references : ℕ → List BlockContext → Action BserverTlfJournal ℕ
  unfolding finish_removal
  remove_references id contexts s =
      if s.is_shutdown then (err err_shutdown, s) else elim (lookup id s.refs) [
        | none ↦ (ok 0, s)
        | some block_refs ↦
            let (r, left) = remove_refs contexts block_refs in
            elim r [
              | err e ↦ (err e, set_refs id left s)
              | ok _ ↦ finish_removal id contexts left (set_refs id left s)
            ]
      ]

  unfoldable pub archive_references : ℕ → List BlockContext → Action BserverTlfJournal (Unit {0})
  unfolding append_entry
  archive_references id contexts = do
    check_open
    archive_loop id contexts
    append_entry archive_refs_op id contexts

  -- `shutdown` panics if the journal cannot be read, or tells of other references than those in memory.
  unfoldable pub shutdown : Action BserverTlfJournal (Unit {0})
  unfolding deep_equal
  shutdown s = elim (read_journal codec s.j) [
    | err e ↦ (err panicked, record s { is_shutdown = true })
    | ok refs ↦ (
      if not (deep_equal refs s.refs) then err panicked else ok tt,
      record s { is_shutdown = true },
    )
  ]

  -- `makeBserverTlfJournal` on the files of a folder, also after a restart
  unfoldable pub make_bserver_tlf_journal : Journal → Store BlockFile → Result BserverTlfJournal
  make_bserver_tlf_journal j blocks =
      bind (read_journal codec j)
        λ refs. ok (record { j = j; blocks = blocks; refs = refs; is_shutdown = false })
