-- ===== src/BlockServer/TlfJournal/Open.antt =====
-- No call but `shutdown` closes a folder's journal.
use kbfs.Prelude.{ℕ, ◌≡◌, refl, List, [], ◌∷◌, Result, ok, arith}
use kbfs.Prelude.Action.{Action}
use kbfs.Prelude.Chain.{Result-cases, ◌>>=◌ as bind, ◌>>◌ as seq}
use kbfs.Prelude.{inl, inr, Option-cases}
use kbfs.Prelude.Maps.{lookup}
use kbfs.FileStore.{Bytes}
use kbfs.Codec.{Codec}
use kbfs.BlockServer.Refs.{
  BlockContext, BlockRefEntry, BlockRefMap, live_block_ref, archived_block_ref, get_ref_nonce,
  check_context,
}
use kbfs.BlockServer.Memory.{remove_refs}
use kbfs.BlockServer.TlfJournal.{
  BserverTlfJournal, BserverJournalEntry, BserverOp, get_ref_entry, put_ref_entry, archive_loop,
  set_refs,
}
use kbfs.BlockServer.TlfJournal.Calls.{
  put_data, add_reference, remove_references, archive_references, append_entry, write_block,
  finish_removal,
}

-- A call that leaves `is_shutdown` as it was.
abbrev pub StaysOpen : {A : Type 0} → Action BserverTlfJournal A → Type 0
StaysOpen m = (s : BserverTlfJournal) → ((m s).1).is_shutdown ≡ s.is_shutdown

put_ref_entry-StaysOpen : (id : ℕ) (e : BlockRefEntry) → StaysOpen (put_ref_entry id e)
unfolding put_ref_entry
put_ref_entry-StaysOpen id e s = ground arith

archive_loop-StaysOpen : (id : ℕ) (cs : List BlockContext) → StaysOpen (archive_loop id cs)
unfolding archive_loop
archive_loop-StaysOpen id [] s = refl
archive_loop-StaysOpen id (c ∷ cs) s =
    elim (Result-cases
      (bind (get_ref_entry id (get_ref_nonce c) s.refs) (λ e. seq (check_context e c) (ok e)))) [
        | inr (x, bad) ↦ ground arith
        | inl (e, found) ↦
            let archived : BlockRefEntry = record e { status = archived_block_ref } in
            ground (
              arith,
              put_ref_entry-StaysOpen id archived s,
              archive_loop-StaysOpen id cs (put_ref_entry id archived s).1,
            )
      ]

module _ (codec : Codec BserverJournalEntry) (hash : Bytes → Result ℕ) where
  append_entry-StaysOpen :
      (op : BserverOp) (id : ℕ) (cs : List BlockContext)
      → StaysOpen (append_entry codec hash op id cs)
  unfolding append_entry
  append_entry-StaysOpen op id cs s = refl

  write_block-StaysOpen :
      (id : ℕ) (buf half : Bytes) → StaysOpen (write_block codec hash id buf half)
  unfolding write_block
  write_block-StaysOpen id buf half s = ground arith

  finish_removal-StaysOpen :
      (id : ℕ) (cs : List BlockContext) (left : BlockRefMap)
      → StaysOpen (finish_removal codec hash id cs left)
  unfolding finish_removal
  finish_removal-StaysOpen id cs left s = ground arith

  pub put_data-StaysOpen :
      (id : ℕ) (c : BlockContext) (buf half : Bytes) → StaysOpen (put_data codec hash id c buf half)
  unfolding put_data
  put_data-StaysOpen id c buf half s =
      let s1 = (write_block codec hash id buf half s).1 in
      ground (
        arith,
        write_block-StaysOpen id buf half s,
        put_ref_entry-StaysOpen id (record { status = live_block_ref; context = c }) s1,
      )

  pub add_reference-StaysOpen :
      (id : ℕ) (c : BlockContext) → StaysOpen (add_reference codec hash id c)
  unfolding add_reference
  add_reference-StaysOpen id c s =
      ground (arith, put_ref_entry-StaysOpen id (record { status = live_block_ref; context = c }) s)

  pub remove_references-StaysOpen :
      (id : ℕ) (cs : List BlockContext) → StaysOpen (remove_references codec hash id cs)
  unfolding remove_references
  remove_references-StaysOpen id cs s = elim (Option-cases (lookup id s.refs)) [
    | inl missing ↦ ground arith
    | inr (refs, l) ↦
        let left = (remove_refs cs refs).1 in
        ground (arith, finish_removal-StaysOpen id cs left (set_refs id left s))
  ]

  pub archive_references-StaysOpen :
      (id : ℕ) (cs : List BlockContext) → StaysOpen (archive_references codec hash id cs)
  unfolding archive_references
  archive_references-StaysOpen id cs s = ground (arith, archive_loop-StaysOpen id cs s)
