-- ===== src/BlockServer/TlfJournal/Entry.antt =====
-- `bserverJournalEntry` of libkbfs/bserver_tlf_journal.go and what replaying one entry does to the
-- references.
use kbfs.Prelude.{ℕ, List, [], ◌∷◌, Result, ok, err, bad_op_contexts}
use mathlib.Core.Option.{get_or}
use kbfs.Prelude.Chain.{◌>>=◌}
use kbfs.Prelude.Maps.{Map, lookup, insert, erase}
use kbfs.BlockServer.Refs.{
  BlockContext, BlockRefMap, RefStatus, live_block_ref, archived_block_ref, get_ref_nonce, put_ref,
}

-- `other_op` is any other text than the four of the source.
pub data BserverOp : Type 0 where
  block_put_op add_ref_op remove_refs_op archive_refs_op other_op : BserverOp

pub record BserverJournalEntry : Type 0 where
  pub op : BserverOp
  pub id : ℕ
  pub contexts : List BlockContext

abbrev pub RefsMap : Type 0
RefsMap = Map BlockRefMap

-- `refs[id]`, an empty map if there is none
abbrev pub refs_of : ℕ → RefsMap → BlockRefMap
refs_of id refs = get_or (lookup id refs) []

-- `blockRefs.put(…)` as a statement: its error is dropped.
unfoldable pub put_dropping : BlockRefMap → BlockContext → RefStatus → BlockRefMap
put_dropping refs c status = elim (put_ref refs c status) [ ok refs' ↦ refs' | err e ↦ refs ]

unfoldable pub delete_all : List BlockContext → BlockRefMap → BlockRefMap
delete_all [] refs = refs
delete_all (c ∷ cs) refs = delete_all cs (erase (get_ref_nonce c) refs)

unfoldable pub archive_all : List BlockContext → BlockRefMap → BlockRefMap
unfolding put_dropping
archive_all [] refs = refs
archive_all (c ∷ cs) refs = archive_all cs (put_dropping refs c archived_block_ref)

-- The `switch` of `readJournalLocked`, on the references of the entry's block.
unfoldable pub apply_op : BserverOp → List BlockContext → BlockRefMap → Result BlockRefMap
unfolding put_dropping delete_all archive_all
apply_op block_put_op (c ∷ []) refs = ok (put_dropping refs c live_block_ref)
apply_op add_ref_op (c ∷ []) refs = ok (put_dropping refs c live_block_ref)
apply_op block_put_op _ refs = err bad_op_contexts
apply_op add_ref_op _ refs = err bad_op_contexts
apply_op remove_refs_op cs refs = ok (delete_all cs refs)
apply_op archive_refs_op cs refs = ok (archive_all cs refs)
apply_op other_op cs refs = err bad_op_contexts

unfoldable pub apply_entry : BserverJournalEntry → RefsMap → Result RefsMap
apply_entry e refs = do
  block_refs ← apply_op e.op e.contexts (refs_of e.id refs)
  ok (insert e.id block_refs refs)
