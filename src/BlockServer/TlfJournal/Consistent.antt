-- ===== src/BlockServer/TlfJournal/Consistent.antt =====
-- The references in memory are those that the journal on disk tells of.
use kbfs.Prelude.{ℕ, ◌+◌, ◌<◌, ◌≡◌, refl, none, List, [], ◌∷◌, ◌++◌, Result, ok, arith, length, ◌∙◌}
use kbfs.FileStore.{Bytes, IsHealthy}
use kbfs.Codec.{Codec}
use kbfs.Ordinal.{two64}
use kbfs.DiskJournal.Represents.{Represents}
use kbfs.DiskJournal.Append.{Admits, append_journal_entry-Represents}
use kbfs.BlockServer.Refs.{BlockContext}
use kbfs.BlockServer.TlfJournal.{
  BserverTlfJournal, BserverJournalEntry, BserverOp, RefsMap, apply_entry,
}
use kbfs.BlockServer.TlfJournal.Replay.{replay, replay-append}
use kbfs.BlockServer.TlfJournal.Calls.{append_entry}

module _ (codec : Codec BserverJournalEntry) where
  -- The journal's directory stands for the entries, from ordinal 0 on, and to replay them gives the
  -- references in memory.
  pub record IsConsistent (s : BserverTlfJournal) (es : List BserverJournalEntry) : Type 0 where
    pub healthy : IsHealthy s.j
    pub journal : Represents codec s.j 0 es
    pub replayed : replay es [] ≡ ok s.refs

  -- The codec encodes every entry.
  pub record Encodes : Type 0 where
    pub bytes : BserverJournalEntry → Bytes
    pub encodes : (e : BserverJournalEntry) → codec.encode e ≡ ok (bytes e)

  Admits-none : (es : List BserverJournalEntry) → Admits none 0 es
  Admits-none [] = refl
  Admits-none (e ∷ es) = tt

  module _ (enc : Encodes) (hash : Bytes → Result ℕ) where
    -- The references have been changed as the entry says: to append the entry then succeeds, and makes
    -- journal and memory agree again.
    pub append_entry-IsConsistent :
        (op : BserverOp) (id : ℕ) (cs : List BlockContext) (s : BserverTlfJournal)
        (es : List BserverJournalEntry) (before : RefsMap)
        → IsHealthy s.j
        → Represents codec s.j 0 es
        → replay es [] ≡ ok before
        → length es + 1 < two64
        → apply_entry (record { op = op; id = id; contexts = cs }) before ≡ ok s.refs
        → let e : BserverJournalEntry = record { op = op; id = id; contexts = cs } in
          (s' : BserverTlfJournal) × (append_entry codec hash op id cs s ≡ (ok tt, s'))
          × IsConsistent s' (es ++ e ∷ [])
    unfolding append_entry
    append_entry-IsConsistent op id cs s es before h r p m a =
        let e : BserverJournalEntry = record { op = op; id = id; contexts = cs } in
        let (j', done, represents, healthy) =
          append_journal_entry-Represents codec none s.j 0 es e (enc.bytes e) h r (Admits-none es)
            (omega arith) (enc.encodes e) in
        (
          record s { j = j' },
          ground (arith, done),
          record {
            healthy = healthy;
            journal = represents;
            replayed = replay-append es e [] before p ∙ a;
          },
        )
