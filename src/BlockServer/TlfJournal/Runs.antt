-- ===== src/BlockServer/TlfJournal/Runs.antt =====
-- Sequences of calls on a folder's journal, from an empty directory on.
use kbfs.Prelude.{true, ℕ, zero, suc, ◌<◌, ◌≡◌, false, List, [], ◌∷◌, Result, ok, arith, none}
use kbfs.FileStore.{Bytes, IsHealthy}
use kbfs.Codec.{Codec}
use kbfs.Ordinal.{two64}
use kbfs.DiskJournal.{earliest_file, latest_file, read_earliest_ordinal, read_latest_ordinal}
use kbfs.BlockServer.Refs.{BlockContext}
use kbfs.BlockServer.TlfJournal.{BserverTlfJournal, BserverJournalEntry}
use kbfs.BlockServer.TlfJournal.Replay.{replay}
use kbfs.BlockServer.TlfJournal.Calls.{
  put_data, add_reference, remove_references, archive_references, make_bserver_tlf_journal,
  shutdown,
}
use kbfs.BlockServer.TlfJournal.Consistent.{Encodes}
use kbfs.BlockServer.TlfJournal.Preserve.{
  Agrees, put_data-Agrees, add_reference-Agrees, remove_references-Agrees,
  archive_references-Agrees,
}
use kbfs.BlockServer.TlfJournal.Shutdown.{read_journal-Agrees, shutdown-Agrees}

module _ (codec : Codec BserverJournalEntry) (hash : Bytes → Result ℕ) where
  -- `Reach n s`: after `n` calls the journal is in state `s`. A `putData` or an `addReference` may fail;
  -- a `removeReferences` or an `archiveReferences` succeeds, the latter on at least one context.
  pub data Reach (s0 : BserverTlfJournal) : ℕ → BserverTlfJournal → Type 0 where
    start : Reach s0 zero s0
    put_step :
        {n : ℕ} {s : BserverTlfJournal} (id : ℕ) (c : BlockContext) (buf half : Bytes)
        → Reach s0 n s
        → Reach s0 (suc n) (put_data codec hash id c buf half s).1
    add_step :
        {n : ℕ} {s : BserverTlfJournal} (id : ℕ) (c : BlockContext)
        → Reach s0 n s
        → Reach s0 (suc n) (add_reference codec hash id c s).1
    remove_step :
        {n : ℕ} {s s' : BserverTlfJournal} (id : ℕ) (cs : List BlockContext) (k : ℕ)
        → Reach s0 n s
        → remove_references codec hash id cs s ≡ (ok k, s')
        → Reach s0 (suc n) s'
    archive_step :
        {n : ℕ} {s s' : BserverTlfJournal} (id : ℕ) (c : BlockContext) (cs : List BlockContext)
        → Reach s0 n s
        → archive_references codec hash id (c ∷ cs) s ≡ (ok tt, s')
        → Reach s0 (suc n) s'

  -- A journal in an empty directory on a file system that refuses nothing.
  pub record IsFresh (s : BserverTlfJournal) : Type 0 where
    pub healthy : IsHealthy s.j
    pub no_earliest : s.j.files earliest_file ≡ none
    pub no_latest : s.j.files latest_file ≡ none
    pub no_refs : s.refs ≡ []

  pub IsFresh-Agrees : (s : BserverTlfJournal) → IsFresh s → Agrees codec s 0
  unfolding Agrees replay read_earliest_ordinal read_latest_ordinal
  IsFresh-Agrees s f = (
    [],
    record {
      healthy = f.healthy;
      journal = record {
        in_range = omega arith;
        earliest = ground (arith, f.no_earliest, f.healthy.reads earliest_file);
        latest = ground (arith, f.no_latest, f.healthy.reads latest_file);
        entries = tt;
      };
      replayed = ground (arith, f.no_refs);
    },
    omega arith,
  )

  module _ (enc : Encodes codec) (s0 : BserverTlfJournal) (fresh : IsFresh s0) where
    pub Reach-Agrees : {n : ℕ} {s : BserverTlfJournal} → Reach s0 n s → n < two64 → Agrees codec s n
    Reach-Agrees start b = IsFresh-Agrees s0 fresh
    Reach-Agrees (put_step {n = n} {s = s} id c buf half r) b =
        put_data-Agrees codec enc hash id c buf half s n (Reach-Agrees r (omega arith)) b
    Reach-Agrees (add_step {n = n} {s = s} id c r) b =
        add_reference-Agrees codec enc hash id c s n (Reach-Agrees r (omega arith)) b
    Reach-Agrees (remove_step {n = n} {s = s} {s' = s'} id cs k r h) b =
        remove_references-Agrees codec enc hash id cs s s' n k (Reach-Agrees r (omega arith)) b h
    Reach-Agrees (archive_step {n = n} {s = s} {s' = s'} id c cs r h) b =
        archive_references-Agrees codec enc hash id c cs s s' n (Reach-Agrees r (omega arith)) b h

    -- On a journal in an empty directory whose file system refuses no read and no write of a journal file,
    -- with a codec that encodes every entry, and after fewer than 2^64 calls, of which `putData` and
    -- `addReference` may fail for the other reasons they have (a wrong hash, a bad context, a shut down
    -- journal, a block file that cannot be read or written) while `removeReferences` and
    -- `archiveReferences` (the latter on at least one context) succeed: a restart (`makeBserverTlfJournal` on
    -- the files) finds the references that the journal had in memory, and a `shutdown` does not panic.
    pub restart-Reach :
        {n : ℕ} {s : BserverTlfJournal}
        → Reach s0 n s
        → n < two64
        → (make_bserver_tlf_journal codec hash s.j s.blocks ≡ ok (record s { is_shutdown = false }))
          × (shutdown codec hash s ≡ (ok tt, record s { is_shutdown = true }))
    unfolding make_bserver_tlf_journal
    restart-Reach {n} {s} r b =
        let a = Reach-Agrees r b in
        (ground (arith, read_journal-Agrees codec hash s n a b), shutdown-Agrees codec hash s n a b)
