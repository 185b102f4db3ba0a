-- ===== src/BlockServer/Disk/Restart.antt =====
-- A disk block server that is shut down and made again over its directory answers as before.
use kbfs.Prelude.{ap, ℕ, ◌<◌, ◌≡◌, refl, [], ◌∷◌, Result, ok, arith, Option-cases, inl, inr, subst}
use kbfs.Prelude.Maps.{Map, lookup}
use kbfs.FileStore.{Bytes}
use kbfs.Codec.{Codec}
use kbfs.Ordinal.{two64}
use kbfs.BlockServer.Refs.{BlockContext}
use kbfs.BlockServer.TlfJournal.{BserverTlfJournal, BserverJournalEntry}
use kbfs.BlockServer.TlfJournal.Calls.{make_bserver_tlf_journal}
use kbfs.BlockServer.TlfJournal.Consistent.{Encodes}
use kbfs.BlockServer.TlfJournal.Runs.{IsFresh}
use kbfs.BlockServer.TlfJournal.Shutdown.{read_journal-Agrees, shutdown-Agrees}
use kbfs.BlockServer.Disk.{
  BlockServerDisk, FolderDir, OpenJournal, load, get, get_journal, shutdown_journals,
  shutdown_server, new_block_server_dir,
}
use kbfs.BlockServer.Disk.Good.{AreApart, IsGood, AllGood, IsSound, journal_of, lookup-AllGood}
use kbfs.BlockServer.Disk.Runs.{Steps, Steps-IsSound}

module _ (codec : Codec BserverJournalEntry) (hash : Bytes → Result ℕ) where
  shutdown_journals-AllGood :
      (path : ℕ → Bytes) (dirs : Bytes → FolderDir) (m : Map OpenJournal) (n : ℕ)
      → AllGood codec hash path dirs m n
      → n < two64
      → shutdown_journals codec hash dirs m ≡ ok tt
  unfolding shutdown_journals IsGood
  shutdown_journals-AllGood path dirs [] n g b = refl
  shutdown_journals-AllGood path dirs ((tlf, o) ∷ m) n (_, _, (a, q), gs) b = ground (
    arith,
    shutdown-Agrees codec hash (load dirs o) n a b,
    shutdown_journals-AllGood path dirs m n gs b,
  )

  -- A good journal is the one that is made from its directory.
  remade :
      (j : BserverTlfJournal) (n : ℕ)
      → IsGood codec hash j n
      → n < two64
      → make_bserver_tlf_journal codec hash j.j j.blocks ≡ ok j
  unfolding make_bserver_tlf_journal IsGood
  remade j n (a, o) b = ground (arith, read_journal-Agrees codec hash j n a b)

  same_get :
      (path : ℕ → Bytes) (s : BlockServerDisk) (m : Map OpenJournal) (n id tlf : ℕ)
      (c : BlockContext)
      → IsSound codec hash path s m n
      → n < two64
      → (get codec hash id tlf c (new_block_server_dir path s.dirs)).0
        ≡ (get codec hash id tlf c s).0
  unfolding get get_journal new_block_server_dir
  same_get path s m n id tlf c i b =
      let same = ap (λ f. f tlf) i.same_path in
      elim (Option-cases (lookup tlf m)) [
        | inl closed ↦ ground (arith, i.is_open, same)
        | inr (o, l) ↦
            let (d, g) = lookup-AllGood codec hash path s.dirs tlf o m n i.good l in
            ground (arith, i.is_open, d, remade (load s.dirs o) n g b)
      ]

  module _ (enc : Encodes codec) where
    -- Over directories that are empty at first, one for each folder, whose file systems refuse no read and
    -- no write of a journal file, with a codec that encodes every entry, and after calls that have written
    -- fewer than 2^64 entries into any one journal (`Get`, `Put` and `AddBlockReference` may fail for the
    -- other reasons they have, such as a wrong hash or a bad context, `RemoveBlockReference` and
    -- `ArchiveBlockReferences` succeed, the latter with contexts for every block): `Shutdown` does not panic,
    -- and a new server over the disk that it leaves answers every `Get` as the old one did before.
    pub get-shutdown_server :
        (path : ℕ → Bytes) (dirs : Bytes → FolderDir)
        → AreApart path
        → ((tlf : ℕ) → IsFresh codec hash (journal_of codec hash (dirs (path tlf))))
        → (n : ℕ) (s : BlockServerDisk) → Steps codec hash enc path dirs n s
        → n < two64
        → let (r, s') = shutdown_server codec hash s in
          (r ≡ ok tt)
          × ((id tlf : ℕ) (c : BlockContext)
              → (get codec hash id tlf c (new_block_server_dir path s'.dirs)).0
                ≡ (get codec hash id tlf c s).0)
    unfolding shutdown_server
    get-shutdown_server path dirs apart fresh n s steps b =
        let (m, i) = Steps-IsSound codec hash enc path apart dirs fresh steps b in
        let quiet = shutdown_journals-AllGood path s.dirs m n i.good b in
        (
          ground (arith, i.is_open, i.no_shutdown_func, quiet),
          λ id tlf c.
              subst
                (λ d.
                  (get codec hash id tlf c (new_block_server_dir path d)).0
                  ≡ (get codec hash id tlf c s).0)
                {x = s.dirs} (ground (arith, i.is_open, i.no_shutdown_func, quiet))
                (same_get path s m n id tlf c i b),
        )
