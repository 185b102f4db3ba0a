-- ===== src/BlockServer/Disk.antt =====
-- `BlockServerDisk` of libkbfs/bserver_disk.go: one folder journal per folder, opened at its first use.
-- The lock is left out: each call runs alone.
pub mod Good
pub mod Steps
pub mod Runs
pub mod Restart
pub mod Isolation
use kbfs.Prelude.{
  ℕ, Bool, not, ◌==◌, if◌then◌else◌, Option, none, some, List, [], ◌∷◌, Result, ok, err,
  err_shutdown, nonzero_nonce,
}
use kbfs.Prelude.Maps.{Map, lookup, insert}
use kbfs.Prelude.Action.{Action, ◌>>=◌, ◌>>◌, pure, reads, raise_if}
use kbfs.Prelude.Chain.{◌>>=◌ as bind}
use kbfs.FileStore.{Bytes, Store, same_bytes}
use kbfs.Codec.{Codec}
use kbfs.DiskJournal.{Journal}
use kbfs.BlockServer.Refs.{BlockContext, RefStatus, get_ref_nonce}
use kbfs.BlockServer.TlfJournal.{
  BserverTlfJournal, BserverJournalEntry, BlockFile, RefsMap, get_all,
}
use kbfs.BlockServer.TlfJournal.Calls.{
  get_data, put_data, add_reference, remove_references, archive_references,
  make_bserver_tlf_journal, shutdown,
}

-- The directory of one folder: its journal and its blocks.
pub record FolderDir : Type 0 where
  pub j : Journal
  pub blocks : Store BlockFile

-- An open journal: its directory, whose files are on disk, and what it keeps in memory
pub record OpenJournal : Type 0 where
  pub dir : Bytes
  pub refs : RefsMap
  pub is_shutdown : Bool

-- `dirs` is the disk, by path: all journals that have the same directory share its files. `journal_path` is
-- `filepath.Join(dirPath, tlfID.String())` of a folder. `disk_journal` is `none` after `Shutdown`.
pub record BlockServerDisk : Type 0 where
  pub dirs : Bytes → FolderDir
  pub journal_path : ℕ → Bytes
  pub shutdown_func : Option ((Bytes → FolderDir) → Bytes → FolderDir)
  pub disk_journal : Option (Map OpenJournal)

-- The journal with its files as they are on disk
abbrev pub load : (Bytes → FolderDir) → OpenJournal → BserverTlfJournal
load dirs o = record {
  j = (dirs o.dir).j;
  blocks = (dirs o.dir).blocks;
  refs = o.refs;
  is_shutdown = o.is_shutdown;
}

-- What a journal in the directory `dir` keeps in memory
abbrev pub open_in : Bytes → BserverTlfJournal → OpenJournal
open_in dir j = record { dir = dir; refs = j.refs; is_shutdown = j.is_shutdown }

-- The disk with the files of one directory changed
abbrev pub write_dir : Bytes → BserverTlfJournal → (Bytes → FolderDir) → Bytes → FolderDir
write_dir dir j dirs path =
    if same_bytes dir path then record { j = j.j; blocks = j.blocks } else dirs path

unfoldable pub new_block_server_disk :
    (ℕ → Bytes)
    → (Bytes → FolderDir)
    → Option ((Bytes → FolderDir) → Bytes → FolderDir)
    → BlockServerDisk
new_block_server_disk journal_path dirs shutdown_func = record {
  dirs = dirs;
  journal_path = journal_path;
  shutdown_func = shutdown_func;
  disk_journal = some [];
}

unfoldable pub new_block_server_dir : (ℕ → Bytes) → (Bytes → FolderDir) → BlockServerDisk
unfolding new_block_server_disk
new_block_server_dir journal_path dirs = new_block_server_disk journal_path dirs none

-- `NewBlockServerTempDir`: `remove_all` is `os.RemoveAll`, whose error is only logged.
unfoldable pub new_block_server_temp_dir :
    (ℕ → Bytes) → (Bytes → FolderDir) → ((Bytes → FolderDir) → Bytes → FolderDir) → BlockServerDisk
unfolding new_block_server_disk
new_block_server_temp_dir journal_path dirs remove_all =
    new_block_server_disk journal_path dirs (some remove_all)

abbrev pub open_of : Option (Map OpenJournal) → Map OpenJournal
open_of none = []
open_of (some m) = m

-- `b.diskJournal[tlfID] = storage`
abbrev pub set_journal : ℕ → OpenJournal → BlockServerDisk → BlockServerDisk
set_journal tlf o s = elim s.disk_journal [
  | none ↦ s
  | some m ↦ record s { disk_journal = some (insert tlf o m) }
]

-- A call changes the journal in place: its memory, and the files of its directory.
abbrev pub update_journal : ℕ → Bytes → BserverTlfJournal → BlockServerDisk → BlockServerDisk
update_journal tlf dir j s =
    set_journal tlf (open_in dir j) (record s { dirs = write_dir dir j s.dirs })

module _ (codec : Codec BserverJournalEntry) (hash : Bytes → Result ℕ) where
  unfoldable pub get_journal : ℕ → Action BlockServerDisk OpenJournal
  get_journal tlf s = elim s.disk_journal [
    | none ↦ (err err_shutdown, s)
    | some m ↦ elim (lookup tlf m) [
      | some o ↦ (ok o, s)
      | none ↦
          let path = s.journal_path tlf in
          elim (make_bserver_tlf_journal codec hash (s.dirs path).j (s.dirs path).blocks) [
            | err e ↦ (err e, s)
            | ok j ↦ (ok (open_in path j), set_journal tlf (open_in path j) s)
          ]
    ]
  ]

  -- A call on the journal of a folder
  unfoldable pub on_folder :
      {A : Type 0} → ℕ → Action BserverTlfJournal A → Action BlockServerDisk A
  unfolding get_journal
  on_folder tlf call s =
      let (r, s1) = get_journal tlf s in
      elim r [
        | err e ↦ (err e, s1)
        | ok o ↦ let (a, j') = call (load s1.dirs o) in (a, update_journal tlf o.dir j' s1)
      ]

  unfoldable pub get : ℕ → ℕ → BlockContext → Action BlockServerDisk (Bytes × Bytes)
  unfolding on_folder
  get id tlf context = on_folder tlf (reads (get_data codec hash id context))

  unfoldable pub put : ℕ → ℕ → BlockContext → Bytes → Bytes → Action BlockServerDisk (Unit {0})
  unfolding on_folder
  put id tlf context buf half = do
    raise_if (not (get_ref_nonce context == 0)) nonzero_nonce
    on_folder tlf (put_data codec hash id context buf half)

  unfoldable pub add_block_reference : ℕ → ℕ → BlockContext → Action BlockServerDisk (Unit {0})
  unfolding on_folder
  add_block_reference id tlf context = on_folder tlf (add_reference codec hash id context)

  -- The loop of `RemoveBlockReference`, over the blocks in the order of the walk: the live counts.
  unfoldable pub remove_loop : List (ℕ × List BlockContext) → Action BserverTlfJournal (Map ℕ)
  remove_loop [] s = (ok [], s)
  remove_loop ((id, contexts) ∷ rest) s =
      let (r, s1) = remove_references codec hash id contexts s in
      elim r [
        | err e ↦ (err e, s1)
        | ok count ↦
            let (counts, s2) = remove_loop rest s1 in
            (bind counts (λ live. ok ((id, count) ∷ live)), s2)
      ]

  unfoldable pub remove_block_reference :
      ℕ → List (ℕ × List BlockContext) → Action BlockServerDisk (Map ℕ)
  unfolding on_folder remove_loop
  remove_block_reference tlf contexts = on_folder tlf (remove_loop contexts)

  -- The loop of `ArchiveBlockReferences`
  unfoldable pub archive_blocks : List (ℕ × List BlockContext) → Action BserverTlfJournal (Unit {0})
  archive_blocks [] s = (ok tt, s)
  archive_blocks ((id, contexts) ∷ rest) s =
      let (r, s1) = archive_references codec hash id contexts s in
      elim r [ err e ↦ (err e, s1) | ok _ ↦ archive_blocks rest s1 ]

  unfoldable pub archive_block_references :
      ℕ → List (ℕ × List BlockContext) → Action BlockServerDisk (Unit {0})
  unfolding on_folder archive_blocks
  archive_block_references tlf contexts = on_folder tlf (archive_blocks contexts)

  unfoldable pub get_all_of : ℕ → Action BlockServerDisk (Map (Map RefStatus))
  unfolding on_folder
  get_all_of tlf = on_folder tlf (reads get_all)

  -- The loop of `Shutdown`: a journal that panics ends it.
  unfoldable pub shutdown_journals : (Bytes → FolderDir) → Map OpenJournal → Result (Unit {0})
  shutdown_journals dirs [] = ok tt
  shutdown_journals dirs ((tlf, o) ∷ rest) = elim ((shutdown codec hash (load dirs o)).0) [
    | err e ↦ err e
    | ok _ ↦ shutdown_journals dirs rest
  ]

  -- `Shutdown`: further calls fail, every open journal is shut down, and the shutdown function runs.
  unfoldable pub shutdown_server : Action BlockServerDisk (Unit {0})
  unfolding shutdown_journals
  shutdown_server s =
      let closed = record s { disk_journal = none } in
      elim (shutdown_journals s.dirs (open_of s.disk_journal)) [
        | err e ↦ (err e, closed)
        | ok _ ↦ elim s.shutdown_func [
          | none ↦ (ok tt, closed)
          | some f ↦ (ok tt, record closed { dirs = f s.dirs })
        ]
      ]
