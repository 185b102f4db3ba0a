-- ===== src/Tests/Disk.antt =====
-- The disk block server at concrete inputs.
use kbfs.Prelude.{◌≡◌, refl, ap, ℕ, [], ◌∷◌, ok, arith, replicate}
use kbfs.FileStore.{Bytes}
use kbfs.BlockServer.Refs.{BlockContext}
use kbfs.BlockServer.TlfJournal.Calls.{put_data, add_reference, make_bserver_tlf_journal}
use kbfs.BlockServer.TlfJournal.Replay.{read_journal}
use kbfs.BlockServer.TlfJournal.Runs.{IsFresh}
use kbfs.BlockServer.Disk.{
  BlockServerDisk, FolderDir, get, put, add_block_reference, on_folder, get_journal,
  shutdown_server, new_block_server_dir,
}
use kbfs.BlockServer.Disk.Good.{AreApart, journal_of}
use kbfs.BlockServer.Disk.Runs.{Steps, start, put_step, add_step}
use kbfs.BlockServer.Disk.Restart.{get-shutdown_server}
use kbfs.BlockServer.Disk.Isolation.{HasOwnDirs, get-on_folder_ne}
use kbfs.Tests.Data.{entry_codec, encodes, length_hash, empty_store}
use kbfs.Tests.TlfJournal.{program}

abbrev alice : BlockContext
alice = record { creator = 1; writer = 0; ref_nonce = 0 }

abbrev bob : BlockContext
bob = record { creator = 1; writer = 2; ref_nonce = 77 }

abbrev buf : Bytes
buf = 10 ∷ 20 ∷ 30 ∷ []

abbrev half : Bytes
half = replicate 32 7

-- The path of a folder's journal
abbrev folder_path : ℕ → Bytes
folder_path tlf = 47 ∷ tlf ∷ []

folder_path-AreApart : AreApart folder_path
folder_path-AreApart a b e =
    ap (λ p. elim p [ [] ↦ 0 | x ∷ xs ↦ elim xs [ [] ↦ 0 | y ∷ ys ↦ y ] ]) e

abbrev empty_dirs : Bytes → FolderDir
empty_dirs path = record { j = empty_store; blocks = empty_store }

empty_dirs-IsFresh :
    (tlf : ℕ)
    → IsFresh entry_codec length_hash
        (journal_of entry_codec length_hash (empty_dirs (folder_path tlf)))
empty_dirs-IsFresh tlf = record {
  healthy = record { reads = λ p. refl; writes = λ p. refl };
  no_earliest = refl;
  no_latest = refl;
  no_refs = refl;
}

abbrev server : BlockServerDisk
server = new_block_server_dir folder_path empty_dirs

server-HasOwnDirs : HasOwnDirs server
unfolding new_block_server_dir
server-HasOwnDirs m q tlf o l = absurd (ground arith)

-- Folder 5 holds block 3 with two references.
abbrev with_block : BlockServerDisk
with_block = (put entry_codec length_hash 3 5 alice buf half server).1

abbrev with_two : BlockServerDisk
with_two = (add_block_reference entry_codec length_hash 3 5 bob with_block).1

two-Steps : Steps entry_codec length_hash encodes folder_path empty_dirs 2 with_two
two-Steps = add_step 3 5 bob (put_step 3 5 alice buf half start)

get_two : (get entry_codec length_hash 3 5 bob with_two).0 ≡ ok (buf, half)
unfolding get put add_block_reference new_block_server_dir on_folder get_journal program
    make_bserver_tlf_journal read_journal
get_two = refl

get-shutdown_server_example :
    let (r, s') = shutdown_server entry_codec length_hash with_two in
    (r ≡ ok tt)
    × ((id tlf : ℕ) (c : BlockContext)
        → (get entry_codec length_hash id tlf c (new_block_server_dir folder_path s'.dirs)).0
          ≡ (get entry_codec length_hash id tlf c with_two).0)
get-shutdown_server_example =
    get-shutdown_server entry_codec length_hash encodes folder_path empty_dirs folder_path-AreApart
      empty_dirs-IsFresh 2 with_two two-Steps (omega arith)

with_block-HasOwnDirs : HasOwnDirs with_block
unfolding put new_block_server_dir
with_block-HasOwnDirs =
    (get-on_folder_ne entry_codec length_hash (put_data entry_codec length_hash 3 alice buf half)
      server 5 3 6 alice folder_path-AreApart server-HasOwnDirs refl).0

get-on_folder_ne_example :
    let s' =
      (on_folder entry_codec length_hash 6
        (add_reference entry_codec length_hash 3 bob)
        with_block).1 in
    HasOwnDirs s'
    × ((get entry_codec length_hash 3 5 alice s').0
        ≡ (get entry_codec length_hash 3 5 alice with_block).0)
unfolding put new_block_server_dir on_folder get_journal program make_bserver_tlf_journal
    read_journal
get-on_folder_ne_example =
    get-on_folder_ne entry_codec length_hash (add_reference entry_codec length_hash 3 bob)
      with_block 6 3 5 alice folder_path-AreApart with_block-HasOwnDirs refl
