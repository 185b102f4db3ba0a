-- ===== src/BlockServer/TlfJournal/Files.antt =====
-- The block files of a folder's journal (`blockPath`, `blockDataPath`, `keyServerHalfPath` of
-- libkbfs/bserver_tlf_journal.go).
use kbfs.Prelude.{
  ℕ, Bool, true, false, ◌≡◌, ◌↔◌, refl, ◌==◌, ap, ==_iff, none, if◌then◌else◌, ok, err, io_fault,
}
use kbfs.Prelude.Action.{Action}
use kbfs.FileStore.{Eq, Store, update}

pub data BlockFile : Type 0 where
  block_path block_data_path key_server_half_path : ℕ → BlockFile

abbrev pub same_block_file : BlockFile → BlockFile → Bool
same_block_file (block_path a) (block_path b) = a == b
same_block_file (block_data_path a) (block_data_path b) = a == b
same_block_file (key_server_half_path a) (key_server_half_path b) = a == b
same_block_file _ _ = false

same_block_file→eq : (p q : BlockFile) → same_block_file p q ≡ true → p ≡ q
same_block_file→eq (block_path a) (block_path b) h = ap block_path ((==_iff a b).0 h)
same_block_file→eq (block_data_path a) (block_data_path b) h = ap block_data_path ((==_iff a b).0 h)
same_block_file→eq (key_server_half_path a) (key_server_half_path b) h =
    ap key_server_half_path ((==_iff a b).0 h)
same_block_file→eq _ _ h = cc

same_block_file_refl : (p : BlockFile) → same_block_file p p ≡ true
same_block_file_refl (block_path a) = (==_iff a a).1 refl
same_block_file_refl (block_data_path a) = (==_iff a a).1 refl
same_block_file_refl (key_server_half_path a) = (==_iff a a).1 refl

pub same_block_file_iff : (p q : BlockFile) → (same_block_file p q ≡ true) ↔ (p ≡ q)
same_block_file_iff p q = (same_block_file→eq p q, λ e. rw (← e) (same_block_file_refl p))

instance abbrev pub block_file_eq : Eq BlockFile
block_file_eq = record { beq = same_block_file; beq_iff = same_block_file_iff }

-- `os.RemoveAll` on a block's directory, with the two files that stand in it
unfoldable pub remove_block : ℕ → Action (Store BlockFile) (Unit {0})
remove_block id s = if s.unwritable (block_path id) then (err io_fault, s) else (
  ok tt,
  record s {
    files = update (update s.files (block_data_path id) none) (key_server_half_path id) none;
  },
)
