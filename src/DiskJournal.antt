-- ===== src/DiskJournal.antt =====
-- `diskJournal` of libkbfs/disk_journal.go: an ordered list of entries, one file for each ordinal, and
-- the files EARLIEST and LATEST that hold the first and the last ordinal.
mod Files
pub mod Represents
pub mod Append
pub use Files.{
  JournalFile, journal_dir, earliest_file, latest_file, entry_file, journal_file_eq, Journal,
}
use kbfs.Prelude.{
  ℕ, ◌+◌, ◌-◌, ◌%◌, Bool, true, Option, none, some, Result, ok, err, is_not_exist, rollover,
  out_of_order, ◌==◌, if◌then◌else◌,
}
use mathlib.Core.Option.{get_or}
use kbfs.Prelude.Action.{Action, ◌>>=◌, ◌>>◌, reads}
use kbfs.Prelude.Chain.{◌>>=◌ as bind}
use kbfs.FileStore.{read_file, write_file, mkdir_all}
use kbfs.Codec.{Codec}
use kbfs.Ordinal.{two64, ordinal_string, make_journal_ordinal}

unfoldable pub read_ordinal : JournalFile → Journal → Result ℕ
unfolding read_file
read_ordinal path s = bind (read_file path s) make_journal_ordinal

unfoldable pub write_ordinal : JournalFile → ℕ → Action Journal (Unit {0})
unfolding write_file
write_ordinal path o = write_file path (ordinal_string o)

unfoldable pub read_earliest_ordinal : Journal → Result ℕ
unfolding read_ordinal
read_earliest_ordinal = read_ordinal earliest_file

unfoldable pub write_earliest_ordinal : ℕ → Action Journal (Unit {0})
unfolding write_ordinal
write_earliest_ordinal = write_ordinal earliest_file

unfoldable pub read_latest_ordinal : Journal → Result ℕ
unfolding read_ordinal
read_latest_ordinal = read_ordinal latest_file

unfoldable pub write_latest_ordinal : ℕ → Action Journal (Unit {0})
unfolding write_ordinal
write_latest_ordinal = write_ordinal latest_file

-- An ordinal that the caller asks for must be the next one.
abbrev pub follows : Option ℕ → ℕ → Bool
follows none next = true
follows (some o) next = o == next

-- The first part of `appendJournalEntry`: the new entry's ordinal, from the latest one as it was read.
unfoldable pub next_ordinal : Option ℕ → Result ℕ → Result ℕ
next_ordinal o (ok lo) =
    let next = (lo + 1) % two64 in
    if next == 0 then err rollover else if follows o next then ok next else err out_of_order
next_ordinal o (err e) = if is_not_exist e then ok (get_or o 0) else err e

-- The last part but one: EARLIEST is written if it is not there.
unfoldable pub note_earliest : ℕ → Action Journal (Unit {0})
unfolding write_earliest_ordinal read_earliest_ordinal
note_earliest next s = elim (read_earliest_ordinal s) [
  | ok first ↦ (ok tt, s)
  | err e ↦ if is_not_exist e then write_earliest_ordinal next s else (err e, s)
]

-- `journalLength`, in uint64 arithmetic
unfoldable pub journal_length : Journal → Result ℕ
journal_length s = elim (read_earliest_ordinal s) [
  | ok first ↦ bind (read_latest_ordinal s) (λ last. ok ((last + two64 - first + 1) % two64))
  | err e ↦ if is_not_exist e then ok 0 else err e
]

module _ {E : Type 0} (codec : Codec E) where
  unfoldable pub read_journal_entry : ℕ → Journal → Result E
  unfolding read_file
  read_journal_entry o s = bind (read_file (entry_file o) s) codec.decode

  unfoldable pub write_journal_entry : ℕ → E → Action Journal (Unit {0})
  unfolding write_file mkdir_all
  write_journal_entry o entry = do
    mkdir_all journal_dir
    buf ← reads (λ _. codec.encode entry)
    write_file (entry_file o) buf

  unfoldable pub append_journal_entry : Option ℕ → E → Action Journal (Unit {0})
  unfolding write_journal_entry note_earliest write_latest_ordinal
  append_journal_entry o entry = do
    next ← reads (λ s. next_ordinal o (read_latest_ordinal s))
    write_journal_entry next entry
    note_earliest next
    write_latest_ordinal next
