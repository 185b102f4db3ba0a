-- ===== src/DiskJournal/Files.antt =====
-- The files of a journal's directory (`earliestPath`, `latestPath`, `journalEntryPath`). Their names
-- differ: EARLIEST and LATEST are shorter than the 16 digits of an ordinal, which can be read back.
use kbfs.Prelude.{ℕ, Bool, true, false, ◌≡◌, ◌↔◌, refl, ◌==◌, ap, ==_iff}
use kbfs.FileStore.{Eq, Store}

pub data JournalFile : Type 0 where
  journal_dir earliest_file latest_file : JournalFile
  entry_file : ℕ → JournalFile

abbrev pub same_file : JournalFile → JournalFile → Bool
same_file journal_dir journal_dir = true
same_file earliest_file earliest_file = true
same_file latest_file latest_file = true
same_file (entry_file o) (entry_file o') = o == o'
same_file _ _ = false

same_file→eq : (p q : JournalFile) → same_file p q ≡ true → p ≡ q
same_file→eq journal_dir journal_dir h = refl
same_file→eq earliest_file earliest_file h = refl
same_file→eq latest_file latest_file h = refl
same_file→eq (entry_file o) (entry_file o') h = ap entry_file ((==_iff o o').0 h)
same_file→eq _ _ h = cc

same_file_refl : (p : JournalFile) → same_file p p ≡ true
same_file_refl journal_dir = refl
same_file_refl earliest_file = refl
same_file_refl latest_file = refl
same_file_refl (entry_file o) = (==_iff o o).1 refl

pub same_file_iff : (p q : JournalFile) → (same_file p q ≡ true) ↔ (p ≡ q)
same_file_iff p q = (same_file→eq p q, λ e. rw (← e) (same_file_refl p))

instance abbrev pub journal_file_eq : Eq JournalFile
journal_file_eq = record { beq = same_file; beq_iff = same_file_iff }

abbrev pub Journal : Type 0
Journal = Store JournalFile
