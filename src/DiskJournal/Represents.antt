-- ===== src/DiskJournal/Represents.antt =====
-- What a journal's directory stands for: a list of entries from a first ordinal on.
use kbfs.Prelude.{
  ℕ, suc, ◌+◌, ◌≤◌, ◌<◌, ◌≡◌, List, [], ◌∷◌, ◌++◌, Result, ok, err, not_exist, length, arith, subst,
}
use native.Mathlib.Nat.{add-zero}
use kbfs.Codec.{Codec}
use kbfs.Ordinal.{two64}
use kbfs.DiskJournal.{
  Journal, read_earliest_ordinal, read_latest_ordinal, read_journal_entry, journal_length,
}

module _ {E : Type 0} (codec : Codec E) where
  -- The entries can be read, from ordinal `o` on.
  abbrev pub Entries : Journal → ℕ → List E → Type 0
  Entries s o [] = Unit
  Entries s o (e ∷ es) = (read_journal_entry codec o s ≡ ok e) × Entries s (suc o) es

  abbrev pub expected_earliest : ℕ → List E → Result ℕ
  expected_earliest first [] = err not_exist
  expected_earliest first (e ∷ es) = ok first

  abbrev pub expected_latest : ℕ → List E → Result ℕ
  expected_latest first [] = err not_exist
  expected_latest first (e ∷ es) = ok (first + length es)

  pub record Represents (s : Journal) (first : ℕ) (es : List E) : Type 0 where
    pub in_range : first + length es ≤ two64
    pub earliest : read_earliest_ordinal s ≡ expected_earliest first es
    pub latest : read_latest_ordinal s ≡ expected_latest first es
    pub entries : Entries s first es

  pub Entries-append :
      (s : Journal) (o : ℕ) (es : List E) (e : E)
      → Entries s o es
      → read_journal_entry codec (o + length es) s ≡ ok e
      → Entries s o (es ++ e ∷ [])
  Entries-append s o [] e h r = (rw (← add-zero o) r, tt)
  Entries-append s o (x ∷ es) e h r = (
    h.0,
    Entries-append s (suc o) es e h.1
        (subst (λ i. read_journal_entry codec i s ≡ ok e) (omega arith) r),
  )

  -- `journalLength` is the number of entries, where there are fewer than 2^64.
  pub journal_length-Represents :
      (s : Journal) (first : ℕ) (es : List E)
      → Represents s first es
      → length es < two64
      → journal_length s ≡ ok (length es)
  unfolding journal_length
  journal_length-Represents s first [] r h = ground arith
  journal_length-Represents s first (e ∷ es) r h = ground arith
