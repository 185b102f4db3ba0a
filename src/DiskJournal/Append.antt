-- ===== src/DiskJournal/Append.antt =====
-- `appendJournalEntry` adds one entry to the list that the directory stands for.
use kbfs.Prelude.{
  ℕ, suc, ◌+◌, ◌≤◌, ◌<◌, ◌≡◌, refl, List, [], ◌∷◌, ◌++◌, ok, err, length, arith, Option, none, some,
  rollover, out_of_order, ◌≢◌, ◌∙◌, length-append, ◌⊎◌, inl, inr, ap, if◌then◌else◌, ◌==◌,
}
use kbfs.FileStore.{Bytes, IsHealthy, update}
use kbfs.Codec.{Codec}
use kbfs.Ordinal.{two64, ordinal_string, make_journal_ordinal-ordinal_string}
use kbfs.DiskJournal.{
  Journal, journal_dir, earliest_file, latest_file, entry_file, journal_file_eq,
  read_earliest_ordinal, read_latest_ordinal, next_ordinal, read_journal_entry,
  append_journal_entry,
}
use kbfs.DiskJournal.Represents.{
  Entries, Represents, Entries-append, expected_earliest, expected_latest,
}
use native.Mathlib.Nat.{le_refl}

-- The ordinal that a caller asks for fits: the next one, or any if the journal is empty; an empty journal
-- begins at 0 if the caller asks for none.
abbrev pub Admits : {E : Type 0} → Option ℕ → ℕ → List E → Type 0
Admits none first [] = first ≡ 0
Admits none first (e ∷ es) = Unit
Admits (some o) first es = o ≡ first + length es

-- The files after an append of the bytes `b` at ordinal `n`.
abbrev appended : {E : Type 0} → (s : Journal) (n : ℕ) (b : Bytes) → List E → Journal
appended s n b [] = record s {
  files =
      update
        (update (update s.files (entry_file n) (some b)) earliest_file (some (ordinal_string n)))
        latest_file (some (ordinal_string n));
}
appended s n b (e ∷ es) = record s {
  files = update (update s.files (entry_file n) (some b)) latest_file (some (ordinal_string n));
}

module _ {E : Type 0} (codec : Codec E) where
  append_lem :
      (o : Option ℕ) (s : Journal) (first : ℕ) (es : List E) (e : E) (b : Bytes)
      → IsHealthy s
      → Represents codec s first es
      → Admits o first es
      → first + length es < two64
      → codec.encode e ≡ ok b
      → append_journal_entry codec o e s ≡ (ok tt, appended s (first + length es) b es)
  unfolding append_journal_entry next_ordinal
  append_lem none s first [] e b h r a m c = ground (
    arith,
    h.reads earliest_file,
    h.writes journal_dir,
    h.writes (entry_file (first + 0)),
    h.writes earliest_file,
    h.writes latest_file,
    r.earliest,
    r.latest,
  )
  append_lem (some o) s first [] e b h r a m c = ground (
    arith,
    h.reads earliest_file,
    h.writes journal_dir,
    h.writes (entry_file (first + 0)),
    h.writes earliest_file,
    h.writes latest_file,
    r.earliest,
    r.latest,
  )
  append_lem none s first (x ∷ es) e b h r a m c = ground (
    arith,
    h.reads earliest_file,
    h.writes journal_dir,
    h.writes (entry_file (first + length (x ∷ es))),
    h.writes latest_file,
    r.earliest,
    r.latest,
  )
  append_lem (some o) s first (x ∷ es) e b h r a m c = ground (
    arith,
    h.reads earliest_file,
    h.writes journal_dir,
    h.writes (entry_file (first + length (x ∷ es))),
    h.writes latest_file,
    r.earliest,
    r.latest,
  )

  expected_earliest-append :
      (first : ℕ) (es : List E) (e : E) → ok first ≡ expected_earliest codec first (es ++ e ∷ [])
  expected_earliest-append first [] e = refl
  expected_earliest-append first (x ∷ es) e = refl

  expected_latest-append :
      (first : ℕ) (es : List E) (e : E)
      → ok (first + length es) ≡ expected_latest codec first (es ++ e ∷ [])
  expected_latest-append first [] e = refl
  expected_latest-append first (x ∷ es) e = ap ok (omega (arith, length-append es (e ∷ [])))

  read-appended :
      (s : Journal) (n i : ℕ) (b : Bytes) (es : List E)
      → i < n
      → read_journal_entry codec i (appended s n b es) ≡ read_journal_entry codec i s
  unfolding read_journal_entry
  read-appended s n i b [] m = ground arith
  read-appended s n i b (x ∷ es) m = ground arith

  read-appended_self :
      (s : Journal) (n : ℕ) (b : Bytes) (es : List E) (e : E)
      → IsHealthy s
      → codec.encode e ≡ ok b
      → read_journal_entry codec n (appended s n b es) ≡ ok e
  unfolding read_journal_entry
  read-appended_self s n b [] e h c =
      ground (arith, h.reads (entry_file n), codec.decode-encode e b c)
  read-appended_self s n b (x ∷ es) e h c =
      ground (arith, h.reads (entry_file n), codec.decode-encode e b c)

  Entries-appended :
      (s : Journal) (n o : ℕ) (b : Bytes) (es fs : List E)
      → o + length es ≤ n
      → Entries codec s o es
      → Entries codec (appended s n b fs) o es
  Entries-appended s n o b [] fs m h = tt
  Entries-appended s n o b (e ∷ es) fs m h = (
    read-appended s n o b fs (omega arith) ∙ h.0,
    Entries-appended s n (suc o) b es fs (omega arith) h.1,
  )

  read_latest-appended :
      (s : Journal) (n : ℕ) (b : Bytes) (es : List E)
      → IsHealthy s
      → n < two64
      → read_latest_ordinal (appended s n b es) ≡ ok n
  unfolding read_latest_ordinal
  read_latest-appended s n b [] h m =
      ground (arith, h.reads latest_file, make_journal_ordinal-ordinal_string n m)
  read_latest-appended s n b (x ∷ es) h m =
      ground (arith, h.reads latest_file, make_journal_ordinal-ordinal_string n m)

  read_earliest-appended :
      (s : Journal) (first : ℕ) (b : Bytes) (es : List E)
      → IsHealthy s
      → Represents codec s first es
      → first < two64
      → read_earliest_ordinal (appended s (first + length es) b es) ≡ ok first
  unfolding read_earliest_ordinal
  read_earliest-appended s first b [] h r m =
      ground (arith, h.reads earliest_file, make_journal_ordinal-ordinal_string first m)
  read_earliest-appended s first b (x ∷ es) h r m = r.earliest

  appended-Represents :
      (s : Journal) (first : ℕ) (es : List E) (e : E) (b : Bytes)
      → IsHealthy s
      → Represents codec s first es
      → first + length es < two64
      → codec.encode e ≡ ok b
      → Represents codec (appended s (first + length es) b es) first (es ++ e ∷ [])
  appended-Represents s first es e b h r m c = record {
    in_range = omega (arith, length-append es (e ∷ []));
    earliest =
        read_earliest-appended s first b es h r (omega arith) ∙ expected_earliest-append first es e;
    latest =
        read_latest-appended s (first + length es) b es h m ∙ expected_latest-append first es e;
    entries =
        Entries-append codec _ first es e
          (Entries-appended s (first + length es) first b es es (le_refl _) r.entries)
          (read-appended_self s (first + length es) b es e h c);
  }

  appended-IsHealthy :
      (s : Journal) (n : ℕ) (b : Bytes) (es : List E) → IsHealthy s → IsHealthy (appended s n b es)
  appended-IsHealthy s n b [] h = record { reads = h.reads; writes = h.writes }
  appended-IsHealthy s n b (x ∷ es) h = record { reads = h.reads; writes = h.writes }

  -- On a file system that refuses nothing, `appendJournalEntry` succeeds if the codec encodes the entry,
  -- the ordinals are not used up and the requested ordinal, if any, is the next; the directory then
  -- stands for the old entries followed by the new one, from the same first ordinal.
  pub append_journal_entry-Represents :
      (o : Option ℕ) (s : Journal) (first : ℕ) (es : List E) (e : E) (b : Bytes)
      → IsHealthy s
      → Represents codec s first es
      → Admits o first es
      → first + length es < two64
      → codec.encode e ≡ ok b
      → (s' : Journal) × (append_journal_entry codec o e s ≡ (ok tt, s'))
        × Represents codec s' first (es ++ e ∷ [])
        × IsHealthy s'
  append_journal_entry-Represents o s first es e b h r a m c = (
    appended s (first + length es) b es,
    append_lem o s first es e b h r a m c,
    appended-Represents s first es e b h r m c,
    appended-IsHealthy s (first + length es) b es h,
  )

  -- On a journal that is not empty, an append that comes after ordinal 2^64 - 1, or that asks for another
  -- ordinal than the next one, is refused, each with its own error, and changes no file.
  pub append_journal_entry_refused :
      (o : Option ℕ) (s : Journal) (first : ℕ) (x : E) (es : List E) (e : E)
      → Represents codec s first (x ∷ es)
      → (first + length (x ∷ es) ≡ two64) ⊎ ((k : ℕ) × (o ≡ some k) × (k ≢ first + length (x ∷ es)))
      → append_journal_entry codec o e s
        ≡ (err (if first + length (x ∷ es) == two64 then rollover else out_of_order), s)
  unfolding append_journal_entry next_ordinal
  append_journal_entry_refused o s first x es e r (inl full) = ground (arith, r.latest, r.in_range)
  append_journal_entry_refused none s first x es e r (inr h) = cc (h.1)
  append_journal_entry_refused (some j) s first x es e r (inr (k, p, q)) =
      ground (arith, r.latest, r.in_range)
