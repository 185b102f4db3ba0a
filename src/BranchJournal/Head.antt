-- ===== src/BranchJournal/Head.antt =====
-- `append` of any revision that succeeds makes its ID the head, whatever the journal held before.
use kbfs.Prelude.{
  ℕ, subst, ◌+◌, ◌%◌, ◌<◌, ◌≡◌, refl, ◌==◌, some, Result, ok, err, arith, Bool-cases, inl, inr,
  ==_iff,
}
use kbfs.Prelude.Chain.{Result-cases}
use kbfs.Prelude.Int.{pos}
use kbfs.FileStore.{Bytes, IsHealthy, update}
use kbfs.Codec.{Codec}
use kbfs.Ordinal.{ordinal_string, make_journal_ordinal-ordinal_string, two64}
use kbfs.Revision.{two63, ordinal_to_revision_small, revision_to_ordinal}
use kbfs.DiskJournal.{
  Journal, journal_dir, earliest_file, latest_file, entry_file, journal_file_eq,
  read_latest_ordinal, read_journal_entry, append_journal_entry, next_ordinal,
  read_earliest_ordinal,
}
use kbfs.BranchJournal.{read_latest_revision, read_md_id, get_head, append}

module _ {E : Type 0} (codec : Codec E) where
  next_ordinal-some : (n next : ℕ) (r : Result ℕ) → next_ordinal (some n) r ≡ ok next → next ≡ n
  unfolding next_ordinal
  next_ordinal-some n next (ok lo) h = ground (arith, ==_iff n ((lo + 1) % two64))
  next_ordinal-some n next (err x) h = ground arith

  -- The entry and the text of LATEST can be read.
  abbrev IsWritten : Journal → Journal → ℕ → Bytes → Type 0
  IsWritten j j' n b =
      (j'.files latest_file ≡ some (ordinal_string n))
      × (j'.files (entry_file n) ≡ some b)
      × (j'.unreadable ≡ j.unreadable)

  append_journal_entry-IsWritten :
      (j j' : Journal) (n : ℕ) (e : E) (b : Bytes)
      → IsHealthy j
      → codec.encode e ≡ ok b
      → append_journal_entry codec (some n) e j ≡ (ok tt, j')
      → IsWritten j j' n b
  unfolding append_journal_entry
  append_journal_entry-IsWritten j j' n e b h c a =
      let j1 : Journal = record j { files = update j.files (entry_file n) (some b) } in
      let j2 : Journal = record j1 {
        files = update j1.files earliest_file (some (ordinal_string n));
      } in
      elim (Result-cases (next_ordinal (some n) (read_latest_ordinal j))) [
        | inr (x, l) ↦ absurd (ground arith)
        | inl (next, l) ↦
            let same = next_ordinal-some n next (read_latest_ordinal j) l in
            elim (Result-cases (read_earliest_ordinal j1)) [
              | inl (first, f) ↦
                  subst (λ t. IsWritten j t n b)
                    {x = record j1 {
                      files = update j1.files latest_file (some (ordinal_string n));
                    }}
                    {y = j'}
                    (ground (
                      arith,
                      h.writes journal_dir,
                      h.writes (entry_file n),
                      h.writes latest_file,
                      same,
                    ))
                    (refl, ground arith, refl)
              | inr (x, f) ↦
                  subst (λ t. IsWritten j t n b)
                    {x = record j2 {
                      files = update j2.files latest_file (some (ordinal_string n));
                    }}
                    {y = j'}
                    (ground (
                      arith,
                      h.writes journal_dir,
                      h.writes (entry_file n),
                      h.writes earliest_file,
                      h.writes latest_file,
                      same,
                    ))
                    (refl, ground arith, refl)
            ]
      ]

module _ (codec : Codec ℕ) where
  -- On a file system that refuses nothing, an `append` that succeeds makes the ID the head.
  pub get_head-append :
      (j j' : Journal) (n id : ℕ) (b : Bytes)
      → IsHealthy j
      → codec.encode id ≡ ok b
      → n < two63
      → append codec (pos n) id j ≡ (ok tt, j')
      → get_head codec j' ≡ ok id
  unfolding append get_head read_latest_revision read_md_id read_latest_ordinal read_journal_entry
      revision_to_ordinal
  get_head-append j j' n id b h c m a = elim (Bool-cases (n == 0)) [
    | inl zero_ ↦ absurd (ground arith)
    | inr more ↦
        let (l, e, u) = append_journal_entry-IsWritten codec j j' n id b h c (ground arith) in
        ground (
          arith,
          l,
          e,
          u,
          h.reads latest_file,
          h.reads (entry_file n),
          make_journal_ordinal-ordinal_string n,
          ordinal_to_revision_small n,
          codec.decode-encode id b c,
        )
  ]
