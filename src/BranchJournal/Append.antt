-- ===== src/BranchJournal/Append.antt =====
-- `append` and `getHead` of a branch journal.
use kbfs.Prelude.{
  ℕ, suc, ◌+◌, ◌<◌, ◌≡◌, refl, List, [], ◌∷◌, ◌++◌, ok, length, arith, some, length-append, subst,
}
use kbfs.Prelude.Int.{pos}
use kbfs.FileStore.{Bytes, IsHealthy}
use kbfs.Codec.{Codec}
use kbfs.Revision.{two63, revision_to_ordinal_pos, ordinal_to_revision_small}
use kbfs.DiskJournal.{Journal, read_journal_entry}
use kbfs.DiskJournal.Represents.{Entries, expected_latest}
use kbfs.DiskJournal.Append.{append_journal_entry-Represents}
use kbfs.BranchJournal.{MdId, read_latest_revision, read_md_id, get_head, append}
use kbfs.BranchJournal.Range.{IsBranch}

module _ (codec : Codec MdId) where
  Entries-last :
      (j : Journal) (o : ℕ) (ids : List MdId) (id : MdId)
      → Entries codec j o (ids ++ id ∷ [])
      → read_journal_entry codec (o + length ids) j ≡ ok id
  Entries-last j o [] id e = subst (λ i. read_journal_entry codec i j ≡ ok id) (omega arith) e.0
  Entries-last j o (x ∷ ids) id e =
      subst (λ i. read_journal_entry codec i j ≡ ok id) (omega arith)
        (Entries-last j (suc o) ids id e.1)

  expected_latest-append :
      (first : ℕ) (ids : List MdId) (id : MdId)
      → expected_latest codec first (ids ++ id ∷ []) ≡ ok (first + length ids)
  expected_latest-append first [] id = refl
  expected_latest-append first (x ∷ ids) id = ground (arith, length-append ids (id ∷ []))

  -- `getHead` returns the ID of the latest revision.
  pub get_head-last :
      (j : Journal) (first : ℕ) (ids : List MdId) (id : MdId)
      → IsBranch codec j first (ids ++ id ∷ [])
      → get_head codec j ≡ ok id
  unfolding get_head read_latest_revision read_md_id
  get_head-last j first ids id b = ground (
    arith,
    b.positive,
    b.below,
    length-append ids (id ∷ []),
    b.journal.latest,
    expected_latest-append first ids id,
    ordinal_to_revision_small (first + length ids),
    revision_to_ordinal_pos (first + length ids),
    Entries-last j first ids id b.journal.entries,
  )

  -- On a file system that refuses nothing, with an ID that the codec encodes, and where the revision after
  -- the appended one is still below 2^63: `append` of the next revision to a branch succeeds, the branch
  -- then holds the new ID behind the old ones, the file system still refuses nothing, and `getHead` returns
  -- the new ID.
  pub append-IsBranch :
      (j : Journal) (first : ℕ) (ids : List MdId) (id : MdId) (b : Bytes)
      → IsHealthy j
      → IsBranch codec j first ids
      → suc (first + length ids) < two63
      → codec.encode id ≡ ok b
      → (j' : Journal) × (append codec (pos (first + length ids)) id j ≡ (ok tt, j'))
        × IsBranch codec j' first (ids ++ id ∷ [])
        × IsHealthy j'
        × (get_head codec j' ≡ ok id)
  unfolding append
  append-IsBranch j first ids id b h br m c =
      let (j', done, represents, healthy) =
        append_journal_entry-Represents codec (some (first + length ids)) j first ids id b h
          br.journal refl (omega arith) c in
      let br' : IsBranch codec j' first (ids ++ id ∷ []) = record {
        journal = represents;
        positive = br.positive;
        below = omega (arith, length-append ids (id ∷ []));
      } in
      (
        j',
        rw (revision_to_ordinal_pos (first + length ids) (omega (arith, br.positive))) done,
        br',
        healthy,
        get_head-last j' first ids id br',
      )
