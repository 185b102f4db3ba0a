-- ===== src/MdServer/TlfStorage/Writes.antt =====
-- What the writes of `put` leave: the file of the metadata, and an open branch journal.
use kbfs.Prelude.{ℕ, ◌≡◌, some, ok, arith, Option-cases, Bool-cases, inl, inr, ==_iff, is_not_exist}
use kbfs.Prelude.Chain.{Result-cases}
use kbfs.FileStore.{IsHealthy, read_file, write_file, mkdir_all}
use kbfs.RootMetadata.{RootMetadata}
use kbfs.MdServer.TlfStorage.{
  MdServerTlfStorage, MdParams, md_file_eq, get_md, write_md, put_md, branch_journal,
  get_or_create_branch_journal, contains, md_dir, md_file,
}

module _ (p : MdParams) where
  -- The hash tells metadata with the given ID from all others.
  abbrev pub IsOnlyPreimage : RootMetadata → ℕ → Type 0
  IsOnlyPreimage md id = (other : RootMetadata) → p.make_md_id other ≡ ok id → other ≡ md

  get_md-id :
      (id : ℕ) (md : RootMetadata) (s : MdServerTlfStorage)
      → get_md p id s ≡ ok md
      → p.make_md_id md ≡ ok id
  unfolding get_md
  get_md-id id md s h = elim (Result-cases (read_file (md_file id) s.mds)) [
    | inr (x, e) ↦ absurd (ground arith)
    | inl (b, e) ↦ elim (Result-cases (p.codec.decode b)) [
      | inr (x, d) ↦ absurd (ground arith)
      | inl (m, d) ↦ elim (Result-cases (p.make_md_id m)) [
        | inr (x, i) ↦ absurd (ground arith)
        | inl (md_id, i) ↦ ground (arith, ==_iff id md_id)
      ]
    ]
  ]

  write_md-get_md :
      (id : ℕ) (md : RootMetadata) (s s' : MdServerTlfStorage)
      → IsHealthy s.mds
      → p.make_md_id md ≡ ok id
      → write_md p id md s ≡ (ok tt, s')
      → (get_md p id s' ≡ ok md)
        × (s'.branch_dirs ≡ s.branch_dirs)
        × (s'.branch_journals ≡ s.branch_journals)
  unfolding write_md get_md read_file mkdir_all write_file
  write_md-get_md id md s s' h m w = elim (Result-cases (p.codec.encode md)) [
    | inr (x, e) ↦ absurd (ground (arith, h.writes (md_dir id)))
    | inl (b, e) ↦ (
      ground (
        arith,
        h.writes (md_dir id),
        h.writes (md_file id),
        h.reads (md_file id),
        p.codec.decode-encode md b e,
      ),
      ground (arith, h.writes (md_dir id), h.writes (md_file id)),
      ground (arith, h.writes (md_dir id), h.writes (md_file id)),
    )
  ]

  pub put_md-get_md :
      (id : ℕ) (md : RootMetadata) (s s' : MdServerTlfStorage)
      → IsHealthy s.mds
      → p.make_md_id md ≡ ok id
      → IsOnlyPreimage md id
      → put_md p md s ≡ (ok tt, s')
      → (get_md p id s' ≡ ok md)
        × (s'.branch_dirs ≡ s.branch_dirs)
        × (s'.branch_journals ≡ s.branch_journals)
  unfolding put_md
  put_md-get_md id md s s' h m u w = elim (Result-cases (get_md p id s)) [
    | inl (existing, g) ↦
        let same = u existing (get_md-id id existing s g) in
        (ground arith, ground arith, ground arith)
    | inr (x, g) ↦ elim (Bool-cases (is_not_exist x)) [
      | inl missing ↦ write_md-get_md id md s s' h m (ground arith)
      | inr other ↦ absurd (ground arith)
    ]
  ]

  -- A branch whose journal is there
  pub get_or_create_branch_journal-ok :
      (bid : ℕ) (s s' : MdServerTlfStorage)
      → get_or_create_branch_journal bid s ≡ (ok tt, s')
      → (branch_journal bid s' ≡ some (s'.branch_dirs bid))
        × (s'.mds ≡ s.mds)
        × (s'.branch_dirs bid ≡ s.branch_dirs bid)
  unfolding get_or_create_branch_journal branch_journal mkdir_all
  get_or_create_branch_journal-ok bid s s' h = elim (Option-cases s.branch_journals) [
    | inl closed ↦ absurd (ground arith)
    | inr (bs, o) ↦ elim (Bool-cases (contains bid bs)) [
      | inl there ↦ (ground arith, ground arith, ground arith)
      | inr new_one ↦ (ground arith, ground arith, ground arith)
    ]
  ]
