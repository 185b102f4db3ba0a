-- ===== src/MdServer/TlfStorage.antt =====
-- `mdServerTlfStorage` of libkbfs/mdserver_tlf_storage.go, with the checks of permission of
-- libkbfs/mdserver_local_shared.go. The lock is left out: each call runs alone.
mod Files
pub mod Put
pub mod Successor
pub mod Writes
pub mod Head
unfoldable pub use Files.*
use kbfs.Prelude.{
  ℕ, Bool, true, false, not, ◌==◌, ◌&&◌, ◌||◌, if◌then◌else◌, Option, none, some, List, [], ◌∷◌,
  Error, Result, ok, err, is_not_exist, err_shutdown, md_server_error, unauthorized, bad_request,
  md_id_mismatch, wrong_md_count, panicked, length,
}
use kbfs.Prelude.Action.{Action, ◌>>=◌, ◌>>◌, pure, reads, raise_if, modify}
use kbfs.Prelude.Chain.{◌>>=◌ as bind, ◌>>◌ as seq, fail_if}
use kbfs.Prelude.Int.{ℤ, eqb_ℤ}
use kbfs.FileStore.{Store, read_file, write_file, mkdir_all}
use kbfs.Codec.{Codec}
use kbfs.Revision.{next_revision, previous_revision}
use kbfs.DiskJournal.{Journal, journal_file_eq, journal_dir, journal_length}
use kbfs.BranchJournal.{get_head, get_range, append, null_md_id}
use kbfs.RootMetadata.{
  RootMetadata, merged_status, merged, unmerged, check_valid_successor_for_server, BareTlfHandle,
  is_writer, is_handle_reader,
}

-- A branch journal is only its directory, so `branch_journals` lists the branches that have been opened;
-- it is `none` after `shutdown`. `branch_dirs` has the directories of all branches.
pub record MdServerTlfStorage : Type 0 where
  pub mds : Store MdFile
  pub branch_dirs : ℕ → Journal
  pub branch_journals : Option (List ℕ)

unfoldable pub make_md_server_tlf_storage : Store MdFile → (ℕ → Journal) → MdServerTlfStorage
make_md_server_tlf_storage mds dirs = record {
  mds = mds;
  branch_dirs = dirs;
  branch_journals = some [];
}

-- `NullBranchID`
abbrev pub null_branch_id : ℕ
null_branch_id = 0

abbrev pub contains : ℕ → List ℕ → Bool
contains b [] = false
contains b (c ∷ bs) = let rest = contains b bs in if c == b then true else rest

-- `branchJournals[bid]`
unfoldable pub branch_journal : ℕ → MdServerTlfStorage → Option Journal
branch_journal bid s = elim s.branch_journals [
  | none ↦ none
  | some bs ↦ if contains bid bs then some (s.branch_dirs bid) else none
]

abbrev pub on_mds : {A : Type 0} → Action (Store MdFile) A → Action MdServerTlfStorage A
on_mds m s = let (r, mds') = m s.mds in (r, record s { mds = mds' })

abbrev pub set_dir : ℕ → Journal → (ℕ → Journal) → ℕ → Journal
set_dir bid j dirs b = if bid == b then j else dirs b

abbrev pub on_branch : {A : Type 0} → ℕ → Action Journal A → Action MdServerTlfStorage A
on_branch bid m s =
    let (r, j) = m (s.branch_dirs bid) in
    (r, record s { branch_dirs = set_dir bid j s.branch_dirs })

abbrev pub check_open : Action MdServerTlfStorage (Unit {0})
check_open s = (elim s.branch_journals [ none ↦ err err_shutdown | some bs ↦ ok tt ], s)

abbrev pub is_panic : Error → Bool
is_panic panicked = true
is_panic _ = false

-- `MDServerError{err}`; a panic passes through.
abbrev pub wrap : {A : Type 0} → Result A → Result A
wrap (ok a) = ok a
wrap (err e) = err (if is_panic e then e else md_server_error e)

unfoldable pub get_or_create_branch_journal : ℕ → Action MdServerTlfStorage (Unit {0})
get_or_create_branch_journal bid s = elim s.branch_journals [
  | none ↦ (err err_shutdown, s)
  | some bs ↦
      if contains bid bs
      then (ok tt, s)
      else (on_branch bid (mkdir_all journal_dir)
            >> modify (λ t. record t { branch_journals = some (bid ∷ bs) }))
          s
]

-- What the storage is given: the codecs of the metadata and of IDs, the hash `MakeMdID`,
-- `keybase1.PublicUID`, and of libkbfs/root_metadata.go `MakeBareTlfHandle` and `IsValidRekeyRequest`,
-- which read the keys of the metadata.
pub record MdParams : Type 0 where
  pub codec : Codec RootMetadata
  pub id_codec : Codec ℕ
  pub make_md_id : RootMetadata → Result ℕ
  pub make_bare_tlf_handle : RootMetadata → Result BareTlfHandle
  pub is_valid_rekey_request : RootMetadata → RootMetadata → ℕ → Result Bool
  pub public_uid : ℕ

module _ (p : MdParams) where
  -- `isReader`
  unfoldable pub is_reader : ℕ → Option RootMetadata → Result Bool
  is_reader uid none = ok true
  is_reader uid (some head) =
      bind (p.make_bare_tlf_handle head) (λ h. ok (is_handle_reader p.public_uid uid h))

  -- `isWriterOrValidRekey`
  unfoldable pub is_writer_or_valid_rekey : ℕ → Option RootMetadata → RootMetadata → Result Bool
  is_writer_or_valid_rekey uid none md = ok true
  is_writer_or_valid_rekey uid (some head) md = bind (p.make_bare_tlf_handle head) λ h.
      if is_writer uid h
      then ok true
      else if is_handle_reader p.public_uid uid h
      then p.is_valid_rekey_request md head uid
      else ok false

  -- `getMDReadLocked`, less the timestamp of the file
  unfoldable pub get_md : ℕ → MdServerTlfStorage → Result RootMetadata
  get_md id s = bind (read_file (md_file id) s.mds) λ data_.
      bind (p.codec.decode data_) λ md.
        bind (p.make_md_id md) λ md_id. seq (fail_if (not (id == md_id)) md_id_mismatch) (ok md)

  -- The last part of `putMDLocked`
  unfoldable pub write_md : ℕ → RootMetadata → Action MdServerTlfStorage (Unit {0})
  write_md id md = do
    on_mds (mkdir_all (md_dir id))
    buf ← reads (λ _. p.codec.encode md)
    on_mds (write_file (md_file id) buf)

  -- `putMDLocked`
  unfoldable pub put_md : RootMetadata → Action MdServerTlfStorage (Unit {0})
  unfolding get_md write_md
  put_md md s = elim (p.make_md_id md) [
    | err e ↦ (err e, s)
    | ok id ↦ elim (get_md id s) [
      | ok existing ↦ (ok tt, s)
      | err e ↦ if is_not_exist e then write_md id md s else (err e, s)
    ]
  ]

  -- `getHeadForTLFReadLocked`
  unfoldable pub get_head_for_tlf : ℕ → MdServerTlfStorage → Result (Option RootMetadata)
  unfolding get_md
  get_head_for_tlf bid s = elim (branch_journal bid s) [
    | none ↦ ok none
    | some j ↦ bind (get_head p.id_codec j) λ head_id.
        if head_id == null_md_id then ok none else bind (get_md head_id s) (λ md. ok (some md))
  ]

  -- `checkGetParamsReadLocked`
  unfoldable pub check_get_params : ℕ → MdServerTlfStorage → Result (Unit {0})
  unfolding get_head_for_tlf is_reader
  check_get_params uid s =
      bind (wrap (get_head_for_tlf null_branch_id s))
        λ head. bind (wrap (is_reader uid head)) λ yes. fail_if (not yes) unauthorized

  -- The loop of `getRangeReadLocked`
  unfoldable pub read_mds : ℤ → List ℕ → MdServerTlfStorage → Result (List RootMetadata)
  unfolding get_md
  read_mds expected [] s = ok []
  read_mds expected (id ∷ ids) s = bind (wrap (get_md id s)) λ md.
      seq (fail_if (not (eqb_ℤ expected md.revision)) panicked)
        (bind (read_mds (next_revision expected) ids s) (λ mds. ok (md ∷ mds)))

  -- `getRangeReadLocked`
  unfoldable pub get_range_locked : ℕ → ℕ → ℤ → ℤ → MdServerTlfStorage → Result (List RootMetadata)
  unfolding check_get_params read_mds
  get_range_locked uid bid start stop s =
      seq (check_get_params uid s) (elim (branch_journal bid s) [
        | none ↦ ok []
        | some j ↦
            bind (get_range p.id_codec start stop j)
              λ r. let (real_start, ids) = r in read_mds real_start ids s
      ])

  unfoldable pub get_range_of : ℕ → ℕ → ℤ → ℤ → MdServerTlfStorage → Result (List RootMetadata)
  unfolding get_range_locked
  get_range_of uid bid start stop s = seq (check_open s).0 (get_range_locked uid bid start stop s)

  unfoldable pub get_for_tlf : ℕ → ℕ → MdServerTlfStorage → Result (Option RootMetadata)
  unfolding check_get_params get_head_for_tlf
  get_for_tlf uid bid s =
      seq (check_open s).0 (seq (check_get_params uid s) (wrap (get_head_for_tlf bid s)))

  unfoldable pub journal_length_of : ℕ → MdServerTlfStorage → Result ℕ
  journal_length_of bid s =
      seq (check_open s).0 (elim (branch_journal bid s) [ none ↦ ok 0 | some j ↦ journal_length j ])

unfoldable pub shutdown : MdServerTlfStorage → MdServerTlfStorage
shutdown s = record s { branch_journals = none }
