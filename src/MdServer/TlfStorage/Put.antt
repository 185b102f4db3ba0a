-- ===== src/MdServer/TlfStorage/Put.antt =====
-- `put` of libkbfs/mdserver_tlf_storage.go: its checks, and its writes.
use kbfs.Prelude.{
  ℕ, Bool, true, false, not, ◌==◌, Option, none, some, List, [], ◌∷◌, Result, ok, err,
  md_server_error, unauthorized, bad_request, wrong_md_count,
}
use kbfs.Prelude.Action.{Action, ◌>>=◌, ◌>>◌, pure, reads}
use kbfs.Prelude.Chain.{◌>>=◌ as bind, ◌>>◌ as seq, fail_if}
use kbfs.Revision.{previous_revision}
use kbfs.BranchJournal.{append}
use kbfs.RootMetadata.{
  RootMetadata, merged_status, merged, unmerged, check_valid_successor_for_server,
}
use kbfs.MdServer.TlfStorage.{
  MdServerTlfStorage, MdParams, null_branch_id, on_branch, check_open, wrap,
  get_or_create_branch_journal, is_writer_or_valid_rekey, put_md, get_head_for_tlf,
  get_range_locked,
}

module _ (p : MdParams) where
  -- A merged update is on the main branch, an unmerged one on another.
  abbrev pub has_right_branch : RootMetadata → Bool
  has_right_branch md = elim (merged_status md) [
    | merged ↦ md.branch_id == null_branch_id
    | unmerged ↦ not (md.branch_id == null_branch_id)
  ]

  -- The only metadata of the list
  abbrev pub the_one : List RootMetadata → Result RootMetadata
  the_one [] = err (md_server_error wrong_md_count)
  the_one (md ∷ []) = ok md
  the_one (md ∷ _ ∷ mds) = err (md_server_error wrong_md_count)

  -- The predecessor that `put` checks against, and whether the branch is new: the branch's head, or for
  -- the first unmerged update the metadata of the main branch with the previous revision.
  unfoldable pub find_head :
      ℕ → RootMetadata → MdServerTlfStorage → Result (Option RootMetadata × Bool)
  unfolding get_head_for_tlf get_range_locked
  find_head uid md s = bind (wrap (get_head_for_tlf p md.branch_id s)) λ head. elim head [
    | some h ↦ ok (some h, false)
    | none ↦ elim (merged_status md) [
      | merged ↦ ok (none, false)
      | unmerged ↦
          let prev = previous_revision md.revision in
          bind (wrap (get_range_locked p uid null_branch_id prev prev s))
            λ mds. bind (the_one mds) (λ h. ok (some h, true))
    ]
  ]

  abbrev pub check_successor : Option RootMetadata → RootMetadata → Result (Unit {0})
  check_successor none md = ok tt
  check_successor (some head) md = check_valid_successor_for_server p.make_md_id head md

  -- The checks of `put`: the result tells whether the branch is new.
  unfoldable pub check_put : ℕ → RootMetadata → MdServerTlfStorage → Result Bool
  unfolding find_head is_writer_or_valid_rekey
  check_put uid md s = seq (check_open s).0 (
      seq (fail_if (not (has_right_branch md)) bad_request) (
        bind (wrap (get_head_for_tlf p null_branch_id s)) λ merged_head.
          bind (wrap (is_writer_or_valid_rekey p uid merged_head md)) λ yes.
            seq (fail_if (not yes) unauthorized) (
              bind (find_head uid md s)
                λ found. let (head, is_new) = found in seq (check_successor head md) (ok is_new))))

  abbrev pub wrapped : {A : Type 0} → Action MdServerTlfStorage A → Action MdServerTlfStorage A
  wrapped m s = let (r, s') = m s in (wrap r, s')

  -- The last part of `put`
  unfoldable pub store_md : RootMetadata → Action MdServerTlfStorage (Unit {0})
  unfolding put_md
  store_md md = do
    wrapped (put_md p md)
    id ← reads (λ _. wrap (p.make_md_id md))
    get_or_create_branch_journal md.branch_id
    wrapped (on_branch md.branch_id (append p.id_codec md.revision id))

  unfoldable pub put : ℕ → RootMetadata → Action MdServerTlfStorage Bool
  unfolding check_put store_md
  put uid md s = elim (check_put uid md s) [
    | err e ↦ (err e, s)
    | ok is_new ↦ (store_md md >> pure is_new) s
  ]
