-- ===== src/MdServer/TlfStorage/Successor.antt =====
-- Which updates `put` accepts.
use kbfs.Prelude.{ℕ, ◌≡◌, true, false, Bool, some, ok, arith, Bool-cases, inl, inr, ==_iff, ◌⊎◌}
use kbfs.Prelude.Chain.{Result-cases}
use kbfs.Prelude.Int.{eqb_ℤ→eq}
use kbfs.Revision.{next_revision}
use kbfs.RootMetadata.{
  RootMetadata, expected_usage, check_valid_successor, check_valid_successor_for_server,
  BareTlfHandle, is_writer, is_handle_reader,
}
use kbfs.MdServer.TlfStorage.{
  MdServerTlfStorage, MdParams, null_branch_id, get_head_for_tlf, is_writer_or_valid_rekey,
}
use kbfs.MdServer.TlfStorage.Put.{find_head, check_put, put}

module _ (p : MdParams) where
  -- What the check of a successor has seen
  pub check_valid_successor-ok :
      (head md : RootMetadata)
      → check_valid_successor p.make_md_id head md ≡ ok tt
      → (head.is_final ≡ false)
        × (md.tlf_id ≡ head.tlf_id)
        × (md.revision ≡ next_revision head.revision)
        × (p.make_md_id head ≡ ok md.prev_root)
        × (md.disk_usage ≡ expected_usage head md)
  unfolding check_valid_successor
  check_valid_successor-ok head md h = elim (Result-cases (p.make_md_id head)) [
    | inr (x, e) ↦ absurd (ground arith)
    | inl (root, e) ↦ (
      ground arith,
      ground (arith, ==_iff md.tlf_id head.tlf_id),
      ground (arith, eqb_ℤ→eq md.revision (next_revision head.revision)),
      ground (arith, ==_iff md.prev_root root),
      ground (arith, ==_iff md.disk_usage (expected_usage head md)),
    )
  ]

  check_put-ok :
      (uid : ℕ) (md head : RootMetadata) (is_new : Bool) (s : MdServerTlfStorage)
      → check_put p uid md s ≡ ok is_new
      → get_head_for_tlf p md.branch_id s ≡ ok (some head)
      → check_valid_successor p.make_md_id head md ≡ ok tt
  unfolding check_put find_head check_valid_successor_for_server
  check_put-ok uid md head is_new s h g =
      elim (Result-cases (check_valid_successor p.make_md_id head md)) [
        | inl (_, good) ↦ good
        | inr (x, bad) ↦ absurd (ground arith)
      ]

  -- An update of a branch that has a head is accepted only as a valid successor of the head: the head is
  -- not final, the folder is the same, the revision is the next one, the previous root is the ID of the head,
  -- and the disk usage adds up.
  pub put-successor :
      (uid : ℕ) (md head : RootMetadata) (is_new : Bool) (s s' : MdServerTlfStorage)
      → put p uid md s ≡ (ok is_new, s')
      → get_head_for_tlf p md.branch_id s ≡ ok (some head)
      → (head.is_final ≡ false)
        × (md.tlf_id ≡ head.tlf_id)
        × (md.revision ≡ next_revision head.revision)
        × (p.make_md_id head ≡ ok md.prev_root)
        × (md.disk_usage ≡ expected_usage head md)
  unfolding put
  put-successor uid md head is_new s s' h g = elim (Result-cases (check_put p uid md s)) [
    | inl (b, e) ↦ check_valid_successor-ok head md (check_put-ok uid md head b s e g)
    | inr (x, e) ↦ absurd (ground arith)
  ]

  -- An update of a folder that has a main branch is accepted only from a writer of the folder, or from a
  -- reader if it is a valid rekey request; readers and writers are those of the head of the main branch.
  pub put-authorized :
      (uid : ℕ) (md head : RootMetadata) (h : BareTlfHandle) (is_new : Bool)
      (s s' : MdServerTlfStorage)
      → put p uid md s ≡ (ok is_new, s')
      → get_head_for_tlf p null_branch_id s ≡ ok (some head)
      → p.make_bare_tlf_handle head ≡ ok h
      → (is_writer uid h ≡ true)
        ⊎ ((is_handle_reader p.public_uid uid h ≡ true)
            × (p.is_valid_rekey_request md head uid ≡ ok true))
  unfolding put check_put is_writer_or_valid_rekey
  put-authorized uid md head h is_new s s' done g m = elim (Bool-cases (is_writer uid h)) [
    | inl writer ↦ inl writer
    | inr reads_only ↦ inr (ground arith, ground arith)
  ]
