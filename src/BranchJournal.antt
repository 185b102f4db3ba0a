-- ===== src/BranchJournal.antt =====
-- `mdServerBranchJournal` of libkbfs/mdserver_branch_journal.go: the metadata IDs of one branch, with
-- sequential revisions, over a disk journal whose ordinals are the revisions.
pub mod Range
pub mod Append
pub mod Head
use kbfs.Prelude.{
  ℕ, zero, suc, ◌+◌, ◌-◌, true, false, List, [], ◌∷◌, Result, ok, err, is_not_exist, out_of_fuel,
  if◌then◌else◌, some,
}
use kbfs.Prelude.Action.{Action, reads, ◌>>=◌}
use kbfs.Prelude.Chain.{◌>>=◌ as bind}
use kbfs.Prelude.Int.{ℤ, pos, pos_part, ltb_ℤ, leb_ℤ, eqb_ℤ}
use kbfs.Codec.{Codec}
use kbfs.Revision.{revision_uninitialized, next_revision, ordinal_to_revision, revision_to_ordinal}
use kbfs.DiskJournal.{
  Journal, read_earliest_ordinal, read_latest_ordinal, read_journal_entry, append_journal_entry,
}

-- The common part of `readEarliestRevision` and `readLatestRevision`.
revision_of : Result ℕ → Result ℤ
revision_of (ok o) = ordinal_to_revision o
revision_of (err e) = if is_not_exist e then ok revision_uninitialized else err e

unfoldable pub read_earliest_revision : Journal → Result ℤ
unfolding revision_of
read_earliest_revision j = revision_of (read_earliest_ordinal j)

unfoldable pub read_latest_revision : Journal → Result ℤ
unfolding revision_of
read_latest_revision j = revision_of (read_latest_ordinal j)

-- An `MdID` is only compared; 0 stands for the zero value `MdID{}`.
abbrev pub MdId : Type 0
MdId = ℕ

abbrev pub null_md_id : MdId
null_md_id = 0

-- `if start < earliestRevision { start = earliestRevision }`
unfoldable pub clamp_start : ℤ → ℤ → ℤ
clamp_start start earliest = if ltb_ℤ start earliest then earliest else start

-- `if stop > latestRevision { stop = latestRevision }`
unfoldable pub clamp_stop : ℤ → ℤ → ℤ
clamp_stop stop latest = if ltb_ℤ latest stop then latest else stop

module _ (codec : Codec MdId) where
  unfoldable pub read_md_id : ℤ → Journal → Result MdId
  read_md_id r j = bind (revision_to_ordinal r) (λ o. read_journal_entry codec o j)

  unfoldable pub get_head : Journal → Result MdId
  get_head j =
      bind (read_latest_revision j)
        λ latest. if eqb_ℤ latest revision_uninitialized then ok null_md_id else read_md_id latest j

  -- The loop of `getRange`. It makes at most `stop - start + 2` rounds: with `stop` the largest int64
  -- the counter wraps around, and the next read refuses the negative revision.
  unfoldable pub range_loop : ℕ → ℤ → ℤ → Journal → Result (List MdId)
  range_loop zero i stop j = err out_of_fuel
  range_loop (suc fuel) i stop j = elim (leb_ℤ i stop) [
    | false ↦ ok []
    | true ↦
        bind (read_md_id i j)
          (λ id. bind (range_loop fuel (next_revision i) stop j) (λ ids. ok (id ∷ ids)))
  ]

  -- The last part of `getRange`, on the interval within the branch.
  unfoldable pub range_in : ℤ → ℤ → Journal → Result (ℤ × List MdId)
  range_in start stop j =
      if ltb_ℤ stop start
      then ok (revision_uninitialized, [])
      else bind (range_loop (pos_part stop + 2 - pos_part start) start stop j)
          (λ ids. ok (start, ids))

  unfoldable pub get_range : ℤ → ℤ → Journal → Result (ℤ × List MdId)
  get_range start stop j = bind (read_earliest_revision j) λ earliest.
      if eqb_ℤ earliest revision_uninitialized
      then ok (revision_uninitialized, [])
      else bind (read_latest_revision j) λ latest.
        if eqb_ℤ latest revision_uninitialized
        then ok (revision_uninitialized, [])
        else range_in (clamp_start start earliest) (clamp_stop stop latest) j

  unfoldable pub append : ℤ → MdId → Action Journal (Unit {0})
  append r id = do o ← reads (λ _. revision_to_ordinal r); append_journal_entry codec (some o) id
