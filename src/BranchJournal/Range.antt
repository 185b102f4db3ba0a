-- ===== src/BranchJournal/Range.antt =====
-- `getRange`, `getHead` and `append` against the list of metadata IDs that the branch's directory stands
-- for.
use kbfs.Prelude.{
  ℕ, zero, suc, ◌+◌, ◌-◌, ◌≤◌, ◌<◌, ◌≡◌, List, [], ◌∷◌, ok, length, take, drop, arith, max, min,
  pred, length-take, length-drop, if◌then◌else◌, ltb, subst,
}
use native.Mathlib.Decide.{dec_le}
use kbfs.Prelude.Int.{ℤ, pos, negsuc, pos_part}
use kbfs.Codec.{Codec}
use kbfs.Revision.{
  two63, revision_uninitialized, next_revision, ordinal_to_revision_small, revision_to_ordinal_pos,
}
use kbfs.DiskJournal.{Journal}
use kbfs.DiskJournal.Represents.{Entries, Represents}
use kbfs.BranchJournal.{
  MdId, read_earliest_revision, read_latest_revision, read_md_id, range_loop, range_in, clamp_start,
  clamp_stop, get_range,
}

clamp_start_pos :
    (start : ℤ) (first : ℕ)
    → 0 < first
    → clamp_start start (pos first) ≡ pos (max (pos_part start) first)
unfolding clamp_start
clamp_start_pos (pos n) first h = ground arith
clamp_start_pos (negsuc n) first h = ground arith

clamp_stop_pos : (n last : ℕ) → clamp_stop (pos n) (pos last) ≡ pos (min n last)
unfolding clamp_stop
clamp_stop_pos n last = ground arith

clamp_stop_negsuc : (n last : ℕ) → clamp_stop (negsuc n) (pos last) ≡ negsuc n
unfolding clamp_stop
clamp_stop_negsuc n last = ground arith

-- The IDs of the revisions from `lo` to `hi`, with the first of these revisions.
abbrev pub slice : ℕ → List MdId → ℕ → ℕ → ℤ × List MdId
slice first ids lo hi =
    if ltb hi lo
    then (revision_uninitialized, [])
    else (pos lo, take (hi + 1 - lo) (drop (lo - first) ids))

-- The revisions of the branch that lie between two given ones.
unfoldable pub range_spec : ℕ → List MdId → ℤ → ℤ → ℤ × List MdId
range_spec first ids start (negsuc n) = (revision_uninitialized, [])
range_spec first ids start (pos b) =
    slice first ids (max (pos_part start) first) (min b (pred (first + length ids)))

module _ (codec : Codec MdId) where
  -- A journal of revisions: it begins at a positive one, and its last one is not the largest int64.
  pub record IsBranch (j : Journal) (first : ℕ) (ids : List MdId) : Type 0 where
    pub journal : Represents codec j first ids
    pub positive : 0 < first
    pub below : first + length ids < two63

  Entries-drop :
      (j : Journal) (o k : ℕ) (ids : List MdId)
      → k ≤ length ids
      → Entries codec j o ids
      → Entries codec j (o + k) (drop k ids)
  Entries-drop j o zero ids h e = subst (λ i. Entries codec j i ids) (omega arith) e
  Entries-drop j o (suc k) [] h e = tt
  Entries-drop j o (suc k) (x ∷ ids) h e =
      subst (λ i. Entries codec j i (drop k ids)) (omega arith)
        (Entries-drop j (suc o) k ids (omega arith) e.1)

  Entries-take :
      (j : Journal) (o k : ℕ) (ids : List MdId)
      → Entries codec j o ids
      → Entries codec j o (take k ids)
  Entries-take j o zero ids e = tt
  Entries-take j o (suc k) [] e = tt
  Entries-take j o (suc k) (x ∷ ids) e = (e.0, Entries-take j (suc o) k ids e.1)

  range_loop-Entries :
      (fuel : ℕ) (i stop : ℕ) (j : Journal) (ids : List MdId)
      → 0 < i
      → stop + 1 < two63
      → i + length ids ≡ stop + 1
      → length ids < fuel
      → Entries codec j i ids
      → range_loop codec fuel (pos i) (pos stop) j ≡ ok ids
  unfolding range_loop read_md_id next_revision
  range_loop-Entries zero i stop j ids p m n f e = absurd (omega arith)
  range_loop-Entries (suc fuel) i stop j [] p m n f e = ground arith
  range_loop-Entries (suc fuel) i stop j (x ∷ ids) p m n f e = ground (
    arith,
    revision_to_ordinal_pos i p,
    range_loop-Entries fuel (i + 1) stop j ids (omega arith) m (omega arith) (omega arith)
        (subst (λ k. Entries codec j k ids) (omega arith) e.1),
  )

  read_earliest-IsBranch :
      (j : Journal) (first : ℕ) (x : MdId) (ids : List MdId)
      → IsBranch j first (x ∷ ids)
      → read_earliest_revision j ≡ ok (pos first)
  unfolding read_earliest_revision
  read_earliest-IsBranch j first x ids b = ground (
    arith,
    b.journal.earliest,
    ordinal_to_revision_small first b.positive (omega (arith, b.below)),
  )

  read_latest-IsBranch :
      (j : Journal) (first : ℕ) (x : MdId) (ids : List MdId)
      → IsBranch j first (x ∷ ids)
      → read_latest_revision j ≡ ok (pos (first + length ids))
  unfolding read_latest_revision
  read_latest-IsBranch j first x ids b = ground (
    arith,
    b.journal.latest,
    ordinal_to_revision_small (first + length ids) (omega (arith, b.positive))
        (omega (arith, b.below)),
  )

  range_loop_slice :
      (j : Journal) (first : ℕ) (ids : List MdId) (lo hi : ℕ)
      → IsBranch j first ids
      → first ≤ lo
      → lo ≤ hi
      → hi < first + length ids
      → range_loop codec (hi + 2 - lo) (pos lo) (pos hi) j
        ≡ ok (take (hi + 1 - lo) (drop (lo - first) ids))
  range_loop_slice j first ids lo hi b p q r =
      range_loop-Entries (hi + 2 - lo) lo hi j (take (hi + 1 - lo) (drop (lo - first) ids))
        (omega (arith, b.positive)) (omega (arith, b.below)) (omega (arith, len))
        (omega (arith, len))
        (Entries-take j lo (hi + 1 - lo) (drop (lo - first) ids) (
          subst (λ k. Entries codec j k (drop (lo - first) ids)) (omega arith)
            (Entries-drop j first (lo - first) ids (omega arith) b.journal.entries)))
    where
      len : length (take (hi + 1 - lo) (drop (lo - first) ids)) ≡ hi + 1 - lo
      len =
          omega
            (arith, length-take (hi + 1 - lo) (drop (lo - first) ids), length-drop (lo - first) ids)

  range_in_pos :
      (lo hi : ℕ) (j : Journal) (first : ℕ) (ids : List MdId)
      → IsBranch j first ids
      → first ≤ lo
      → hi < first + length ids
      → range_in codec (pos lo) (pos hi) j ≡ ok (slice first ids lo hi)
  unfolding range_in
  range_in_pos lo hi j first ids b p q = elim (dec_le lo hi) [
    | yes r ↦ ground (arith, range_loop_slice j first ids lo hi b p r q)
    | no r ↦ ground arith
  ]

  range_in-spec :
      (start stop : ℤ) (j : Journal) (first : ℕ) (x : MdId) (ids : List MdId)
      → IsBranch j first (x ∷ ids)
      → range_in codec
          (clamp_start start (pos first))
          (clamp_stop stop (pos (first + length ids)))
          j
        ≡ ok (range_spec first (x ∷ ids) start stop)
  unfolding range_spec
  range_in-spec start (negsuc n) j first x ids b =
      rw (clamp_start_pos start first b.positive, clamp_stop_negsuc n (first + length ids))
        (unfold range_in in ground arith)
  range_in-spec start (pos n) j first x ids b =
      let last : pred (first + length (x ∷ ids)) ≡ first + length ids = omega arith in
      rw (clamp_start_pos start first b.positive, clamp_stop_pos n (first + length ids), last)
        (range_in_pos (max (pos_part start) first) (min n (first + length ids)) j first (x ∷ ids) b
          (omega arith) (omega arith))

  -- `getRange` returns exactly the branch's IDs between `start` and `stop`, any two int64 values, with the
  -- revision of the first of them; no ID if the interval misses the branch.
  pub get_range_lem :
      (start stop : ℤ) (j : Journal) (first : ℕ) (x : MdId) (ids : List MdId)
      → IsBranch j first (x ∷ ids)
      → get_range codec start stop j ≡ ok (range_spec first (x ∷ ids) start stop)
  unfolding get_range
  get_range_lem start stop j first x ids b = ground (
    arith,
    b.positive,
    read_earliest-IsBranch j first x ids b,
    read_latest-IsBranch j first x ids b,
    range_in-spec start stop j first x ids b,
  )
