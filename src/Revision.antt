-- ===== src/Revision.antt =====
-- `MetadataRevision` (int64) of libkbfs/root_metadata.go and its conversions of
-- libkbfs/mdserver_branch_journal.go.
use kbfs.Prelude.{
  ◌%◌, ℕ, zero, suc, ◌+◌, ◌-◌, ◌^◌, ◌<◌, ◌≡◌, Result, ok, err, bad_revision, ltb, ◌==◌,
  if◌then◌else◌, arith,
}
use kbfs.Prelude.Int.{ℤ, pos, negsuc, ltb_ℤ}
use kbfs.Ordinal.{two64}

abbrev pub two63 : ℕ
two63 = 2 ^ 63

abbrev pub revision_uninitialized : ℤ
revision_uninitialized = pos 0

abbrev pub revision_initial : ℤ
revision_initial = pos 1

-- The conversions between uint64 and int64 keep the bits.
unfoldable pub to_int64 : ℕ → ℤ
to_int64 o = if ltb o two63 then pos o else negsuc (two64 - 1 - o)

unfoldable pub to_uint64 : ℤ → ℕ
to_uint64 (pos n) = n
to_uint64 (negsuc n) = two64 - 1 - n

-- The int64 that a sum or a difference comes to
abbrev pub wrap_int64 : ℤ → ℤ
wrap_int64 (pos n) = to_int64 (n % two64)
wrap_int64 (negsuc n) = to_int64 (two64 - 1 - n % two64)

-- `i++` on an int64
unfoldable pub next_revision : ℤ → ℤ
next_revision (pos n) = if n + 1 == two63 then negsuc (two63 - 1) else pos (n + 1)
next_revision (negsuc zero) = pos 0
next_revision (negsuc (suc n)) = negsuc n

-- `rev - 1` on an int64
unfoldable pub previous_revision : ℤ → ℤ
previous_revision (pos zero) = negsuc zero
previous_revision (pos (suc n)) = pos n
previous_revision (negsuc n) = if n + 1 == two63 then pos (two63 - 1) else negsuc (n + 1)

unfoldable pub ordinal_to_revision : ℕ → Result ℤ
unfolding to_int64
ordinal_to_revision o =
    let r = to_int64 o in if ltb_ℤ r revision_initial then err bad_revision else ok r

unfoldable pub revision_to_ordinal : ℤ → Result ℕ
unfolding to_uint64
revision_to_ordinal r = if ltb_ℤ r revision_initial then err bad_revision else ok (to_uint64 r)

pub ordinal_to_revision_small : (o : ℕ) → 0 < o → o < two63 → ordinal_to_revision o ≡ ok (pos o)
unfolding ordinal_to_revision
ordinal_to_revision_small o h m = ground arith

pub revision_to_ordinal_pos : (n : ℕ) → 0 < n → revision_to_ordinal (pos n) ≡ ok n
unfolding revision_to_ordinal
revision_to_ordinal_pos n h = ground arith

-- An ordinal that `ordinalToRevision` takes is got back from the revision by `revisionToOrdinal`.
pub revision_to_ordinal-ordinal_to_revision :
    (o : ℕ) (r : ℤ) → o < two64 → ordinal_to_revision o ≡ ok r → revision_to_ordinal r ≡ ok o
unfolding ordinal_to_revision revision_to_ordinal
revision_to_ordinal-ordinal_to_revision o r h e = ground arith
