-- ===== src/Tests/Journals.antt =====
-- The disk journal and the branch journal at concrete inputs.
use kbfs.Prelude.{◌≡◌, refl, none, some, [], ◌∷◌, ok, err, out_of_order, arith, inr}
use kbfs.Prelude.Int.{pos, negsuc}
use kbfs.FileStore.{IsHealthy}
use kbfs.Ordinal.{
  ordinal_string, make_journal_ordinal, hex_digits, hex_digit, hex_value, parse_hex,
  make_journal_ordinal-ordinal_string,
}
use kbfs.Revision.{ordinal_to_revision, revision_to_ordinal}
use kbfs.DiskJournal.{
  Journal, append_journal_entry, read_journal_entry, read_earliest_ordinal, read_latest_ordinal,
  next_ordinal,
}
use kbfs.DiskJournal.Represents.{Represents}
use kbfs.DiskJournal.Append.{append_journal_entry-Represents, append_journal_entry_refused}
use kbfs.BranchJournal.{append, get_head, get_range}
use kbfs.BranchJournal.Range.{IsBranch, range_spec, get_range_lem}
use kbfs.BranchJournal.Append.{append-IsBranch}
use kbfs.Tests.Data.{number_codec, empty_store}

-- Everything that a run of the journals computes with.
program : Unit {0}
unfolding append append_journal_entry read_journal_entry next_ordinal ordinal_string hex_digits
    hex_digit make_journal_ordinal parse_hex hex_value read_earliest_ordinal read_latest_ordinal
    revision_to_ordinal ordinal_to_revision
program = tt

-- A branch that begins at revision 5, after two appends.
abbrev branch : Journal
branch = (append number_codec (pos 6) 43 (append number_codec (pos 5) 42 empty_store).1).1

branch-IsHealthy : IsHealthy branch
unfolding program
branch-IsHealthy = record { reads = λ p. refl; writes = λ p. refl }

branch-Represents : Represents number_codec branch 5 (42 ∷ 43 ∷ [])
unfolding program
branch-Represents = record {
  in_range = omega arith;
  earliest = refl;
  latest = refl;
  entries = (refl, (refl, tt));
}

branch-IsBranch : IsBranch number_codec branch 5 (42 ∷ 43 ∷ [])
branch-IsBranch = record {
  journal = branch-Represents;
  positive = omega arith;
  below = omega arith;
}

make_journal_ordinal_example :
    make_journal_ordinal (ordinal_string 0xfedcba9876543210) ≡ ok 0xfedcba9876543210
make_journal_ordinal_example = make_journal_ordinal-ordinal_string 0xfedcba9876543210 (omega arith)

append_journal_entry_example :
    (j : Journal) × (append_journal_entry number_codec none 44 branch ≡ (ok tt, j))
    × Represents number_codec j 5 (42 ∷ 43 ∷ 44 ∷ [])
    × IsHealthy j
append_journal_entry_example =
    append_journal_entry-Represents number_codec none branch 5 (42 ∷ 43 ∷ []) 44 (44 ∷ [])
      branch-IsHealthy branch-Represents tt (omega arith) refl

append_journal_entry_refused_example :
    append_journal_entry number_codec (some 9) 44 branch ≡ (err out_of_order, branch)
append_journal_entry_refused_example =
    append_journal_entry_refused number_codec (some 9) branch 5 42 (43 ∷ []) 44 branch-Represents
      (inr (9, refl, omega arith))

-- From revision -2 up to revision 5: the range begins at the branch's first revision.
get_range_example : get_range number_codec (negsuc 1) (pos 5) branch ≡ ok (pos 5, 42 ∷ [])
unfolding range_spec
get_range_example =
    get_range_lem number_codec (negsuc 1) (pos 5) branch 5 42 (43 ∷ []) branch-IsBranch

append_example :
    (j : Journal) × (append number_codec (pos 7) 44 branch ≡ (ok tt, j))
    × IsBranch number_codec j 5 (42 ∷ 43 ∷ 44 ∷ [])
    × IsHealthy j
    × (get_head number_codec j ≡ ok 44)
append_example =
    append-IsBranch number_codec branch 5 (42 ∷ 43 ∷ []) 44 (44 ∷ []) branch-IsHealthy
      branch-IsBranch (omega arith) refl
