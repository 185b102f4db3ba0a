-- ===== src/Tests/TlfJournal.antt =====
-- The journal of a folder at concrete inputs.
use kbfs.Prelude.{
  ◌≡◌, refl, true, false, [], ◌∷◌, ok, err, arith, replicate, block_non_existent, panicked,
}
use kbfs.FileStore.{Bytes}
use kbfs.Ordinal.{ordinal_string, make_journal_ordinal, hex_digits, hex_digit, hex_value, parse_hex}
use kbfs.DiskJournal.{
  append_journal_entry, read_journal_entry, read_earliest_ordinal, read_latest_ordinal,
  next_ordinal,
}
use kbfs.BlockServer.Refs.{
  archived_block_ref, BlockContext, live_block_ref, put_ref, remove_ref, has_non_archived_ref,
}
use kbfs.BlockServer.Memory.{validate_block_server_put, remove_refs}
use kbfs.BlockServer.TlfJournal.{
  BserverTlfJournal, get_ref_entry, put_ref_entry, put_dropping, archive_loop, check_existing,
  remove_block,
}
use kbfs.BlockServer.TlfJournal.Calls.{
  put_data, get_data, add_reference, remove_references, archive_references,
  make_bserver_tlf_journal, shutdown, append_entry, write_block, get_data_locked, finish_removal,
}
use kbfs.BlockServer.TlfJournal.Data.{get_data-put_data}
use kbfs.Prelude.Maps.{insert}
use kbfs.BlockServer.TlfJournal.Shutdown.{archive_half_done}
use kbfs.BlockServer.TlfJournal.Runs.{
  Reach, start, put_step, add_step, remove_step, archive_step, IsFresh, restart-Reach, Reach-Agrees,
}
use kbfs.Tests.Data.{entry_codec, encodes, length_hash, empty_store}

unfoldable pub program : Unit {0}
unfolding put_data get_data add_reference remove_references archive_references append_entry
    write_block get_data_locked finish_removal get_ref_entry put_ref_entry put_dropping archive_loop
    check_existing remove_block put_ref remove_ref has_non_archived_ref validate_block_server_put
    remove_refs append_journal_entry read_journal_entry next_ordinal read_earliest_ordinal
    read_latest_ordinal ordinal_string hex_digits hex_digit make_journal_ordinal parse_hex hex_value
program = tt

abbrev alice_first : BlockContext
alice_first = record { creator = 1; writer = 0; ref_nonce = 0 }

abbrev bob_second : BlockContext
bob_second = record { creator = 1; writer = 2; ref_nonce = 77 }

abbrev carol_third : BlockContext
carol_third = record { creator = 1; writer = 3; ref_nonce = 88 }

abbrev buf : Bytes
buf = 10 ∷ 20 ∷ 30 ∷ []

abbrev half : Bytes
half = replicate 32 7

abbrev fresh : BserverTlfJournal
fresh = record { j = empty_store; blocks = empty_store; refs = []; is_shutdown = false }

fresh-IsFresh : IsFresh entry_codec length_hash fresh
fresh-IsFresh = record {
  healthy = record { reads = λ p. refl; writes = λ p. refl };
  no_earliest = refl;
  no_latest = refl;
  no_refs = refl;
}

abbrev with_block : BserverTlfJournal
with_block = (put_data entry_codec length_hash 3 alice_first buf half fresh).1

abbrev with_two : BserverTlfJournal
with_two = (add_reference entry_codec length_hash 3 bob_second with_block).1

abbrev with_archived : BserverTlfJournal
with_archived = (archive_references entry_codec length_hash 3 (alice_first ∷ []) with_two).1

abbrev with_one : BserverTlfJournal
with_one =
    (remove_references entry_codec length_hash 3 (bob_second ∷ carol_third ∷ []) with_archived).1

two-Reach : Reach entry_codec length_hash fresh 2 with_two
two-Reach = add_step 3 bob_second (put_step 3 alice_first buf half start)

one-Reach : Reach entry_codec length_hash fresh 4 with_one
unfolding program
one-Reach =
    remove_step 3 (bob_second ∷ carol_third ∷ []) 1 (archive_step 3 alice_first [] two-Reach refl)
      refl

restart-Reach_example :
    (make_bserver_tlf_journal entry_codec length_hash with_one.j with_one.blocks
      ≡ ok (record with_one { is_shutdown = false }))
    × (shutdown entry_codec length_hash with_one ≡ (ok tt, record with_one { is_shutdown = true }))
restart-Reach_example =
    restart-Reach entry_codec length_hash encodes fresh fresh-IsFresh one-Reach (omega arith)

get_data-put_data_example :
    get_data entry_codec length_hash 3 alice_first with_block ≡ ok (buf, half)
unfolding program
get_data-put_data_example =
    get_data-put_data entry_codec length_hash 3 alice_first buf half fresh with_block refl refl refl
      refl

archive_half_done_example :
    let (r, s') =
      archive_references entry_codec length_hash 3 (alice_first ∷ carol_third ∷ []) with_two in
    (r ≡ err block_non_existent)
    × (s'.refs
        ≡ insert 3
            ((0, record { status = archived_block_ref; context = alice_first })
              ∷ (77, record { status = live_block_ref; context = bob_second })
              ∷ [])
            with_two.refs)
    × (s'.j ≡ with_two.j)
    × ((shutdown entry_codec length_hash s').0 ≡ err panicked)
unfolding program
archive_half_done_example =
    archive_half_done entry_codec length_hash with_two 2 3
      ((0, record { status = live_block_ref; context = alice_first })
        ∷ (77, record { status = live_block_ref; context = bob_second })
        ∷ [])
      alice_first carol_third []
      (Reach-Agrees entry_codec length_hash encodes fresh fresh-IsFresh two-Reach (omega arith))
      (omega arith) refl refl refl refl
