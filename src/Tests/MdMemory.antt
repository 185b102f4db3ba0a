-- ===== src/Tests/MdMemory.antt =====
-- The metadata server over memory at concrete inputs.
use kbfs.Prelude.{ℕ, ◌≡◌, ◌≢◌, refl, true, inl, some, List, [], ◌∷◌, ok, err, md_locked, arith}
use kbfs.Prelude.Int.{pos}
use kbfs.Revision.{next_revision}
use kbfs.RootMetadata.{
  RootMetadata, merged, merged_status, expected_usage, check_valid_successor_for_server, is_writer,
  is_handle_reader, is_public,
}
use kbfs.MdServer.TlfStorage.{is_writer_or_valid_rekey, is_reader}
use kbfs.MdServer.Locks.{
  truncate_lock, truncate_unlock, lock_call, unlock_call, run_lock_calls, truncate_lock-exclusive,
}
use kbfs.MdServer.Updates.{
  new_update_manager, set_head, register_for_update, head_call, register_call, run_update_calls,
  has,
}
use kbfs.MdServer.Updates.Fires.{register_for_update-fires}
use kbfs.MdServer.Memory.{
  MdServerMemory, MdBlockMemList, MdSession, new_md_server_memory, get_md_key, head_for_tlf,
  check_params, get_md_range, shutdown_memory, block_key,
}
use kbfs.MdServer.Memory.Put.{
  memory_put, check_memory_put, find_put_head, store_memory_md, notify_observers,
}
use kbfs.MdServer.Memory.Revisions.{AreRevisions}
use kbfs.MdServer.Memory.Range.{in_range, AreDecoded}
use kbfs.MdServer.Memory.Heads.{head_for_tlf-memory_put, memory_put-shutdown_memory}
use kbfs.MdServer.Memory.Runs.{start, puts, MemoryReach-get_md_range}
use kbfs.Tests.Metadata.{encode_md, params, first_md, second_md}

abbrev alice : MdSession
alice = record { server = 1; current_uid = ok 1; device_kid = ok 11 }

abbrev one_update : MdServerMemory
one_update = (memory_put params alice first_md new_md_server_memory).1

abbrev two_updates : MdServerMemory
two_updates = (memory_put params alice second_md one_update).1

putting : Unit {0}
unfolding new_md_server_memory get_md_key head_for_tlf memory_put check_memory_put find_put_head
    store_memory_md notify_observers set_head is_writer_or_valid_rekey is_writer is_handle_reader
    expected_usage check_valid_successor_for_server merged_status next_revision new_update_manager
    check_params is_reader is_public
putting = tt

head_for_tlf-memory_put_example :
    head_for_tlf params 5 0 (merged_status second_md) two_updates ≡ ok (some second_md)
unfolding putting
head_for_tlf-memory_put_example =
    head_for_tlf-memory_put params alice second_md one_update two_updates refl

memory_put-shutdown_memory_example :
    (s2 : MdServerMemory) × (memory_put params alice second_md (shutdown_memory one_update)
      ≡ (ok tt, s2))
    × (head_for_tlf params 5 0 (merged_status second_md) s2 ≡ ok (some second_md))
unfolding putting
memory_put-shutdown_memory_example =
    memory_put-shutdown_memory params alice second_md one_update two_updates refl refl

abbrev two_blocks : MdBlockMemList
two_blocks = record {
  initial_revision = pos 1;
  blocks = encode_md first_md ∷ encode_md second_md ∷ [];
}

MemoryReach-get_md_range_example :
    (all : List RootMetadata) × AreDecoded params two_blocks.blocks all
    × AreRevisions (pos 1) all
    × (get_md_range params alice 5 0 merged (pos 2) (pos 9) two_updates ≡ ok (in_range 2 9 all))
unfolding putting
MemoryReach-get_md_range_example =
    MemoryReach-get_md_range params alice 5 0 0 merged 1 2 9 two_blocks
      (puts alice second_md (puts alice first_md start)) refl refl refl refl (omega arith)
      (omega arith) (omega arith) (omega arith)

other_device : ◌≢◌ {A = ℕ} 12 11
other_device e = absurd (omega (arith, e))

truncate_lock-exclusive_example :
    let held = run_lock_calls (lock_call 12 5 ∷ unlock_call 12 5 ∷ []) (truncate_lock 11 5 []).1 in
    (truncate_lock 12 5 held ≡ (err md_locked, held))
    × (truncate_unlock 12 5 held ≡ (err md_locked, held))
    × (truncate_lock 11 5 held ≡ (ok true, held))
unfolding truncate_lock truncate_unlock
truncate_lock-exclusive_example =
    truncate_lock-exclusive 11 12 5 (lock_call 12 5 ∷ unlock_call 12 5 ∷ []) [] refl
      ((inl other_device, tt)) other_device

other_server : ◌≢◌ {A = ℕ} 2 1
other_server e = absurd (omega (arith, e))

register_for_update-fires_example :
    has 70
      (set_head 5 2 (
        run_update_calls
          (head_call 5 1 ∷ register_call 5 (pos 3) (pos 3) 3 71 ∷ [])
          (register_for_update 5 (pos 3) (pos 3) 1 70 new_update_manager).1)).fired
    ≡ true
unfolding new_update_manager register_for_update
register_for_update-fires_example =
    register_for_update-fires 5 1 2 70 (pos 3) (pos 3)
      (head_call 5 1 ∷ register_call 5 (pos 3) (pos 3) 3 71 ∷ []) new_update_manager refl
      other_server
