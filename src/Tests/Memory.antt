-- ===== src/Tests/Memory.antt =====
-- The in-memory block server at concrete inputs.
use kbfs.Prelude.{
  ℕ, ◌≡◌, refl, true, some, ◌==◌, if◌then◌else◌, List, [], ◌∷◌, Result, ok, err, arith,
  block_non_existent,
}
use kbfs.Prelude.Maps.{Map, lookup}
use kbfs.FileStore.{Bytes}
use kbfs.BlockServer.Refs.{
  BlockContext, BlockRefMap, live_block_ref, archived_block_ref, put_ref, remove_ref, check_exists,
  has_non_archived_ref,
}
use kbfs.BlockServer.Memory.{
  BlockMemEntry, BlockServerMemory, new_block_server_memory, set_entry, get, put,
  add_block_reference, archive_block_reference, remove_block_references, remove_block_reference,
  archive_block_references, remove_refs, finish_remove, validate_block_server_put, archive_contexts,
}
use kbfs.BlockServer.Memory.Calls.{
  get-put, get-put_ne, add_block_reference-ok, archive_block_reference-ok,
}
use kbfs.BlockServer.Memory.Remove.{get-remove_block_references}
use kbfs.BlockServer.Memory.Invariant.{IsValid}
use kbfs.BlockServer.Memory.Runs.{
  Call, put_call, add_call, remove_call, archive_call, run, perform, run-IsValid,
}
use kbfs.Tests.Data.{length_hash}

program : Unit {0}
unfolding get put add_block_reference archive_block_reference remove_block_references put_ref
    remove_ref check_exists has_non_archived_ref remove_refs finish_remove validate_block_server_put
    remove_block_reference archive_block_references archive_contexts
program = tt

abbrev alice_first : BlockContext
alice_first = record { creator = 1; writer = 0; ref_nonce = 0 }

abbrev bob_second : BlockContext
bob_second = record { creator = 1; writer = 2; ref_nonce = 77 }

abbrev data_block : Bytes
data_block = 10 ∷ 20 ∷ 30 ∷ []

-- Block 3 of folder 9, with two references.
abbrev entry : BlockMemEntry
entry = record {
  tlf_id = 9;
  block_data = data_block;
  key_server_half = 5;
  refs =
      (0, record { status = live_block_ref; context = alice_first })
      ∷ (77, record { status = live_block_ref; context = bob_second })
      ∷ [];
}

abbrev server : BlockServerMemory
server = record { m = some ((3, entry) ∷ []) }

server-run :
    run length_hash
      (put_call 3 9 alice_first data_block 5 ∷ add_call 3 9 bob_second ∷ [])
      new_block_server_memory
    ≡ server
unfolding program run perform
server-run = refl

abbrev put_again : Result (Unit {0}) × BlockServerMemory
put_again = put length_hash 3 9 alice_first data_block 5 server

get-put_example : get 3 9 alice_first put_again.1 ≡ ok (data_block, 5)
unfolding program
get-put_example = get-put length_hash 3 9 alice_first data_block 5 server put_again.1 refl

abbrev put_new : Result (Unit {0}) × BlockServerMemory
put_new = put length_hash 1 9 alice_first (4 ∷ []) 5 server

get-put_ne_example : get 3 9 bob_second put_new.1 ≡ get 3 9 bob_second server
unfolding program
get-put_ne_example =
    get-put_ne length_hash 1 9 alice_first (4 ∷ []) 5 server put_new.1 3 9 bob_second (omega arith)
      refl

abbrev carol_third : BlockContext
carol_third = record { creator = 1; writer = 3; ref_nonce = 88 }

add_block_reference_example :
    (m : Map BlockMemEntry) × (found : BlockMemEntry) × (server.m ≡ some m)
    × (lookup 3 m ≡ some found)
    × (found.tlf_id ≡ 9)
    × (has_non_archived_ref found.refs ≡ true)
    × (get 3 9 carol_third (add_block_reference 3 9 carol_third server).1
        ≡ ok (found.block_data, found.key_server_half))
unfolding program
add_block_reference_example =
    add_block_reference-ok 3 9 carol_third server (add_block_reference 3 9 carol_third server).1
      refl

archive_block_reference_example :
    (m : Map BlockMemEntry) × (found : BlockMemEntry) × (server.m ≡ some m)
    × (lookup 3 m ≡ some found)
    × (found.tlf_id ≡ 9)
    × (refs' : BlockRefMap) × ((archive_block_reference 3 9 bob_second server).1
        ≡ set_entry 3 (record found { refs = refs' }) server)
    × (check_exists found.refs bob_second ≡ ok tt)
    × ((j : ℕ)
        → lookup j refs' ≡ (
            if 77 == j
            then some (record { status = archived_block_ref; context = bob_second })
            else lookup j found.refs))
unfolding program
archive_block_reference_example =
    archive_block_reference-ok 3 9 bob_second server
      (archive_block_reference 3 9 bob_second server).1 refl

abbrev removed : Result ℕ × BlockServerMemory
removed = remove_block_references 3 9 (bob_second ∷ carol_third ∷ []) server

get-remove_block_references_example : get 3 9 bob_second removed.1 ≡ err block_non_existent
unfolding program
get-remove_block_references_example =
    get-remove_block_references 3 9 (bob_second ∷ carol_third ∷ []) server removed.1
      ((3, entry) ∷ []) entry 1 bob_second refl refl refl

-- The server after a run in which the last removal fails half way.
abbrev calls : List Call
calls =
    put_call 3 9 alice_first data_block 5
    ∷ add_call 3 9 bob_second
    ∷ archive_call 9 ((3, bob_second ∷ []) ∷ [])
    ∷ remove_call 9 ((3, bob_second ∷ record alice_first { creator = 4 } ∷ []) ∷ [])
    ∷ []

run-IsValid_example : IsValid length_hash (run length_hash calls new_block_server_memory)
run-IsValid_example = run-IsValid length_hash calls
