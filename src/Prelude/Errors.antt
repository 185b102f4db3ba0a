-- ===== src/Prelude/Errors.antt =====
-- The errors that the storage code returns, and the result of a fallible call. The strings that the
-- source puts into an error are left out: they are only printed.
use mathlib.Core.Bool.{Bool, true, false}

pub data Error : Type 0 where
  -- os.IsNotExist, and any other error of the file system
  not_exist io_fault : Error
  -- the codec refuses to encode or to decode
  codec_fault : Error
  -- disk_journal.go
  invalid_ordinal rollover out_of_order : Error
  -- mdserver_branch_journal.go
  bad_revision : Error
  -- bserver_errors.go and bserver_memory.go
  block_non_existent block_archived context_mismatch : Error
  tlf_mismatch half_mismatch id_mismatch creator_mismatch nonzero_nonce : Error
  -- bserver_tlf_journal.go
  bad_op_contexts : Error
  -- root_metadata.go
  md_is_final md_tlf_id_mismatch md_revision_mismatch md_prev_root_mismatch md_disk_usage_mismatch :
      Error
  -- mdserver_errors.go; `MDServerError` wraps another error
  conflict_revision conflict_prev_root conflict_disk_usage unauthorized bad_request : Error
  md_server_error : Error → Error
  -- mdserver_tlf_storage.go
  md_id_mismatch wrong_md_count : Error
  -- the caches of blocks
  no_such_block bad_data not_direct_file_block unknown_lifetime leftover_bytes would_block : Error
  -- dirty_file.go
  not_dirty sync_not_in_progress unexpected_syncing_block : Error
  -- crypto_common.go
  short_rand_read padded_block_read : Error
  -- bsplitter_simple.go
  block_too_large no_convergence : Error
  -- mdserver_memory.go and mdserver_local_shared.go
  inconsistent_branch md_locked : Error
  -- ops.go
  nil_ptr nil_unref nil_ref unexpected_conflict_check : Error
  -- cr_chains.go
  no_chain_found chain_exists chain_missing unexpected_chain_type chain_length unknown_operation :
      Error
  -- a closed server or journal
  err_shutdown : Error
  -- a Go panic
  panicked : Error
  -- a loop of the model that was given too little fuel; never an error of the source
  out_of_fuel : Error

pub data Result {ℓ} (A : Type ℓ) : Type ℓ where
  ok : A → Result A
  err : Error → Result A

-- `os.IsNotExist`
abbrev pub is_not_exist : Error → Bool
is_not_exist not_exist = true
is_not_exist _ = false
