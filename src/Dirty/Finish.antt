-- ===== src/Dirty/Finish.antt =====
-- A sync that finishes leaves no byte of its own in the counts.
use kbfs.Prelude.{◌≡◌, true, false, [], ◌∷◌, ok, ◌⊎◌}
use kbfs.Blocks.{BlockPointer, same_pointer}
use kbfs.Dirty.File.{DirtyFile, BlockStates, block_syncing, state_of, is_syncing_state}
use kbfs.Dirty.Sync.{set_block_synced, finish_loop}
use kbfs.Dirty.Accounting.{sum_of, syncing_bytes}

-- No block waits for its sync to finish.
abbrev pub AllQuiet : BlockStates → Type 0
AllQuiet [] = Unit
AllQuiet ((ptr, s) ∷ m) = (is_syncing_state s.sync ≡ false) × AllQuiet m

-- At most the file's top block waits for its sync to finish, and it is not orphaned.
abbrev pub OnlyTopSyncs : BlockPointer → BlockStates → Type 0
OnlyTopSyncs tail [] = Unit
OnlyTopSyncs tail ((ptr, s) ∷ m) =
    ((same_pointer ptr tail ≡ false) × (is_syncing_state s.sync ≡ false) × OnlyTopSyncs tail m)
    ⊎ ((same_pointer ptr tail ≡ true) × (s.orphaned ≡ false) × AllQuiet m)

-- The loop leaves a quiet file as it is, and finishes the top block where that is still syncing.
abbrev LoopEnds : BlockStates → DirtyFile → Type 0
LoopEnds m df =
    ((finish_loop m false df ≡ (ok tt, df)) × (sum_of syncing_bytes m ≡ 0))
    ⊎ (((state_of df.tail_pointer df.file_block_states).sync ≡ block_syncing)
        × (set_block_synced df.tail_pointer df ≡ (ok tt, (set_block_synced df.tail_pointer df).1))
        × (finish_loop m false df ≡ (ok tt, (set_block_synced df.tail_pointer df).1))
        × (sum_of syncing_bytes m ≡ syncing_bytes (state_of df.tail_pointer df.file_block_states)))
