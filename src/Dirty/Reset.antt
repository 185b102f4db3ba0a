-- ===== src/Dirty/Reset.antt =====
-- `resetSyncingBlocksToDirty` keeps the counts in agreement with the states.
use kbfs.Prelude.{◌+◌, ◌%◌, ◌≡◌, refl, true, false, if◌then◌else◌, [], ◌∷◌, arith}
use kbfs.Prelude.Int64.{word}
use kbfs.Blocks.{BlockPointer, pointer_key}
use kbfs.Dirty.Cache.{DirtyBlockCache}
use kbfs.Dirty.File.{DirtyFile, DirtyBlockState, BlockStates}
use kbfs.Dirty.Sync.{reset_bytes, reset_loop, reset_state, reset_syncing_blocks_to_dirty}
use kbfs.Dirty.Accounting.{
  IsBalanced, AllSized, sum_of, syncing_bytes, synced_bytes, reset_bytes-total, reset_bytes-syncing,
}

-- One round of the loop of a reset: an orphaned block goes, another one stays with its sync cleared.
reset_loop-cons {ℓ} :
    (P : BlockStates × DirtyBlockCache → Type ℓ) (ptr : BlockPointer) (s : DirtyBlockState)
    (m : BlockStates) (d : DirtyBlockCache)
    → P (reset_loop m (reset_bytes s d))
    → P (
      (ptr, reset_state s) ∷ (reset_loop m (reset_bytes s d)).0,
      (reset_loop m (reset_bytes s d)).1,
    )
    → P (reset_loop ((ptr, s) ∷ m) d)
unfolding reset_loop
reset_loop-cons P ptr s m d gone kept =
    elim s.orphaned
      as (λ b. P (
        if b then ((reset_loop m (reset_bytes s d)).0, (reset_loop m (reset_bytes s d)).1) else (
          (ptr, reset_state s) ∷ (reset_loop m (reset_bytes s d)).0,
          (reset_loop m (reset_bytes s d)).1,
        ))) [ true ↦ gone | false ↦ kept ]

-- What a reset leaves: nothing is being synced.
reset_loop-syncing :
    (m : BlockStates) (d : DirtyBlockCache)
    → AllSized m
    → d.syncing_dirty_bytes % word ≡ sum_of syncing_bytes m % word
    → (reset_loop m d).1.syncing_dirty_bytes % word ≡ 0
reset_loop-syncing [] d a e = unfold reset_loop in omega (arith, e)
reset_loop-syncing ((ptr, s) ∷ m) d (h, a) e =
    let rest =
      reset_loop-syncing m (reset_bytes s d) a
        (reset_bytes-syncing s d (sum_of syncing_bytes m) h e) in
    reset_loop-cons (λ r. r.1.syncing_dirty_bytes % word ≡ 0) ptr s m d rest rest

reset_loop-total :
    (m : BlockStates) (d : DirtyBlockCache)
    → AllSized m
    → d.total_dirty_bytes % word ≡ (d.unsynced_dirty_bytes + sum_of synced_bytes m) % word
    → (reset_loop m d).1.total_dirty_bytes % word ≡ (reset_loop m d).1.unsynced_dirty_bytes % word
reset_loop-total [] d a e = unfold reset_loop in omega (arith, e)
reset_loop-total ((ptr, s) ∷ m) d (h, a) e =
    let rest =
      reset_loop-total m (reset_bytes s d) a (reset_bytes-total s d (sum_of synced_bytes m) h e) in
    reset_loop-cons (λ r. r.1.total_dirty_bytes % word ≡ r.1.unsynced_dirty_bytes % word) ptr s m d
      rest rest

-- No block is being synced, or has finished.
abbrev pub AllIdle : BlockStates → Type 0
AllIdle m = AllSized m × (sum_of syncing_bytes m ≡ 0) × (sum_of synced_bytes m ≡ 0)

reset_loop-AllIdle :
    (m : BlockStates) (d : DirtyBlockCache) → AllSized m → AllIdle (reset_loop m d).0
reset_loop-AllIdle [] d a = unfold reset_loop in (tt, refl, refl)
reset_loop-AllIdle ((ptr, s) ∷ m) d (h, a) =
    let (rest, sy, sd) = reset_loop-AllIdle m (reset_bytes s d) a in
    reset_loop-cons (λ r. AllIdle r.0) ptr s m d (rest, sy, sd)
      ((ground arith, rest), ground (arith, sy), ground (arith, sd))

abbrev pub IsBalancedFile : DirtyFile → Type 0
IsBalancedFile df = IsBalanced df.file_block_states df.total_sync_bytes df.dirty_bcache

pub reset-IsBalanced :
    (df : DirtyFile) → IsBalancedFile df → IsBalancedFile (reset_syncing_blocks_to_dirty df)
unfolding reset_syncing_blocks_to_dirty
reset-IsBalanced df b =
    let m = df.file_block_states in
    let d = df.dirty_bcache in
    let (sized, sy, sd) = reset_loop-AllIdle m d b.sized in
    record {
      sized = sized;
      syncing = omega (arith, sy, reset_loop-syncing m d b.sized b.syncing);
      total = omega (arith, sd, reset_loop-total m d b.sized b.total);
      outstanding = omega (arith, sy, sd);
    }
