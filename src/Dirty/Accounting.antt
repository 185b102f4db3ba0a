-- ===== src/Dirty/Accounting.antt =====
-- The byte counts of the dirty block cache agree with the states of a file's blocks.
use kbfs.Prelude.{
  ℕ, ◌+◌, ◌%◌, ◌<◌, ◌≡◌, refl, true, false, if◌then◌else◌, [], ◌∷◌, arith, Bool-cases, inl, inr, ap,
}
use kbfs.Prelude.Dict.{store}
use kbfs.Prelude.Int64.{word, half_word, add64}
use kbfs.Blocks.{BlockPointer, same_pointer, pointer_key}
use kbfs.Dirty.Cache.{
  DirtyBlockCache, update_unsynced_bytes, update_syncing_bytes, block_sync_finished, sync_finished,
}
use kbfs.Dirty.File.{
  DirtyBlockState, BlockStates, block_not_syncing, block_syncing, block_synced, zero_state,
  state_of, is_not_syncing_state,
}
use kbfs.Dirty.Sync.{reset_bytes}

-- The bytes of a block that is being synced, and of one whose sync has finished
abbrev pub syncing_bytes : DirtyBlockState → ℕ
syncing_bytes s = elim s.sync [
  | block_not_syncing ↦ 0
  | block_syncing ↦ s.sync_size
  | block_synced ↦ 0
]

abbrev pub synced_bytes : DirtyBlockState → ℕ
synced_bytes s = elim s.sync [
  | block_not_syncing ↦ 0
  | block_syncing ↦ 0
  | block_synced ↦ s.sync_size
]

abbrev pub sum_of : (DirtyBlockState → ℕ) → BlockStates → ℕ
sum_of f [] = 0
sum_of f ((ptr, state) ∷ states) = f state + sum_of f states

-- Sizes are lengths, which are not negative.
abbrev pub AllSized : BlockStates → Type 0
AllSized [] = Unit
AllSized ((ptr, state) ∷ states) = (state.sync_size < half_word) × AllSized states

state_of-cons :
    (ptr q : BlockPointer) (s : DirtyBlockState) (m : BlockStates)
    → state_of ptr ((q, s) ∷ m) ≡ (if same_pointer q ptr then s else state_of ptr m)
state_of-cons ptr q s m = ground arith

pub sum_of-store :
    (f : DirtyBlockState → ℕ) (ptr : BlockPointer) (state : DirtyBlockState) (m : BlockStates)
    → f zero_state ≡ 0
    → sum_of f (store ptr state m) + f (state_of ptr m) ≡ sum_of f m + f state
sum_of-store f ptr state [] z = omega (arith, z)
sum_of-store f ptr state ((q, s) ∷ m) z = elim (Bool-cases (same_pointer q ptr)) [
  | inl same ↦
      let here : state_of ptr ((q, s) ∷ m) ≡ s = rw same at (state_of-cons ptr q s m) in
      rw same (omega (arith, ap f here))
  | inr other ↦
      let there : state_of ptr ((q, s) ∷ m) ≡ state_of ptr m =
        rw other at (state_of-cons ptr q s m) in
      rw other (omega (arith, ap f there, sum_of-store f ptr state m z))
]

AllSized-store :
    (ptr : BlockPointer) (state : DirtyBlockState) (m : BlockStates)
    → state.sync_size < half_word
    → AllSized m
    → AllSized (store ptr state m)
AllSized-store ptr state [] h a = (h, tt)
AllSized-store ptr state ((q, s) ∷ m) h (b, a) = elim (Bool-cases (same_pointer q ptr)) [
  | inl same ↦ rw same (h, a)
  | inr other ↦ rw other (b, AllSized-store ptr state m h a)
]

state_of-AllSized :
    (ptr : BlockPointer) (m : BlockStates) → AllSized m → (state_of ptr m).sync_size < half_word
state_of-AllSized ptr [] a = omega arith
state_of-AllSized ptr ((q, s) ∷ m) (b, a) = elim (Bool-cases (same_pointer q ptr)) [
  | inl same ↦ rw (state_of-cons ptr q s m, same) b
  | inr other ↦ rw (state_of-cons ptr q s m, other) (state_of-AllSized ptr m a)
]

-- The file's states and the counts, up to multiples of 2^64
pub record IsBalanced (states : BlockStates) (sync_total : ℕ) (d : DirtyBlockCache) : Type 0 where
  pub sized : AllSized states
  pub syncing : d.syncing_dirty_bytes % word ≡ sum_of syncing_bytes states % word
  pub total :
      d.total_dirty_bytes % word ≡ (d.unsynced_dirty_bytes + sum_of synced_bytes states) % word
  pub outstanding :
      sync_total % word ≡ (sum_of syncing_bytes states + sum_of synced_bytes states) % word

-- A block's state is replaced by one with the same sync.
pub IsBalanced-same_sync :
    (ptr : BlockPointer) (state : DirtyBlockState) (m : BlockStates) (n : ℕ) (d : DirtyBlockCache)
    → state.sync ≡ (state_of ptr m).sync
    → state.sync_size ≡ (state_of ptr m).sync_size
    → IsBalanced m n d
    → IsBalanced (store ptr state m) n d
IsBalanced-same_sync ptr state m n d e f b =
    let sy : syncing_bytes state ≡ syncing_bytes (state_of ptr m) = ground (arith, e, f) in
    let sd : synced_bytes state ≡ synced_bytes (state_of ptr m) = ground (arith, e, f) in
    let l1 = sum_of-store (λ s. syncing_bytes s) ptr state m refl in
    let l2 = sum_of-store (λ s. synced_bytes s) ptr state m refl in
    record {
      sized =
          AllSized-store ptr state m (omega (arith, f, state_of-AllSized ptr m b.sized)) b.sized;
      syncing = omega (arith, b.syncing, l1, sy);
      total = omega (arith, b.total, l2, sd);
      outstanding = omega (arith, b.outstanding, l1, l2, sy, sd);
    }

-- `update_unsynced_bytes` of bytes that no sync knows of
pub IsBalanced-unsynced :
    (m : BlockStates) (n bytes : ℕ) (d : DirtyBlockCache)
    → IsBalanced m n d
    → IsBalanced m n (update_unsynced_bytes bytes false d)
unfolding update_unsynced_bytes
IsBalanced-unsynced m n bytes d b = record {
  sized = b.sized;
  syncing = b.syncing;
  total = omega (arith, b.total);
  outstanding = b.outstanding;
}

-- A block that is not being synced begins to sync.
pub IsBalanced-begin :
    (ptr : BlockPointer) (state : DirtyBlockState) (m : BlockStates) (n : ℕ) (d : DirtyBlockCache)
    → is_not_syncing_state (state_of ptr m).sync ≡ true
    → state.sync ≡ block_syncing
    → state.sync_size < half_word
    → IsBalanced m n d
    → IsBalanced
        (store ptr state m)
        (add64 n state.sync_size)
        (update_syncing_bytes state.sync_size d)
unfolding update_syncing_bytes
IsBalanced-begin ptr state m n d e f h b =
    let sy : syncing_bytes state ≡ state.sync_size = ground (arith, f) in
    let sd : synced_bytes state ≡ 0 = ground (arith, f) in
    let sy0 : syncing_bytes (state_of ptr m) ≡ 0 = ground (arith, e) in
    let sd0 : synced_bytes (state_of ptr m) ≡ 0 = ground (arith, e) in
    let l1 = sum_of-store (λ s. syncing_bytes s) ptr state m refl in
    let l2 = sum_of-store (λ s. synced_bytes s) ptr state m refl in
    record {
      sized = AllSized-store ptr state m h b.sized;
      syncing = omega (arith, b.syncing, l1, sy, sy0);
      total = omega (arith, b.total, l2, sd, sd0);
      outstanding = omega (arith, b.outstanding, l1, l2, sy, sd, sy0, sd0);
    }

-- A block that is being synced is finished.
pub IsBalanced-synced :
    (ptr : BlockPointer) (m : BlockStates) (n : ℕ) (d : DirtyBlockCache)
    → (state_of ptr m).sync ≡ block_syncing
    → IsBalanced m n d
    → IsBalanced
        (store ptr (record (state_of ptr m) { sync = block_synced }) m)
        n
        (block_sync_finished (state_of ptr m).sync_size d)
unfolding block_sync_finished
IsBalanced-synced ptr m n d e b =
    let size = (state_of ptr m).sync_size in
    let bound = state_of-AllSized ptr m b.sized in
    let sy0 : syncing_bytes (state_of ptr m) ≡ size = ground (arith, e) in
    let sd0 : synced_bytes (state_of ptr m) ≡ 0 = ground (arith, e) in
    let l1 =
      sum_of-store (λ s. syncing_bytes s) ptr (record (state_of ptr m) { sync = block_synced }) m
        refl in
    let l2 =
      sum_of-store (λ s. synced_bytes s) ptr (record (state_of ptr m) { sync = block_synced }) m
        refl in
    record {
      sized = AllSized-store ptr (record (state_of ptr m) { sync = block_synced }) m bound b.sized;
      syncing = ground (arith, b.syncing, l1, sy0, bound);
      total = omega (arith, b.total, l2, sd0);
      outstanding = omega (arith, b.outstanding, l1, l2, sy0, sd0);
    }

-- One round of the reset: the block's bytes leave both sums.
pub reset_bytes-total :
    (s : DirtyBlockState) (d : DirtyBlockCache) (x : ℕ)
    → s.sync_size < half_word
    → d.total_dirty_bytes % word ≡ (d.unsynced_dirty_bytes + (synced_bytes s + x)) % word
    → (reset_bytes s d).total_dirty_bytes % word
      ≡ ((reset_bytes s d).unsynced_dirty_bytes + x) % word
unfolding reset_bytes update_unsynced_bytes update_syncing_bytes block_sync_finished sync_finished
reset_bytes-total s d x h e = ground arith

pub reset_bytes-syncing :
    (s : DirtyBlockState) (d : DirtyBlockCache) (x : ℕ)
    → s.sync_size < half_word
    → d.syncing_dirty_bytes % word ≡ (syncing_bytes s + x) % word
    → (reset_bytes s d).syncing_dirty_bytes % word ≡ x % word
unfolding reset_bytes update_unsynced_bytes update_syncing_bytes block_sync_finished sync_finished
reset_bytes-syncing s d x h e = ground arith
