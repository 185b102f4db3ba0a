-- ===== src/BlockCache.antt =====
-- `BlockCacheStandard` of libkbfs/bcache.go. Locks are left out: each call runs alone. The LRU caches are of a
-- third-party package, whose operations are parameters; so is the hash. The hash that the source keeps in a
-- file block is taken to be that of its contents.
pub mod Room
use kbfs.Prelude.{
  ℕ, zero, suc, ◌+◌, ◌-◌, ◌%◌, ◌^◌, Bool, true, false, not, ◌&&◌, ◌==◌, ltb, if◌then◌else◌, Option,
  none, some, List, [], ◌∷◌, Result, ok, err, no_such_block, not_direct_file_block,
  unknown_lifetime, out_of_fuel,
}
use kbfs.Prelude.Action.{Action}
use kbfs.Prelude.Int64.{word, add64, sub64}
use kbfs.Prelude.Maps.{Map, lookup, insert, erase}
use kbfs.FileStore.{Bytes}
use kbfs.BlockServer.Refs.{BlockContext}
use kbfs.Blocks.{BlockPointer, Block, FileBlock, file_block, dir_block, get_cached_block_size}

-- The calls of a cache of `golang-lru`, with the values that it hands to the eviction callback
pub record Lru (K V C : Type 0) : Type 0 where
  pub get : K → C → Option V × C
  pub add : K → V → C → List V × C
  pub remove : K → C → List V × C
  pub remove_oldest : C → List V × C
  pub len : C → ℕ

pub record IdCacheKey : Type 0 where
  pub tlf : ℕ
  pub plaintext_hash : ℕ

pub data BlockCacheLifetime : Type 0 where
  transient_entry permanent_entry other_entry : BlockCacheLifetime

pub record BlockCacheStandard (I C : Type 0) : Type 0 where
  pub clean_bytes_capacity : ℕ
  pub ids : Option I
  pub clean_transient : Option C
  pub clean_permanent : Map Block
  pub clean_total_bytes : ℕ

-- `onEvict`, of all the values that a call evicts
abbrev pub on_evict : List Block → ℕ → ℕ
on_evict [] total = total
on_evict (b ∷ bs) total = on_evict bs (sub64 total (get_cached_block_size b))

-- The block without its nonce
abbrev pub without_nonce : BlockPointer → BlockPointer
without_nonce ptr = record ptr { context = record ptr.context { ref_nonce = 0 } }

module _ {I C : Type 0} (id_lru : Lru IdCacheKey BlockPointer I) (lru : Lru ℕ Block C)
    (hash : Bytes → ℕ) where
  -- `NewBlockCacheStandard`, with empty caches unless the capacity is 0
  unfoldable pub new_block_cache_standard : I → C → ℕ → ℕ → BlockCacheStandard I C
  new_block_cache_standard no_ids no_blocks transient_capacity bytes_capacity = record {
    clean_bytes_capacity = bytes_capacity;
    ids = if ltb 0 transient_capacity then some no_ids else none;
    clean_transient = if ltb 0 transient_capacity then some no_blocks else none;
    clean_permanent = [];
    clean_total_bytes = 0;
  }

  abbrev pub get_permanent : ℕ → BlockCacheStandard I C → Result Block
  get_permanent id s = elim (lookup id s.clean_permanent) [
    | none ↦ err no_such_block
    | some block ↦ ok block
  ]

  unfoldable pub get_block : BlockPointer → Action (BlockCacheStandard I C) Block
  get_block ptr s = elim s.clean_transient [
    | none ↦ (get_permanent ptr.id s, s)
    | some c ↦
        let (found, c') = lru.get ptr.id c in
        let s' = record s { clean_transient = some c' } in
        elim found [ some block ↦ (ok block, s') | none ↦ (get_permanent ptr.id s, s') ]
  ]

  abbrev pub id_key : ℕ → FileBlock → IdCacheKey
  id_key tlf block = record { tlf = tlf; plaintext_hash = hash block.contents }

  -- `none` is the zero pointer.
  unfoldable pub check_for_known_ptr :
      ℕ → FileBlock → Action (BlockCacheStandard I C) (Option BlockPointer)
  check_for_known_ptr tlf block s =
      if block.is_ind then (err not_direct_file_block, s) else elim s.ids [
        | none ↦ (ok none, s)
        | some ids ↦
            let (found, ids') = id_lru.get (id_key tlf block) ids in
            (ok found, record s { ids = some ids' })
      ]

  -- The loop of `makeRoomForSize`, with at most `fuel` rounds: the cache and the total that it leaves
  unfoldable pub evict_loop : ℕ → ℕ → ℕ → ℕ → C → ℕ → Result (C × ℕ)
  evict_loop capacity size zero old_len c total = err out_of_fuel
  evict_loop capacity size (suc fuel) old_len c total =
      let (evicted, c') = lru.remove_oldest c in
      let rest = evict_loop capacity size fuel (lru.len c) c' (on_evict evicted total) in
      if ltb capacity (add64 total size) && not (old_len == lru.len c) then rest else ok (c, total)

  unfoldable pub make_room_for_size : ℕ → Action (BlockCacheStandard I C) Bool
  unfolding evict_loop
  make_room_for_size size s = elim s.clean_transient [
    | none ↦ (ok false, s)
    | some c ↦
        elim (evict_loop s.clean_bytes_capacity size (suc (suc (lru.len c))) (lru.len c + 1) c
          s.clean_total_bytes) [
            | err e ↦ (err e, s)
            | ok (c', total) ↦
                let s' = record s { clean_transient = some c'; clean_total_bytes = total } in
                if ltb s.clean_bytes_capacity (add64 total size)
                then (ok false, s')
                else (ok true, record s' { clean_total_bytes = add64 total size })
          ]
  ]

  -- The first part of `Put`
  abbrev pub add_known_ptr :
      BlockPointer
      → ℕ
      → Block
      → BlockCacheLifetime
      → BlockCacheStandard I C
      → BlockCacheStandard I C
  add_known_ptr ptr tlf (file_block b) transient_entry s = elim s.ids [
    | none ↦ s
    | some ids ↦
        if b.is_ind
        then s
        else record s { ids = some (id_lru.add (id_key tlf b) (without_nonce ptr) ids).1 }
  ]
  add_known_ptr ptr tlf block lifetime s = s

  abbrev pub add_permanent :
      BlockPointer → Block → BlockCacheLifetime → Action (BlockCacheStandard I C) (Unit {0})
  add_permanent ptr block transient_entry s = (ok tt, s)
  add_permanent ptr block permanent_entry s =
      (ok tt, record s { clean_permanent = insert ptr.id block s.clean_permanent })
  add_permanent ptr block other_entry s = (err unknown_lifetime, s)

  -- The last part of `Put`
  abbrev pub add_transient :
      BlockPointer → Block → BlockCacheLifetime → BlockCacheStandard I C → BlockCacheStandard I C
  add_transient ptr block transient_entry s = elim s.clean_transient [
    | none ↦ s
    | some c ↦
        let (evicted, c') = lru.add ptr.id block c in
        record s {
          clean_transient = some c';
          clean_total_bytes = on_evict evicted s.clean_total_bytes;
        }
  ]
  add_transient ptr block lifetime s = s

  unfoldable pub put_block :
      BlockPointer → ℕ → Block → BlockCacheLifetime → Action (BlockCacheStandard I C) (Unit {0})
  unfolding make_room_for_size
  put_block ptr tlf block lifetime s =
      let (r, s1) = add_permanent ptr block lifetime (add_known_ptr ptr tlf block lifetime s) in
      elim r [
        | err e ↦ (err e, s1)
        | ok _ ↦
            let (room, s2) = make_room_for_size (get_cached_block_size block) s1 in
            elim room [
              | err e ↦ (err e, s2)
              | ok made ↦ (ok tt, if made then add_transient ptr block lifetime s2 else s2)
            ]
      ]

  unfoldable pub delete_permanent : ℕ → BlockCacheStandard I C → BlockCacheStandard I C
  delete_permanent id s = elim (lookup id s.clean_permanent) [
    | none ↦ s
    | some block ↦ record s {
      clean_permanent = erase id s.clean_permanent;
      clean_total_bytes = sub64 s.clean_total_bytes (get_cached_block_size block);
    }
  ]

  -- `b.ids.Remove(key)` for a direct file block
  abbrev pub remove_known_ptr : ℕ → Block → BlockCacheStandard I C → BlockCacheStandard I C
  remove_known_ptr tlf (dir_block n) s = s
  remove_known_ptr tlf (file_block b) s = elim s.ids [
    | none ↦ s
    | some ids ↦
        if b.is_ind then s else record s { ids = some (id_lru.remove (id_key tlf b) ids).1 }
  ]

  unfoldable pub delete_transient :
      BlockPointer → ℕ → BlockCacheStandard I C → BlockCacheStandard I C
  delete_transient ptr tlf s = elim s.clean_transient [
    | none ↦ s
    | some c ↦
        let (found, c') = lru.get ptr.id c in
        elim found [
          | none ↦ record s { clean_transient = some c' }
          | some block ↦
              let (evicted, c'') = lru.remove ptr.id c' in
              record (remove_known_ptr tlf block s) {
                clean_transient = some c'';
                clean_total_bytes = on_evict evicted s.clean_total_bytes;
              }
        ]
  ]

  unfoldable pub delete_known_ptr : ℕ → FileBlock → Action (BlockCacheStandard I C) (Unit {0})
  delete_known_ptr tlf block s =
      if block.is_ind
      then (err not_direct_file_block, s)
      else (ok tt, remove_known_ptr tlf (file_block block) s)
