-- ===== src/Dirty/Cache.antt =====
-- `DirtyBlockCacheStandard` of libkbfs/dirty_bcache.go. Byte counts are int64 values as bit patterns. The
-- lock is left out: each call runs alone. Channels of requests are a queue.
use kbfs.Prelude.{
  ℕ, Bool, true, false, not, ◌&&◌, ◌||◌, ◌==◌, ltb, if◌then◌else◌, ◌≡◌, ◌↔◌, Option, none, some,
  List, [], ◌∷◌, ◌++◌, Result, ok, err, err_shutdown, no_such_block, leftover_bytes, arith, length,
  panicked, would_block,
}
use kbfs.Prelude.Dict.{Key, find, store, discard}
use kbfs.Prelude.Int64.{add64, sub64, lt64, is_negative, is_positive, halve64}
use kbfs.Prelude.Action.{Action}
use kbfs.Blocks.{BlockPointer, Block}

pub record DirtyBlockId : Type 0 where
  pub id : ℕ
  pub ref_nonce : ℕ
  pub branch : ℕ

abbrev pub same_dirty_id : DirtyBlockId → DirtyBlockId → Bool
same_dirty_id a b = (a.id == b.id) && (a.ref_nonce == b.ref_nonce) && (a.branch == b.branch)

pub same_dirty_id_iff : (a b : DirtyBlockId) → (same_dirty_id a b ≡ true) ↔ (a ≡ b)
same_dirty_id_iff a b = (λ h. ground arith, λ h. ground arith)

instance abbrev pub dirty_id_key : Key DirtyBlockId
dirty_id_key = record { same = same_dirty_id; same_iff = same_dirty_id_iff }

-- A request for permission: its number stands for the response channel.
pub record DirtyReq : Type 0 where
  pub resp_chan : ℕ
  pub bytes : ℕ
  pub start : ℕ
  pub deadline : ℕ

-- `granted` lists the response channels that have been closed; `has_decreased` is the one place of
-- `bytesDecreasedChan`.
pub record DirtyBlockCache : Type 0 where
  pub min_sync_buffer_size : ℕ
  pub max_sync_buffer_size : ℕ
  pub is_shutdown : Bool
  pub blocks : List (DirtyBlockId × Block)
  pub unsynced_dirty_bytes : ℕ
  pub syncing_dirty_bytes : ℕ
  pub total_dirty_bytes : ℕ
  pub sync_buffer_size : ℕ
  pub requests : List DirtyReq
  pub current_req : Option DirtyReq
  pub has_decreased : Bool
  pub granted : List ℕ

unfoldable pub new_dirty_block_cache : ℕ → ℕ → DirtyBlockCache
new_dirty_block_cache min_size max_size = record {
  min_sync_buffer_size = min_size;
  max_sync_buffer_size = max_size;
  is_shutdown = false;
  blocks = [];
  unsynced_dirty_bytes = 0;
  syncing_dirty_bytes = 0;
  total_dirty_bytes = 0;
  sync_buffer_size = min_size;
  requests = [];
  current_req = none;
  has_decreased = false;
  granted = [];
}

abbrev pub dirty_id : BlockPointer → ℕ → DirtyBlockId
dirty_id ptr branch = record { id = ptr.id; ref_nonce = ptr.context.ref_nonce; branch = branch }

unfoldable pub get : BlockPointer → ℕ → DirtyBlockCache → Result Block
get ptr branch d = elim (find (dirty_id ptr branch) d.blocks) [
  | none ↦ err no_such_block
  | some block ↦ ok block
]

unfoldable pub put : BlockPointer → ℕ → Block → DirtyBlockCache → DirtyBlockCache
put ptr branch block d = record d { blocks = store (dirty_id ptr branch) block d.blocks }

unfoldable pub delete : BlockPointer → ℕ → DirtyBlockCache → DirtyBlockCache
delete ptr branch d = record d { blocks = discard (dirty_id ptr branch) d.blocks }

unfoldable pub is_dirty : BlockPointer → ℕ → DirtyBlockCache → Bool
is_dirty ptr branch d = elim (find (dirty_id ptr branch) d.blocks) [ none ↦ false | some b ↦ true ]

abbrev pub signal_decreased_bytes : DirtyBlockCache → DirtyBlockCache
signal_decreased_bytes d = record d { has_decreased = true }

unfoldable pub update_unsynced_bytes : ℕ → Bool → DirtyBlockCache → DirtyBlockCache
update_unsynced_bytes new_bytes was_syncing d =
    let unsynced = add64 d.unsynced_dirty_bytes new_bytes in
    record d {
      unsynced_dirty_bytes = unsynced;
      total_dirty_bytes = add64 d.total_dirty_bytes new_bytes;
      syncing_dirty_bytes =
          if was_syncing then add64 d.syncing_dirty_bytes new_bytes else d.syncing_dirty_bytes;
      has_decreased = is_negative unsynced || d.has_decreased;
    }

unfoldable pub update_syncing_bytes : ℕ → DirtyBlockCache → DirtyBlockCache
update_syncing_bytes size d = record d { syncing_dirty_bytes = add64 d.syncing_dirty_bytes size }

unfoldable pub block_sync_finished : ℕ → DirtyBlockCache → DirtyBlockCache
block_sync_finished size d = record d {
  unsynced_dirty_bytes = sub64 d.unsynced_dirty_bytes size;
  syncing_dirty_bytes =
      if is_positive size then sub64 d.syncing_dirty_bytes size else d.syncing_dirty_bytes;
  has_decreased = is_positive size || d.has_decreased;
}

-- The buffer that `SyncFinished` leaves: it grows by what was sent, up to the maximum.
unfoldable pub grown_buffer : ℕ → DirtyBlockCache → ℕ
grown_buffer size d =
    if lt64 size d.min_sync_buffer_size
    then d.sync_buffer_size
    else let grown = add64 d.sync_buffer_size size in
      if lt64 d.max_sync_buffer_size grown then d.max_sync_buffer_size else grown

unfoldable pub sync_finished : ℕ → DirtyBlockCache → DirtyBlockCache
unfolding grown_buffer
sync_finished size d = if not (is_positive size) then d else record d {
  total_dirty_bytes = sub64 d.total_dirty_bytes size;
  sync_buffer_size = grown_buffer size d;
  has_decreased = true;
}

unfoldable pub should_force_sync : DirtyBlockCache → Bool
should_force_sync d = lt64 d.sync_buffer_size d.unsynced_dirty_bytes

-- The buffer after a write that was blocked for long: half of it, but not below the minimum.
unfoldable pub halved_buffer : DirtyBlockCache → ℕ
halved_buffer d =
    let half = halve64 d.sync_buffer_size in
    if lt64 half d.min_sync_buffer_size then d.min_sync_buffer_size else half

-- `acceptNewWrite`; `was_slow` tells whether more than half of the time to the deadline has passed, which
-- the source computes with floating-point numbers.
unfoldable pub accept_new_write : ℕ → Bool → DirtyBlockCache → Bool × DirtyBlockCache
unfolding halved_buffer
accept_new_write new_bytes was_slow d =
    if lt64 d.total_dirty_bytes d.sync_buffer_size
    then (
      true,
      record d {
        unsynced_dirty_bytes = add64 d.unsynced_dirty_bytes new_bytes;
        total_dirty_bytes = add64 d.total_dirty_bytes new_bytes;
        sync_buffer_size = if was_slow then halved_buffer d else d.sync_buffer_size;
      },
    )
    else (false, d)

-- `RequestPermissionToDirty` up to the wait on the channel of requests, which holds 1000: `err
-- would_block` stands for a request that has to wait there.
unfoldable pub request_permission_to_dirty : DirtyReq → Action DirtyBlockCache (Unit {0})
request_permission_to_dirty req d =
    if d.is_shutdown
    then (err err_shutdown, d)
    else if is_negative req.bytes
    then (err panicked, d)
    else if ltb (length d.requests) 1000
    then (ok tt, record d { requests = d.requests ++ req ∷ [] })
    else (err would_block, d)

-- What `select` of `processPermission` does where it receives a request: only if none is waiting.
unfoldable pub receive_request : DirtyBlockCache → DirtyBlockCache
receive_request d = elim d.current_req [
  | some req ↦ d
  | none ↦ elim d.requests [
    | [] ↦ d
    | req ∷ rest ↦ record d { current_req = some req; requests = rest }
  ]
]

-- The rest of a round of `processPermission`: the waiting request is granted if there is no
-- backpressure (`calcBackpressure` uses floating-point numbers and the clock: its result is `backpressure`)
-- and the write is accepted.
unfoldable pub consider_request : ℕ → Bool → DirtyBlockCache → DirtyBlockCache
unfolding accept_new_write
consider_request backpressure was_slow d = elim d.current_req [
  | none ↦ d
  | some req ↦
      let (accepted, d') = accept_new_write req.bytes was_slow d in
      if (backpressure == 0) && accepted
      then record d' { current_req = none; granted = req.resp_chan ∷ d'.granted }
      else d
]

abbrev pub add_requests : List DirtyReq → ℕ → ℕ
add_requests [] n = n
add_requests (req ∷ reqs) n = add_requests reqs (add64 n req.bytes)

-- `Shutdown`, after the goroutine has ended; a second call closes a closed channel.
unfoldable pub shutdown : Action DirtyBlockCache (Unit {0})
shutdown d =
    let closed = record d {
      is_shutdown = true;
      unsynced_dirty_bytes = add_requests d.requests d.unsynced_dirty_bytes;
      total_dirty_bytes = add_requests d.requests d.total_dirty_bytes;
      requests = [];
    } in
    if d.is_shutdown then (err panicked, d) else (
      if not (closed.unsynced_dirty_bytes == 0)
            || not (closed.total_dirty_bytes == 0)
            || not (closed.syncing_dirty_bytes == 0)
          then err leftover_bytes
          else ok tt,
      closed,
    )
