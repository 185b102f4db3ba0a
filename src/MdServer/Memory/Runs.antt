-- ===== src/MdServer/Memory/Runs.antt =====
-- What sequences of calls on an `MDServerMemory` keep.
use kbfs.Prelude.{◌+◌, ◌<◌, false, length, ℕ, ◌≡◌, sym, subst, Bool, some, List, Result, ok, arith}
use kbfs.Prelude.Int.{ℤ, pos}
use kbfs.Prelude.Dict.{find}
use kbfs.Codec.{Codec}
use kbfs.RootMetadata.{RootMetadata, MergeStatus, BareTlfHandle}
use kbfs.MdServer.TlfStorage.{MdParams}
use kbfs.MdServer.Memory.Keys.{MdBlockKey, block_key}
use kbfs.MdServer.Memory.{
  MdServerMemory, MdBlockMemList, MdSession, new_md_server_memory, check_params, get_md_range,
  is_no_branch, shutdown_memory,
}
use kbfs.MdServer.Memory.Sessions.{
  get_handle_id, register_update, prune_branch, lock_truncate, unlock_truncate,
}
use kbfs.MdServer.Memory.Put.{memory_put}
use kbfs.MdServer.Memory.Preserve.{memory_put-AllValid}
use kbfs.MdServer.Memory.Revisions.{AreRevisions, AllValid, find-AllValid}
use kbfs.MdServer.Memory.Range.{in_range, AreDecoded, get_md_range-in_range}
use kbfs.Revision.{two63}

keeps :
    (p : MdParams) {a b : List (MdBlockKey × MdBlockMemList)} → b ≡ a → AllValid p a → AllValid p b
keeps p e v = subst (AllValid p) (sym e) v

-- Any sequence of calls, by any sessions
pub data MemoryReach (p : MdParams) : MdServerMemory → Type 0 where
  start : MemoryReach p new_md_server_memory
  puts :
      {s : MdServerMemory} (u : MdSession) (md : RootMetadata)
      → MemoryReach p s
      → MemoryReach p (memory_put p u md s).1
  prunes :
      {s : MdServerMemory} (u : MdSession) (tlf bid : ℕ)
      → MemoryReach p s
      → MemoryReach p (prune_branch u tlf bid s).1
  makes :
      {s : MdServerMemory} (codec : Codec BareTlfHandle) (random_id : Bool → Result ℕ)
      (u : MdSession) (handle : BareTlfHandle)
      → MemoryReach p s
      → MemoryReach p (get_handle_id p codec random_id u handle s).1
  registers :
      {s : MdServerMemory} (u : MdSession) (tlf : ℕ) (curr_head : ℤ) (channel : ℕ)
      → MemoryReach p s
      → MemoryReach p (register_update p u tlf curr_head channel s).1
  locks :
      {s : MdServerMemory} (u : MdSession) (tlf : ℕ)
      → MemoryReach p s
      → MemoryReach p (lock_truncate u tlf s).1
  unlocks :
      {s : MdServerMemory} (u : MdSession) (tlf : ℕ)
      → MemoryReach p s
      → MemoryReach p (unlock_truncate u tlf s).1
  stops : {s : MdServerMemory} → MemoryReach p s → MemoryReach p (shutdown_memory s)

-- After any sequence of calls, each branch that is there has metadata with revisions that count up from its
-- first by one, all of which decode.
pub MemoryReach-AllValid :
    (p : MdParams) {s : MdServerMemory} → MemoryReach p s → AllValid p s.md_db
unfolding new_md_server_memory prune_branch get_handle_id register_update lock_truncate
    unlock_truncate shutdown_memory
MemoryReach-AllValid p start = tt
MemoryReach-AllValid p (puts {s = s} u md r) =
    memory_put-AllValid p u md s (MemoryReach-AllValid p r)
MemoryReach-AllValid p (prunes {s = s} u tlf bid r) =
    keeps p (ground arith) (MemoryReach-AllValid p r)
MemoryReach-AllValid p (makes {s = s} codec random_id u handle r) =
    keeps p (ground arith) (MemoryReach-AllValid p r)
MemoryReach-AllValid p (registers {s = s} u tlf curr_head channel r) =
    keeps p (ground arith) (MemoryReach-AllValid p r)
MemoryReach-AllValid p (locks {s = s} u tlf r) = keeps p (ground arith) (MemoryReach-AllValid p r)
MemoryReach-AllValid p (unlocks {s = s} u tlf r) = keeps p (ground arith) (MemoryReach-AllValid p r)
MemoryReach-AllValid p (stops r) = MemoryReach-AllValid p r

-- After any sequence of calls, on a branch that is there, that the caller may read, and whose first revision
-- is positive and whose last is below 2^63 - 1: the branch's blocks decode to metadata with revisions that
-- count up from the first by one, and `GetRange` with bounds from 0 to 2^63 - 1 returns, with no panic, just
-- those of them whose revision is within the bounds, in this order.
pub MemoryReach-get_md_range :
    (p : MdParams) {s : MdServerMemory} (u : MdSession) (tlf bid bid' : ℕ) (status : MergeStatus)
    (first from to : ℕ) (l : MdBlockMemList)
    → MemoryReach p s
    → check_params p u tlf bid status s ≡ ok bid'
    → is_no_branch status bid' ≡ false
    → find (record { tlf_id = tlf; branch_id = bid' }) s.md_db ≡ some l
    → l.initial_revision ≡ pos first
    → 0 < first
    → first + length l.blocks < two63
    → from < two63
    → to < two63
    → (all : List RootMetadata) × AreDecoded p l.blocks all
      × AreRevisions (pos first) all
      × (get_md_range p u tlf bid status (pos from) (pos to) s ≡ ok (in_range from to all))
MemoryReach-get_md_range p {s} u tlf bid bid' status first from to l r c b there e =
    get_md_range-in_range p u tlf bid bid' status first from to s l
      (find-AllValid p _ l s.md_db (MemoryReach-AllValid p r) there).0 c b there e
