-- ===== src/MdServer/Locks.antt =====
-- The truncate locks of the local metadata servers: `mdServerLocalTruncateLockManager` of
-- libkbfs/mdserver_local_shared.go. Device keys and folders are numbers.
use kbfs.Prelude.{
  ℕ, Bool, true, ◌==◌, ◌≡◌, ◌≢◌, ◌⊎◌, if◌then◌else◌, none, some, List, [], ◌∷◌, ok, err, md_locked,
  arith, ==_iff,
}
use kbfs.Prelude.Action.{Action}
use kbfs.Prelude.Maps.{Map, lookup, insert, erase, lookup-insert, lookup-erase}

-- Which device holds the lock of a folder
abbrev pub TruncateLocks : Type 0
TruncateLocks = Map ℕ

unfoldable pub new_truncate_lock_manager : TruncateLocks
new_truncate_lock_manager = []

unfoldable pub truncate_lock : ℕ → ℕ → Action TruncateLocks Bool
truncate_lock kid tlf locks = elim (lookup tlf locks) [
  | none ↦ (ok true, insert tlf kid locks)
  | some holder ↦ if holder == kid then (ok true, locks) else (err md_locked, locks)
]

unfoldable pub truncate_unlock : ℕ → ℕ → Action TruncateLocks Bool
truncate_unlock kid tlf locks = elim (lookup tlf locks) [
  | none ↦ (ok true, locks)
  | some holder ↦ if holder == kid then (ok true, erase tlf locks) else (err md_locked, locks)
]

pub data LockCall : Type 0 where
  lock_call unlock_call : ℕ → ℕ → LockCall

unfoldable pub perform_lock_call : LockCall → TruncateLocks → TruncateLocks
unfolding truncate_lock truncate_unlock
perform_lock_call (lock_call kid tlf) locks = (truncate_lock kid tlf locks).1
perform_lock_call (unlock_call kid tlf) locks = (truncate_unlock kid tlf locks).1

abbrev pub run_lock_calls : List LockCall → TruncateLocks → TruncateLocks
run_lock_calls [] locks = locks
run_lock_calls (c ∷ cs) locks = run_lock_calls cs (perform_lock_call c locks)

-- No call of these is an unlock of the folder by the device.
abbrev pub NoUnlock : ℕ → ℕ → List LockCall → Type 0
NoUnlock kid tlf [] = Unit
NoUnlock kid tlf (lock_call k t ∷ cs) = NoUnlock kid tlf cs
NoUnlock kid tlf (unlock_call k t ∷ cs) = ((k ≢ kid) ⊎ (t ≢ tlf)) × NoUnlock kid tlf cs

holder_keeps :
    (kid tlf : ℕ) (cs : List LockCall) (locks : TruncateLocks)
    → NoUnlock kid tlf cs
    → lookup tlf locks ≡ some kid
    → lookup tlf (run_lock_calls cs locks) ≡ some kid
unfolding perform_lock_call truncate_lock truncate_unlock
holder_keeps kid tlf [] locks n h = h
holder_keeps kid tlf (lock_call k t ∷ cs) locks n h =
    holder_keeps kid tlf cs (perform_lock_call (lock_call k t) locks) n
      (ground (arith, lookup-insert t tlf k locks, ==_iff t tlf))
holder_keeps kid tlf (unlock_call k t ∷ cs) locks (differs, n) h =
    holder_keeps kid tlf cs (perform_lock_call (unlock_call k t) locks) n
      (ground (arith, lookup-erase t tlf locks, ==_iff t tlf, differs))

-- A device that has got the truncate lock of a folder keeps it, whatever other devices ask for and until it
-- unlocks the folder itself: till then, another device gets neither the lock nor an unlock.
pub truncate_lock-exclusive :
    (kid other tlf : ℕ) (cs : List LockCall) (locks : TruncateLocks)
    → (truncate_lock kid tlf locks).0 ≡ ok true
    → NoUnlock kid tlf cs
    → other ≢ kid
    → let held = run_lock_calls cs (truncate_lock kid tlf locks).1 in
      (truncate_lock other tlf held ≡ (err md_locked, held))
      × (truncate_unlock other tlf held ≡ (err md_locked, held))
      × (truncate_lock kid tlf held ≡ (ok true, held))
unfolding truncate_lock truncate_unlock
truncate_lock-exclusive kid other tlf cs locks h n differs =
    let got : lookup tlf (truncate_lock kid tlf locks).1 ≡ some kid =
      ground (arith, lookup-insert tlf tlf kid locks) in
    let held = holder_keeps kid tlf cs (truncate_lock kid tlf locks).1 n got in
    (ground (arith, held), ground (arith, held), ground (arith, held))
