-- ===== src/BlockServer/TlfJournal/Replay.antt =====
-- `readJournalLocked` of libkbfs/bserver_tlf_journal.go: the references, from the journal on disk.
use kbfs.Prelude.{
  ℕ, zero, suc, ◌+◌, ◌-◌, ◌%◌, ◌<◌, ◌≡◌, true, false, leb, if◌then◌else◌, List, [], ◌∷◌, ◌++◌,
  Result, ok, err, length, is_not_exist, out_of_fuel, arith, subst, inl, inr,
}
use kbfs.Prelude.Chain.{◌>>=◌, Result-cases}
use kbfs.Codec.{Codec}
use kbfs.Ordinal.{two64}
use kbfs.DiskJournal.{Journal, read_earliest_ordinal, read_latest_ordinal, read_journal_entry}
use kbfs.DiskJournal.Represents.{Entries, Represents}
use kbfs.BlockServer.TlfJournal.{BserverJournalEntry, RefsMap, apply_entry}

-- Replaying a list of entries, one after the other.
unfoldable pub replay : List BserverJournalEntry → RefsMap → Result RefsMap
replay [] refs = ok refs
replay (e ∷ es) refs = apply_entry e refs >>= replay es

pub replay-append :
    (es : List BserverJournalEntry) (e : BserverJournalEntry) (refs refs' : RefsMap)
    → replay es refs ≡ ok refs'
    → replay (es ++ e ∷ []) refs ≡ apply_entry e refs'
unfolding replay
replay-append [] e refs refs' h = elim (Result-cases (apply_entry e refs)) [
  | inl (r, a) ↦ ground arith
  | inr (x, a) ↦ ground arith
]
replay-append (x ∷ es) e refs refs' h = elim (Result-cases (apply_entry x refs)) [
  | inl (r, a) ↦ ground (arith, replay-append es e r refs')
  | inr (y, a) ↦ absurd (ground arith)
]

module _ (codec : Codec BserverJournalEntry) where
  -- The loop `for i := first; i <= last; i++`. After ordinal 2^64 - 1 the counter wraps around.
  unfoldable pub replay_loop : ℕ → ℕ → ℕ → RefsMap → Journal → Result RefsMap
  replay_loop zero i last refs j = err out_of_fuel
  replay_loop (suc fuel) i last refs j = elim (leb i last) [
    | false ↦ ok refs
    | true ↦
        read_journal_entry codec i j
        >>= (λ e. apply_entry e refs >>= (λ refs'. replay_loop fuel ((i + 1) % two64) last refs' j))
  ]

  -- `readJournalLocked`, with fuel for one round more than there are entries.
  unfoldable pub read_journal : Journal → Result RefsMap
  unfolding replay_loop
  read_journal j = elim (read_earliest_ordinal j) [
    | err e ↦ if is_not_exist e then ok [] else err e
    | ok first ↦
        read_latest_ordinal j >>= (λ last. replay_loop (suc (last + 1 - first)) first last [] j)
  ]

  replay_loop-replay :
      (fuel i last : ℕ) (es : List BserverJournalEntry) (refs : RefsMap) (j : Journal)
      → length es < fuel
      → i + length es ≡ last + 1
      → last + 1 < two64
      → Entries codec j i es
      → replay_loop fuel i last refs j ≡ replay es refs
  unfolding replay_loop replay
  replay_loop-replay zero i last es refs j f n m h = absurd (omega arith)
  replay_loop-replay (suc fuel) i last [] refs j f n m h = ground arith
  replay_loop-replay (suc fuel) i last (e ∷ es) refs j f n m h =
      elim (Result-cases (apply_entry e refs)) [
        | inl (refs', ap_) ↦ ground (
          arith,
          replay_loop-replay fuel (i + 1) last es refs' j (omega arith) (omega arith) m
              (subst (λ k. Entries codec j k es) (omega arith) h.1),
        )
        | inr (x, bad) ↦ ground arith
      ]

  -- Reading the journal back gives what its entries give, one after the other, from no references; the
  -- loop ends if the last ordinal is not 2^64 - 1.
  pub read_journal-replay :
      (j : Journal) (first : ℕ) (es : List BserverJournalEntry)
      → Represents codec j first es
      → first + length es < two64
      → read_journal j ≡ replay es []
  unfolding read_journal replay
  read_journal-replay j first [] r m = ground (arith, r.earliest)
  read_journal-replay j first (e ∷ es) r m = ground (
    arith,
    r.earliest,
    r.latest,
    replay_loop-replay (suc (first + length es + 1 - first)) first (first + length es) (e ∷ es) [] j
        (omega arith) (omega arith) (omega arith) r.entries,
  )
