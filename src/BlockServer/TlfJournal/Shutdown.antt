-- ===== src/BlockServer/TlfJournal/Shutdown.antt =====
-- `shutdown` panics exactly where memory and journal have come apart.
use kbfs.Prelude.{
  ℕ, ◌<◌, ◌≡◌, refl, true, false, none, some, List, [], ◌∷◌, Result, ok, err, arith, panicked,
  block_non_existent, ◌∙◌, ap,
}
use kbfs.Prelude.Maps.{lookup, insert, lookup-insert}
use kbfs.FileStore.{Bytes}
use kbfs.Codec.{Codec}
use kbfs.Ordinal.{two64}
use kbfs.BlockServer.Refs.{BlockContext, BlockRefMap, live_block_ref, archived_block_ref, put_ref}
use kbfs.BlockServer.Refs.Laws.{same_context_refl, put_ref-lookup}
use kbfs.BlockServer.TlfJournal.{
  BserverTlfJournal, BserverJournalEntry, put_dropping, set_refs, get_ref_entry, put_ref_entry,
  archive_loop,
}
use kbfs.BlockServer.TlfJournal.Replay.{read_journal, read_journal-replay}
use kbfs.BlockServer.TlfJournal.Calls.{same_status, same_entry, shutdown, archive_references}
use kbfs.BlockServer.TlfJournal.Preserve.{Agrees}
use kbfs.BlockServer.TlfJournal.Distinct.{replay-AllDistinct}
use kbfs.BlockServer.TlfJournal.DeepEqual.{deep_equal_refl, deep_equal_differs}

module _ (codec : Codec BserverJournalEntry) (hash : Bytes → Result ℕ) where
  -- Where memory and journal agree, reading the journal gives the references in memory.
  pub read_journal-Agrees :
      (s : BserverTlfJournal) (n : ℕ)
      → Agrees codec s n
      → n < two64
      → read_journal codec s.j ≡ ok s.refs
  unfolding Agrees
  read_journal-Agrees s n (es, c, m) b =
      read_journal-replay codec s.j 0 es c.journal (omega arith) ∙ c.replayed

  -- Then `shutdown` does not panic.
  pub shutdown-Agrees :
      (s : BserverTlfJournal) (n : ℕ)
      → Agrees codec s n
      → n < two64
      → shutdown codec hash s ≡ (ok tt, record s { is_shutdown = true })
  unfolding shutdown Agrees
  shutdown-Agrees s n (es, c, m) b =
      let (distinct, inner) = replay-AllDistinct es [] s.refs (tt, tt) c.replayed in
      ground (arith, read_journal-Agrees s n (es, c, m) b, deep_equal_refl s.refs distinct inner)

  half_done_lem :
      (s : BserverTlfJournal) (id : ℕ) (refs refs' : BlockRefMap) (c d : BlockContext)
      (ds : List BlockContext)
      → s.is_shutdown ≡ false
      → lookup id s.refs ≡ some refs
      → lookup c.ref_nonce refs ≡ some (record { status = live_block_ref; context = c })
      → lookup d.ref_nonce refs ≡ none
      → put_ref refs c archived_block_ref ≡ ok refs'
      → archive_references codec hash id (c ∷ d ∷ ds) s
        ≡ (err block_non_existent, set_refs id refs' s)
  unfolding archive_references archive_loop get_ref_entry put_ref_entry put_dropping
  half_done_lem s id refs refs' c d ds o l p q e = ground (
    arith,
    same_context_refl c,
    lookup-insert id id refs' s.refs,
    put_ref-lookup refs refs' c archived_block_ref d.ref_nonce e,
  )

  -- On a journal that is not shut down, whose file system refuses nothing, and which has fewer than 2^64
  -- entries that replay to the references in memory: `archiveReferences` on a live reference `c` of the block
  -- followed by a reference `d` that the block does not have fails, leaves `c` archived in memory and the
  -- journal's files as they were, and the `shutdown` that follows panics.
  pub archive_half_done :
      (s : BserverTlfJournal) (n id : ℕ) (refs : BlockRefMap) (c d : BlockContext)
      (ds : List BlockContext)
      → Agrees codec s n
      → n < two64
      → s.is_shutdown ≡ false
      → lookup id s.refs ≡ some refs
      → lookup c.ref_nonce refs ≡ some (record { status = live_block_ref; context = c })
      → lookup d.ref_nonce refs ≡ none
      → let (r, s') = archive_references codec hash id (c ∷ d ∷ ds) s in
        (r ≡ err block_non_existent)
        × (s'.refs
            ≡ insert id
                (insert c.ref_nonce (record { status = archived_block_ref; context = c }) refs)
                s.refs)
        × (s'.j ≡ s.j)
        × ((shutdown codec hash s').0 ≡ err panicked)
  unfolding shutdown put_ref same_entry same_status
  archive_half_done s n id refs c d ds a b o l p q =
      let refs' = insert c.ref_nonce (record { status = archived_block_ref; context = c }) refs in
      let e : put_ref refs c archived_block_ref ≡ ok refs' = ground (arith, same_context_refl c) in
      let half = half_done_lem s id refs refs' c d ds o l p q e in
      let apart =
        deep_equal_differs s.refs (insert id refs' s.refs) id c.ref_nonce refs refs'
          (record { status = live_block_ref; context = c })
          (record { status = archived_block_ref; context = c }) l
          (ground (arith, lookup-insert id id refs' s.refs)) p
          (ground (
            arith,
            lookup-insert c.ref_nonce c.ref_nonce
                (record { status = archived_block_ref; context = c }) refs,
          ))
          refl in
      (
        ground (arith, half),
        ap (λ p. p.1.refs) half,
        ap (λ p. p.1.j) half,
        ground (arith, half, apart, read_journal-Agrees s n a b),
      )
