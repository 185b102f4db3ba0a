-- ===== src/BlockServer/Disk/Runs.antt =====
-- What each call of the disk block server does to the journals, and sequences of calls.
use kbfs.Prelude.{
  ℕ, zero, suc, ◌+◌, ◌<◌, ◌≡◌, refl, List, [], ◌∷◌, Result, ok, arith, subst, length, sym, ap, ◌∙◌,
}
use kbfs.Prelude.{inl, inr, Bool-cases, not, ◌==◌}
use kbfs.Prelude.Chain.{Result-cases}
use kbfs.Prelude.Maps.{Map}
use kbfs.Prelude.Action.{Action, reads}
use kbfs.FileStore.{Bytes}
use kbfs.Codec.{Codec}
use kbfs.Ordinal.{two64}
use kbfs.BlockServer.Refs.{BlockContext, get_ref_nonce}
use kbfs.BlockServer.TlfJournal.{BserverTlfJournal, BserverJournalEntry}
use kbfs.BlockServer.TlfJournal.Calls.{
  put_data, add_reference, remove_references, archive_references, get_data,
}
use kbfs.BlockServer.TlfJournal.Consistent.{Encodes}
use kbfs.BlockServer.TlfJournal.Preserve.{
  Agrees, put_data-Agrees, add_reference-Agrees, remove_references-Agrees,
  archive_references-Agrees,
}
use kbfs.BlockServer.TlfJournal.Runs.{IsFresh}
use kbfs.BlockServer.TlfJournal.Open.{
  put_data-StaysOpen, add_reference-StaysOpen, remove_references-StaysOpen,
  archive_references-StaysOpen,
}
use kbfs.BlockServer.Disk.{
  BlockServerDisk, FolderDir, OpenJournal, on_folder, put, get, add_block_reference,
  remove_block_reference, archive_block_references, remove_loop, archive_blocks,
  new_block_server_dir,
}
use kbfs.BlockServer.Disk.Good.{IsGood, AllGood, IsSound, AreApart, journal_of, AllGood-suc}
use kbfs.BlockServer.Disk.Steps.{on_folder-IsSound}

-- Every block comes with at least one context.
abbrev pub HasContexts : List (ℕ × List BlockContext) → Type 0
HasContexts [] = Unit
HasContexts ((id, []) ∷ rest) = ⊥
HasContexts ((id, c ∷ cs) ∷ rest) = HasContexts rest

module _ (codec : Codec BserverJournalEntry) (hash : Bytes → Result ℕ) where
  -- A call on one journal takes it from agreement with `n` entries to agreement with `n'`.
  abbrev Keeps : {A : Type 0} → Action BserverTlfJournal A → Result A → ℕ → ℕ → Type 0
  Keeps call r n n' =
      (j j' : BserverTlfJournal)
      → IsGood codec hash j n
      → call j ≡ (r, j')
      → IsGood codec hash j' n'

  module _ (enc : Encodes codec) where
    put_data-Keeps :
        (id : ℕ) (c : BlockContext) (buf half : Bytes) (r : Result (Unit {0})) (n : ℕ)
        → suc n < two64
        → Keeps (put_data codec hash id c buf half) r n (suc n)
    unfolding IsGood
    put_data-Keeps id c buf half r n b j j' (a, o) h = (
      subst (λ t. Agrees codec t (suc n)) (ap (λ p. p.1) h)
          (put_data-Agrees codec enc hash id c buf half j n a b),
      ap (λ p. p.1.is_shutdown) (sym h) ∙ put_data-StaysOpen codec hash id c buf half j ∙ o,
    )

    add_reference-Keeps :
        (id : ℕ) (c : BlockContext) (r : Result (Unit {0})) (n : ℕ)
        → suc n < two64
        → Keeps (add_reference codec hash id c) r n (suc n)
    unfolding IsGood
    add_reference-Keeps id c r n b j j' (a, o) h = (
      subst (λ t. Agrees codec t (suc n)) (ap (λ p. p.1) h)
          (add_reference-Agrees codec enc hash id c j n a b),
      ap (λ p. p.1.is_shutdown) (sym h) ∙ add_reference-StaysOpen codec hash id c j ∙ o,
    )

    remove_loop-ok :
        (id : ℕ) (contexts : List BlockContext) (rest : List (ℕ × List BlockContext)) (live : Map ℕ)
        (j j' : BserverTlfJournal)
        → remove_loop codec hash ((id, contexts) ∷ rest) j ≡ (ok live, j')
        → (k : ℕ) × (j1 : BserverTlfJournal) × (live1 : Map ℕ) × (remove_references codec hash id
              contexts j
            ≡ (ok k, j1))
          × (remove_loop codec hash rest j1 ≡ (ok live1, j'))
    unfolding remove_loop
    remove_loop-ok id contexts rest live j j' h =
        let j1 = (remove_references codec hash id contexts j).1 in
        elim (Result-cases (remove_references codec hash id contexts j).0) [
          | inr (x, e) ↦ absurd (ground arith)
          | inl (k, e) ↦ elim (Result-cases (remove_loop codec hash rest j1).0) [
            | inr (x, e') ↦ absurd (ground arith)
            | inl (live1, e') ↦ (k, j1, live1, ground arith, ground arith)
          ]
        ]

    remove_loop-Keeps :
        (cs : List (ℕ × List BlockContext)) (live : Map ℕ) (n : ℕ)
        → n + length cs < two64
        → Keeps (remove_loop codec hash cs) (ok live) n (n + length cs)
    unfolding IsGood remove_loop
    remove_loop-Keeps [] live n b j j' g h =
        subst (λ k. IsGood codec hash j' k) {x = n} (omega arith)
          (subst (λ t. IsGood codec hash t n) (ap (λ p. p.1) h) g)
    remove_loop-Keeps ((id, contexts) ∷ rest) live n b j j' (a, o) h =
        let (k, j1, live1, e, h1) = remove_loop-ok id contexts rest live j j' h in
        let g1 : IsGood codec hash j1 (suc n) = (
          remove_references-Agrees codec enc hash id contexts j j1 n k a (omega arith) e,
          ap (λ p. p.1.is_shutdown) (sym e)
              ∙ remove_references-StaysOpen codec hash id contexts j
              ∙ o,
        ) in
        subst (λ t. IsGood codec hash j' t) (omega arith)
          (remove_loop-Keeps rest live1 (suc n) (omega arith) j1 j' g1 h1)

    archive_blocks-ok :
        (id : ℕ) (contexts : List BlockContext) (rest : List (ℕ × List BlockContext))
        (j j' : BserverTlfJournal)
        → archive_blocks codec hash ((id, contexts) ∷ rest) j ≡ (ok tt, j')
        → (j1 : BserverTlfJournal) × (archive_references codec hash id contexts j ≡ (ok tt, j1))
          × (archive_blocks codec hash rest j1 ≡ (ok tt, j'))
    unfolding archive_blocks
    archive_blocks-ok id contexts rest j j' h =
        elim (Result-cases (archive_references codec hash id contexts j).0) [
          | inr (x, e) ↦ absurd (ground arith)
          | inl (_, e) ↦
              ((archive_references codec hash id contexts j).1, ground arith, ground arith)
        ]

    archive_blocks-Keeps :
        (cs : List (ℕ × List BlockContext)) (n : ℕ)
        → HasContexts cs
        → n + length cs < two64
        → Keeps (archive_blocks codec hash cs) (ok tt) n (n + length cs)
    unfolding IsGood archive_blocks
    archive_blocks-Keeps [] n c b j j' g h =
        subst (λ k. IsGood codec hash j' k) {x = n} (omega arith)
          (subst (λ t. IsGood codec hash t n) (ap (λ p. p.1) h) g)
    archive_blocks-Keeps ((id, []) ∷ rest) n c b j j' g h = absurd c
    archive_blocks-Keeps ((id, d ∷ ds) ∷ rest) n c b j j' (a, o) h =
        let (j1, e, h1) = archive_blocks-ok id (d ∷ ds) rest j j' h in
        let g1 : IsGood codec hash j1 (suc n) = (
          archive_references-Agrees codec enc hash id d ds j j1 n a (omega arith) e,
          ap (λ p. p.1.is_shutdown) (sym e)
              ∙ archive_references-StaysOpen codec hash id (d ∷ ds) j
              ∙ o,
        ) in
        subst (λ t. IsGood codec hash j' t) (omega arith)
          (archive_blocks-Keeps rest (suc n) c (omega arith) j1 j' g1 h1)

    AllGood-add :
        (path : ℕ → Bytes) (dirs : Bytes → FolderDir) (m : Map OpenJournal) (n k : ℕ)
        → AllGood codec hash path dirs m n
        → AllGood codec hash path dirs m (n + k)
    AllGood-add path dirs m n zero g =
        subst (λ i. AllGood codec hash path dirs m i) {x = n} (omega arith) g
    AllGood-add path dirs m n (suc k) g =
        subst (λ i. AllGood codec hash path dirs m i) (omega arith)
          (AllGood-suc codec hash path dirs m (n + k) (AllGood-add path dirs m n k g))

    -- `Steps path dirs n s`: calls on a new server over the disk have led to the server `s`, and have
    -- written at most `n` entries into any one journal. A `Get`, a `Put` and an `AddBlockReference` may fail.
    pub data Steps (path : ℕ → Bytes) (dirs : Bytes → FolderDir)
        : ℕ → BlockServerDisk → Type 0 where
      start : Steps path dirs zero (new_block_server_dir path dirs)
      get_step :
          {n : ℕ} {s : BlockServerDisk} (id tlf : ℕ) (c : BlockContext)
          → Steps path dirs n s
          → Steps path dirs n (get codec hash id tlf c s).1
      put_step :
          {n : ℕ} {s : BlockServerDisk} (id tlf : ℕ) (c : BlockContext) (buf half : Bytes)
          → Steps path dirs n s
          → Steps path dirs (suc n) (put codec hash id tlf c buf half s).1
      add_step :
          {n : ℕ} {s : BlockServerDisk} (id tlf : ℕ) (c : BlockContext)
          → Steps path dirs n s
          → Steps path dirs (suc n) (add_block_reference codec hash id tlf c s).1
      remove_step :
          {n : ℕ} {s s' : BlockServerDisk} (tlf : ℕ) (cs : List (ℕ × List BlockContext))
          (live : Map ℕ)
          → Steps path dirs n s
          → remove_block_reference codec hash tlf cs s ≡ (ok live, s')
          → Steps path dirs (n + length cs) s'
      archive_step :
          {n : ℕ} {s s' : BlockServerDisk} (tlf : ℕ) (cs : List (ℕ × List BlockContext))
          → HasContexts cs
          → Steps path dirs n s
          → archive_block_references codec hash tlf cs s ≡ (ok tt, s')
          → Steps path dirs (n + length cs) s'

    module _ (path : ℕ → Bytes) (apart : AreApart path) (dirs : Bytes → FolderDir)
        (fresh : (tlf : ℕ) → IsFresh codec hash (journal_of codec hash (dirs (path tlf)))) where
      -- One more entry than before is allowed.
      IsSound-suc :
          {n : ℕ} {s : BlockServerDisk}
          → (m : Map OpenJournal) × IsSound codec hash path s m n
          → (m : Map OpenJournal) × IsSound codec hash path s m (suc n)
      IsSound-suc {n} {s} (m, i) = (
        m,
        record {
          is_open = i.is_open;
          no_shutdown_func = i.no_shutdown_func;
          same_path = i.same_path;
          good = AllGood-suc codec hash path s.dirs m n i.good;
          fresh = i.fresh;
        },
      )

      -- After any such calls every open journal agrees with its directory.
      pub Steps-IsSound :
          {n : ℕ} {s : BlockServerDisk}
          → Steps path dirs n s
          → n < two64
          → (m : Map OpenJournal) × IsSound codec hash path s m n
      unfolding new_block_server_dir get put add_block_reference remove_block_reference
          archive_block_references
      Steps-IsSound start b = (
        [],
        record {
          is_open = refl;
          no_shutdown_func = refl;
          same_path = refl;
          good = tt;
          fresh = λ tlf l. fresh tlf;
        },
      )
      Steps-IsSound (get_step {n = n} {s = s} id tlf c r) b =
          let (m, i) = Steps-IsSound r b in
          on_folder-IsSound codec hash path apart tlf (reads (get_data codec hash id c)) s _ _ m n n
            (λ j j' g h. subst (λ t. IsGood codec hash t n) (ap (λ p. p.1) h) g) (λ d l g. g) i refl
      Steps-IsSound (put_step {n = n} {s = s} id tlf c buf half r) b =
          let (m, i) = Steps-IsSound r (omega arith) in
          elim (Bool-cases (not (get_ref_nonce c == 0))) [
            | inl bad ↦
                subst (λ t. (l : Map OpenJournal) × IsSound codec hash path t l (suc n)) {x = s}
                  (ground arith) (IsSound-suc (m, i))
            | inr good ↦
                subst (λ t. (l : Map OpenJournal) × IsSound codec hash path t l (suc n))
                  {x = (on_folder codec hash tlf (put_data codec hash id c buf half) s).1}
                  (ground arith)
                  (on_folder-IsSound codec hash path apart tlf (put_data codec hash id c buf half) s
                    _ _ m n (suc n) (put_data-Keeps id c buf half _ n b)
                    (λ d l. AllGood-suc codec hash path d l n) i refl)
          ]
      Steps-IsSound (add_step {n = n} {s = s} id tlf c r) b =
          let (m, i) = Steps-IsSound r (omega arith) in
          on_folder-IsSound codec hash path apart tlf (add_reference codec hash id c) s _ _ m n
            (suc n) (add_reference-Keeps id c _ n b) (λ d l. AllGood-suc codec hash path d l n) i
            refl
      Steps-IsSound (remove_step {n = n} {s = s} {s' = s'} tlf cs live r h) b =
          let (m, i) = Steps-IsSound r (omega arith) in
          on_folder-IsSound codec hash path apart tlf (remove_loop codec hash cs) s s' (ok live) m n
            (n + length cs) (remove_loop-Keeps cs live n b)
            (λ d l. AllGood-add path d l n (length cs)) i h
      Steps-IsSound (archive_step {n = n} {s = s} {s' = s'} tlf cs c r h) b =
          let (m, i) = Steps-IsSound r (omega arith) in
          on_folder-IsSound codec hash path apart tlf (archive_blocks codec hash cs) s s' (ok tt) m
            n (n + length cs) (archive_blocks-Keeps cs n c b)
            (λ d l. AllGood-add path d l n (length cs)) i h
