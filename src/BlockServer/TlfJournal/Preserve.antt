-- ===== src/BlockServer/TlfJournal/Preserve.antt =====
-- Every call that succeeds, and every `putData` and `addReference`, keeps the agreement of journal and
-- memory.
use kbfs.Prelude.{
  ℕ, suc, ◌<◌, ◌≤◌, ◌≡◌, refl, ◌==◌, if◌then◌else◌, some, List, [], ◌∷◌, ◌++◌, Result, ok, err,
  arith, length, Option-cases, Bool-cases, inl, inr, subst, sym, length-append, ◌⊎◌,
}
use kbfs.Prelude.Chain.{Result-cases}
use kbfs.Prelude.Action.{◌>>◌}
use kbfs.Prelude.Maps.{lookup}
use kbfs.FileStore.{Bytes, Store}
use kbfs.Codec.{Codec}
use kbfs.Ordinal.{two64}
use kbfs.BlockServer.Refs.{BlockContext, BlockRefMap, live_block_ref}
use kbfs.BlockServer.Memory.{remove_refs, validate_block_server_put}
use kbfs.BlockServer.TlfJournal.{
  BserverTlfJournal, BserverJournalEntry, BserverOp, block_put_op, add_ref_op, remove_refs_op,
  archive_refs_op, BlockFile, apply_op, apply_entry, set_refs, refs_of, put_dropping, put_ref_entry,
  check_existing_ref, get_ref_entry, check_existing, archive_loop, archive_all, remove_block,
}
use kbfs.BlockServer.TlfJournal.Calls.{
  append_entry, write_block, put_data, add_reference, check_live, remove_references,
  archive_references, get_data_locked,
}
use kbfs.BlockServer.TlfJournal.Deltas.{delete_all-remove_refs, archive_loop-archive_all}
use kbfs.BlockServer.TlfJournal.Consistent.{IsConsistent, Encodes, append_entry-IsConsistent}

module _ (codec : Codec BserverJournalEntry) where
  -- Journal and memory agree, and the journal has at most `n` entries.
  unfoldable pub Agrees : BserverTlfJournal → ℕ → Type 0
  Agrees s n = (es : List BserverJournalEntry) × IsConsistent codec s es × (length es ≤ n)

  pub Agrees-suc : (s : BserverTlfJournal) (n : ℕ) → Agrees s n → Agrees s (suc n)
  unfolding Agrees
  Agrees-suc s n (es, c, m) = (es, c, omega arith)

  -- The block files play no part.
  Agrees-blocks :
      (s : BserverTlfJournal) (n : ℕ) (b : Store BlockFile)
      → Agrees s n
      → Agrees (record s { blocks = b }) n
  unfolding Agrees
  Agrees-blocks s n b (es, c, m) =
      (es, record { healthy = c.healthy; journal = c.journal; replayed = c.replayed }, m)

  module _ (enc : Encodes codec) (hash : Bytes → Result ℕ) where
    appended-Agrees :
        (op : BserverOp) (id : ℕ) (cs : List BlockContext) (s : BserverTlfJournal) (n : ℕ)
        (refs : BlockRefMap)
        → Agrees s n
        → suc n < two64
        → apply_op op cs (refs_of id s.refs) ≡ ok refs
        → (s' : BserverTlfJournal) × (append_entry codec hash op id cs (set_refs id refs s)
            ≡ (ok tt, s'))
          × Agrees s' (suc n)
    unfolding Agrees apply_entry
    appended-Agrees op id cs s n refs (es, c, m) b a =
        let e : BserverJournalEntry = record { op = op; id = id; contexts = cs } in
        let (s', done, agree) =
          append_entry-IsConsistent codec enc hash op id cs (set_refs id refs s) es s.refs c.healthy
            c.journal c.replayed (omega arith) (ground (arith, a)) in
        (s', done, (es ++ e ∷ [], agree, omega (arith, length-append es (e ∷ []))))

    -- A reference is put and recorded, or refused.
    recorded-Agrees :
        (op : BserverOp) (id : ℕ) (c : BlockContext) (s : BserverTlfJournal) (n : ℕ)
        → (op ≡ block_put_op) ⊎ (op ≡ add_ref_op)
        → Agrees s n
        → suc n < two64
        → Agrees
            ((put_ref_entry id (record { status = live_block_ref; context = c })
                >> append_entry codec hash op id (c ∷ []))
              s).1
            (suc n)
    unfolding put_ref_entry apply_op
    recorded-Agrees op id c s n o a b =
        elim (Result-cases (check_existing_ref (get_ref_entry id c.ref_nonce s.refs) c)) [
          | inr (x, refused) ↦
              subst (λ t. Agrees t (suc n)) {x = s} (ground arith) (Agrees-suc s n a)
          | inl (_, fits) ↦
              let (s', done, agree) =
                appended-Agrees op id (c ∷ []) s n
                  (put_dropping (refs_of id s.refs) c live_block_ref) a b (ground arith) in
              subst (λ t. Agrees t (suc n)) {x = s'} (ground (arith, done)) agree
        ]

    write_block-blocks :
        (id : ℕ) (buf half : Bytes) (s : BserverTlfJournal)
        → (b : Store BlockFile) × ((write_block codec hash id buf half s).1
            ≡ record s { blocks = b })
    unfolding write_block
    write_block-blocks id buf half s =
        (((write_block codec hash id buf half s).1).blocks, ground arith)

    -- `putData` keeps the agreement, whether it succeeds or fails, at any point and for any reason.
    pub put_data-Agrees :
        (id : ℕ) (c : BlockContext) (buf half : Bytes) (s : BserverTlfJournal) (n : ℕ)
        → Agrees s n
        → suc n < two64
        → Agrees (put_data codec hash id c buf half s).1 (suc n)
    unfolding put_data
    put_data-Agrees id c buf half s n a b =
        elim (Result-cases (validate_block_server_put hash id c buf)) [
          | inr (x, e) ↦ subst (λ t. Agrees t (suc n)) {x = s} (ground arith) (Agrees-suc s n a)
          | inl (_, e) ↦ elim (Bool-cases s.is_shutdown) [
            | inl closed ↦ subst (λ t. Agrees t (suc n)) {x = s} (ground arith) (Agrees-suc s n a)
            | inr open_ ↦
                elim (Result-cases (check_existing (get_data_locked codec hash id c s) half)) [
                  | inr (x, e') ↦
                      subst (λ t. Agrees t (suc n)) {x = s} (ground arith) (Agrees-suc s n a)
                  | inl (_, e') ↦
                      let s1 = (write_block codec hash id buf half s).1 in
                      let (blocks', w) = write_block-blocks id buf half s in
                      let a1 =
                        subst (λ t. Agrees t n) {x = record s { blocks = blocks' }} {y = s1} (sym w)
                          (Agrees-blocks s n blocks' a) in
                      elim (Result-cases (write_block codec hash id buf half s).0) [
                        | inr (x, f) ↦
                            subst (λ t. Agrees t (suc n)) {x = s1} (ground arith)
                              (Agrees-suc s1 n a1)
                        | inl (_, f) ↦
                            subst (λ t. Agrees t (suc n)) (ground arith)
                              (recorded-Agrees block_put_op id c s1 n (inl refl) a1 b)
                      ]
                ]
          ]
        ]

    -- So does `addReference`.
    pub add_reference-Agrees :
        (id : ℕ) (c : BlockContext) (s : BserverTlfJournal) (n : ℕ)
        → Agrees s n
        → suc n < two64
        → Agrees (add_reference codec hash id c s).1 (suc n)
    unfolding add_reference
    add_reference-Agrees id c s n a b = elim (Bool-cases s.is_shutdown) [
      | inl closed ↦ subst (λ t. Agrees t (suc n)) {x = s} (ground arith) (Agrees-suc s n a)
      | inr open_ ↦ elim (Result-cases (check_live codec hash id s.refs)) [
        | inr (x, e) ↦ subst (λ t. Agrees t (suc n)) {x = s} (ground arith) (Agrees-suc s n a)
        | inl (_, e) ↦
            subst (λ t. Agrees t (suc n)) (ground arith)
              (recorded-Agrees add_ref_op id c s n (inr refl) a b)
      ]
    ]

    -- `removeReferences` keeps the agreement where it succeeds.
    pub remove_references-Agrees :
        (id : ℕ) (cs : List BlockContext) (s s' : BserverTlfJournal) (n k : ℕ)
        → Agrees s n
        → suc n < two64
        → remove_references codec hash id cs s ≡ (ok k, s')
        → Agrees s' (suc n)
    unfolding remove_references apply_op
    remove_references-Agrees id cs s s' n k a b h = elim (Option-cases (lookup id s.refs)) [
      | inl missing ↦ subst (λ t. Agrees t (suc n)) {x = s} (ground arith) (Agrees-suc s n a)
      | inr (refs, l) ↦ split refs l (remove_refs cs refs) refl
    ]
      where
        split :
            (refs : BlockRefMap)
            → lookup id s.refs ≡ some refs
            → (r : Result (Unit {0}) × BlockRefMap) → remove_refs cs refs ≡ r
            → Agrees s' (suc n)
        split refs l (err x, left) e = absurd (ground arith)
        split refs l (ok _, left) e =
            let blocks' = (if length left == 0 then (remove_block id s.blocks).1 else s.blocks) in
            let s1 : BserverTlfJournal = record s { blocks = blocks' } in
            let (s2, done, agree) =
              appended-Agrees remove_refs_op id cs s1 n left (Agrees-blocks s n blocks' a) b
                (ground (arith, l, delete_all-remove_refs cs refs left e)) in
            subst (λ t. Agrees t (suc n)) {x = s2} (ground (arith, done)) agree

    -- So does `archiveReferences`, if there is at least one context.
    pub archive_references-Agrees :
        (id : ℕ) (c : BlockContext) (cs : List BlockContext) (s s' : BserverTlfJournal) (n : ℕ)
        → Agrees s n
        → suc n < two64
        → archive_references codec hash id (c ∷ cs) s ≡ (ok tt, s')
        → Agrees s' (suc n)
    unfolding archive_references apply_op
    archive_references-Agrees id c cs s s' n a b h = split (archive_loop id (c ∷ cs) s) refl
      where
        split :
            (r : Result (Unit {0}) × BserverTlfJournal)
            → archive_loop id (c ∷ cs) s ≡ r
            → Agrees s' (suc n)
        split (err x, s1) e = absurd (ground arith)
        split (ok _, s1) e =
            let left = archive_loop-archive_all id c cs s s1 e in
            let (s2, done, agree) =
              appended-Agrees archive_refs_op id (c ∷ cs) s n
                (archive_all (c ∷ cs) (refs_of id s.refs)) a b refl in
            subst (λ t. Agrees t (suc n)) {x = s2} (ground (arith, done, left)) agree
