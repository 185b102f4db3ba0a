-- ===== src/BlockServer/Disk/Isolation.antt =====
-- Calls on one folder do not touch another.
use kbfs.Prelude.{
  ℕ, ◌≡◌, ◌==◌, refl, false, some, Result, ok, err, Error, err_shutdown, ◌⊎◌, arith, Bool-cases,
  Option-cases, inl, inr, ap, ◌∙◌, subst, sym, ==_iff,
}
use kbfs.Prelude.Chain.{Result-cases}
use kbfs.Prelude.Maps.{Map, lookup, insert, lookup-insert}
use kbfs.Prelude.Action.{Action}
use kbfs.FileStore.{Bytes}
use kbfs.Codec.{Codec}
use kbfs.BlockServer.Refs.{BlockContext}
use kbfs.BlockServer.TlfJournal.{BserverTlfJournal, BserverJournalEntry}
use kbfs.BlockServer.TlfJournal.Calls.{make_bserver_tlf_journal}
use kbfs.BlockServer.Disk.{
  BlockServerDisk, OpenJournal, load, open_in, update_journal, get, get_journal, on_folder,
}
use kbfs.BlockServer.Disk.Good.{AreApart, AreApart-same_bytes}

-- Every open journal is in the directory of its folder.
abbrev pub HasOwnDirs : BlockServerDisk → Type 0
HasOwnDirs s =
    (m : Map OpenJournal)
    → s.disk_journal ≡ some m
    → (tlf : ℕ) (o : OpenJournal) → lookup tlf m ≡ some o
    → o.dir ≡ s.journal_path tlf

module _ (codec : Codec BserverJournalEntry) (hash : Bytes → Result ℕ) where
  -- A write to the directory of one folder, seen from another
  get-update_journal_ne :
      (s : BlockServerDisk) (j : BserverTlfJournal) (id tlf other : ℕ) (c : BlockContext)
      → AreApart s.journal_path
      → HasOwnDirs s
      → (tlf == other) ≡ false
      → (get codec hash id other c (update_journal tlf (s.journal_path tlf) j s)).0
        ≡ (get codec hash id other c s).0
  unfolding get get_journal
  get-update_journal_ne s j id tlf other c apart own d =
      let unseen = AreApart-same_bytes s.journal_path tlf other apart d in
      elim (Option-cases s.disk_journal) [
        | inl closed ↦ ground arith
        | inr (m, q) ↦
            let others = lookup-insert tlf other (open_in (s.journal_path tlf) j) m in
            elim (Option-cases (lookup other m)) [
              | inl new ↦ ground (arith, others, unseen)
              | inr (o, l) ↦ ground (arith, others, unseen, own m q other o l)
            ]
      ]

  HasOwnDirs-update_journal :
      (s : BlockServerDisk) (j : BserverTlfJournal) (tlf : ℕ)
      → HasOwnDirs s
      → HasOwnDirs (update_journal tlf (s.journal_path tlf) j s)
  HasOwnDirs-update_journal s j tlf own m' q t o l = elim (Option-cases s.disk_journal) [
    | inl closed ↦ absurd (ground arith)
    | inr (m, open_) ↦
        let seen = lookup-insert tlf t (open_in (s.journal_path tlf) j) m in
        elim (Bool-cases (tlf == t)) [
          | inl same ↦ let tlf-t = (==_iff tlf t).0 same in ground (arith, seen, tlf-t)
          | inr differs ↦
              let there : lookup t m ≡ some o = ground (arith, seen) in
              let d = own m open_ t o there in ground (arith, d)
        ]
  ]

  -- What a server keeps when a journal of it is opened
  record Opened (tlf : ℕ) (s : BlockServerDisk) (o : OpenJournal) (s1 : BlockServerDisk)
      : Type 0 where
    opens : get_journal codec hash tlf s ≡ (ok o, s1)
    in_own : o.dir ≡ s1.journal_path tlf
    same_path : s1.journal_path ≡ s.journal_path
    own : HasOwnDirs s1
    same_get :
        (id other : ℕ) (c : BlockContext)
        → (tlf == other) ≡ false
        → (get codec hash id other c s1).0 ≡ (get codec hash id other c s).0

  HasOwnDirs-open :
      (s : BlockServerDisk) (m : Map OpenJournal) (tlf : ℕ) (o : OpenJournal)
      → s.disk_journal ≡ some m
      → o.dir ≡ s.journal_path tlf
      → HasOwnDirs s
      → HasOwnDirs (record s { disk_journal = some (insert tlf o m) })
  HasOwnDirs-open s m tlf o open_ d own m' q t i l =
      let seen = lookup-insert tlf t o m in
      elim (Bool-cases (tlf == t)) [
        | inl same ↦ let tlf-t = (==_iff tlf t).0 same in ground (arith, q, l, seen, tlf-t, d)
        | inr differs ↦
            let there : lookup t m ≡ some i = ground (arith, q, l, seen) in own m open_ t i there
      ]

  -- To open a journal fails and changes nothing, or it is there.
  open-cases :
      (tlf : ℕ) (s : BlockServerDisk)
      → HasOwnDirs s
      → ((e : Error) × (get_journal codec hash tlf s ≡ (err e, s)))
        ⊎ ((o : OpenJournal) × (s1 : BlockServerDisk) × Opened tlf s o s1)
  unfolding get get_journal
  open-cases tlf s own = elim (Option-cases s.disk_journal) [
    | inl closed ↦ inl (err_shutdown, ground arith)
    | inr (m, q) ↦ elim (Option-cases (lookup tlf m)) [
      | inr (o, l) ↦ inr (
        o,
        s,
        record {
          opens = ground arith;
          in_own = own m q tlf o l;
          same_path = refl;
          own = own;
          same_get = λ id other c d. refl;
        },
      )
      | inl l ↦
          let path = s.journal_path tlf in
          elim (Result-cases
            (make_bserver_tlf_journal codec hash (s.dirs path).j (s.dirs path).blocks)) [
              | inr (x, e) ↦ inl (x, ground arith)
              | inl (j, e) ↦ inr (
                open_in path j,
                record s { disk_journal = some (insert tlf (open_in path j) m) },
                record {
                  opens = ground arith;
                  in_own = refl;
                  same_path = refl;
                  own = HasOwnDirs-open s m tlf (open_in path j) q refl own;
                  same_get = λ id other c d.
                      ground (arith, d, q, lookup-insert tlf other (open_in path j) m);
                },
              )
            ]
    ]
  ]

  -- Where different folders have different directories and every open journal is in its folder's: whatever a
  -- call does to the memory and the files of the journal of one folder, and whether it succeeds or fails,
  -- `Get` on every other folder returns what it returned before, errors included, and every open journal is
  -- still in its folder's directory.
  pub get-on_folder_ne :
      {A : Type 0} (call : Action BserverTlfJournal A) (s : BlockServerDisk) (tlf id other : ℕ)
      (c : BlockContext)
      → AreApart s.journal_path
      → HasOwnDirs s
      → (tlf == other) ≡ false
      → HasOwnDirs (on_folder codec hash tlf call s).1
        × ((get codec hash id other c (on_folder codec hash tlf call s).1).0
            ≡ (get codec hash id other c s).0)
  unfolding on_folder
  get-on_folder_ne {A = A} call s tlf id other c apart own d = elim (open-cases tlf s own) [
    | inl (e, f) ↦
        let same : (on_folder codec hash tlf call s).1 ≡ s = ground (arith, f) in
        (subst HasOwnDirs (sym same) own, ap (λ t. (get codec hash id other c t).0) same)
    | inr (o, s1, q) ↦
        let j = (call (load s1.dirs o)).1 in
        let same : (on_folder codec hash tlf call s).1
            ≡ update_journal tlf (s1.journal_path tlf) j s1 =
          ground (arith, q.opens, q.in_own) in
        (
          subst HasOwnDirs (sym same) (HasOwnDirs-update_journal s1 j tlf q.own),
          ap (λ t. (get codec hash id other c t).0) same
              ∙ get-update_journal_ne s1 j id tlf other c (subst AreApart (sym q.same_path) apart)
                  q.own d
              ∙ q.same_get id other c d,
        )
  ]
