-- ===== src/BlockServer/Disk/Steps.antt =====
-- Calls on a server over empty folders, each with a directory of its own, keep every open journal in
-- agreement with its directory.
use kbfs.Prelude.{
  ℕ, ◌==◌, ◌≡◌, refl, false, none, some, [], ◌∷◌, Result, ok, err, arith, subst, Option-cases, inl,
  inr, sym, ap, ◌∙◌, ==_iff,
}
use kbfs.Prelude.Maps.{Map, lookup, insert, lookup-insert}
use kbfs.Prelude.Action.{Action}
use kbfs.FileStore.{Bytes}
use kbfs.Codec.{Codec}
use kbfs.BlockServer.TlfJournal.{BserverTlfJournal, BserverJournalEntry}
use kbfs.BlockServer.TlfJournal.Calls.{make_bserver_tlf_journal}
use kbfs.BlockServer.TlfJournal.Runs.{IsFresh, IsFresh-Agrees}
use kbfs.BlockServer.TlfJournal.Shutdown.{read_journal-Agrees}
use kbfs.BlockServer.Disk.{
  BlockServerDisk, FolderDir, OpenJournal, load, open_in, write_dir, update_journal, get_journal,
  on_folder,
}
use kbfs.BlockServer.Disk.Good.{
  AreApart, AreApart-same_bytes, IsGood, AllGood, journal_of, IsSound, lookup-AllGood,
  insert-AllGood, Agrees-grows,
}

module _ (codec : Codec BserverJournalEntry) (hash : Bytes → Result ℕ) where
  -- To open a journal writes nothing.
  open-AllGood :
      (path : ℕ → Bytes) (dirs : Bytes → FolderDir) (tlf : ℕ) (o : OpenJournal)
      (m : Map OpenJournal) (n : ℕ)
      → lookup tlf m ≡ none
      → AllGood codec hash path dirs m n
      → o.dir ≡ path tlf
      → IsGood codec hash (load dirs o) n
      → AllGood codec hash path dirs (insert tlf o m) n
  open-AllGood path dirs tlf o [] n l gs d g = (refl, d, g, tt)
  open-AllGood path dirs tlf o ((t, i) ∷ m) n l (u, e, h, gs) d g =
      let other : (t == tlf) ≡ false = ground (arith, l) in
      let flipped : (tlf == t) ≡ false = ground (arith, other, ==_iff tlf t, ==_iff t tlf) in
      rw other (
        ground (arith, u, flipped, lookup-insert tlf t o m),
        e,
        h,
        open-AllGood path dirs tlf o m n (ground (arith, l, other)) gs d g,
      )

  -- To open a journal gives the one that is open already, or that of an empty directory.
  get_journal-IsSound :
      (path : ℕ → Bytes) (tlf : ℕ) (s : BlockServerDisk) (m : Map OpenJournal) (n : ℕ)
      → IsSound codec hash path s m n
      → (o : OpenJournal) × (m1 : Map OpenJournal) × (s1 : BlockServerDisk) × (get_journal codec
            hash tlf s
          ≡ (ok o, s1))
        × (o.dir ≡ path tlf)
        × IsGood codec hash (load s1.dirs o) n
        × IsSound codec hash path s1 m1 n
  unfolding get_journal IsGood make_bserver_tlf_journal
  get_journal-IsSound path tlf s m n i = elim (Option-cases (lookup tlf m)) [
    | inr (o, l) ↦
        let (d, g) = lookup-AllGood codec hash path s.dirs tlf o m n i.good l in
        (o, m, s, ground (arith, i.is_open), d, g, i)
    | inl l ↦
        let dir = path tlf in
        let j = journal_of codec hash (s.dirs dir) in
        let o = open_in dir j in
        let a0 = IsFresh-Agrees codec hash j (i.fresh tlf l) in
        let g : IsGood codec hash j n = (Agrees-grows codec hash j n a0, refl) in
        let p : s.journal_path tlf ≡ dir = ap (λ f. f tlf) i.same_path in
        (
          o,
          insert tlf o m,
          record s { disk_journal = some (insert tlf o m) },
          ground (arith, i.is_open, p, read_journal-Agrees codec hash j 0 a0),
          refl,
          g,
          record {
            is_open = refl;
            no_shutdown_func = i.no_shutdown_func;
            same_path = i.same_path;
            good = open-AllGood path s.dirs tlf o m n l i.good refl g;
            fresh = λ t h. i.fresh t (ground (arith, h, lookup-insert tlf t o m));
          },
        )
  ]

  -- A call that is over leaves the journal in agreement, and the others as they were.
  update_journal-IsSound :
      (path : ℕ → Bytes) (tlf : ℕ) (j : BserverTlfJournal) (s : BlockServerDisk)
      (m : Map OpenJournal) (n : ℕ)
      → AreApart path
      → IsSound codec hash path s m n
      → IsGood codec hash j n
      → IsSound codec hash path
          (update_journal tlf (path tlf) j s)
          (insert tlf (open_in (path tlf) j) m)
          n
  update_journal-IsSound path tlf j s m n apart i g =
      subst (λ x. IsSound codec hash path x (insert tlf (open_in (path tlf) j) m) n)
        {x = record s {
          dirs = write_dir (path tlf) j s.dirs;
          disk_journal = some (insert tlf (open_in (path tlf) j) m);
        }}
        (ground (arith, i.is_open))
        (record {
          is_open = refl;
          no_shutdown_func = i.no_shutdown_func;
          same_path = i.same_path;
          good = insert-AllGood codec hash path s.dirs tlf j m n apart i.good g;
          fresh = λ t l.
              let other : (tlf == t) ≡ false =
                ground (arith, l, lookup-insert tlf t (open_in (path tlf) j) m) in
              subst (λ d. IsFresh codec hash (journal_of codec hash d)) {x = s.dirs (path t)}
                (ground (arith, AreApart-same_bytes path tlf t apart other))
                (i.fresh t
                  (ground (arith, l, other, lookup-insert tlf t (open_in (path tlf) j) m)));
        })

  -- A call that keeps one journal in agreement keeps them all.
  pub on_folder-IsSound :
      {A : Type 0} (path : ℕ → Bytes)
      → AreApart path
      → (tlf : ℕ) (call : Action BserverTlfJournal A) (s s' : BlockServerDisk) (r : Result A)
        (m : Map OpenJournal) (n n' : ℕ)
      → ((j j' : BserverTlfJournal)
          → IsGood codec hash j n
          → call j ≡ (r, j')
          → IsGood codec hash j' n')
      → ((dirs : Bytes → FolderDir) (l : Map OpenJournal)
          → AllGood codec hash path dirs l n
          → AllGood codec hash path dirs l n')
      → IsSound codec hash path s m n
      → on_folder codec hash tlf call s ≡ (r, s')
      → (m' : Map OpenJournal) × IsSound codec hash path s' m' n'
  unfolding on_folder
  on_folder-IsSound {A = A} path apart tlf call s s' r m n n' keeps grows i h =
      let (o, m1, s1, opened, d, g, i1) = get_journal-IsSound path tlf s m n i in
      let j' = (call (load s1.dirs o)).1 in
      let done : on_folder codec hash tlf call s
          ≡ ((call (load s1.dirs o)).0, update_journal tlf o.dir j' s1) =
        ap
          (λ p. elim p.0 as (λ x. Result A × BlockServerDisk) [
            | err x ↦ (err x, p.1)
            | ok u ↦ (
              (call (load p.1.dirs u)).0,
              update_journal tlf u.dir (call (load p.1.dirs u)).1 p.1,
            )
          ])
          opened in
      let same : ((call (load s1.dirs o)).0, update_journal tlf o.dir j' s1) ≡ (r, s') =
        sym done ∙ h in
      let good' = keeps (load s1.dirs o) j' g (ap (λ x. (x, j')) (ap (λ p. p.0) same)) in
      let i2 : IsSound codec hash path s1 m1 n' = record {
        is_open = i1.is_open;
        no_shutdown_func = i1.no_shutdown_func;
        same_path = i1.same_path;
        good = grows s1.dirs m1 i1.good;
        fresh = i1.fresh;
      } in
      (
        insert tlf (open_in (path tlf) j') m1,
        subst (λ t. IsSound codec hash path t (insert tlf (open_in (path tlf) j') m1) n')
            (ap (λ x. update_journal tlf x j' s1) (sym d) ∙ ap (λ p. p.1) same)
            (update_journal-IsSound path tlf j' s1 m1 n' apart i2 good'),
      )
