-- ===== src/BlockServer/Disk/Good.antt =====
-- Open journals in agreement with their directories, where each folder has a directory of its own.
use kbfs.Prelude.{
  ℕ, suc, ◌==◌, ◌≡◌, refl, false, none, some, [], ◌∷◌, Result, arith, subst, Bool-cases, inl, inr,
  sym, ap, ◌∙◌, ==_iff,
}
use kbfs.Prelude.Maps.{Map, lookup, insert, lookup-insert}
use kbfs.FileStore.{Bytes, same_bytes, same_bytes_iff}
use kbfs.Codec.{Codec}
use kbfs.BlockServer.TlfJournal.{BserverTlfJournal, BserverJournalEntry}
use kbfs.BlockServer.TlfJournal.Preserve.{Agrees, Agrees-suc}
use kbfs.BlockServer.TlfJournal.Runs.{IsFresh}
use kbfs.BlockServer.Disk.{BlockServerDisk, FolderDir, OpenJournal, load, open_in, write_dir}

-- Different folders have different directories.
abbrev pub AreApart : (ℕ → Bytes) → Type 0
AreApart path = (a b : ℕ) → path a ≡ path b → a ≡ b

-- A test of equality that fails on the paths of different folders
pub AreApart-same_bytes :
    (path : ℕ → Bytes) (a b : ℕ)
    → AreApart path
    → (a == b) ≡ false
    → same_bytes (path a) (path b) ≡ false
AreApart-same_bytes path a b apart d = elim (Bool-cases (same_bytes (path a) (path b))) [
  | inl same ↦
      let a-b : a ≡ b = apart a b ((same_bytes_iff (path a) (path b)).0 same) in
      absurd (ground (arith, d, (==_iff a b).1 a-b))
  | inr other ↦ other
]

module _ (codec : Codec BserverJournalEntry) (hash : Bytes → Result ℕ) where
  -- An open journal that agrees with its directory, which has at most `n` entries.
  unfoldable pub IsGood : BserverTlfJournal → ℕ → Type 0
  IsGood j n = Agrees codec j n × (j.is_shutdown ≡ false)

  -- All journals that are open do, each folder has one, and it is in the folder's directory.
  abbrev pub AllGood : (ℕ → Bytes) → (Bytes → FolderDir) → Map OpenJournal → ℕ → Type 0
  AllGood path dirs [] n = Unit
  AllGood path dirs ((tlf, o) ∷ m) n =
      (lookup tlf m ≡ none) × (o.dir ≡ path tlf) × IsGood (load dirs o) n × AllGood path dirs m n

  -- The journal that an empty directory gives
  abbrev pub journal_of : FolderDir → BserverTlfJournal
  journal_of d = record { j = d.j; blocks = d.blocks; refs = []; is_shutdown = false }

  -- The server is open over directories that are empty where no journal has been opened.
  pub record IsSound (path : ℕ → Bytes) (s : BlockServerDisk) (m : Map OpenJournal) (n : ℕ)
      : Type 0 where
    pub is_open : s.disk_journal ≡ some m
    pub no_shutdown_func : s.shutdown_func ≡ none
    pub same_path : s.journal_path ≡ path
    pub good : AllGood path s.dirs m n
    pub fresh :
        (tlf : ℕ) → lookup tlf m ≡ none → IsFresh codec hash (journal_of (s.dirs (path tlf)))

  IsGood-suc : (j : BserverTlfJournal) (n : ℕ) → IsGood j n → IsGood j (suc n)
  unfolding IsGood
  IsGood-suc j n (a, o) = (Agrees-suc codec j n a, o)

  pub AllGood-suc :
      (path : ℕ → Bytes) (dirs : Bytes → FolderDir) (m : Map OpenJournal) (n : ℕ)
      → AllGood path dirs m n
      → AllGood path dirs m (suc n)
  AllGood-suc path dirs [] n g = tt
  AllGood-suc path dirs ((tlf, o) ∷ m) n (l, d, g, gs) =
      (l, d, IsGood-suc (load dirs o) n g, AllGood-suc path dirs m n gs)

  pub lookup-AllGood :
      (path : ℕ → Bytes) (dirs : Bytes → FolderDir) (tlf : ℕ) (o : OpenJournal)
      (m : Map OpenJournal) (n : ℕ)
      → AllGood path dirs m n
      → lookup tlf m ≡ some o
      → (o.dir ≡ path tlf) × IsGood (load dirs o) n
  lookup-AllGood path dirs tlf o [] n gs l = absurd (ground arith)
  lookup-AllGood path dirs tlf o ((t, i) ∷ m) n (u, d, g, gs) l = elim (Bool-cases (t == tlf)) [
    | inl same ↦
        let i-o : i ≡ o = ground arith in
        let t-tlf : t ≡ tlf = (==_iff t tlf).0 same in
        subst (λ x. (x.dir ≡ path tlf) × IsGood (load dirs x) n) i-o
          (subst (λ x. i.dir ≡ path x) t-tlf d, g)
    | inr other ↦ lookup-AllGood path dirs tlf o m n gs (ground arith)
  ]

  -- A journal in another directory does not see a write.
  load-write_dir :
      (dir : Bytes) (j : BserverTlfJournal) (dirs : Bytes → FolderDir) (o : OpenJournal)
      → same_bytes dir o.dir ≡ false
      → load (write_dir dir j dirs) o ≡ load dirs o
  load-write_dir dir j dirs o d = ground (arith, d)

  -- A folder's own journal does.
  load-own :
      (dir : Bytes) (j : BserverTlfJournal) (dirs : Bytes → FolderDir)
      → load (write_dir dir j dirs) (open_in dir j) ≡ j
  load-own dir j dirs = let same = (same_bytes_iff dir dir).1 refl in ground (arith, same)

  -- A write to the directory of a folder that has no journal here
  write_dir-AllGood :
      (path : ℕ → Bytes) (dirs : Bytes → FolderDir) (tlf : ℕ) (j : BserverTlfJournal)
      (m : Map OpenJournal) (n : ℕ)
      → AreApart path
      → lookup tlf m ≡ none
      → AllGood path dirs m n
      → AllGood path (write_dir (path tlf) j dirs) m n
  write_dir-AllGood path dirs tlf j [] n apart l g = tt
  write_dir-AllGood path dirs tlf j ((t, i) ∷ m) n apart l (u, d, g, gs) =
      let t-tlf : (tlf == t) ≡ false = ground (arith, ==_iff tlf t, ==_iff t tlf) in
      let unseen : same_bytes (path tlf) i.dir ≡ false =
        ap (λ x. same_bytes (path tlf) x) d ∙ AreApart-same_bytes path tlf t apart t-tlf in
      (
        u,
        d,
        subst (λ x. IsGood x n) (sym (load-write_dir (path tlf) j dirs i unseen)) g,
        write_dir-AllGood path dirs tlf j m n apart
            (ground (arith, t-tlf, ==_iff tlf t, ==_iff t tlf)) gs,
      )

  pub insert-AllGood :
      (path : ℕ → Bytes) (dirs : Bytes → FolderDir) (tlf : ℕ) (j : BserverTlfJournal)
      (m : Map OpenJournal) (n : ℕ)
      → AreApart path
      → AllGood path dirs m n
      → IsGood j n
      → AllGood path (write_dir (path tlf) j dirs) (insert tlf (open_in (path tlf) j) m) n
  insert-AllGood path dirs tlf j [] n apart gs g =
      (refl, refl, subst (λ x. IsGood x n) (sym (load-own (path tlf) j dirs)) g, tt)
  insert-AllGood path dirs tlf j ((t, i) ∷ m) n apart (u, d, h, gs) g =
      elim (Bool-cases (t == tlf)) [
        | inl same ↦
            let none_left : lookup tlf m ≡ none =
              subst (λ x. lookup x m ≡ none) ((==_iff t tlf).0 same) u in
            rw same (
              none_left,
              refl,
              subst (λ x. IsGood x n) (sym (load-own (path tlf) j dirs)) g,
              write_dir-AllGood path dirs tlf j m n apart none_left gs,
            )
        | inr other ↦
            let flipped : (tlf == t) ≡ false = ground (arith, other, ==_iff tlf t, ==_iff t tlf) in
            let unseen : same_bytes (path tlf) i.dir ≡ false =
              ap (λ x. same_bytes (path tlf) x) d ∙ AreApart-same_bytes path tlf t apart flipped in
            rw other (
              ground (arith, u, flipped, lookup-insert tlf t (open_in (path tlf) j) m),
              d,
              subst (λ x. IsGood x n) (sym (load-write_dir (path tlf) j dirs i unseen)) h,
              insert-AllGood path dirs tlf j m n apart gs g,
            )
      ]

  pub Agrees-grows : (j : BserverTlfJournal) (n : ℕ) → Agrees codec j 0 → Agrees codec j n
  unfolding Agrees
  Agrees-grows j n (es, c, le) = (es, c, omega (arith, le))
