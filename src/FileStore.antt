-- ===== src/FileStore.antt =====
-- The part of Go's `os` and `ioutil` that the journals call, over the paths `P` of one directory tree.
-- A path that the file system refuses to read or to write (any error but "does not exist") is marked in
-- `unreadable` or `unwritable`; a write that is refused leaves the file as it was.
use kbfs.Prelude.{ℕ, ◌≡◌, ◌↔◌, Bool, Option, none, some, List, Result, ok, err, io_fault, not_exist}
use kbfs.Prelude.{if◌then◌else◌, false, true, [], ◌∷◌, ◌==◌}
use kbfs.Prelude.{arith, ==_iff, refl}
use kbfs.Prelude.Dict.{Key}
use kbfs.Prelude.Action.{Action}

abbrev pub Bytes : Type 0
Bytes = List ℕ

pub record Eq (P : Type 0) : Type 0 where
  pub beq : P → P → Bool
  pub beq_iff : (p q : P) → (beq p q ≡ true) ↔ (p ≡ q)

pub record Store (P : Type 0) : Type 0 where
  pub files : P → Option Bytes
  pub unreadable : P → Bool
  pub unwritable : P → Bool

-- The file system refuses nothing.
pub record IsHealthy {P : Type 0} (s : Store P) : Type 0 where
  pub reads : (p : P) → s.unreadable p ≡ false
  pub writes : (p : P) → s.unwritable p ≡ false

-- `ioutil.ReadFile`
unfoldable pub read_file : {P : Type 0} → P → Store P → Result Bytes
read_file p s =
    if s.unreadable p
    then err io_fault
    else elim (s.files p) [ none ↦ err not_exist | some b ↦ ok b ]

module _ {P : Type 0} ⦃e : Eq P⦄ where
  abbrev pub update : (P → Option Bytes) → P → Option Bytes → P → Option Bytes
  update f p b q = if e.beq p q then b else f q

  -- `ioutil.WriteFile`
  unfoldable pub write_file : P → Bytes → Action (Store P) (Unit {0})
  write_file p b s =
      if s.unwritable p
      then (err io_fault, s)
      else (ok tt, record s { files = update s.files p (some b) })

  -- `os.MkdirAll`; directories are not listed by the model, so only its refusal shows.
  unfoldable pub mkdir_all : P → Action (Store P) (Unit {0})
  mkdir_all p s = (if s.unwritable p then err io_fault else ok tt, s)

-- `==` on byte slices of one length, as on the arrays that hold keys
abbrev pub same_bytes : Bytes → Bytes → Bool
same_bytes [] [] = true
same_bytes (a ∷ xs) (b ∷ ys) = let rest = same_bytes xs ys in if a == b then rest else false
same_bytes _ _ = false

pub same_bytes→eq : (a b : Bytes) → same_bytes a b ≡ true → a ≡ b
same_bytes→eq [] [] h = refl
same_bytes→eq (x ∷ xs) (y ∷ ys) h = ground (arith, same_bytes→eq xs ys, ==_iff x y)
same_bytes→eq [] (y ∷ ys) h = absurd (ground arith)
same_bytes→eq (x ∷ xs) [] h = absurd (ground arith)

same_bytes_refl : (a : Bytes) → same_bytes a a ≡ true
same_bytes_refl [] = refl
same_bytes_refl (x ∷ xs) = ground (arith, same_bytes_refl xs)

pub same_bytes_iff : (a b : Bytes) → (same_bytes a b ≡ true) ↔ (a ≡ b)
same_bytes_iff a b = (same_bytes→eq a b, λ e. ground (arith, e, same_bytes_refl a))

instance abbrev pub bytes_key : Key Bytes
bytes_key = record { same = same_bytes; same_iff = same_bytes_iff }
