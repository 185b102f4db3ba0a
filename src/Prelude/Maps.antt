-- ===== src/Prelude/Maps.antt =====
-- Go maps with comparable keys, as association lists over numbers. Keys are block IDs, reference nonces
-- and the like, which the source only compares.
use Prim.Native.Nat.{ℕ}
use mathlib.Core.Path.{◌≡◌, refl, subst}
use mathlib.Core.List.{List, [], ◌∷◌}
use mathlib.Core.Option.{Option, none, some}
use native.Mathlib.Omega.{arith}
use kbfs.Prelude.Tests.{◌==◌, if◌then◌else◌, Bool-cases, ==_iff}
use mathlib.Core.Logic.{inl, inr}

abbrev pub Map {ℓ} : Type ℓ → Type ℓ
Map V = List (ℕ × V)

module _ {ℓ} {V : Type ℓ} where
  abbrev pub lookup : ℕ → Map V → Option V
  lookup k [] = none
  lookup k ((j, v) ∷ m) = if j == k then some v else lookup k m

  -- `m[k] = v`
  abbrev pub insert : ℕ → V → Map V → Map V
  insert k v [] = (k, v) ∷ []
  insert k v ((j, w) ∷ m) = if j == k then (k, v) ∷ m else (j, w) ∷ insert k v m

  -- `delete(m, k)`
  abbrev pub erase : ℕ → Map V → Map V
  erase k [] = []
  erase k ((j, w) ∷ m) = let rest = erase k m in if j == k then rest else (j, w) ∷ rest

  pub lookup-insert :
      (k j : ℕ) (v : V) (m : Map V)
      → lookup j (insert k v m) ≡ (if k == j then some v else lookup j m)
  lookup-insert k j v [] = refl
  lookup-insert k j v ((i, w) ∷ m) = ground (arith, lookup-insert k j v m)

  pub lookup-erase :
      (k j : ℕ) (m : Map V) → lookup j (erase k m) ≡ (if k == j then none else lookup j m)
  lookup-erase k j [] = ground arith
  lookup-erase k j ((i, w) ∷ m) = ground (arith, lookup-erase k j m)

  -- To write a key twice is to write it once, and to delete a missing key does nothing.
  pub insert-insert : (k : ℕ) (v w : V) (m : Map V) → insert k v (insert k w m) ≡ insert k v m
  insert-insert k v w [] = ground arith
  insert-insert k v w ((j, u) ∷ m) = ground (arith, insert-insert k v w m)

  pub erase_absent : (k : ℕ) (m : Map V) → lookup k m ≡ none → erase k m ≡ m
  erase_absent k [] h = refl
  erase_absent k ((j, u) ∷ m) h = ground (arith, erase_absent k m)

  -- No key is listed twice.
  abbrev pub IsDistinct : Map V → Type ℓ
  IsDistinct [] = Unit
  IsDistinct ((k, v) ∷ m) = (lookup k m ≡ none) × IsDistinct m

  pub insert-IsDistinct : (k : ℕ) (v : V) (m : Map V) → IsDistinct m → IsDistinct (insert k v m)
  insert-IsDistinct k v [] d = (refl, tt)
  insert-IsDistinct k v ((j, u) ∷ m) d = elim (Bool-cases (j == k)) [
    | inl same ↦ rw same (subst (λ i. lookup i m ≡ none) ((==_iff j k).0 same) d.0, d.1)
    | inr other ↦ rw other (ground (arith, lookup-insert k j v m), insert-IsDistinct k v m d.1)
  ]

  pub erase-IsDistinct : (k : ℕ) (m : Map V) → IsDistinct m → IsDistinct (erase k m)
  erase-IsDistinct k [] d = tt
  erase-IsDistinct k ((j, u) ∷ m) d = elim (Bool-cases (j == k)) [
    | inl same ↦ rw same (erase-IsDistinct k m d.1)
    | inr other ↦ rw other (ground (arith, lookup-erase k j m), erase-IsDistinct k m d.1)
  ]
