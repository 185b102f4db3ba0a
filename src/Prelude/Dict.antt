-- ===== src/Prelude/Dict.antt =====
-- Go maps whose keys are structs, as association lists over a type with a test of equality.
use mathlib.Core.Path.{◌≡◌, refl}
use mathlib.Core.Logic.{◌↔◌, inl, inr}
use mathlib.Core.Bool.{Bool, true}
use mathlib.Core.List.{List, [], ◌∷◌}
use mathlib.Core.Option.{Option, none, some}
use native.Mathlib.Omega.{arith}
use kbfs.Prelude.Tests.{if◌then◌else◌, Bool-cases}

pub record Key (K : Type 0) : Type 0 where
  pub same : K → K → Bool
  pub same_iff : (j k : K) → (same j k ≡ true) ↔ (j ≡ k)

module _ {K V : Type 0} ⦃e : Key K⦄ where
  abbrev pub find : K → List (K × V) → Option V
  find k [] = none
  find k ((j, v) ∷ m) = if e.same j k then some v else find k m

  -- `m[k] = v`
  abbrev pub store : K → V → List (K × V) → List (K × V)
  store k v [] = (k, v) ∷ []
  store k v ((j, w) ∷ m) = if e.same j k then (k, v) ∷ m else (j, w) ∷ store k v m

  -- `delete(m, k)`
  abbrev pub discard : K → List (K × V) → List (K × V)
  discard k [] = []
  discard k ((j, w) ∷ m) = let rest = discard k m in if e.same j k then rest else (j, w) ∷ rest

  pub find-store :
      (k j : K) (v : V) (m : List (K × V))
      → find j (store k v m) ≡ (if e.same k j then some v else find j m)
  find-store k j v [] = refl
  find-store k j v ((i, w) ∷ m) = elim (Bool-cases (e.same i k)) [
    | inl same ↦ let i-k : i ≡ k = (e.same_iff i k).0 same in ground (arith, i-k)
    | inr other ↦ elim (Bool-cases (e.same i j)) [
      | inl same ↦
          let i-j : i ≡ j = (e.same_iff i j).0 same in
          ground (arith, i-j, e.same_iff k j, e.same_iff i k, e.same_iff j k)
      | inr no_match ↦ ground (arith, find-store k j v m)
    ]
  ]

  pub find-discard :
      (k j : K) (m : List (K × V)) → find j (discard k m) ≡ (if e.same k j then none else find j m)
  find-discard k j [] = ground arith
  find-discard k j ((i, w) ∷ m) = elim (Bool-cases (e.same i k)) [
    | inl same ↦
        let i-k : i ≡ k = (e.same_iff i k).0 same in ground (arith, i-k, find-discard k j m)
    | inr other ↦ elim (Bool-cases (e.same i j)) [
      | inl same ↦
          let i-j : i ≡ j = (e.same_iff i j).0 same in
          ground (arith, i-j, e.same_iff k j, e.same_iff i k, e.same_iff j k)
      | inr no_match ↦ ground (arith, find-discard k j m)
    ]
  ]
