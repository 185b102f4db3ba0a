-- ===== src/BlockServer/TlfJournal/DeepEqual.antt =====
-- `reflect.DeepEqual` on maps without repeated keys: a map equals itself, and differs from a map that
-- holds another value under some key.
use kbfs.Prelude.{
  ℕ, ◌≡◌, refl, Bool, true, false, ◌==◌, ◌&&◌, none, some, [], ◌∷◌, arith, length, eq_refl,
  Bool-cases, inl, inr,
}
use kbfs.Prelude.Maps.{Map, lookup, IsDistinct}
use kbfs.BlockServer.Refs.{BlockRefEntry, BlockRefMap}
use kbfs.BlockServer.Refs.Laws.{same_context_refl}
use kbfs.BlockServer.TlfJournal.{RefsMap}
use kbfs.BlockServer.TlfJournal.Calls.{same_status, same_entry, within, deep_equal}
use kbfs.BlockServer.TlfJournal.Distinct.{AllDistinct}

module _ {ℓ} {V : Type ℓ} where
  -- Every entry of the first map is found in the second.
  abbrev Sub : Map V → Map V → Type ℓ
  Sub [] m = Unit
  Sub ((k, v) ∷ l) m = (lookup k m ≡ some v) × Sub l m

  Sub-cons : (j : ℕ) (u : V) (l m : Map V) → lookup j l ≡ none → Sub l m → Sub l ((j, u) ∷ m)
  Sub-cons j u [] m h s = tt
  Sub-cons j u ((k, v) ∷ l) m h s = (ground (arith, s.0), Sub-cons j u l m (ground arith) s.1)

  Sub-refl : (m : Map V) → IsDistinct m → Sub m m
  Sub-refl [] d = tt
  Sub-refl ((k, v) ∷ m) d = (ground (arith, eq_refl k), Sub-cons k v m m d.0 (Sub-refl m d.1))

  abbrev AllSame : (V → V → Bool) → Map V → Type 0
  AllSame same [] = Unit
  AllSame same ((k, v) ∷ l) = (same v v ≡ true) × AllSame same l

  within-Sub :
      (same : V → V → Bool) (l m : Map V) → Sub l m → AllSame same l → within same l m ≡ true
  unfolding within
  within-Sub same [] m s a = refl
  within-Sub same ((k, v) ∷ l) m s a = ground (arith, within-Sub same l m s.1 a.1)

  -- A key under which the two maps hold different values.
  within_differs :
      (same : V → V → Bool) (l m : Map V) (k : ℕ) (v w : V)
      → lookup k l ≡ some v
      → lookup k m ≡ some w
      → same v w ≡ false
      → within same l m ≡ false
  unfolding within
  within_differs same [] m k v w a b c = cc
  within_differs same ((j, u) ∷ l) m k v w a b c = elim (Bool-cases (j == k)) [
    | inl here ↦ ground arith
    | inr there ↦ ground (arith, within_differs same l m k v w (ground arith) b c)
  ]

same_entry_refl : (e : BlockRefEntry) → same_entry e e ≡ true
unfolding same_entry same_status
same_entry_refl e = ground (arith, same_context_refl e.context)

AllSame-entries : (refs : BlockRefMap) → AllSame same_entry refs
AllSame-entries [] = tt
AllSame-entries ((k, e) ∷ refs) = (same_entry_refl e, AllSame-entries refs)

same_refs : BlockRefMap → BlockRefMap → Bool
same_refs x y = length x == length y && within same_entry x y

same_refs_refl : (refs : BlockRefMap) → IsDistinct refs → same_refs refs refs ≡ true
unfolding same_refs
same_refs_refl refs d = ground (
  arith,
  eq_refl (length refs),
  within-Sub same_entry refs refs (Sub-refl refs d) (AllSame-entries refs),
)

AllSame-refs : (m : RefsMap) → AllDistinct m → AllSame same_refs m
AllSame-refs [] d = tt
AllSame-refs ((id, refs) ∷ m) d = (same_refs_refl refs d.0, AllSame-refs m d.1)

pub deep_equal_refl : (m : RefsMap) → IsDistinct m → AllDistinct m → deep_equal m m ≡ true
unfolding deep_equal same_refs
deep_equal_refl m d a =
    ground (arith, eq_refl (length m), within-Sub same_refs m m (Sub-refl m d) (AllSame-refs m a))

-- Two maps that disagree on the status of one reference are not equal.
pub deep_equal_differs :
    (l m : RefsMap) (id nonce : ℕ) (x y : BlockRefMap) (d e : BlockRefEntry)
    → lookup id l ≡ some x
    → lookup id m ≡ some y
    → lookup nonce x ≡ some d
    → lookup nonce y ≡ some e
    → same_entry d e ≡ false
    → deep_equal l m ≡ false
unfolding deep_equal same_refs
deep_equal_differs l m id nonce x y d e p q r s t =
    let inner = within_differs same_entry x y nonce d e r s t in
    let outer = within_differs same_refs l m id x y p q (ground (arith, inner)) in
    ground (arith, outer)
