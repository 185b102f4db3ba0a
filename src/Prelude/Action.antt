-- ===== src/Prelude/Action.antt =====
-- Calls that read and change a state. The state comes back after an error too, since what a call has
-- written by then stays written.
use mathlib.Core.Bool.{Bool}
use kbfs.Prelude.Errors.{Error, Result, ok, err}
use kbfs.Prelude.Tests.{if◌then◌else◌}
use mathlib.Core.Path.{◌≡◌, refl}
use native.Mathlib.Omega.{arith}

abbrev pub Action : Type 0 → Type 0 → Type 0
Action S A = S → Result A × S

module _ {S A : Type 0} where
  abbrev pub pure : A → Action S A
  pure a s = (ok a, s)

  abbrev pub raise : Error → Action S A
  raise e s = (err e, s)

  -- A call that only reads.
  abbrev pub reads : (S → Result A) → Action S A
  reads f s = (f s, s)

infixl 5 ◌>>=◌ ◌>>◌
abbrev pub ◌>>=◌ : {S A B : Type 0} → Action S A → (A → Action S B) → Action S B
◌>>=◌ m f s = let (r, s') = m s in elim r [ ok a ↦ f a s' | err e ↦ (err e, s') ]

abbrev pub ◌>>◌ : {S B : Type 0} → Action S (Unit {0}) → Action S B → Action S B
m >> k = m >>= λ _. k

module _ {S : Type 0} where
  -- `if c { return e }`
  abbrev pub raise_if : Bool → Error → Action S (Unit {0})
  raise_if c e s = (if c then err e else ok tt, s)

  abbrev pub modify : (S → S) → Action S (Unit {0})
  modify f s = (ok tt, f s)

-- A sequence that succeeds is two calls that succeed.
pub >>=-ok :
    {S A B : Type 0} (m : Action S A) (f : A → Action S B) (s s' : S) (b : B)
    → (m >>= f) s ≡ (ok b, s')
    → (a : A) × (s1 : S) × (m s ≡ (ok a, s1)) × (f a s1 ≡ (ok b, s'))
>>=-ok {S} {A} {B} m f s s' b h = split (m s) refl
  where
    split :
        (r : Result A × S)
        → m s ≡ r
        → (a : A) × (s1 : S) × (m s ≡ (ok a, s1)) × (f a s1 ≡ (ok b, s'))
    split (ok a, s1) e = (a, s1, e, ground arith)
    split (err x, s1) e = absurd (ground arith)
