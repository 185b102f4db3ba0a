-- ===== src/Chains/Collapse/Effect.antt =====
-- The sets of indices that the loop of `crChain.collapse` of libkbfs/cr_chains.go makes.
use kbfs.Prelude.{
  ℕ, ◌+◌, ◌≤◌, ◌<◌, Bool, true, false, ◌==◌, List, if◌then◌else◌, Option, none, some, length, ◌≡◌,
  ◌≢◌, refl, ap, arith, ◌∙◌,
}
use kbfs.Prelude.Maps.{Map, insert, lookup-insert}
use kbfs.FileStore.{Bytes, bytes_key}
use kbfs.Ops.Op.{Op}
use kbfs.Chains.Collapse.{is_removed}
use kbfs.Chains.Collapse.Replay.{
  Entry, absent, old, made, replay, keep, keep-ext, with_index, Irrelevant, MayCreate,
}
use kbfs.Chains.Collapse.Sound.{IsNotMade, Agrees, with_mark}

pub is_removed-insert :
    (j k : ℕ) (m : Map Bool)
    → is_removed k (insert j true m) ≡ (if j == k then true else is_removed k m)
is_removed-insert j k m = ground (arith, lookup-insert j k true m)

absent_of_free : (f : Entry) (b : Bool) → IsNotMade f → MayCreate b f → f ≡ absent
absent_of_free absent b n c = refl
absent_of_free old b n c = absurd c
absent_of_free (made o) b n c = absurd n

absent_of_fresh : (f : Entry) → MayCreate false f → f ≡ absent
absent_of_fresh absent c = refl
absent_of_fresh old c = absurd c
absent_of_fresh (made o) c = absurd (cc (c))

abbrev pub create_indices : Option ℕ → Bool → Map Bool → Map Bool
create_indices mark b m = elim mark [ none ↦ m | some prev ↦ if b then insert prev true m else m ]

module _ (x : Bytes) (e : Entry) where
  module _ (ops : List Op) (m : Map Bool) where
    -- What a set with one more index leaves, where the index is that of a create op of another name.
    pub same-insert :
        (r' : ℕ → Bool) (j : ℕ)
        → Irrelevant x ops j
        → ((k : ℕ) → k < length ops → r' k ≡ with_index (λ i. is_removed i m) j k)
        → (d : Option ℕ)
        → replay x (keep 0 ops (with_mark d r')) e
          ≡ replay x (keep 0 ops (with_mark d (λ i. is_removed i m))) e
    same-insert r' j irr ext d =
        let r : ℕ → Bool = λ i. is_removed i m in
        ap (λ l. replay x l e)
          (keep-ext 0 ops (with_mark d r') (with_mark d (with_index r j)) (λ k lt. pick d k lt))
        ∙ irr (with_mark d (with_index r j)) (with_mark d r) e (λ k ne. skip d k ne)
      where
        pick :
            (d : Option ℕ) (k : ℕ)
            → k < length ops + 0
            → with_mark d r' k ≡ with_mark d (with_index (λ i. is_removed i m) j) k
        pick none k lt = ext k (omega arith)
        pick (some i) k lt = ground (arith, ext k)

        skip :
            (d : Option ℕ) (k : ℕ)
            → k ≢ j
            → with_mark d (with_index (λ i. is_removed i m) j) k
              ≡ with_mark d (λ i. is_removed i m) k
        skip none k ne = ground arith
        skip (some i) k ne = ground arith

    pub create-gone :
        (mark : Option ℕ) (b : Bool)
        → Agrees x e ops (λ i. is_removed i m) mark
        → MayCreate b (replay x ops e)
        → replay x (keep 0 ops (λ k. is_removed k (create_indices mark b m))) e ≡ absent
    create-gone none b a may = a.0 ∙ absent_of_free (replay x ops e) b a.1 may
    create-gone (some j) false a may = a.0 ∙ absent_of_fresh (replay x ops e) may
    create-gone (some j) true a may =
        ap (λ l. replay x l e)
          (keep-ext 0 ops (λ k. is_removed k (insert j true m)) (with_index (λ i. is_removed i m) j)
            (λ k lt. is_removed-insert j k m))
        ∙ a.1.1

    pub create-later :
        (mark : Option ℕ) (b : Bool) (k : ℕ)
        → ((j : ℕ) → mark ≡ some j → j < length ops)
        → is_removed k m ≡ false
        → length ops ≤ k
        → is_removed k (create_indices mark b m) ≡ false
    create-later none b k h f le = f
    create-later (some j) false k h f le = f
    create-later (some j) true k h f le = is_removed-insert j k m ∙ ground (arith, h j refl, f, le)

    pub create-same :
        (mark : Option ℕ) (b : Bool)
        → ((j : ℕ) → mark ≡ some j → Irrelevant x ops j)
        → (d : Option ℕ)
        → replay x (keep 0 ops (with_mark d (λ k. is_removed k (create_indices mark b m)))) e
          ≡ replay x (keep 0 ops (with_mark d (λ i. is_removed i m))) e
    create-same none b h d = refl
    create-same (some j) false h d = refl
    create-same (some j) true h d =
        same-insert (λ k. is_removed k (insert j true m)) j (h j refl)
          (λ k lt. is_removed-insert j k m) d
