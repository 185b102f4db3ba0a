-- ===== src/Chains/Collapse/Sound.antt =====
-- The invariant of the loop of `crChain.collapse` of libkbfs/cr_chains.go, for one name `x`.
use kbfs.Prelude.{
  ℕ, suc, ◌≤◌, ◌<◌, Bool, true, false, ◌==◌, eq_refl, List, [], ◌∷◌, ◌++◌, if◌then◌else◌, Option,
  none, some, length, length-append, ◌≡◌, refl, sym, arith, subst, ◌∙◌,
}
use kbfs.FileStore.{Bytes, bytes_key}
use kbfs.Ops.Op.{Op}
use kbfs.Chains.Collapse.Replay.{
  Entry, absent, old, made, replay, replay_op, keep, keep-ext, with_index, replay-append,
  replay-keep-snoc, Passes,
}

abbrev pub IsNotMade : Entry → Type 0
IsNotMade absent = Unit
IsNotMade old = Unit
IsNotMade (made o) = ⊥

-- The indices with the one of the mark
abbrev pub with_mark : Option ℕ → (ℕ → Bool) → ℕ → Bool
with_mark none r k = r k
with_mark (some j) r k = with_index r j k

module _ (x : Bytes) (e : Entry) where
  -- What `createsSeen` holds for `x`: the index of a create op without which the ops that stay leave no
  -- entry.
  abbrev pub Mark : List Op → (ℕ → Bool) → Option ℕ → Type 0
  Mark ops r none = IsNotMade (replay x ops e)
  Mark ops r (some j) = (j < length ops) × (replay x (keep 0 ops (with_index r j)) e ≡ absent)

  -- The ops that stay do the same to the name as all ops, and no op to come is removed yet.
  abbrev pub Agrees : List Op → (ℕ → Bool) → Option ℕ → Type 0
  Agrees ops r mark =
      (replay x (keep 0 ops r) e ≡ replay x ops e)
      × Mark ops r mark
      × ((k : ℕ) → length ops ≤ k → r k ≡ false)

  module _ (ops : List Op) (r : ℕ → Bool) (o : Op) where
    after : length (ops ++ o ∷ []) ≡ suc (length ops)
    after = omega (arith, length-append ops (o ∷ []))

    last : replay x (ops ++ o ∷ []) e ≡ replay_op x o (replay x ops e)
    last = replay-append x ops (o ∷ []) e

    pass-keep :
        (r' : ℕ → Bool)
        → Passes x o
        → replay x (keep 0 (ops ++ o ∷ []) r') e ≡ replay x (keep 0 ops r') e
    pass-keep r' pass =
        rw (replay-keep-snoc x ops o r' e, pass (replay x (keep 0 ops r') e)) (ground arith)

    -- The op does nothing to `x`, nor do the indices that are removed with it.
    pub Agrees-pass :
        (r' : ℕ → Bool) (mark : Option ℕ)
        → Passes x o
        → ((d : Option ℕ)
            → replay x (keep 0 ops (with_mark d r')) e ≡ replay x (keep 0 ops (with_mark d r)) e)
        → ((k : ℕ) → suc (length ops) ≤ k → r' k ≡ false)
        → Agrees ops r mark
        → Agrees (ops ++ o ∷ []) r' mark
    Agrees-pass r' mark pass same later a = (
      pass-keep r' pass ∙ same none ∙ a.0 ∙ sym (last ∙ pass (replay x ops e)),
      (elim mark as (λ d. Mark ops r d → Mark (ops ++ o ∷ []) r' d) [
        | none ↦ λ b. subst IsNotMade (sym (last ∙ pass (replay x ops e))) b
        | some j ↦
            λ b. (omega (arith, after, b.0), pass-keep (with_index r' j) pass ∙ same (some j) ∙ b.1)
      ])
          a.1,
      λ k le. later k (omega (arith, after, le)),
    )

    -- A create op of `x`
    pub Agrees-create :
        (r' : ℕ → Bool)
        → ((f : Entry) → replay_op x o f ≡ made o)
        → r' (length ops) ≡ false
        → replay x (keep 0 ops r') e ≡ absent
        → ((k : ℕ) → suc (length ops) ≤ k → r' k ≡ false)
        → Agrees (ops ++ o ∷ []) r' (some (length ops))
    Agrees-create r' makes stays gone later =
        let here : with_index r' (length ops) (length ops) ≡ true =
          rw (eq_refl (length ops)) refl in
        let below = keep-ext 0 ops (with_index r' (length ops)) r' (λ k lt. ground (arith, lt)) in
        (
          rw (replay-keep-snoc x ops o r' e, stays, last, makes (replay x (keep 0 ops r') e))
              (sym (makes (replay x ops e))),
          (
            omega (arith, after),
            rw (replay-keep-snoc x ops o (with_index r' (length ops)) e, here, below) gone,
          ),
          λ k le. later k (omega (arith, after, le)),
        )

    -- An rm op of `x` that stays
    pub Agrees-rm :
        ((f : Entry) → replay_op x o f ≡ absent) → Agrees ops r none → Agrees (ops ++ o ∷ []) r none
    Agrees-rm takes a = (
      rw
          (
            replay-keep-snoc x ops o r e,
            a.2 (length ops) (omega arith),
            last,
            takes (replay x (keep 0 ops r) e),
          )
          (sym (takes (replay x ops e))),
      rw (last, takes (replay x ops e)) tt,
      λ k le. a.2 k (omega (arith, after, le)),
    )

    -- An rm op of `x` that goes together with the create op at `j`
    pub Agrees-cancel :
        (r' : ℕ → Bool) (j : ℕ)
        → ((f : Entry) → replay_op x o f ≡ absent)
        → ((k : ℕ) → r' k ≡ (if length ops == k then true else with_index r j k))
        → Agrees ops r (some j)
        → Agrees (ops ++ o ∷ []) r' none
    Agrees-cancel r' j takes ext a =
        let out : r' (length ops) ≡ true = ext (length ops) ∙ rw (eq_refl (length ops)) refl in
        let below = keep-ext 0 ops r' (with_index r j) (λ k lt. ground (arith, ext k, lt)) in
        (
          rw (replay-keep-snoc x ops o r' e, out, last, below, takes (replay x ops e)) a.1.1,
          rw (last, takes (replay x ops e)) tt,
          λ k le. ground (arith, ext k, a.2 k, after, le, a.1.0),
        )
