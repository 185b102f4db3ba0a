-- ===== src/Chains/Collapse/Replay.antt =====
-- What the ops of a directory's chain do to one name, and the ops that a set of indices leaves.
use kbfs.Prelude.{
  ℕ, suc, ◌+◌, ◌<◌, Bool, true, false, ◌==◌, List, [], ◌∷◌, ◌++◌, if◌then◌else◌, length, ◌≡◌, ◌≢◌,
  refl, ap, arith, Bool-cases, inl, inr, ◌∙◌,
}
use kbfs.Prelude.Maps.{Map}
use kbfs.FileStore.{Bytes, same_bytes}
use kbfs.Ops.Op.{Op, create_op, rm_op}
use kbfs.Chains.Collapse.{keep_ops, is_removed}

-- The entry of a name: none, one that was there before the chain, or the one that an op has made.
pub data Entry : Type 0 where
  absent old : Entry
  made : Op → Entry

-- The entry before the chain
abbrev pub entry_before : Bool → Entry
entry_before true = old
entry_before false = absent

abbrev pub replay_op : Bytes → Op → Entry → Entry
replay_op x (create_op o) e = if same_bytes o.new_name x then made (create_op o) else e
replay_op x (rm_op o) e = if same_bytes o.old_name x then absent else e
replay_op x _ e = e

abbrev pub replay : Bytes → List Op → Entry → Entry
replay x [] e = e
replay x (o ∷ ops) e = replay x ops (replay_op x o e)

-- A create op is for a name that has no entry; one that is half of a rename may also replace an entry
-- that an op of the chain has made.
abbrev pub MayCreate : Bool → Entry → Type 0
MayCreate renamed absent = Unit
MayCreate renamed (made o) = renamed ≡ true
MayCreate renamed old = ⊥

abbrev pub MayFollow : Bytes → Op → Entry → Type 0
MayFollow x (create_op o) e = same_bytes o.new_name x ≡ true → MayCreate o.renamed e
MayFollow x _ e = Unit

abbrev pub IsReplayable : Bytes → List Op → Entry → Type 0
IsReplayable x [] e = Unit
IsReplayable x (o ∷ ops) e = MayFollow x o e × IsReplayable x ops (replay_op x o e)

-- The ops whose index is not removed, counted from `i`
abbrev pub keep : ℕ → List Op → (ℕ → Bool) → List Op
keep i [] r = []
keep i (o ∷ ops) r = let rest = keep (suc i) ops r in if r i then rest else o ∷ rest

pub keep_ops-keep :
    (i : ℕ) (ops : List Op) (m : Map Bool) → keep_ops i ops m ≡ keep i ops (λ k. is_removed k m)
unfolding keep_ops
keep_ops-keep i [] m = refl
keep_ops-keep i (o ∷ ops) m = rw (keep_ops-keep (suc i) ops m) refl

pub keep-append :
    (i : ℕ) (ops more : List Op) (r : ℕ → Bool)
    → keep i (ops ++ more) r ≡ keep i ops r ++ keep (length ops + i) more r
keep-append i [] more r = ap (λ k. keep k more r) (omega arith)
keep-append i (o ∷ ops) more r =
    let shift : length ops + suc i ≡ suc (length ops) + i = omega arith in
    let rest =
      keep-append (suc i) ops more r ∙ ap (λ k. keep (suc i) ops r ++ keep k more r) shift in
    elim (Bool-cases (r i)) [ inl out ↦ rw out rest | inr stays ↦ rw stays (ap (◌∷◌ o) rest) ]

-- Only the indices of the ops matter.
pub keep-ext :
    (i : ℕ) (ops : List Op) (r r' : ℕ → Bool)
    → ((k : ℕ) → k < length ops + i → r k ≡ r' k)
    → keep i ops r ≡ keep i ops r'
keep-ext i [] r r' h = refl
keep-ext i (o ∷ ops) r r' h =
    rw (h i (omega arith), keep-ext (suc i) ops r r' (λ k lt. h k (omega arith))) refl

abbrev pub with_index : (ℕ → Bool) → ℕ → ℕ → Bool
with_index r j k = if j == k then true else r k

module _ (x : Bytes) where
  pub replay-append :
      (ops more : List Op) (e : Entry) → replay x (ops ++ more) e ≡ replay x more (replay x ops e)
  replay-append [] more e = refl
  replay-append (o ∷ ops) more e = replay-append ops more (replay_op x o e)

  -- One more op
  pub replay-keep-snoc :
      (ops : List Op) (o : Op) (r : ℕ → Bool) (e : Entry)
      → replay x (keep 0 (ops ++ o ∷ []) r) e ≡ (
          if r (length ops)
          then replay x (keep 0 ops r) e
          else replay_op x o (replay x (keep 0 ops r) e))
  replay-keep-snoc ops o r e =
      let last : length ops + 0 ≡ length ops = omega arith in
      ap (λ l. replay x l e) (keep-append 0 ops (o ∷ []) r)
      ∙ replay-append (keep 0 ops r) (keep (length ops + 0) (o ∷ []) r) e
      ∙ ap (λ k. replay x (keep k (o ∷ []) r) (replay x (keep 0 ops r) e)) last
      ∙ ground arith

  -- Whether the op at the index stays does not matter to the name `x`.
  abbrev pub Irrelevant : List Op → ℕ → Type 0
  Irrelevant ops j =
      (r r' : ℕ → Bool) (e : Entry)
      → ((k : ℕ) → k ≢ j → r k ≡ r' k)
      → replay x (keep 0 ops r) e ≡ replay x (keep 0 ops r') e

  abbrev pub Passes : Op → Type 0
  Passes o = (e : Entry) → replay_op x o e ≡ e

  pub Irrelevant-snoc :
      (ops : List Op) (o : Op) (j : ℕ)
      → j < length ops
      → Irrelevant ops j
      → Irrelevant (ops ++ o ∷ []) j
  Irrelevant-snoc ops o j lt irr r r' e h =
      rw
        (
          replay-keep-snoc ops o r e,
          replay-keep-snoc ops o r' e,
          irr r r' e h,
          h (length ops) (λ eq. omega (arith, eq, lt)),
        )
        refl

  pub Irrelevant-last :
      (ops : List Op) (o : Op) → Passes o → Irrelevant (ops ++ o ∷ []) (length ops)
  Irrelevant-last ops o pass r r' e h =
      let same = keep-ext 0 ops r r' (λ k lt. h k (λ eq. omega (arith, eq, lt))) in
      rw
        (
          replay-keep-snoc ops o r e,
          replay-keep-snoc ops o r' e,
          same,
          pass (replay x (keep 0 ops r') e),
        )
        (ground arith)
