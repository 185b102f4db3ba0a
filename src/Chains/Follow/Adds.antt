-- ===== src/Chains/Follow/Adds.antt =====
-- The switch of `makeChainForOp` of libkbfs/cr_chains.go finds its chains, and leaves their pointers.
use kbfs.Prelude.{
  ℕ, false, List, [], ◌∷◌, ◌++◌, some, Result, ok, ◌≡◌, inl, inr, arith, refl, ap, ◌∙◌, Bool-cases,
  Option-cases,
}
use kbfs.Prelude.Chain.{◌>>=◌}
use kbfs.Prelude.Dict.{find}
use kbfs.Blocks.{BlockPointer, same_pointer, pointer_key}
use kbfs.Ops.Path.{is_initialized, zero_ptr}
use kbfs.Ops.Op.{
  Op, create_op, rm_op, rename_op, sync_op, set_attr_op, resolution_op, rekey_op, gc_op, RenameOp,
}
use kbfs.Ops.Op.New.{new_rm_op, new_create_op}
use kbfs.Chains.{CrChains, set_object}
use kbfs.Chains.Make.{
  add_op, add_rename_rm, add_overwrite_rm, add_rename_create, note_parents, note_rename, new_dir_of,
  add_to_chains, ensure_chain,
}
use kbfs.Chains.Follow.{Event, touch, View}
use kbfs.Chains.Follow.Linked.{happen}
use kbfs.Chains.Follow.Extend.{same_refl}
use kbfs.Chains.Follow.Notes.{view_of, same_view, ensure_chain-happen}

-- A call that succeeds and leaves the pointers as they were
abbrev pub Keeps : Result CrChains → CrChains → Type 0
Keeps r ccs = (ccs' : CrChains) × (r ≡ ok ccs') × (view_of ccs' ≡ view_of ccs)

abbrev pub HasChain : BlockPointer → CrChains → Type 0
HasChain ptr ccs = (a : ℕ) × (find ptr ccs.by_most_recent ≡ some a)

pub HasChain-view :
    (ptr : BlockPointer) (ccs ccs' : CrChains)
    → view_of ccs' ≡ view_of ccs
    → HasChain ptr ccs
    → HasChain ptr ccs'
HasChain-view ptr ccs ccs' e (a, f) = (a, ap (λ v. v.by_most_recent ptr) e ∙ f)

pub add_op-Keeps :
    (ptr : BlockPointer) (o : Op) (ccs : CrChains) → HasChain ptr ccs → Keeps (add_op ptr o ccs) ccs
unfolding add_op
add_op-Keeps ptr o ccs (a, found) =
    let ccs' =
      set_object a (record (ccs.objects a) { ops = (ccs.objects a).ops ++ (o ∷ []) }) ccs in
    (
      ccs',
      rw (add_op, found) refl,
      same_view (view_of ccs') (view_of ccs) (λ p. refl) (λ p. refl) (λ b. ground arith)
          (λ b. ground arith) refl,
    )

Keeps-bind :
    (r : Result CrChains) (ccs : CrChains) (k : CrChains → Result CrChains)
    → Keeps r ccs
    → ((ccs' : CrChains) → view_of ccs' ≡ view_of ccs → Keeps (k ccs') ccs')
    → Keeps (r >>= k) ccs
Keeps-bind r ccs k (ccs', e, v) rest = let (last, f, w) = rest ccs' v in (last, rw e f, w ∙ v)

-- What a rename needs: its directories have pointers and chains.
pub record IsPlaced (o : RenameOp) (ccs : CrChains) : Type 0 where
  pub old_set : same_pointer o.old_dir.unref zero_ptr ≡ false
  pub new_set : same_pointer (new_dir_of o).unref zero_ptr ≡ false
  pub new_ref_set : same_pointer (new_dir_of o).ref zero_ptr ≡ false
  pub old_chain : HasChain o.old_dir.ref ccs
  pub new_chain : HasChain (new_dir_of o).ref ccs

IsPlaced-view :
    (o : RenameOp) (ccs ccs' : CrChains)
    → view_of ccs' ≡ view_of ccs
    → IsPlaced o ccs
    → IsPlaced o ccs'
IsPlaced-view o ccs ccs' e p = record {
  old_set = p.old_set;
  new_set = p.new_set;
  new_ref_set = p.new_ref_set;
  old_chain = HasChain-view o.old_dir.ref ccs ccs' e p.old_chain;
  new_chain = HasChain-view (new_dir_of o).ref ccs ccs' e p.new_chain;
}

module _ (o : RenameOp) where
  add_rename_rm-Keeps : (ccs : CrChains) → IsPlaced o ccs → Keeps (add_rename_rm o ccs) ccs
  unfolding add_rename_rm new_rm_op
  add_rename_rm-Keeps ccs p = rw (p.old_set) (add_op-Keeps o.old_dir.ref _ ccs p.old_chain)

  add_overwrite_rm-Keeps : (ccs : CrChains) → IsPlaced o ccs → Keeps (add_overwrite_rm o ccs) ccs
  unfolding add_overwrite_rm new_rm_op
  add_overwrite_rm-Keeps ccs p = go o.common.unref_blocks refl
    where
      go : (l : List BlockPointer) → o.common.unref_blocks ≡ l → Keeps (add_overwrite_rm o ccs) ccs
      go [] e = (ccs, rw (add_overwrite_rm, e) refl, refl)
      go (q ∷ qs) e =
          rw (add_overwrite_rm, e, new_rm_op, p.new_set, p.new_ref_set)
            (add_op-Keeps (new_dir_of o).ref _ ccs p.new_chain)

  note_parents-Keeps : (ccs : CrChains) → IsPlaced o ccs → Keeps (note_parents o ccs) ccs
  unfolding note_parents note_rename
  note_parents-Keeps ccs p = elim (Bool-cases (is_initialized o.renamed)) [
    | inl known ↦
        let ccs' = note_rename o p.old_chain.0 p.new_chain.0 ccs in
        (ccs', rw (known, p.new_chain.1, p.old_chain.1) refl, refl)
    | inr unknown ↦ (ccs, rw unknown refl, refl)
  ]

  add_rename_create-Keeps : (ccs : CrChains) → IsPlaced o ccs → Keeps (add_rename_create o ccs) ccs
  unfolding add_rename_create new_create_op
  add_rename_create-Keeps ccs p = rw (p.new_set) (
      Keeps-bind _ ccs (note_parents o) (add_op-Keeps (new_dir_of o).ref _ ccs p.new_chain)
        (λ ccs' e. note_parents-Keeps ccs' (IsPlaced-view o ccs ccs' e p)))

-- What the switch needs: the chain to which the op is added
abbrev pub CanAdd : Op → CrChains → Type 0
CanAdd (create_op c) ccs = HasChain c.dir.ref ccs
CanAdd (rm_op r) ccs = HasChain r.dir.ref ccs
CanAdd (rename_op r) ccs = IsPlaced r ccs
CanAdd (sync_op s) ccs = HasChain s.file.ref ccs
CanAdd _ ccs = Unit

-- The file that the op touches
abbrev pub touches : Op → List (Event BlockPointer)
touches (set_attr_op s) = touch s.file ∷ []
touches _ = []

abbrev pub happen_all : List (Event BlockPointer) → View BlockPointer → View BlockPointer
happen_all [] v = v
happen_all (ev ∷ es) v = happen_all es (happen ev v)

HasChain-ensure_chain : (p : BlockPointer) (ccs : CrChains) → HasChain p (ensure_chain p ccs)
HasChain-ensure_chain p ccs =
    let by = ap (λ v. v.by_most_recent p) (ensure_chain-happen p ccs) in
    elim (Option-cases (find p ccs.by_most_recent)) [
      | inl missing ↦ (ccs.next, by ∙ rw (happen, missing) (rw (same_refl p) refl))
      | inr (a, found) ↦ (a, by ∙ rw (happen, found) found)
    ]

pub add_to_chains-ok :
    (o : Op) (ccs : CrChains)
    → CanAdd o ccs
    → (ccs' : CrChains) × (add_to_chains o ccs ≡ ok ccs')
      × (view_of ccs' ≡ happen_all (touches o) (view_of ccs))
unfolding add_to_chains
add_to_chains-ok (create_op c) ccs p = add_op-Keeps c.dir.ref (create_op c) ccs p
add_to_chains-ok (rm_op r) ccs p = add_op-Keeps r.dir.ref (rm_op r) ccs p
add_to_chains-ok (rename_op r) ccs p =
    Keeps-bind (add_rename_rm r ccs) ccs (λ c. add_overwrite_rm r c >>= add_rename_create r)
      (add_rename_rm-Keeps r ccs p)
      λ c1 e1.
        Keeps-bind (add_overwrite_rm r c1) c1 (add_rename_create r)
          (add_overwrite_rm-Keeps r c1 (IsPlaced-view r ccs c1 e1 p))
          λ c2 e2.
            add_rename_create-Keeps r c2 (IsPlaced-view r c1 c2 e2 (IsPlaced-view r ccs c1 e1 p))
add_to_chains-ok (sync_op s) ccs p = add_op-Keeps s.file.ref (sync_op s) ccs p
add_to_chains-ok (set_attr_op s) ccs p =
    let (ccs', e, v) =
      add_op-Keeps s.file (set_attr_op s) (ensure_chain s.file ccs)
        (HasChain-ensure_chain s.file ccs) in
    (ccs', e, v ∙ ensure_chain-happen s.file ccs)
add_to_chains-ok (resolution_op c) ccs p = (ccs, refl, refl)
add_to_chains-ok (rekey_op c) ccs p = (ccs, refl, refl)
add_to_chains-ok (gc_op g) ccs p = (ccs, refl, refl)
