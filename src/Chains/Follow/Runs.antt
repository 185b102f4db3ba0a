-- ===== src/Chains/Follow/Runs.antt =====
-- `makeChainForOp` of libkbfs/cr_chains.go over the ops of a history: the chains lead from each original
-- pointer to the latest version of its block.
use kbfs.Prelude.{
  ℕ, true, false, List, [], ◌∷◌, ◌++◌, some, ◌≡◌, inl, inr, arith, refl, sym, ap, subst, ◌∙◌,
  Bool-cases, Option-cases,
}
use kbfs.Prelude.Dict.{find, store, find-store}
use kbfs.Blocks.{BlockPointer, same_pointer, pointer_key}
use kbfs.Ops.Path.{is_initialized, zero_ptr}
use kbfs.Ops.Update.{BlockUpdate, is_zero_update}
use kbfs.Ops.Op.{
  Op, create_op, rm_op, rename_op, sync_op, set_attr_op, resolution_op, rekey_op, gc_op, RenameOp,
}
use kbfs.Ops.Op.Pointers.{all_updates}
use kbfs.Chains.{CrChains}
use kbfs.Chains.Make.{note_update, note_updates, note_pointers, point_chain, new_dir_of}
use kbfs.Chains.Follow.{update, Past, after, IsHistory, MayHappen}
use kbfs.Chains.Follow.Invariant.{IsLinked}
use kbfs.Chains.Follow.Extend.{same_refl}
use kbfs.Chains.Follow.Linked.{happen, lead, happen-IsLinked}
use kbfs.Chains.Follow.Notes.{
  view_of, as_events, lead_all, after_all, note_updates-IsLinked, note_update-happen,
}
use kbfs.Chains.Follow.Adds.{HasChain, CanAdd, IsPlaced}

note_updates-append :
    (us more : List BlockUpdate) (ccs : CrChains)
    → note_updates (us ++ more) ccs ≡ note_updates more (note_updates us ccs)
unfolding note_updates
note_updates-append [] more ccs = refl
note_updates-append (u ∷ us) more ccs = note_updates-append us more (note_update u ccs)

IsHistory-append :
    (us more : List BlockUpdate) (h : Past BlockPointer)
    → IsHistory is_initialized (as_events (us ++ more)) h
    → IsHistory is_initialized (as_events us) h
      × IsHistory is_initialized (as_events more) (after_all (as_events us) h)
IsHistory-append [] more h y = (tt, y)
IsHistory-append (u ∷ us) more h y =
    let rest = IsHistory-append us more (after (update u.unref u.ref) h) y.1 in
    ((y.0, rest.0), rest.1)

stored : (a : ℕ) (p : BlockPointer) (m : List (BlockPointer × ℕ)) → find p (store p a m) ≡ some a
stored a p m = find-store p p a m ∙ rw (same_refl p) refl

-- The new version has a chain after its update.
HasChain-note_update : (u : BlockUpdate) (ccs : CrChains) → HasChain u.ref (note_update u ccs)
unfolding note_update point_chain
HasChain-note_update u ccs = elim (Option-cases (find u.unref ccs.by_most_recent)) [
  | inl missing ↦ (ccs.next, rw (note_update, missing) (stored ccs.next u.ref _))
  | inr (a, found) ↦ (a, rw (note_update, found) (stored a u.ref _))
]

HasChain-last :
    (us : List BlockUpdate) (u : BlockUpdate) (ccs : CrChains)
    → HasChain u.ref (note_updates (us ++ u ∷ []) ccs)
HasChain-last us u ccs =
    rw (note_updates-append us (u ∷ []) ccs)
      (unfold note_updates in HasChain-note_update u (note_updates us ccs))

HasChain-happen :
    (p u r : BlockPointer) (ccs ccs' : CrChains)
    → view_of ccs' ≡ happen (update u r) (view_of ccs)
    → same_pointer u p ≡ false
    → HasChain p ccs
    → HasChain p ccs'
HasChain-happen p u r ccs ccs' e differ (a, found) =
    let at_p = ap (λ v. v.by_most_recent p) e in
    elim (Option-cases (find u ccs.by_most_recent)) [
      | inl missing ↦ elim (Bool-cases (same_pointer r p)) [
        | inl same ↦ (ccs.next, at_p ∙ rw (happen, missing) (rw same refl))
        | inr other ↦ (a, at_p ∙ rw (happen, missing) (rw other found))
      ]
      | inr (b, known) ↦ elim (Bool-cases (same_pointer r p)) [
        | inl same ↦ (b, at_p ∙ rw (happen, known) (rw same refl))
        | inr other ↦ (a, at_p ∙ rw (happen, known) (rw (other, differ) found))
      ]
    ]

-- A rename is between directories with pointers, and the new pointer of the one is not the old one of
-- the other.
abbrev pub IsSound : Op → Type 0
IsSound (rename_op r) =
    (same_pointer (new_dir_of r).ref zero_ptr ≡ false)
    × (is_initialized (new_dir_of r).unref ≡ true)
    × (is_zero_update r.new_dir ≡ false → same_pointer r.old_dir.unref r.new_dir.ref ≡ false)
IsSound _ = Unit

set_of_initialized : (p : BlockPointer) → is_initialized p ≡ true → same_pointer p zero_ptr ≡ false
set_of_initialized p i = ground arith

all_updates-one :
    (r : RenameOp)
    → is_zero_update r.new_dir ≡ true
    → all_updates (rename_op r) ≡ r.common.updates ++ (r.old_dir ∷ [])
unfolding all_updates
all_updates-one r z = rw z refl

all_updates-two :
    (r : RenameOp)
    → is_zero_update r.new_dir ≡ false
    → all_updates (rename_op r) ≡ r.common.updates ++ (r.new_dir ∷ r.old_dir ∷ [])
unfolding all_updates
all_updates-two r z = rw z refl

IsLinked-note_update :
    (g : BlockPointer → BlockPointer) (h : Past BlockPointer) (ccs : CrChains) (u : BlockUpdate)
    → IsLinked (view_of ccs) g h
    → MayHappen is_initialized (update u.unref u.ref) h
    → IsLinked
        (view_of (note_update u ccs))
        (lead (update u.unref u.ref) g)
        (after (update u.unref u.ref) h)
IsLinked-note_update g h ccs u l y =
    subst (λ v. IsLinked v (lead (update u.unref u.ref) g) (after (update u.unref u.ref) h))
      (sym (note_update-happen g h u ccs l y.0))
      (happen-IsLinked (view_of ccs) g h l is_initialized (update u.unref u.ref) y)

module _ (g : BlockPointer → BlockPointer) (h : Past BlockPointer) (ccs : CrChains)
    (l : IsLinked (view_of ccs) g h) where
  -- The directories of a rename after its updates
  old_chain_after :
      (us : List BlockUpdate) (m o : BlockUpdate)
      → HasChain o.ref (note_updates (us ++ (m ∷ o ∷ [])) ccs)
  old_chain_after us m o =
      rw (note_updates-append us (m ∷ o ∷ []) ccs)
        (unfold note_updates in HasChain-note_update o (note_update m (note_updates us ccs)))

  new_chain_after :
      (us : List BlockUpdate) (m o : BlockUpdate)
      → IsHistory is_initialized (as_events (us ++ (m ∷ o ∷ []))) h
      → same_pointer o.unref m.ref ≡ false
      → HasChain m.ref (note_updates (us ++ (m ∷ o ∷ [])) ccs)
  new_chain_after us m o y differ =
      let y' = IsHistory-append us (m ∷ o ∷ []) h y in
      let c0 = note_updates us ccs in
      let c1 = note_update m c0 in
      let l0 = note_updates-IsLinked us g h ccs l y'.0 in
      let l1 =
        IsLinked-note_update (lead_all (as_events us) g) (after_all (as_events us) h) c0 m l0
          y'.1.0 in
      let e = note_update-happen _ _ o c1 l1 y'.1.1.0.0 in
      rw (note_updates-append us (m ∷ o ∷ []) ccs) (
        unfold note_updates in
        HasChain-happen m.ref o.unref o.ref c1 (note_update o c1) e differ
          (HasChain-note_update m c0))

  IsPlaced-note_updates :
      (r : RenameOp)
      → IsSound (rename_op r)
      → IsHistory is_initialized (as_events (all_updates (rename_op r))) h
      → IsPlaced r (note_updates (all_updates (rename_op r)) ccs)
  IsPlaced-note_updates r s y = elim (Bool-cases (is_zero_update r.new_dir)) [
    | inl one ↦
        let new_old : new_dir_of r ≡ r.old_dir = rw one refl in
        let found : HasChain r.old_dir.ref (note_updates (all_updates (rename_op r)) ccs) =
          rw (all_updates-one r one) (HasChain-last r.common.updates r.old_dir ccs) in
        record {
          old_set =
              subst (λ d. same_pointer d.unref zero_ptr ≡ false) new_old
                (set_of_initialized (new_dir_of r).unref s.1);
          new_set = set_of_initialized (new_dir_of r).unref s.1;
          new_ref_set = s.0;
          old_chain = found;
          new_chain =
              subst (λ d. HasChain d.ref (note_updates (all_updates (rename_op r)) ccs))
                (sym new_old) found;
        }
    | inr two ↦
        let new_new : new_dir_of r ≡ r.new_dir = rw two refl in
        let y' =
          subst (λ us. IsHistory is_initialized (as_events us) h) (all_updates-two r two) y in
        let parts = IsHistory-append r.common.updates (r.new_dir ∷ r.old_dir ∷ []) h y' in
        record {
          old_set = set_of_initialized r.old_dir.unref parts.1.1.0.0;
          new_set = set_of_initialized (new_dir_of r).unref s.1;
          new_ref_set = s.0;
          old_chain =
              rw (all_updates-two r two) (old_chain_after r.common.updates r.new_dir r.old_dir);
          new_chain =
              rw (new_new, all_updates-two r two)
                (new_chain_after r.common.updates r.new_dir r.old_dir y' (s.2 two));
        }
  ]

  pub CanAdd-note_pointers :
      (o : Op)
      → IsSound o
      → IsHistory is_initialized (as_events (all_updates o)) h
      → CanAdd o (note_pointers o ccs)
  unfolding note_pointers all_updates
  CanAdd-note_pointers (create_op c) s y = HasChain-last c.common.updates c.dir ccs
  CanAdd-note_pointers (rm_op c) s y = HasChain-last c.common.updates c.dir ccs
  CanAdd-note_pointers (rename_op r) s y =
      let p = IsPlaced-note_updates r s y in
      record {
        old_set = p.old_set;
        new_set = p.new_set;
        new_ref_set = p.new_ref_set;
        old_chain = p.old_chain;
        new_chain = p.new_chain;
      }
  CanAdd-note_pointers (sync_op c) s y = HasChain-last c.common.updates c.file ccs
  CanAdd-note_pointers (set_attr_op c) s y = tt
  CanAdd-note_pointers (resolution_op c) s y = tt
  CanAdd-note_pointers (rekey_op c) s y = tt
  CanAdd-note_pointers (gc_op c) s y = tt
