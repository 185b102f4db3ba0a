-- ===== src/Chains/Collapse/Correct.antt =====
-- `crChain.collapse` of libkbfs/cr_chains.go leaves the effect of the ops of a directory unchanged.
use kbfs.Prelude.{
  suc, Bool, true, false, List, [], ◌∷◌, ◌++◌, length, length-append, ◌≡◌, refl, sym, ap, arith,
  Bool-cases, inl, inr, subst, ◌∙◌, ltb,
}
use mathlib.Core.List.{append-nil, append_assoc}
use kbfs.FileStore.{Bytes, same_bytes, same_bytes_iff, bytes_key}
use kbfs.Ops.Op.{
  Op, create_op, rm_op, rename_op, sync_op, set_attr_op, resolution_op, rekey_op, gc_op,
}
use kbfs.Chains.Collapse.{Collapsing, note_op, note_ops, collapse}
use kbfs.Chains.Collapse.Replay.{
  Entry, replay, replay-append, keep_ops-keep, IsReplayable, MayFollow, entry_before,
}
use kbfs.Chains.Collapse.Step.{
  Inv, Inv-neutral, Inv-create_self, Inv-create_other, Inv-rm_self, Inv-rm_other,
}

module _ (x : Bytes) (e : Entry) where
  note_op-Inv :
      (ops : List Op) (s : Collapsing) (o : Op)
      → MayFollow x o (replay x ops e)
      → Inv x e ops s
      → Inv x e (ops ++ o ∷ []) (note_op (length ops) o s)
  note_op-Inv ops s (create_op c) may inv = elim (Bool-cases (same_bytes c.new_name x)) [
    | inl same ↦ Inv-create_self x e ops s c ((same_bytes_iff c.new_name x).0 same) (may same) inv
    | inr differ ↦
        Inv-create_other x e ops s c (λ eq. cc (differ, (same_bytes_iff c.new_name x).1 eq)) inv
  ]
  note_op-Inv ops s (rm_op r) may inv = elim (Bool-cases (same_bytes r.old_name x)) [
    | inl same ↦ Inv-rm_self x e ops s r ((same_bytes_iff r.old_name x).0 same) inv
    | inr differ ↦
        Inv-rm_other x e ops s r (λ eq. cc (differ, (same_bytes_iff r.old_name x).1 eq)) inv
  ]
  note_op-Inv ops s (rename_op r) may inv =
      unfold note_op in Inv-neutral x e ops s (rename_op r) (λ f. refl) inv
  note_op-Inv ops s (sync_op r) may inv =
      unfold note_op in Inv-neutral x e ops s (sync_op r) (λ f. refl) inv
  note_op-Inv ops s (set_attr_op r) may inv =
      unfold note_op in Inv-neutral x e ops s (set_attr_op r) (λ f. refl) inv
  note_op-Inv ops s (resolution_op r) may inv =
      unfold note_op in Inv-neutral x e ops s (resolution_op r) (λ f. refl) inv
  note_op-Inv ops s (rekey_op r) may inv =
      unfold note_op in Inv-neutral x e ops s (rekey_op r) (λ f. refl) inv
  note_op-Inv ops s (gc_op r) may inv =
      unfold note_op in Inv-neutral x e ops s (gc_op r) (λ f. refl) inv

  note_ops-Inv :
      (before ops : List Op) (s : Collapsing)
      → IsReplayable x ops (replay x before e)
      → Inv x e before s
      → Inv x e (before ++ ops) (note_ops (length before) ops s)
  unfolding note_ops
  note_ops-Inv before [] s ok inv = rw append-nil inv
  note_ops-Inv before (o ∷ ops) s ok inv =
      let step = note_op-Inv before s o ok.0 inv in
      let next = replay-append x before (o ∷ []) e in
      let rest =
        note_ops-Inv (before ++ o ∷ []) ops (note_op (length before) o s)
          (subst (λ f. IsReplayable x ops f) (sym next) ok.1) step in
      let len : length (before ++ o ∷ []) ≡ suc (length before) =
        omega (arith, length-append before (o ∷ [])) in
      subst (λ i. Inv x e (before ++ o ∷ ops) (note_ops i ops (note_op (length before) o s))) len
        (subst
          (λ l. Inv x e l (note_ops (length (before ++ o ∷ [])) ops (note_op (length before) o s)))
          (append_assoc before (o ∷ []) ops) rest)

abbrev start_state : Collapsing
start_state = record { creates_seen = []; indices_to_remove = [] }

start-Inv : (x : Bytes) (present : Bool) → Inv x (entry_before present) [] start_state
start-Inv x true = ((refl, tt, λ k le. refl), λ n j f. absurd (cc (f)))
start-Inv x false = ((refl, tt, λ k le. refl), λ n j f. absurd (cc (f)))

-- For every name whose create ops are for a name without an entry, or are halves of a rename and for an
-- entry that an op of the chain has made: the ops that collapse leaves do to the entry of the name what
-- all ops of the chain do, whether or not the directory had an entry before the chain. The op that made
-- the entry is the same too.
pub replay-collapse :
    (x : Bytes) (present : Bool) (ops : List Op)
    → IsReplayable x ops (entry_before present)
    → replay x (collapse ops) (entry_before present) ≡ replay x ops (entry_before present)
unfolding collapse
replay-collapse x present ops ok =
    let e = entry_before present in
    let inv = note_ops-Inv x e [] ops start_state ok (start-Inv x present) in
    let kept =
      ap (λ l. replay x l e) (keep_ops-keep 0 ops (note_ops 0 ops start_state).indices_to_remove)
      ∙ inv.0.0 in
    elim (Bool-cases (ltb 0 (length (note_ops 0 ops start_state).indices_to_remove))) [
      | inl some_removed ↦ rw some_removed kept
      | inr none_removed ↦ rw none_removed refl
    ]
