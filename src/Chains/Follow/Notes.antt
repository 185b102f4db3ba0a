-- ===== src/Chains/Follow/Notes.antt =====
-- The loops of `makeChainForOp` of libkbfs/cr_chains.go over the updates are the steps of a history.
use kbfs.Prelude.{
  ℕ, true, eq_refl, List, [], ◌∷◌, ◌≡◌, inl, inr, arith, refl, sym, subst, ◌∙◌, Option-cases,
}
use kbfs.Prelude.Dict.{find, discard, find-store, find-discard}
use kbfs.Blocks.{BlockPointer, pointer_key}
use kbfs.Ops.Path.{is_initialized}
use kbfs.Ops.Update.{BlockUpdate}
use kbfs.Chains.{CrChains, most_recent_from_original_or_same}
use kbfs.Chains.Make.{note_update, note_updates, point_chain, start_chain, ensure_chain}
use kbfs.Chains.Follow.{Event, update, touch, View, Past, after, follow, IsHistory}
use kbfs.Chains.Follow.Invariant.{IsLinked, latest}
use kbfs.Chains.Follow.Extend.{extend}
use kbfs.Chains.Follow.Begin.{begin}
use kbfs.Chains.Follow.Linked.{happen, happen-IsLinked, lead}

abbrev pub view_of : CrChains → View BlockPointer
view_of ccs = record {
  by_original = λ p. find p ccs.by_original;
  by_most_recent = λ p. find p ccs.by_most_recent;
  original = λ a. (ccs.objects a).original;
  most_recent = λ a. (ccs.objects a).most_recent;
  next = ccs.next;
}

pub latest-view_of :
    (o : BlockPointer) (ccs : CrChains)
    → most_recent_from_original_or_same o ccs ≡ latest (view_of ccs) o
unfolding most_recent_from_original_or_same
latest-view_of o ccs = ground arith

pub same_view :
    (v w : View BlockPointer)
    → ((p : BlockPointer) → v.by_original p ≡ w.by_original p)
    → ((p : BlockPointer) → v.by_most_recent p ≡ w.by_most_recent p)
    → ((a : ℕ) → v.original a ≡ w.original a)
    → ((a : ℕ) → v.most_recent a ≡ w.most_recent a)
    → v.next ≡ w.next
    → v ≡ w
same_view v w bo br og mr nx = λ i. record {
  by_original = λ p. bo p i;
  by_most_recent = λ p. br p i;
  original = λ a. og a i;
  most_recent = λ a. mr a i;
  next = nx i;
}

-- A chain whose most recent pointer is the one that is replaced
view-point_chain :
    (a : ℕ) (u r : BlockPointer) (ccs : CrChains)
    → (ccs.objects a).most_recent ≡ u
    → is_initialized u ≡ true
    → view_of (point_chain a r ccs) ≡ extend a u r (view_of ccs)
unfolding point_chain
view-point_chain a u r ccs last init =
    same_view (view_of (point_chain a r ccs)) (extend a u r (view_of ccs)) (λ p. refl)
      (λ p.
        rw (last, init)
          (find-store r p a (discard u ccs.by_most_recent)
            ∙ rw (find-discard u p ccs.by_most_recent) refl))
      (λ b. ground arith) (λ b. ground arith) refl

-- A chain that has just been started
view-start_chain :
    (u r : BlockPointer) (ccs : CrChains)
    → view_of (point_chain ccs.next r (start_chain u ccs)) ≡ begin u r (view_of ccs)
unfolding point_chain
view-start_chain u r ccs =
    same_view (view_of (point_chain ccs.next r (start_chain u ccs))) (begin u r (view_of ccs))
      (λ p. find-store u p ccs.next ccs.by_original)
      (λ p. rw (eq_refl ccs.next) (find-store r p ccs.next ccs.by_most_recent)) (λ b. ground arith)
      (λ b. ground arith) refl

pub note_update-happen :
    (g : BlockPointer → BlockPointer) (h : Past BlockPointer) (u : BlockUpdate) (ccs : CrChains)
    → IsLinked (view_of ccs) g h
    → is_initialized u.unref ≡ true
    → view_of (note_update u ccs) ≡ happen (update u.unref u.ref) (view_of ccs)
unfolding note_update
note_update-happen g h u ccs l init = elim (Option-cases (find u.unref ccs.by_most_recent)) [
  | inl missing ↦ rw (note_update, happen, missing) (view-start_chain u.unref u.ref ccs)
  | inr (a, found) ↦
      rw (note_update, happen, found)
        (view-point_chain a u.unref u.ref ccs (l.has_most_recent u.unref a found) init)
]

pub ensure_chain-happen :
    (p : BlockPointer) (ccs : CrChains)
    → view_of (ensure_chain p ccs) ≡ happen (touch p) (view_of ccs)
unfolding ensure_chain
ensure_chain-happen p ccs = elim (Option-cases (find p ccs.by_most_recent)) [
  | inl missing ↦
      rw (ensure_chain, happen, missing)
        (same_view _ (begin p p (view_of ccs)) (λ q. find-store p q ccs.next ccs.by_original)
          (λ q. find-store p q ccs.next ccs.by_most_recent) (λ b. ground arith) (λ b. ground arith)
          refl)
  | inr (a, found) ↦ rw (ensure_chain, happen, found) refl
]

abbrev pub as_event : BlockUpdate → Event BlockPointer
as_event u = update u.unref u.ref

abbrev pub as_events : List BlockUpdate → List (Event BlockPointer)
as_events [] = []
as_events (u ∷ us) = as_event u ∷ as_events us

abbrev pub lead_all :
    List (Event BlockPointer) → (BlockPointer → BlockPointer) → BlockPointer → BlockPointer
lead_all [] g = g
lead_all (ev ∷ es) g = lead_all es (lead ev g)

abbrev pub after_all : List (Event BlockPointer) → Past BlockPointer → Past BlockPointer
after_all [] h = h
after_all (ev ∷ es) h = after_all es (after ev h)

pub lead_all-follow :
    (es : List (Event BlockPointer)) (g : BlockPointer → BlockPointer) (o : BlockPointer)
    → lead_all es g o ≡ follow (g o) es
lead_all-follow [] g o = refl
lead_all-follow (update u r ∷ es) g o = lead_all-follow es (lead (update u r) g) o
lead_all-follow (touch p ∷ es) g o = lead_all-follow es g o

pub note_updates-IsLinked :
    (us : List BlockUpdate) (g : BlockPointer → BlockPointer) (h : Past BlockPointer)
    (ccs : CrChains)
    → IsLinked (view_of ccs) g h
    → IsHistory is_initialized (as_events us) h
    → IsLinked
        (view_of (note_updates us ccs))
        (lead_all (as_events us) g)
        (after_all (as_events us) h)
unfolding note_updates
note_updates-IsLinked [] g h ccs l y = l
note_updates-IsLinked (u ∷ us) g h ccs l y =
    note_updates-IsLinked us (lead (as_event u) g) (after (as_event u) h) (note_update u ccs)
      (subst (λ v. IsLinked v (lead (as_event u) g) (after (as_event u) h))
        (sym (note_update-happen g h u ccs l y.0.0))
        (happen-IsLinked (view_of ccs) g h l is_initialized (as_event u) y.0))
      y.1
