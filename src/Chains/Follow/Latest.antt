-- ===== src/Chains/Follow/Latest.antt =====
-- `makeChainForOp` and `mostRecentFromOriginalOrSame` of libkbfs/cr_chains.go over the ops of a history.
use kbfs.Prelude.{Bool, false, List, [], ◌∷◌, ◌++◌, ◌||◌, ok, ◌≡◌, arith, refl, ◌∙◌}
use kbfs.Blocks.{BlockPointer, same_pointer, pointer_key}
use kbfs.Ops.Path.{is_initialized}
use kbfs.Ops.Op.{Op}
use kbfs.Ops.Op.Pointers.{all_updates}
use kbfs.Chains.{CrChains, new_cr_chains_empty, most_recent_from_original_or_same}
use kbfs.Chains.Make.{note_pointers, note_updates, make_chain_for_op, make_chains_for_ops}
use kbfs.Chains.Follow.{Event, update, touch, View, Past, after, follow, IsHistory}
use kbfs.Chains.Follow.Invariant.{IsLinked}
use kbfs.Chains.Follow.Linked.{happen, lead, happen-IsLinked}
use kbfs.Chains.Follow.Notes.{
  view_of, as_events, lead_all, after_all, note_updates-IsLinked, latest-view_of, lead_all-follow,
}
use kbfs.Chains.Follow.Adds.{touches, happen_all, add_to_chains-ok}
use kbfs.Chains.Follow.Runs.{IsSound, CanAdd-note_pointers}

-- What an op, or a list of ops, does to the blocks
abbrev pub events_of : Op → List (Event BlockPointer)
events_of o = as_events (all_updates o) ++ touches o

abbrev pub history_of : List Op → List (Event BlockPointer)
history_of [] = []
history_of (o ∷ ops) = events_of o ++ history_of ops

abbrev pub nothing_yet : Past BlockPointer
nothing_yet = record { refd = λ p. false; unrefd = λ p. false; seen = λ p. false }

-- The pointer is that of a new version.
abbrev pub is_new : BlockPointer → List (Event BlockPointer) → Bool
is_new p [] = false
is_new p (update u r ∷ es) = same_pointer r p || is_new p es
is_new p (touch q ∷ es) = is_new p es

abbrev pub AllSound : List Op → Type 0
AllSound [] = Unit
AllSound (o ∷ ops) = IsSound o × AllSound ops

IsHistory-events :
    (es more : List (Event BlockPointer)) (h : Past BlockPointer)
    → IsHistory is_initialized (es ++ more) h
    → IsHistory is_initialized es h × IsHistory is_initialized more (after_all es h)
IsHistory-events [] more h y = (tt, y)
IsHistory-events (ev ∷ es) more h y =
    let rest = IsHistory-events es more (after ev h) y.1 in ((y.0, rest.0), rest.1)

after_all-append :
    (es more : List (Event BlockPointer)) (h : Past BlockPointer)
    → after_all (es ++ more) h ≡ after_all more (after_all es h)
after_all-append [] more h = refl
after_all-append (ev ∷ es) more h = after_all-append es more (after ev h)

lead_all-append :
    (es more : List (Event BlockPointer)) (g : BlockPointer → BlockPointer)
    → lead_all (es ++ more) g ≡ lead_all more (lead_all es g)
lead_all-append [] more g = refl
lead_all-append (ev ∷ es) more g = lead_all-append es more (lead ev g)

refd-after_all :
    (es : List (Event BlockPointer)) (h : Past BlockPointer) (p : BlockPointer)
    → h.refd p ≡ false
    → is_new p es ≡ false
    → (after_all es h).refd p ≡ false
refd-after_all [] h p f n = f
refd-after_all (update u r ∷ es) h p f n =
    refd-after_all es (after (update u r) h) p (ground arith) (ground arith)
refd-after_all (touch q ∷ es) h p f n = refd-after_all es (after (touch q) h) p f n

happen_all-IsLinked :
    (es : List (Event BlockPointer)) (v : View BlockPointer) (g : BlockPointer → BlockPointer)
    (h : Past BlockPointer)
    → IsLinked v g h
    → IsHistory is_initialized es h
    → IsLinked (happen_all es v) (lead_all es g) (after_all es h)
happen_all-IsLinked [] v g h l y = l
happen_all-IsLinked (ev ∷ es) v g h l y =
    happen_all-IsLinked es (happen ev v) (lead ev g) (after ev h)
      (happen-IsLinked v g h l is_initialized ev y.0) y.1

-- The chains are linked, with a history that has led from each pointer to `g` of it.
abbrev pub Linked :
    CrChains
    → List (Event BlockPointer)
    → (BlockPointer → BlockPointer)
    → Past BlockPointer
    → Type 0
Linked ccs es g h = IsLinked (view_of ccs) (lead_all es g) (after_all es h)

make_chain_for_op-Linked :
    (o : Op) (ccs : CrChains) (g : BlockPointer → BlockPointer) (h : Past BlockPointer)
    → IsLinked (view_of ccs) g h
    → IsSound o
    → IsHistory is_initialized (events_of o) h
    → (ccs' : CrChains) × (make_chain_for_op o ccs ≡ ok ccs') × Linked ccs' (events_of o) g h
unfolding make_chain_for_op note_pointers
make_chain_for_op-Linked o ccs g h l s y =
    let us = as_events (all_updates o) in
    let y' = IsHistory-events us (touches o) h y in
    let noted = note_updates-IsLinked (all_updates o) g h ccs l y'.0 in
    let (ccs', done, seen) =
      add_to_chains-ok o (note_pointers o ccs) (CanAdd-note_pointers g h ccs l o s y'.0) in
    let linked =
      happen_all-IsLinked (touches o) (view_of (note_updates (all_updates o) ccs)) (lead_all us g)
        (after_all us h) noted y'.1 in
    (
      ccs',
      done,
      rw (seen, lead_all-append us (touches o) g, after_all-append us (touches o) h) linked,
    )

make_chains_for_ops-Linked :
    (ops : List Op) (ccs : CrChains) (g : BlockPointer → BlockPointer) (h : Past BlockPointer)
    → IsLinked (view_of ccs) g h
    → AllSound ops
    → IsHistory is_initialized (history_of ops) h
    → (ccs' : CrChains) × (make_chains_for_ops ops ccs ≡ ok ccs') × Linked ccs' (history_of ops) g h
unfolding make_chains_for_ops
make_chains_for_ops-Linked [] ccs g h l s y = (ccs, refl, l)
make_chains_for_ops-Linked (o ∷ ops) ccs g h l s y =
    let y' = IsHistory-events (events_of o) (history_of ops) h y in
    let (c1, e1, l1) = make_chain_for_op-Linked o ccs g h l s.0 y'.0 in
    let (c2, e2, l2) =
      make_chains_for_ops-Linked ops c1 (lead_all (events_of o) g) (after_all (events_of o) h) l1
        s.1 y'.1 in
    (
      c2,
      rw e1 e2,
      rw
          (
            lead_all-append (events_of o) (history_of ops) g,
            after_all-append (events_of o) (history_of ops) h,
          )
          l2,
    )

empty-IsLinked : IsLinked (view_of new_cr_chains_empty) (λ p. p) nothing_yet
empty-IsLinked = record {
  old_address = λ p a f. absurd (cc (f));
  address = λ p a f. absurd (cc (f));
  has_original = λ p a f. absurd (cc (f));
  has_most_recent = λ p a f. absurd (cc (f));
  to_recent = λ p a f. absurd (cc (f));
  to_original = λ p a f. absurd (cc (f));
  seen_original = λ p a f. absurd (cc (f));
  seen_recent = λ p a f. absurd (cc (f));
  is_version = λ p a f. absurd (cc (f));
  is_replaced = λ p a f. absurd (cc (f));
  leads = λ o n. refl;
}

-- On new chains, the ops of a history succeed: each update gives an initialized pointer a new version
-- under a pointer that was not met before, no pointer is replaced twice, a file of which an attribute is
-- set has not been replaced, and a rename is between directories with pointers of which the new one of the
-- first is not the old one of the second. Afterwards mostRecentFromOriginalOrSame of every pointer
-- that is not a new version is where the updates, one after the other, have led from it; so it is the
-- pointer itself where no update replaced it.
pub most_recent-make_chains_for_ops :
    (ops : List Op)
    → AllSound ops
    → IsHistory is_initialized (history_of ops) nothing_yet
    → (ccs : CrChains) × (make_chains_for_ops ops new_cr_chains_empty ≡ ok ccs)
      × ((p : BlockPointer)
          → is_new p (history_of ops) ≡ false
          → most_recent_from_original_or_same p ccs ≡ follow p (history_of ops))
most_recent-make_chains_for_ops ops s y =
    let (ccs, done, l) =
      make_chains_for_ops-Linked ops new_cr_chains_empty (λ p. p) nothing_yet empty-IsLinked s y in
    (
      ccs,
      done,
      λ p n.
          latest-view_of p ccs
          ∙ l.leads p (refd-after_all (history_of ops) nothing_yet p refl n)
          ∙ lead_all-follow (history_of ops) (λ q. q) p,
    )
