-- ===== src/Chains/Follow/Linked.antt =====
-- Each event of a history keeps the chains of libkbfs/cr_chains.go linked.
use kbfs.Prelude.{Bool, true, false, none, some, ◌≡◌, inl, inr, arith, refl, Option-cases}
use kbfs.Prelude.Dict.{Key}
use kbfs.Chains.Follow.{Event, update, touch, View, Past, put_at, after, MayHappen}
use kbfs.Chains.Follow.Invariant.{IsLinked}
use kbfs.Chains.Follow.Extend.{same_refl, step_follow}
use kbfs.Chains.Follow.Extend.{extend, extend-IsLinked}
use kbfs.Chains.Follow.Begin.{
  begin, to_recent-begin, to_original-begin, is_version-begin, is_replaced-begin, leads-begin,
}

module _ {K : Type 0} ⦃e : Key K⦄ where
  abbrev pub happen : Event K → View K → View K
  happen (update u r) v = elim (v.by_most_recent u) [ none ↦ begin u r v | some a ↦ extend a u r v ]
  happen (touch p) v = elim (v.by_most_recent p) [ none ↦ begin p p v | some a ↦ v ]

  abbrev pub lead : Event K → (K → K) → K → K
  lead (update u r) g = step_follow u r g
  lead (touch p) g = g

  set_mono : (k : K) (f : K → Bool) (j : K) → f j ≡ true → put_at k true f j ≡ true
  set_mono k f j h = ground arith

  set_self : (k : K) (f : K → Bool) → put_at k true f k ≡ true
  set_self k f = rw (same_refl k) refl

  module _ (v : View K) (g : K → K) (h : Past K) (l : IsLinked v g h) where
    free_of_fresh : (r : K) → h.seen r ≡ false → v.by_most_recent r ≡ none
    free_of_fresh r fresh = elim (Option-cases (v.by_most_recent r)) [
      | inl none_found ↦ none_found
      | inr (a, f) ↦ absurd (ground (arith, l.seen_recent r a f, fresh))
    ]

    begin-IsLinked :
        (u r : K)
        → e.same u r ≡ false
        → h.seen r ≡ false
        → h.unrefd u ≡ false
        → v.by_most_recent u ≡ none
        → IsLinked (begin u r v) (step_follow u r g) (after (update u r) h)
    begin-IsLinked u r differ fresh current missing =
        let free = free_of_fresh r fresh in
        record {
          old_address = λ p b f. ground (arith, l.old_address p b);
          address = λ p b f. ground (arith, l.address p b);
          has_original =
              λ p b f. ground (arith, l.has_original p b, l.old_address p b, e.same_iff u p);
          has_most_recent =
              λ p b f. ground (arith, l.has_most_recent p b, l.address p b, e.same_iff r p);
          to_recent = to_recent-begin v g h l u missing current r free;
          to_original = to_original-begin v g h l u missing current r free;
          seen_original = λ p b f. ground (arith, l.seen_original p b);
          seen_recent = λ p b f. ground (arith, l.seen_recent p b);
          is_version = λ p b f.
              is_version-begin v g h l u missing current r free (put_at r true h.refd) p b
                (set_mono r h.refd) (inr (set_self r h.refd)) f;
          is_replaced = λ p b f.
              is_replaced-begin v g h l u missing current r free (put_at u true h.unrefd) p b
                (set_mono u h.unrefd) (inr (set_self u h.unrefd)) f;
          leads = λ o n. leads-begin v g h l u missing current r free o (ground (arith, n));
        }

    touch-IsLinked :
        (p : K)
        → h.unrefd p ≡ false
        → v.by_most_recent p ≡ none
        → IsLinked (begin p p v) g (after (touch p) h)
    touch-IsLinked p current missing = record {
      old_address = λ q b f. ground (arith, l.old_address q b);
      address = λ q b f. ground (arith, l.address q b);
      has_original = λ q b f. ground (arith, l.has_original q b, l.old_address q b, e.same_iff p q);
      has_most_recent =
          λ q b f. ground (arith, l.has_most_recent q b, l.address q b, e.same_iff p q);
      to_recent = to_recent-begin v g h l p missing current p missing;
      to_original = to_original-begin v g h l p missing current p missing;
      seen_original = λ q b f. ground (arith, l.seen_original q b);
      seen_recent = λ q b f. ground (arith, l.seen_recent q b);
      is_version = λ q b f.
          is_version-begin v g h l p missing current p missing h.refd q b (λ k t. t)
            (inl (same_refl p)) f;
      is_replaced = λ q b f.
          is_replaced-begin v g h l p missing current p missing h.unrefd q b (λ k t. t)
            (inl (same_refl p)) f;
      leads = λ o n.
          ground (arith, leads-begin v g h l p missing current p missing o n, e.same_iff (g o) p);
    }

    touch_again-IsLinked : (p : K) → IsLinked v g (after (touch p) h)
    touch_again-IsLinked p = record {
      old_address = l.old_address;
      address = l.address;
      has_original = l.has_original;
      has_most_recent = l.has_most_recent;
      to_recent = l.to_recent;
      to_original = l.to_original;
      seen_original = λ q b f. set_mono p h.seen q (l.seen_original q b f);
      seen_recent = λ q b f. set_mono p h.seen q (l.seen_recent q b f);
      is_version = l.is_version;
      is_replaced = l.is_replaced;
      leads = l.leads;
    }

    pub happen-IsLinked :
        (initialized : K → Bool) (ev : Event K)
        → MayHappen initialized ev h
        → IsLinked (happen ev v) (lead ev g) (after ev h)
    happen-IsLinked initialized (update u r) m = elim (Option-cases (v.by_most_recent u)) [
      | inl missing ↦ rw (happen, missing) (begin-IsLinked u r m.1 m.2 m.3 missing)
      | inr (a, found) ↦ rw (happen, found) (extend-IsLinked v g h l u r m.1 m.2 m.3 a found)
    ]
    happen-IsLinked initialized (touch p) m = elim (Option-cases (v.by_most_recent p)) [
      | inl missing ↦ rw (happen, missing) (touch-IsLinked p m missing)
      | inr (a, found) ↦ rw (happen, found) (touch_again-IsLinked p)
    ]
