-- ===== src/Chains/Follow/Extend.antt =====
-- The steps of `makeChainForOp` of libkbfs/cr_chains.go on the pointers of the chains keep them linked.
use kbfs.Prelude.{
  ℕ, true, false, ◌==◌, if◌then◌else◌, none, some, ◌≡◌, ◌⊎◌, inl, inr, arith, refl, Bool-cases,
  Option-cases,
}
use kbfs.Prelude.Dict.{Key}
use kbfs.Chains.Follow.{update, View, Past, put_at, at_address, after}
use kbfs.Chains.Follow.Invariant.{latest, IsLinked}

module _ {K : Type 0} ⦃e : Key K⦄ where
  -- An update of the block that the chain at `a` leads to
  abbrev pub extend : ℕ → K → K → View K → View K
  extend a u r v = record v {
    by_most_recent = put_at r (some a) (put_at u none v.by_most_recent);
    most_recent = at_address a r v.most_recent;
  }

  pub same_refl : (k : K) → e.same k k ≡ true
  same_refl k = (e.same_iff k k).1 refl

  abbrev pub step_follow : K → K → (K → K) → K → K
  step_follow u r g o = if e.same (g o) u then r else g o

  module _ (v : View K) (g : K → K) (h : Past K) (l : IsLinked v g h) (u r : K)
      (differ : e.same u r ≡ false) (fresh : h.seen r ≡ false) (current : h.unrefd u ≡ false) where
    module _ (a : ℕ) (found : v.by_most_recent u ≡ some a) where
      to_recent-extend :
          (p : K) (b : ℕ)
          → v.by_original p ≡ some b
          → (extend a u r v).by_most_recent (at_address a r v.most_recent b) ≡ some b
      to_recent-extend p b f = elim (Bool-cases (a == b)) [
        | inl same ↦ rw same (ground (arith, same, same_refl r))
        | inr other ↦ rw other (
            ground (
              arith,
              l.to_recent p b,
              l.seen_recent (v.most_recent b) b,
              e.same_iff r (v.most_recent b),
              e.same_iff u (v.most_recent b),
            ))
      ]

      is_version-extend :
          (p : K) (b : ℕ)
          → (extend a u r v).by_most_recent p ≡ some b
          → (v.original b ≡ p) ⊎ (put_at r true h.refd p ≡ true)
      is_version-extend p b f = elim (Bool-cases (e.same r p)) [
        | inl same ↦ inr (rw same refl)
        | inr other ↦ elim (l.is_version p b (ground arith)) [
          | inl o ↦ inl o
          | inr q ↦ inr (rw other q)
        ]
      ]

      is_replaced-extend :
          (p : K) (b : ℕ)
          → v.by_original p ≡ some b
          → (at_address a r v.most_recent b ≡ p) ⊎ (put_at u true h.unrefd p ≡ true)
      is_replaced-extend p b f = elim (Bool-cases (e.same u p)) [
        | inl same ↦ inr (rw same refl)
        | inr other ↦ elim (l.is_replaced p b f) [
          | inl o ↦ inl (ground (arith, l.has_most_recent u a, e.same_iff u p))
          | inr q ↦ inr (rw other q)
        ]
      ]

      leads-extend :
          (o : K) → put_at r true h.refd o ≡ false → latest (extend a u r v) o ≡ step_follow u r g o
      leads-extend o n = elim (Option-cases (v.by_original o)) [
        | inl none_found ↦ elim (l.is_version u a found) [
          | inl first ↦ ground (arith, l.leads o, none_found, l.to_original u a, e.same_iff (g o) u)
          | inr q ↦ ground (arith, l.leads o, none_found, e.same_iff (g o) u)
        ]
        | inr (b, f) ↦
            ground (arith, l.leads o, f, l.to_recent o b, l.has_most_recent u a, e.same_iff (g o) u)
      ]

      pub extend-IsLinked : IsLinked (extend a u r v) (step_follow u r g) (after (update u r) h)
      extend-IsLinked = record {
        old_address = l.old_address;
        address = λ p b f. ground (arith, l.address p b, l.address u a);
        has_original = l.has_original;
        has_most_recent = λ p b f.
            ground
              (arith, l.has_most_recent p b, l.has_most_recent u a, e.same_iff r p, e.same_iff u p);
        to_recent = to_recent-extend;
        to_original = λ p b f.
            ground (arith, l.to_original p b, l.to_original u a, e.same_iff r p, e.same_iff u p);
        seen_original = λ p b f. ground (arith, l.seen_original p b);
        seen_recent = λ p b f. ground (arith, l.seen_recent p b);
        is_version = is_version-extend;
        is_replaced = is_replaced-extend;
        leads = leads-extend;
      }
