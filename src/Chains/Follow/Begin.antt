-- ===== src/Chains/Follow/Begin.antt =====
-- The chains that `makeChainForOp` of libkbfs/cr_chains.go starts are linked too.
use kbfs.Prelude.{
  ℕ, suc, Bool, true, false, none, some, ◌≡◌, ◌⊎◌, inl, inr, arith, Bool-cases, Option-cases,
}
use kbfs.Prelude.Dict.{Key}
use kbfs.Chains.Follow.{View, Past, put_at, at_address}
use kbfs.Chains.Follow.Invariant.{latest, IsLinked}
use kbfs.Chains.Follow.Extend.{same_refl, step_follow}

module _ {K : Type 0} ⦃e : Key K⦄ where
  -- A new chain from `u` to `r`; a file that is touched gets a chain from itself to itself.
  abbrev pub begin : K → K → View K → View K
  begin u r v = record {
    by_original = put_at u (some v.next) v.by_original;
    by_most_recent = put_at r (some v.next) v.by_most_recent;
    original = at_address v.next u v.original;
    most_recent = at_address v.next r v.most_recent;
    next = suc v.next;
  }

  module _ (v : View K) (g : K → K) (h : Past K) (l : IsLinked v g h) (u : K)
      (missing : v.by_most_recent u ≡ none) (current : h.unrefd u ≡ false) where
    pub no_chain : v.by_original u ≡ none
    no_chain = elim (Option-cases (v.by_original u)) [
      | inl none_found ↦ none_found
      | inr (a, f) ↦ elim (l.is_replaced u a f) [
        | inl eq ↦ absurd (ground (arith, l.to_recent u a, eq, f, missing))
        | inr q ↦ absurd (ground (arith, q, current))
      ]
    ]

    -- What holds of a new chain whose last pointer `r` is not that of another chain
    module _ (r : K) (free : v.by_most_recent r ≡ none) where
      pub to_recent-begin :
          (p : K) (b : ℕ)
          → (begin u r v).by_original p ≡ some b
          → (begin u r v).by_most_recent (at_address v.next r v.most_recent b) ≡ some b
      to_recent-begin p b f = elim (Bool-cases (e.same u p)) [
        | inl same ↦
            let new : v.next ≡ b = ground (arith, f, same) in ground (arith, new, same_refl r)
        | inr other ↦
            ground
              (arith, f, l.old_address p b, l.to_recent p b, e.same_iff r (v.most_recent b), free)
      ]

      pub to_original-begin :
          (p : K) (b : ℕ)
          → (begin u r v).by_most_recent p ≡ some b
          → (begin u r v).by_original (at_address v.next u v.original b) ≡ some b
      to_original-begin p b f = elim (Bool-cases (e.same r p)) [
        | inl same ↦
            let new : v.next ≡ b = ground (arith, f, same) in ground (arith, new, same_refl u)
        | inr other ↦
            ground
              (arith, f, l.address p b, l.to_original p b, e.same_iff u (v.original b), no_chain)
      ]

      pub is_version-begin :
          (refd' : K → Bool) (p : K) (b : ℕ)
          → ((k : K) → h.refd k ≡ true → refd' k ≡ true)
          → (e.same u r ≡ true) ⊎ (refd' r ≡ true)
          → (begin u r v).by_most_recent p ≡ some b
          → (at_address v.next u v.original b ≡ p) ⊎ (refd' p ≡ true)
      is_version-begin refd' p b mono first f = elim (Bool-cases (e.same r p)) [
        | inl same ↦
            let new : v.next ≡ b = ground (arith, f, same) in
            elim first [
              | inl eq ↦ inl (ground (arith, new, e.same_iff u r, e.same_iff r p))
              | inr q ↦ inr (ground (arith, e.same_iff r p))
            ]
        | inr other ↦
            let before : v.by_most_recent p ≡ some b = ground (arith, f, other) in
            let older = l.address p b before in
            elim (l.is_version p b before) [
              | inl o ↦ inl (ground (arith, older, o))
              | inr q ↦ inr (mono p q)
            ]
      ]

      pub is_replaced-begin :
          (unrefd' : K → Bool) (p : K) (b : ℕ)
          → ((k : K) → h.unrefd k ≡ true → unrefd' k ≡ true)
          → (e.same u r ≡ true) ⊎ (unrefd' u ≡ true)
          → (begin u r v).by_original p ≡ some b
          → (at_address v.next r v.most_recent b ≡ p) ⊎ (unrefd' p ≡ true)
      is_replaced-begin unrefd' p b mono first f = elim (Bool-cases (e.same u p)) [
        | inl same ↦
            let new : v.next ≡ b = ground (arith, f, same) in
            elim first [
              | inl eq ↦ inl (ground (arith, new, e.same_iff u r, e.same_iff u p))
              | inr q ↦ inr (ground (arith, e.same_iff u p))
            ]
        | inr other ↦
            let before : v.by_original p ≡ some b = ground (arith, f, other) in
            let older = l.old_address p b before in
            elim (l.is_replaced p b before) [
              | inl o ↦ inl (ground (arith, older, o))
              | inr q ↦ inr (mono p q)
            ]
      ]

      pub leads-begin : (o : K) → h.refd o ≡ false → latest (begin u r v) o ≡ step_follow u r g o
      leads-begin o n = elim (Option-cases (v.by_original o)) [
        | inl none_found ↦ ground (arith, l.leads o, none_found, e.same_iff (g o) u, e.same_iff u o)
        | inr (b, f) ↦ ground (
          arith,
          l.leads o,
          f,
          l.to_recent o b,
          l.old_address o b,
          missing,
          no_chain,
          e.same_iff (g o) u,
          e.same_iff u o,
        )
      ]
