-- ===== src/Chains/Follow/Invariant.antt =====
-- The invariant of the maps of chains of libkbfs/cr_chains.go: each chain is found under its original
-- and its most recent pointer, and leads from the one to the other.
use kbfs.Prelude.{ℕ, ◌<◌, true, false, none, some, ◌≡◌, ◌⊎◌}
use kbfs.Chains.Follow.{View, Past}

module _ {K : Type 0} where
  -- `mostRecentFromOriginalOrSame`
  abbrev pub latest : View K → K → K
  latest v o = elim (v.by_original o) [ none ↦ o | some a ↦ v.most_recent a ]

  pub record IsLinked (v : View K) (g : K → K) (h : Past K) : Type 0 where
    pub old_address : (p : K) (a : ℕ) → v.by_original p ≡ some a → a < v.next
    pub address : (p : K) (a : ℕ) → v.by_most_recent p ≡ some a → a < v.next
    pub has_original : (p : K) (a : ℕ) → v.by_original p ≡ some a → v.original a ≡ p
    pub has_most_recent : (p : K) (a : ℕ) → v.by_most_recent p ≡ some a → v.most_recent a ≡ p
    pub to_recent :
        (p : K) (a : ℕ) → v.by_original p ≡ some a → v.by_most_recent (v.most_recent a) ≡ some a
    pub to_original :
        (p : K) (a : ℕ) → v.by_most_recent p ≡ some a → v.by_original (v.original a) ≡ some a
    pub seen_original : (p : K) (a : ℕ) → v.by_original p ≡ some a → h.seen p ≡ true
    pub seen_recent : (p : K) (a : ℕ) → v.by_most_recent p ≡ some a → h.seen p ≡ true
    pub is_version :
        (p : K) (a : ℕ) → v.by_most_recent p ≡ some a → (v.original a ≡ p) ⊎ (h.refd p ≡ true)
    pub is_replaced :
        (p : K) (a : ℕ) → v.by_original p ≡ some a → (v.most_recent a ≡ p) ⊎ (h.unrefd p ≡ true)
    pub leads : (o : K) → h.refd o ≡ false → latest v o ≡ g o
