-- ===== src/Chains/Follow.antt =====
-- The pointers of the chains of libkbfs/cr_chains.go, seen as functions, and the histories of updates on
-- which they are followed.
pub mod Invariant
pub mod Extend
pub mod Begin
pub mod Linked
pub mod Notes
pub mod Adds
pub mod Runs
pub mod Latest
use kbfs.Prelude.{
  ℕ, suc, ◌<◌, Bool, true, false, ◌==◌, ◌||◌, not, List, [], ◌∷◌, if◌then◌else◌, Option, none, some,
  ◌≡◌, ◌⊎◌,
}
use kbfs.Prelude.Dict.{Key}

-- An update replaces a block by its new version; a file of which only attributes are set is touched.
pub data Event (K : Type 0) : Type 0 where
  update : K → K → Event K
  touch : K → Event K

pub record View (K : Type 0) : Type 0 where
  pub by_original : K → Option ℕ
  pub by_most_recent : K → Option ℕ
  pub original : ℕ → K
  pub most_recent : ℕ → K
  pub next : ℕ

-- The pointers that have become new versions, those that have been replaced, and all that were met.
pub record Past (K : Type 0) : Type 0 where
  pub refd : K → Bool
  pub unrefd : K → Bool
  pub seen : K → Bool

abbrev pub at_address : {K : Type 0} → ℕ → K → (ℕ → K) → ℕ → K
at_address a k f b = if a == b then k else f b

module _ {K : Type 0} ⦃e : Key K⦄ where
  abbrev pub put_at : {V : Type 0} → K → V → (K → V) → K → V
  put_at k v f j = if e.same k j then v else f j

  -- The version of a block that a series of events leads to
  abbrev pub follow : K → List (Event K) → K
  follow cur [] = cur
  follow cur (update u r ∷ es) = follow (if e.same cur u then r else cur) es
  follow cur (touch p ∷ es) = follow cur es

  abbrev pub after : Event K → Past K → Past K
  after (update u r) h = record {
    refd = put_at r true h.refd;
    unrefd = put_at u true h.unrefd;
    seen = put_at r true (put_at u true h.seen);
  }
  after (touch p) h = record h { seen = put_at p true h.seen }

  -- A new version has a pointer of its own, no version is replaced twice, and a file that is touched is
  -- the latest version.
  abbrev pub MayHappen : (K → Bool) → Event K → Past K → Type 0
  MayHappen initialized (update u r) h =
      (initialized u ≡ true) × (e.same u r ≡ false) × (h.seen r ≡ false) × (h.unrefd u ≡ false)
  MayHappen initialized (touch p) h = h.unrefd p ≡ false

  abbrev pub IsHistory : (K → Bool) → List (Event K) → Past K → Type 0
  IsHistory initialized [] h = Unit
  IsHistory initialized (ev ∷ es) h =
      MayHappen initialized ev h × IsHistory initialized es (after ev h)
