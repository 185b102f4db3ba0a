-- ===== src/MdServer/Memory/Revisions.antt =====
-- The lists of `MDServerMemory` hold one metadata for each revision.
use kbfs.Prelude.{◌≡◌, ◌≢◌, refl, subst, some, List, [], ◌∷◌, ◌++◌, ok, arith, Bool-cases, inl, inr}
use kbfs.Prelude.Int.{ℤ}
use kbfs.Prelude.Dict.{find, store}
use kbfs.FileStore.{Bytes}
use kbfs.Revision.{next_revision}
use kbfs.RootMetadata.{RootMetadata}
use kbfs.MdServer.TlfStorage.{MdParams}
use kbfs.MdServer.Memory.Keys.{MdBlockKey, same_block_key, block_key}
use kbfs.MdServer.Memory.{MdBlockMemList, last_block}

-- The revisions of these metadata count up from the first.
abbrev pub AreRevisions : ℤ → List RootMetadata → Type 0
AreRevisions r [] = Unit
AreRevisions r (md ∷ mds) = (md.revision ≡ r) × AreRevisions (next_revision r) mds

module _ (p : MdParams) where
  -- The blocks decode to metadata with the revisions from the first on.
  abbrev pub HasRevisions : ℤ → List Bytes → Type 0
  HasRevisions r [] = Unit
  HasRevisions r (b ∷ bs) =
      ((md : RootMetadata) × (p.codec.decode b ≡ ok md) × (md.revision ≡ r))
      × HasRevisions (next_revision r) bs

  pub HasRevisions-append :
      (r : ℤ) (bs : List Bytes) (b c : Bytes) (head md : RootMetadata)
      → HasRevisions r bs
      → last_block bs ≡ ok c
      → p.codec.decode c ≡ ok head
      → p.codec.decode b ≡ ok md
      → md.revision ≡ next_revision head.revision
      → HasRevisions r (bs ++ b ∷ [])
  HasRevisions-append r [] b c head md h l d e n = absurd (ground arith)
  HasRevisions-append r (x ∷ []) b c head md ((first, fd, fr), h) l d e n =
      let same : first ≡ head = ground arith in
      ((first, fd, fr), ((md, e, ground (arith, same)), tt))
  HasRevisions-append r (x ∷ y ∷ bs) b c head md (first, h) l d e n =
      (first, HasRevisions-append (next_revision r) (y ∷ bs) b c head md h l d e n)

  -- The last block of a list decodes.
  pub last_block-HasRevisions :
      (r : ℤ) (bs : List Bytes)
      → HasRevisions r bs
      → bs ≢ []
      → (c : Bytes) × (head : RootMetadata) × (last_block bs ≡ ok c) × (p.codec.decode c ≡ ok head)
  last_block-HasRevisions r [] h n = absurd (n refl)
  last_block-HasRevisions r (b ∷ []) ((md, d, _), h) n = (b, md, refl, d)
  last_block-HasRevisions r (b ∷ c ∷ bs) (_, h) n =
      last_block-HasRevisions (next_revision r) (c ∷ bs) h (λ e. absurd (ground arith))

  -- Every list has a block, and the revisions of its blocks count up from its first.
  abbrev pub IsValidList : MdBlockMemList → Type 0
  IsValidList l = HasRevisions l.initial_revision l.blocks × (l.blocks ≢ [])

  abbrev pub AllValid : List (MdBlockKey × MdBlockMemList) → Type 0
  AllValid [] = Unit
  AllValid ((key, l) ∷ m) = IsValidList l × AllValid m

  pub find-AllValid :
      (key : MdBlockKey) (l : MdBlockMemList) (m : List (MdBlockKey × MdBlockMemList))
      → AllValid m
      → find key m ≡ some l
      → IsValidList l
  find-AllValid key l [] a h = absurd (ground arith)
  find-AllValid key l ((k, x) ∷ m) (v, a) h = elim (Bool-cases (same_block_key k key)) [
    | inl same ↦ let x_l : x ≡ l = ground arith in subst IsValidList x_l v
    | inr other ↦ find-AllValid key l m a (ground arith)
  ]

  pub store-AllValid :
      (key : MdBlockKey) (l : MdBlockMemList) (m : List (MdBlockKey × MdBlockMemList))
      → AllValid m
      → IsValidList l
      → AllValid (store key l m)
  store-AllValid key l [] a v = (v, tt)
  store-AllValid key l ((k, x) ∷ m) (w, a) v = elim (Bool-cases (same_block_key k key)) [
    | inl same ↦ rw same (v, a)
    | inr other ↦ rw other (w, store-AllValid key l m a v)
  ]
