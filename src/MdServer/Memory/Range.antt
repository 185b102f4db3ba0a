-- ===== src/MdServer/Memory/Range.antt =====
-- Which metadata `GetRange` of the metadata server over memory returns.
use kbfs.Prelude.{
  ℕ, zero, suc, ◌+◌, ◌-◌, ◌%◌, ◌<◌, ◌≤◌, ◌≡◌, refl, false, ◌==◌, ◌&&◌, if◌then◌else◌, some, List,
  [], ◌∷◌, ok, arith, length, take, drop, subst, leb_cases, Bool-cases, inl, inr, ==_iff, ap, ◌∙◌,
}
use kbfs.Prelude.Int.{ℤ, pos, negsuc, pos_part, leb_ℤ, ◌-ℤ◌, ◌+ℤ◌}
use kbfs.Prelude.Dict.{find}
use kbfs.FileStore.{Bytes}
use kbfs.Ordinal.{two64}
use kbfs.Revision.{two63, next_revision, to_int64, wrap_int64}
use kbfs.RootMetadata.{RootMetadata, MergeStatus, merged, unmerged}
use kbfs.MdServer.TlfStorage.{MdParams, null_branch_id}
use kbfs.MdServer.Memory.Keys.{block_key}
use kbfs.MdServer.Memory.{
  MdServerMemory, MdBlockMemList, MdSession, read_blocks, blocks_between, advance_revision,
  check_params, get_md_range, get_md_key, is_no_branch,
}
use kbfs.MdServer.Memory.Revisions.{AreRevisions, HasRevisions}

-- The metadata with a revision from `first` to `last`
abbrev pub in_range : ℕ → ℕ → List RootMetadata → List RootMetadata
in_range first last [] = []
in_range first last (md ∷ mds) =
    let rest = in_range first last mds in
    if leb_ℤ (pos first) md.revision && leb_ℤ md.revision (pos last) then md ∷ rest else rest

next_revision-pos : (i : ℕ) → suc i < two63 → next_revision (pos i) ≡ pos (suc i)
unfolding next_revision
next_revision-pos i h = ground arith

sub_ℤ-pos : (a b : ℕ) → b ≤ a → pos a -ℤ pos b ≡ pos (a - b)
sub_ℤ-pos a b h = ground arith

sub_ℤ-negsuc : (a b : ℕ) → a < b → pos a -ℤ pos b ≡ negsuc (b - a - 1)
sub_ℤ-negsuc a b h = ground arith

wrap_int64-pos : (n : ℕ) → n < two63 → wrap_int64 (pos n) ≡ pos n
unfolding to_int64
wrap_int64-pos n h = ground arith

wrap_int64-negsuc : (n : ℕ) → n < two63 → wrap_int64 (negsuc n) ≡ negsuc n
unfolding to_int64
wrap_int64-negsuc n h =
    let m : n % two64 ≡ n = omega (arith, h) in
    let back : two64 - 1 - (two64 - 1 - n) ≡ n = omega (arith, h) in ground (arith, m, back)

add_one : (a : ℕ) → pos a +ℤ pos 1 ≡ pos (a + 1)
add_one a = ground arith

add_one-negsuc : (n : ℕ) → n < two63 → pos_part (wrap_int64 (negsuc n +ℤ pos 1)) ≡ 0
add_one-negsuc zero h = ap pos_part (wrap_int64-pos 0 (omega arith))
add_one-negsuc (suc n) h =
    let one : negsuc (suc n) +ℤ pos 1 ≡ negsuc n = ground arith in
    ap (λ z. pos_part (wrap_int64 z)) one ∙ ap pos_part (wrap_int64-negsuc n (omega (arith, h)))

start_index : (f i : ℕ) → f < two63 → i < two63 → pos_part (wrap_int64 (pos f -ℤ pos i)) ≡ f - i
start_index f i h k = elim (leb_cases i f) [
  | inl le ↦
      ap (λ z. pos_part (wrap_int64 z)) (sub_ℤ-pos f i le)
      ∙ ap pos_part (wrap_int64-pos (f - i) (omega (arith, h)))
  | inr gt ↦
      ap (λ z. pos_part (wrap_int64 z)) (sub_ℤ-negsuc f i gt)
      ∙ ap pos_part (wrap_int64-negsuc (i - f - 1) (omega (arith, k)))
      ∙ omega (arith, gt)
]

end_index :
    (t i : ℕ)
    → t < two63
    → 0 < i
    → i < two63
    → pos_part (wrap_int64 (wrap_int64 (pos t -ℤ pos i) +ℤ pos 1)) ≡ t + 1 - i
end_index t i h p k = elim (leb_cases i t) [
  | inl le ↦
      ap (λ z. pos_part (wrap_int64 (wrap_int64 z +ℤ pos 1))) (sub_ℤ-pos t i le)
      ∙ ap (λ z. pos_part (wrap_int64 (z +ℤ pos 1))) (wrap_int64-pos (t - i) (omega (arith, h)))
      ∙ ap (λ z. pos_part (wrap_int64 z)) (add_one (t - i))
      ∙ ap pos_part (wrap_int64-pos (t - i + 1) (omega (arith, h, p, le)))
      ∙ omega (arith, le)
  | inr gt ↦
      ap (λ z. pos_part (wrap_int64 (wrap_int64 z +ℤ pos 1))) (sub_ℤ-negsuc t i gt)
      ∙ ap (λ z. pos_part (wrap_int64 (z +ℤ pos 1)))
          (wrap_int64-negsuc (i - t - 1) (omega (arith, k)))
      ∙ add_one-negsuc (i - t - 1) (omega (arith, k))
      ∙ omega (arith, gt)
]

take-drop-nil : {A : Type 0} (n k : ℕ) → take {A = A} n (drop k []) ≡ []
take-drop-nil zero k = refl
take-drop-nil (suc n) zero = refl
take-drop-nil (suc n) (suc k) = refl

-- Metadata whose revisions count up are cut out of their list by position.
take-drop-in_range :
    (mds : List RootMetadata) (i f t : ℕ)
    → AreRevisions (pos i) mds
    → i + length mds < two63
    → take (t + 1 - i - (f - i)) (drop (f - i) mds) ≡ in_range f t mds
take-drop-in_range [] i f t a h = take-drop-nil (t + 1 - i - (f - i)) (f - i)
take-drop-in_range (md ∷ mds) i f t (e, a) h =
    let a' = subst (λ r. AreRevisions r mds) (next_revision-pos i (omega (arith, h))) a in
    let rest = take-drop-in_range mds (suc i) f t a' (omega (arith, h)) in
    elim (leb_cases f i) [
      | inl from ↦
          let f_i : f - i ≡ 0 = omega (arith, from) in
          let f_suc : f - suc i ≡ 0 = omega (arith, from) in
          elim (leb_cases i t) [
            | inl upto ↦
                let n : t + 1 - i ≡ suc (t + 1 - suc i) = omega (arith, upto) in
                rw (f_i, n, e) (ground (arith, rest, f_suc, from, upto))
            | inr past ↦
                let n : t + 1 - i ≡ 0 = omega (arith, past) in
                let n' : t + 1 - suc i ≡ 0 = omega (arith, past) in
                rw (f_i, n, e) (ground (arith, rest, f_suc, n', from, past))
          ]
      | inr before ↦
          let f_i : f - i ≡ suc (f - suc i) = omega (arith, before) in
          let n : t + 1 - i - (f - i) ≡ t + 1 - suc i - (f - suc i) = omega (arith, before) in
          rw (n, f_i, e) (ground (arith, rest, before))
    ]

module _ (p : MdParams) where
  -- These metadata are what the blocks decode to.
  abbrev pub AreDecoded : List Bytes → List RootMetadata → Type 0
  AreDecoded [] [] = Unit
  AreDecoded (b ∷ bs) (md ∷ mds) = (p.codec.decode b ≡ ok md) × AreDecoded bs mds
  AreDecoded _ _ = ⊥

  HasRevisions-AreDecoded :
      (r : ℤ) (bs : List Bytes)
      → HasRevisions p r bs
      → (mds : List RootMetadata) × AreDecoded bs mds
        × AreRevisions r mds
        × (length mds ≡ length bs)
  HasRevisions-AreDecoded r [] h = ([], tt, tt, refl)
  HasRevisions-AreDecoded r (b ∷ bs) ((md, d, e), h) =
      let (mds, a, c, l) = HasRevisions-AreDecoded (next_revision r) bs h in
      (md ∷ mds, (d, a), (e, c), ap suc l)

  -- Blocks with revisions that count up are read without a panic.
  read_blocks-AreDecoded :
      (n k : ℕ) (r : ℤ) (bs : List Bytes) (mds : List RootMetadata)
      → AreDecoded bs mds
      → AreRevisions r mds
      → read_blocks p (advance_revision k r) (take n (drop k bs)) ≡ ok (take n (drop k mds))
  unfolding read_blocks
  read_blocks-AreDecoded zero k r bs mds d a = refl
  read_blocks-AreDecoded (suc n) zero r [] [] d a = refl
  read_blocks-AreDecoded (suc n) zero r (b ∷ bs) (md ∷ mds) (d, ds) (e, a) =
      let rest = read_blocks-AreDecoded n zero (next_revision r) bs mds ds a in
      ground (arith, d, e, rest)
  read_blocks-AreDecoded (suc n) (suc k) r [] [] d a = refl
  read_blocks-AreDecoded (suc n) (suc k) r (b ∷ bs) (md ∷ mds) (d, ds) (e, a) =
      read_blocks-AreDecoded (suc n) k (next_revision r) bs mds ds a
  read_blocks-AreDecoded (suc n) k r [] (md ∷ mds) d a = absurd d
  read_blocks-AreDecoded (suc n) k r (b ∷ bs) [] d a = absurd d

  -- `GetRange` of a branch that is there walks the blocks between the bounds.
  get_md_range-found :
      (u : MdSession) (tlf bid bid' : ℕ) (status : MergeStatus) (start stop : ℤ)
      (s : MdServerMemory) (l : MdBlockMemList) (mds : List RootMetadata)
      → check_params p u tlf bid status s ≡ ok bid'
      → is_no_branch status bid' ≡ false
      → find (record { tlf_id = tlf; branch_id = bid' }) s.md_db ≡ some l
      → read_blocks p (blocks_between start stop l).0 (blocks_between start stop l).1 ≡ ok mds
      → get_md_range p u tlf bid status start stop s ≡ ok mds
  unfolding get_md_range get_md_key check_params
  get_md_range-found u tlf bid bid' merged start stop s l mds c b f r =
      elim (Bool-cases (bid == null_branch_id)) [
        | inl main ↦
            let at : bid' ≡ null_branch_id = ground (arith, c, main, ==_iff bid null_branch_id) in
            ground (arith, c, at, f, r)
        | inr other ↦ absurd (ground (arith, c, other))
      ]
  get_md_range-found u tlf bid bid' unmerged start stop s l mds c b f r = ground (arith, c, b, f, r)

  -- `GetRange` with bounds and revisions that are not negative
  pub get_md_range-in_range :
      (u : MdSession) (tlf bid bid' : ℕ) (status : MergeStatus) (i f t : ℕ) (s : MdServerMemory)
      (l : MdBlockMemList)
      → HasRevisions p l.initial_revision l.blocks
      → check_params p u tlf bid status s ≡ ok bid'
      → is_no_branch status bid' ≡ false
      → find (record { tlf_id = tlf; branch_id = bid' }) s.md_db ≡ some l
      → l.initial_revision ≡ pos i
      → 0 < i
      → i + length l.blocks < two63
      → f < two63
      → t < two63
      → (all : List RootMetadata) × AreDecoded l.blocks all
        × AreRevisions (pos i) all
        × (get_md_range p u tlf bid status (pos f) (pos t) s ≡ ok (in_range f t all))
  get_md_range-in_range u tlf bid bid' status i f t s l v c b there first pos_i short f_ok t_ok =
      let (all, d, a, n) = HasRevisions-AreDecoded l.initial_revision l.blocks v in
      let start_i = start_index f i f_ok (omega (arith, short)) in
      let end_i = end_index t i t_ok pos_i (omega (arith, short)) in
      let a' = subst (λ r. AreRevisions r all) first a in
      let walk = read_blocks-AreDecoded (t + 1 - i - (f - i)) (f - i) (pos i) l.blocks all d a' in
      let cut = take-drop-in_range all i f t a' (omega (arith, n, short)) in
      (
        all,
        d,
        a',
        get_md_range-found u tlf bid bid' status (pos f) (pos t) s l (in_range f t all) c b there
            (rw (first, start_i, end_i) (walk ∙ ap ok cut)),
      )
