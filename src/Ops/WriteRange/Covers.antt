-- ===== src/Ops/WriteRange/Covers.antt =====
-- The bytes that the merged range of `coalesceWrites` of libkbfs/ops.go covers.
use kbfs.Prelude.{
  ℕ, ◌+◌, ◌≤◌, ◌<◌, min, true, false, ◌&&◌, ◌||◌, ltb, leb, leb→le, List, [], ◌∷◌, ◌≡◌, refl, arith,
  Bool-cases, inl, inr,
}
use kbfs.Ops.WriteRange.{WriteRange, is_truncate, affects, last_of, new_end, split_mid}
use kbfs.Ops.WriteRange.Dirt.{in_range, covers, IsCollapsedFrom}
use kbfs.Ops.WriteRange.Merge.{
  Touches, split_mid-hit, last_of-split_mid, split_mid-miss, new_end-write, new_end-truncate,
  affects-Touches, hit-truncate, new_end-le,
}

-- The bytes of `w`, of the new write and of `ws` are those from the first offset to `newEnd`, and those
-- of what the loop leaves.
abbrev pub Merges :
    WriteRange → WriteRange → List WriteRange → ℕ → List WriteRange × List WriteRange → Type 0
Merges w_new w ws x (mid, tail) =
    in_range w x || covers ws x || in_range w_new x
    ≡ (leb (min w.off w_new.off) x && ltb x (new_end (last_of w mid) w_new)) || covers tail x

covers-truncate : (v : WriteRange) (x : ℕ) → is_truncate v ≡ true → in_range v x ≡ false
covers-truncate v x t = ground arith

module _ (w_new : WriteRange) (x : ℕ) where
  Merges-miss :
      (w : WriteRange) (ws : List WriteRange) → Touches w w_new → Merges w_new w ws x ([], ws)
  Merges-miss w ws t = ground (arith, new_end-write w w_new t.0 t.2 t.3)

  Merges-truncate :
      (w v : WriteRange) (p : List WriteRange × List WriteRange)
      → Touches w w_new
      → is_truncate v ≡ true
      → w.off + w.len ≤ v.off
      → v.off < w_new.off + w_new.len
      → p ≡ ([], [])
      → Merges w_new w (v ∷ []) x (v ∷ p.0, p.1)
  Merges-truncate w v p t tr o lt e =
      rw e (ground (arith, new_end-truncate v w_new tr t.3, covers-truncate v x tr))

  Merges-hit :
      (w v : WriteRange) (vs : List WriteRange) (p : List WriteRange × List WriteRange)
      → Touches w w_new
      → Touches v w_new
      → w.off + w.len ≤ v.off
      → w_new.off + w_new.len ≤ new_end (last_of v p.0) w_new
      → Merges w_new v vs x p
      → Merges w_new w (v ∷ vs) x (v ∷ p.0, p.1)
  Merges-hit w v vs p t u o e m = ground arith

  pub split_mid-Merges :
      (w : WriteRange) (ws : List WriteRange)
      → Touches w w_new
      → IsCollapsedFrom (w.off + w.len) ws
      → Merges w_new w ws x (split_mid ws w_new)
  split_mid-Merges w [] t c = unfold split_mid in Merges-miss w [] t
  split_mid-Merges w (v ∷ vs) t c = elim (Bool-cases (affects w_new v)) [
    | inl hit ↦ rw (split_mid-hit w_new v vs hit) (elim (Bool-cases (is_truncate v)) [
      | inl tr ↦ rw (c.2 tr) (
          Merges-truncate w v (split_mid [] w_new) t tr (leb→le _ _ c.0)
            (hit-truncate w_new v tr t.1 t.3 hit) (unfold split_mid in refl))
      | inr wr ↦
          let u = affects-Touches w_new v wr t.1 c.1 t.3 hit in
          Merges-hit w v vs (split_mid vs w_new) t u (leb→le _ _ c.0)
            (new_end-le _ w_new (last_of-split_mid w_new v vs c.1 c.3) t.3)
            (split_mid-Merges v vs u c.3)
    ])
    | inr miss ↦ rw (split_mid-miss w_new v vs miss) (Merges-miss w (v ∷ vs) t)
  ]
