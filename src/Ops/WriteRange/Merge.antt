-- ===== src/Ops/WriteRange/Merge.antt =====
-- The second loop of `addToCollapsedWriteRange` of libkbfs/ops.go, and `coalesceWrites` on what it finds.
use kbfs.Prelude.{
  ℕ, ◌+◌, ◌^◌, ◌≤◌, ◌<◌, max, true, false, leb→le, le→leb, leb_cases, if◌then◌else◌, List, [], ◌∷◌,
  ◌≡◌, refl, ap, subst, arith, Bool-cases, inl, inr, some,
}
use kbfs.Ops.WriteRange.{WriteRange, is_truncate, affects, last_of, new_end, split_mid}
use kbfs.Ops.WriteRange.Dirt.{raise_cut, cut_of, Fits, IsCollapsedFrom}

-- Two writes that touch.
abbrev pub Touches : WriteRange → WriteRange → Type 0
Touches w w_new =
    (is_truncate w ≡ false)
    × (is_truncate w_new ≡ false)
    × Fits w
    × Fits w_new
    × (w_new.off ≤ w.off + w.len)
    × (w.off ≤ w_new.off + w_new.len)

pub new_end-write :
    (l w_new : WriteRange)
    → is_truncate l ≡ false
    → Fits l
    → Fits w_new
    → new_end l w_new ≡ max (l.off + l.len) (w_new.off + w_new.len)
unfolding new_end
new_end-write l w_new t f g = ground arith

pub new_end-truncate :
    (l w_new : WriteRange)
    → is_truncate l ≡ true
    → Fits w_new
    → new_end l w_new ≡ w_new.off + w_new.len
unfolding new_end
new_end-truncate l w_new t g = ground arith

-- An affected write that starts at or after the start of the new one touches it.
pub affects-Touches :
    (w_new v : WriteRange)
    → is_truncate v ≡ false
    → is_truncate w_new ≡ false
    → Fits v
    → Fits w_new
    → affects w_new v ≡ true
    → Touches v w_new
unfolding affects
affects-Touches w_new v tv tn fv fn a = (tv, tn, fv, fn, ground arith, ground arith)

pub new_end-le :
    (l w_new : WriteRange) → Fits l → Fits w_new → w_new.off + w_new.len ≤ new_end l w_new
unfolding new_end
new_end-le l w_new f g = ground arith

pub raise_cut_below :
    (stop lo : ℕ) (ws : List WriteRange)
    → stop ≤ lo
    → IsCollapsedFrom lo ws
    → raise_cut stop (cut_of ws) ≡ cut_of ws
raise_cut_below stop lo [] h c = refl
raise_cut_below stop lo (w ∷ ws) h c =
    ground (arith, raise_cut_below stop (w.off + w.len) ws (omega (arith, leb→le lo w.off c.0)) c.3)

-- What the second loop leaves behind the merged range, where `w` is the write before `ws`.
abbrev pub Leaves :
    WriteRange → WriteRange → List WriteRange → List WriteRange × List WriteRange → Type 0
Leaves w_new w ws (mid, tail) =
    let stop = new_end (last_of w mid) w_new in
    IsCollapsedFrom stop tail
    × (is_truncate (last_of w mid) ≡ true → tail ≡ [])
    × (stop < 2 ^ 64)
    × (raise_cut (w_new.off + w_new.len) (cut_of ws)
        ≡ (if is_truncate (last_of w mid) then some stop else cut_of tail))

module _ (w_new : WriteRange) where
  pub split_mid-hit :
      (v : WriteRange) (vs : List WriteRange)
      → affects w_new v ≡ true
      → split_mid (v ∷ vs) w_new ≡ (v ∷ (split_mid vs w_new).0, (split_mid vs w_new).1)
  unfolding split_mid
  split_mid-hit v vs a = rw a refl

  pub split_mid-miss :
      (v : WriteRange) (vs : List WriteRange)
      → affects w_new v ≡ false
      → split_mid (v ∷ vs) w_new ≡ ([], v ∷ vs)
  unfolding split_mid
  split_mid-miss v vs a = rw a refl

  pub miss-lt :
      (v : WriteRange)
      → is_truncate w_new ≡ false
      → Fits v
      → Fits w_new
      → w_new.off ≤ v.off
      → affects w_new v ≡ false
      → w_new.off + w_new.len ≤ v.off
  unfolding affects
  miss-lt v tn fv fn o a = ground arith

  cut_of-write :
      (v : WriteRange) (vs : List WriteRange) → is_truncate v ≡ false → cut_of (v ∷ vs) ≡ cut_of vs
  cut_of-write v vs t = rw t refl

  cut_of-truncate :
      (v : WriteRange) (vs : List WriteRange) → is_truncate v ≡ true → cut_of (v ∷ vs) ≡ some v.off
  cut_of-truncate v vs t = rw t refl

  pub hit-truncate :
      (v : WriteRange)
      → is_truncate v ≡ true
      → is_truncate w_new ≡ false
      → Fits w_new
      → affects w_new v ≡ true
      → v.off < w_new.off + w_new.len
  unfolding affects
  hit-truncate v t tn f a = ground arith

  Leaves-miss :
      (w : WriteRange) (ws : List WriteRange)
      → Touches w w_new
      → IsCollapsedFrom (w.off + w.len) ws
      → IsCollapsedFrom (w_new.off + w_new.len) ws
      → Leaves w_new w ws ([], ws)
  Leaves-miss w ws t c d = (
    rw (new_end-write w w_new t.0 t.2 t.3)
        (elim (leb_cases (w.off + w.len) (w_new.off + w_new.len)) [
          | inl le ↦ subst (λ e. IsCollapsedFrom e ws) (omega arith) d
          | inr gt ↦ subst (λ e. IsCollapsedFrom e ws) (omega arith) c
        ]),
    λ k. absurd (cc (t.0)),
    omega (arith, new_end-write w w_new t.0 t.2 t.3, t.2, t.3),
    rw t.0 (raise_cut_below (w_new.off + w_new.len) (w_new.off + w_new.len) ws (omega arith) d),
  )

  Leaves-truncate :
      (w v : WriteRange) (p : List WriteRange × List WriteRange)
      → is_truncate v ≡ true
      → Fits w_new
      → v.off < w_new.off + w_new.len
      → p ≡ ([], [])
      → Leaves w_new w (v ∷ []) (v ∷ p.0, p.1)
  Leaves-truncate w v p t f lt e = rw e (
    tt,
    λ k. refl,
    omega (arith, new_end-truncate v w_new t f, f),
    rw (t, new_end-truncate v w_new t f) (ap some (omega arith)),
  )

  Leaves-hit :
      (w v : WriteRange) (vs : List WriteRange) (p : List WriteRange × List WriteRange)
      → is_truncate v ≡ false
      → Leaves w_new v vs p
      → Leaves w_new w (v ∷ vs) (v ∷ p.0, p.1)
  Leaves-hit w v vs p t l = (l.0, l.1, l.2, rw (cut_of-write v vs t) (l.3))

  pub split_mid-Leaves :
      (w : WriteRange) (ws : List WriteRange)
      → Touches w w_new
      → IsCollapsedFrom (w.off + w.len) ws
      → Leaves w_new w ws (split_mid ws w_new)
  split_mid-Leaves w [] t c = unfold split_mid in Leaves-miss w [] t tt tt
  split_mid-Leaves w (v ∷ vs) t c = elim (Bool-cases (affects w_new v)) [
    | inl hit ↦ rw (split_mid-hit v vs hit) (elim (Bool-cases (is_truncate v)) [
      | inl tr ↦ rw (c.2 tr) (
          Leaves-truncate w v (split_mid [] w_new) tr t.3 (hit-truncate v tr t.1 t.3 hit)
            (unfold split_mid in refl))
      | inr wr ↦
          Leaves-hit w v vs (split_mid vs w_new) wr
            (split_mid-Leaves v vs (affects-Touches w_new v wr t.1 c.1 t.3 hit) c.3)
    ])
    | inr miss ↦ rw (split_mid-miss v vs miss) (
        Leaves-miss w (v ∷ vs) t c (
          le→leb _ _ (miss-lt v t.1 c.1 t.3 (omega (arith, leb→le _ _ c.0, t.4)) miss),
          c.1,
          c.2,
          c.3,
        ))
  ]

  pub last_of-split_mid :
      (w : WriteRange) (ws : List WriteRange)
      → Fits w
      → IsCollapsedFrom (w.off + w.len) ws
      → Fits (last_of w (split_mid ws w_new).0)
  unfolding split_mid
  last_of-split_mid w [] f c = f
  last_of-split_mid w (v ∷ vs) f c = elim (Bool-cases (affects w_new v)) [
    | inl hit ↦ rw hit (last_of-split_mid v vs c.1 c.3)
    | inr miss ↦ rw miss f
  ]
