-- ===== src/Ops/WriteRange/Add.antt =====
-- `addToCollapsedWriteRange` of libkbfs/ops.go: what follows `head` in its result.
use kbfs.Prelude.{
  ℕ, ◌+◌, ◌-◌, ◌%◌, ◌^◌, ◌≤◌, ◌<◌, min, Bool, true, false, ◌&&◌, ◌||◌, ltb, leb, leb→le, le→leb,
  if◌then◌else◌, List, [], ◌∷◌, ◌++◌, ◌≡◌, refl, sym, ap, subst, arith, Bool-cases, inl, inr, some,
  ◌∙◌,
}
use kbfs.Ops.WriteRange.{
  WriteRange, is_truncate, affects, last_of, new_end, new_off, split_mid, coalesce_writes,
  add_write_to,
}
use kbfs.Ops.WriteRange.Dirt.{in_range, covers, cut_of, raise_cut, Fits, IsCollapsedFrom}
use kbfs.Ops.WriteRange.Merge.{
  Touches, split_mid-hit, last_of-split_mid, split_mid-miss, new_end-truncate, affects-Touches,
  split_mid-Leaves, raise_cut_below, miss-lt, hit-truncate, new_end-le,
}
use kbfs.Ops.WriteRange.Covers.{split_mid-Merges}

-- A list that reads as the list `ws` after the write `w_new`, from `lo` on.
abbrev pub Writes : ℕ → List WriteRange → WriteRange → List WriteRange → Type 0
Writes lo ws w_new ws' =
    IsCollapsedFrom lo ws'
    × ((x : ℕ) → covers ws' x ≡ covers ws x || in_range w_new x)
    × (cut_of ws' ≡ raise_cut (w_new.off + w_new.len) (cut_of ws))

abbrev merged : ℕ → ℕ → WriteRange
merged begin stop = record { off = begin; len = (stop + 2 ^ 64 - begin) % 2 ^ 64 }

merged_len :
    (begin stop : ℕ) → begin < stop → stop < 2 ^ 64 → (merged begin stop).len ≡ stop - begin
merged_len begin stop h k = omega arith

abbrev joined : ℕ → ℕ → Bool → List WriteRange → List WriteRange
joined begin stop t tail =
    merged begin stop ∷ ((if t then record { off = stop; len = 0 } ∷ [] else []) ++ tail)

module _ (begin stop : ℕ) (tail : List WriteRange) (pos : begin < stop) (fits : stop < 2 ^ 64) where
  joined-IsCollapsedFrom :
      (lo : ℕ) (t : Bool)
      → lo ≤ begin
      → (t ≡ true → tail ≡ [])
      → IsCollapsedFrom stop tail
      → IsCollapsedFrom lo (joined begin stop t tail)
  joined-IsCollapsedFrom lo true le e c =
      rw (e refl, merged_len begin stop pos fits)
        (
          le→leb lo begin le,
          omega arith,
          λ k. absurd (ground arith),
          (le→leb _ _ (omega arith), omega arith, λ k. refl, tt),
        )
  joined-IsCollapsedFrom lo false le e c = rw (merged_len begin stop pos fits) (
    le→leb lo begin le,
    omega arith,
    λ k. absurd (ground arith),
    subst (λ n. IsCollapsedFrom n tail) (omega arith) c,
  )

  covers-joined :
      (t : Bool) (x : ℕ)
      → covers (joined begin stop t tail) x ≡ (leb begin x && ltb x stop) || covers tail x
  covers-joined true x = rw (merged_len begin stop pos fits) (ground arith)
  covers-joined false x = rw (merged_len begin stop pos fits) (ground arith)

  cut_of-joined :
      (t : Bool) → cut_of (joined begin stop t tail) ≡ (if t then some stop else cut_of tail)
  cut_of-joined true = rw (merged_len begin stop pos fits) (ground arith)
  cut_of-joined false = rw (merged_len begin stop pos fits) (ground arith)

new_off-write :
    (w w_new : WriteRange) → is_truncate w ≡ false → new_off w w_new ≡ min w.off w_new.off
unfolding new_off
new_off-write w w_new t = ground arith

new_off-truncate : (w w_new : WriteRange) → is_truncate w ≡ true → new_off w w_new ≡ w_new.off
unfolding new_off
new_off-truncate w w_new t = ground arith

-- `rest` starts with an entry at or after the new one, or affected by it.
abbrev pub Starts : List WriteRange → WriteRange → Type 0
Starts [] w_new = Unit
Starts (w ∷ ws) w_new = leb w_new.off w.off || affects w_new w ≡ true

module _ (lo : ℕ) (w_new : WriteRange) (le : lo ≤ w_new.off) (tn : is_truncate w_new ≡ false)
    (fn : Fits w_new) where
  -- The merged range in front of what the second loop leaves.
  joined-Writes :
      (ws tail : List WriteRange) (begin stop : ℕ) (t : Bool)
      → lo ≤ begin
      → begin ≤ w_new.off
      → w_new.off + w_new.len ≤ stop
      → stop < 2 ^ 64
      → (t ≡ true → tail ≡ [])
      → IsCollapsedFrom stop tail
      → ((x : ℕ) → covers ws x || in_range w_new x ≡ (leb begin x && ltb x stop) || covers tail x)
      → raise_cut (w_new.off + w_new.len) (cut_of ws) ≡ (if t then some stop else cut_of tail)
      → Writes lo ws w_new (joined begin stop t tail)
  joined-Writes ws tail begin stop t a b d f e c v k =
      let pos : begin < stop = ground arith in
      (
        joined-IsCollapsedFrom begin stop tail pos f lo t a e c,
        λ x. covers-joined begin stop tail pos f t x ∙ sym (v x),
        cut_of-joined begin stop tail pos f t ∙ sym k,
      )

  Writes-miss :
      (ws : List WriteRange)
      → IsCollapsedFrom (w_new.off + w_new.len) ws
      → Writes lo ws w_new (w_new ∷ ws)
  Writes-miss ws c = (
    (le→leb _ _ le, fn, λ k. absurd (cc (tn)), c),
    λ x. ground arith,
    rw tn
        (sym (raise_cut_below (w_new.off + w_new.len) (w_new.off + w_new.len) ws (omega arith) c)),
  )

  Writes-truncate :
      (w : WriteRange)
      → is_truncate w ≡ true
      → w.off < w_new.off + w_new.len
      → Writes lo (w ∷ []) w_new (coalesce_writes (w ∷ []) w_new ++ [])
  unfolding coalesce_writes
  Writes-truncate w t lt =
      rw (new_off-truncate w w_new t, new_end-truncate w w_new t fn)
        (joined-Writes (w ∷ []) [] w_new.off (w_new.off + w_new.len) (is_truncate w) le
          (omega arith) (omega arith) fn (λ k. refl) tt (λ x. ground arith)
          (rw t (ap some (omega arith))))

  Writes-hit :
      (w : WriteRange) (ws : List WriteRange)
      → Touches w w_new
      → lo ≤ w.off
      → IsCollapsedFrom (w.off + w.len) ws
      → Writes lo
          (w ∷ ws)
          w_new
          (coalesce_writes (w ∷ (split_mid ws w_new).0) w_new ++ (split_mid ws w_new).1)
  unfolding coalesce_writes
  Writes-hit w ws t a c =
      let l = split_mid-Leaves w_new w ws t c in
      let end = last_of w (split_mid ws w_new).0 in
      rw (new_off-write w w_new t.0) (
        joined-Writes (w ∷ ws) (split_mid ws w_new).1 (min w.off w_new.off) (new_end end w_new)
          (is_truncate end) (omega arith) (omega arith)
          (new_end-le end w_new (last_of-split_mid w_new w ws t.2 c) fn) l.2 l.1 l.0
          (λ x. split_mid-Merges w_new x w ws t c) (rw t.0 l.3))

  -- A write is added to what the first loop leaves.
  pub add_write_to-Writes :
      (rest : List WriteRange)
      → IsCollapsedFrom lo rest
      → Starts rest w_new
      → Writes lo rest w_new (add_write_to rest w_new)
  unfolding add_write_to
  add_write_to-Writes [] c h = unfold split_mid coalesce_writes in Writes-miss [] tt
  add_write_to-Writes (w ∷ ws) c h = elim (Bool-cases (affects w_new w)) [
    | inl hit ↦ rw (split_mid-hit w_new w ws hit) (elim (Bool-cases (is_truncate w)) [
      | inl tr ↦
          rw (c.2 tr) (unfold split_mid in Writes-truncate w tr (hit-truncate w_new w tr tn fn hit))
      | inr wr ↦ Writes-hit w ws (affects-Touches w_new w wr tn c.1 fn hit) (leb→le _ _ c.0) c.3
    ])
    | inr miss ↦ rw (split_mid-miss w_new w ws miss) (
        let o : w_new.off ≤ w.off = ground arith in
        unfold coalesce_writes in
        Writes-miss (w ∷ ws) (le→leb _ _ (miss-lt w_new w tn c.1 fn o miss), c.1, c.2, c.3))
  ]
