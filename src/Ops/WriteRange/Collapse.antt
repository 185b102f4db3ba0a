-- ===== src/Ops/WriteRange/Collapse.antt =====
-- `collapseWriteRange` of libkbfs/ops.go: the collapsed list stands for what the writes and truncates do.
use kbfs.Prelude.{
  ℕ, ◌+◌, ◌≤◌, ◌<◌, true, false, ◌&&◌, ◌||◌, ltb, leb, leb→le, le→leb, if◌then◌else◌, List, [], ◌∷◌,
  ◌≡◌, refl, arith, Bool-cases, inl, inr, some, ◌∙◌,
}
use kbfs.Ops.WriteRange.{
  WriteRange, is_truncate, affects, split_head, add_write_to, add_truncate_to,
  add_to_collapsed_write_range, collapse_write_range,
}
use kbfs.Ops.WriteRange.Dirt.{
  Dirt, in_range, covers, cut_of, cut_at, raise_cut, Fits, AllFit, IsCollapsedFrom, IsCollapsed,
  make_write, make_writes,
}
use kbfs.Ops.WriteRange.Add.{Starts, add_write_to-Writes}

covers_above :
    (lo x : ℕ) (ws : List WriteRange) → x < lo → IsCollapsedFrom lo ws → covers ws x ≡ false
covers_above lo x [] h c = refl
covers_above lo x (w ∷ ws) h c =
    let le = leb→le lo w.off c.0 in
    rw (covers_above (w.off + w.len) x ws (omega arith) c.3) (ground arith)

cut_at_below :
    (t lo : ℕ) (ws : List WriteRange)
    → t ≤ lo
    → IsCollapsedFrom lo ws
    → cut_at t (cut_of ws) ≡ some t
cut_at_below t lo [] h c = refl
cut_at_below t lo (w ∷ ws) h c =
    let le = leb→le lo w.off c.0 in
    ground (arith, cut_at_below t (w.off + w.len) ws (omega arith) c.3)

-- A list that reads as the list `ws` after the write or truncate `w_new`, from `lo` on.
abbrev pub Adds : ℕ → List WriteRange → WriteRange → List WriteRange → Type 0
Adds lo ws w_new ws' =
    IsCollapsedFrom lo ws'
    × ((x : ℕ)
        → covers ws' x ≡ (
            if is_truncate w_new
            then covers ws x && ltb x w_new.off
            else covers ws x || in_range w_new x))
    × (cut_of ws' ≡ (
        if is_truncate w_new
        then cut_at w_new.off (cut_of ws)
        else raise_cut (w_new.off + w_new.len) (cut_of ws)))

module _ (w_new : WriteRange) (fn : Fits w_new) where
  affects_write_before :
      (w : WriteRange)
      → is_truncate w_new ≡ true
      → Fits w
      → w.off < w_new.off
      → is_truncate w ≡ false
      → affects w_new w ≡ true
      → w_new.off < w.off + w.len
  unfolding affects
  affects_write_before w tr f o t a = ground arith

  -- The parts of a truncate: order, bytes and cut.
  truncate-IsCollapsedFrom :
      (lo : ℕ) (rest : List WriteRange)
      → lo ≤ w_new.off
      → is_truncate w_new ≡ true
      → IsCollapsedFrom lo rest
      → Starts rest w_new
      → IsCollapsedFrom lo (add_truncate_to rest w_new)
  unfolding add_truncate_to
  truncate-IsCollapsedFrom lo [] le tr c h = (le→leb _ _ le, fn, λ k. refl, tt)
  truncate-IsCollapsedFrom lo (m ∷ mid) le tr c h =
      ground (arith, affects_write_before m tr c.1, le→leb lo w_new.off le)

  covers-truncate :
      (lo x : ℕ) (rest : List WriteRange)
      → is_truncate w_new ≡ true
      → IsCollapsedFrom lo rest
      → Starts rest w_new
      → covers (add_truncate_to rest w_new) x ≡ covers rest x && ltb x w_new.off
  unfolding add_truncate_to
  covers-truncate lo x [] tr c h = ground arith
  covers-truncate lo x (m ∷ mid) tr c h =
      ground (arith, affects_write_before m tr c.1, c.2, covers_above (m.off + m.len) x mid)

  cut_of-truncate :
      (lo : ℕ) (rest : List WriteRange)
      → is_truncate w_new ≡ true
      → IsCollapsedFrom lo rest
      → Starts rest w_new
      → cut_of (add_truncate_to rest w_new) ≡ cut_at w_new.off (cut_of rest)
  unfolding add_truncate_to
  cut_of-truncate lo [] tr c h = ground arith
  cut_of-truncate lo (m ∷ mid) tr c h =
      ground (arith, affects_write_before m tr c.1, c.2, cut_at_below w_new.off (m.off + m.len) mid)

  -- What the first loop passes over is a write that ends before the new entry.
  passed-le :
      (w : WriteRange)
      → Fits w
      → leb w_new.off w.off || affects w_new w ≡ false
      → (is_truncate w ≡ false) × (w.off + w.len ≤ w_new.off)
  unfolding affects
  passed-le w f h = ground arith

  add-passed :
      (w : WriteRange) (ws : List WriteRange)
      → leb w_new.off w.off || affects w_new w ≡ false
      → add_to_collapsed_write_range (w ∷ ws) w_new ≡ w ∷ add_to_collapsed_write_range ws w_new
  unfolding add_to_collapsed_write_range split_head
  add-passed w ws h = rw h refl

  add-rest :
      (w : WriteRange) (ws : List WriteRange)
      → leb w_new.off w.off || affects w_new w ≡ true
      → add_to_collapsed_write_range (w ∷ ws) w_new ≡ (
          if is_truncate w_new then add_truncate_to (w ∷ ws) w_new else add_write_to (w ∷ ws) w_new)
  unfolding add_to_collapsed_write_range split_head
  add-rest w ws h = rw h refl

  rest-Adds :
      (lo : ℕ) (rest : List WriteRange)
      → lo ≤ w_new.off
      → IsCollapsedFrom lo rest
      → Starts rest w_new
      → Adds lo rest w_new
          (if is_truncate w_new then add_truncate_to rest w_new else add_write_to rest w_new)
  rest-Adds lo rest le c h = elim (Bool-cases (is_truncate w_new)) [
    | inl t ↦ rw t (
      truncate-IsCollapsedFrom lo rest le t c h,
      λ x. covers-truncate lo x rest t c h,
      cut_of-truncate lo rest t c h,
    )
    | inr t ↦ rw t (add_write_to-Writes lo w_new le t fn rest c h)
  ]

  passed-Adds :
      (lo : ℕ) (w : WriteRange) (ws ws' : List WriteRange)
      → leb lo w.off ≡ true
      → Fits w
      → is_truncate w ≡ false
      → w.off + w.len ≤ w_new.off
      → Adds (w.off + w.len) ws w_new ws'
      → Adds lo (w ∷ ws) w_new (w ∷ ws')
  passed-Adds lo w ws ws' o f t le a =
      ((o, f, λ k. absurd (cc (t)), a.0), λ x. rw (a.1 x) (ground arith), rw t a.2)

  pub add_to_collapsed_write_range-Adds :
      (lo : ℕ) (ws : List WriteRange)
      → lo ≤ w_new.off
      → IsCollapsedFrom lo ws
      → Adds lo ws w_new (add_to_collapsed_write_range ws w_new)
  add_to_collapsed_write_range-Adds lo [] le c =
      unfold add_to_collapsed_write_range split_head in rest-Adds lo [] le tt tt
  add_to_collapsed_write_range-Adds lo (w ∷ ws) le c =
      elim (Bool-cases (leb w_new.off w.off || affects w_new w)) [
        | inl start ↦ rw (add-rest w ws start) (rest-Adds lo (w ∷ ws) le c start)
        | inr pass ↦
            let p = passed-le w c.1 pass in
            rw (add-passed w ws pass) (
              passed-Adds lo w ws (add_to_collapsed_write_range ws w_new) c.0 c.1 p.0 p.1
                (add_to_collapsed_write_range-Adds (w.off + w.len) ws p.1 c.3))
      ]

-- The list reads as the state `d` of the file.
abbrev pub StandsFor : List WriteRange → Dirt → Type 0
StandsFor ws d = IsCollapsed ws × ((x : ℕ) → covers ws x ≡ d.covered x) × (cut_of ws ≡ d.cut)

StandsFor-add :
    (ws : List WriteRange) (d : Dirt) (w : WriteRange)
    → Fits w
    → StandsFor ws d
    → StandsFor (add_to_collapsed_write_range ws w) (make_write w d)
StandsFor-add ws d w f s =
    let a = add_to_collapsed_write_range-Adds w f 0 ws (omega arith) s.0 in
    (a.0, λ x. a.1 x ∙ ground (arith, s.1 x), a.2 ∙ ground (arith, s.2))

-- Where no offset or end of a write passes 2^64, the list that collapseWriteRange makes of a collapsed
-- list and the writes and truncates of the op is collapsed again: its writes do not overlap, their
-- offsets increase, and a truncate is its last entry. It stands for the state that the writes and
-- truncates make one after the other of the state that the old list stands for: the same bytes are
-- written and left in the file, and the bound on the size of the file is the same.
pub collapse_write_range-StandsFor :
    (so_writes ws : List WriteRange) (d : Dirt)
    → AllFit so_writes
    → StandsFor ws d
    → StandsFor (collapse_write_range so_writes ws) (make_writes so_writes d)
unfolding collapse_write_range
collapse_write_range-StandsFor [] ws d f s = s
collapse_write_range-StandsFor (w ∷ so_writes) ws d f s =
    collapse_write_range-StandsFor so_writes (add_to_collapsed_write_range ws w) (make_write w d)
      f.1 (StandsFor-add ws d w f.0 s)
