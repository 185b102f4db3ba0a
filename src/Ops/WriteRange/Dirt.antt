-- ===== src/Ops/WriteRange/Dirt.antt =====
-- What a series of writes and truncates does to a file, in the order in which they are made: the bytes
-- that it leaves written, and a bound on the size of the file.
use kbfs.Prelude.{
  ℕ, ◌+◌, ◌<◌, ◌^◌, Bool, true, false, ◌&&◌, ◌||◌, ltb, leb, if◌then◌else◌, min, max, List, [], ◌∷◌,
  Option, none, some, ◌≡◌,
}
use kbfs.Ops.WriteRange.{WriteRange, is_truncate}

pub record Dirt : Type 0 where
  pub covered : ℕ → Bool
  pub cut : Option ℕ

abbrev pub in_range : WriteRange → ℕ → Bool
in_range w x = leb w.off x && ltb x (w.off + w.len)

-- The least of the cuts; a write past a cut moves it to its end.
abbrev pub cut_at : ℕ → Option ℕ → Option ℕ
cut_at t none = some t
cut_at t (some s) = some (min s t)

abbrev pub raise_cut : ℕ → Option ℕ → Option ℕ
raise_cut stop none = none
raise_cut stop (some s) = some (max s stop)

abbrev pub make_write : WriteRange → Dirt → Dirt
make_write w d = record {
  covered = λ x. if is_truncate w then d.covered x && ltb x w.off else d.covered x || in_range w x;
  cut = if is_truncate w then cut_at w.off d.cut else raise_cut (w.off + w.len) d.cut;
}

abbrev pub make_writes : List WriteRange → Dirt → Dirt
make_writes [] d = d
make_writes (w ∷ ws) d = make_writes ws (make_write w d)

-- The reading of a collapsed list: its writes, and the truncate at its end.
abbrev pub covers : List WriteRange → ℕ → Bool
covers [] x = false
covers (w ∷ ws) x = in_range w x || covers ws x

abbrev pub cut_of : List WriteRange → Option ℕ
cut_of [] = none
cut_of (w ∷ ws) = if is_truncate w then some w.off else cut_of ws

-- The bytes of the write, or the place of the truncate, are counted by a uint64.
abbrev pub Fits : WriteRange → Type 0
Fits w = w.off + w.len < 2 ^ 64

abbrev pub AllFit : List WriteRange → Type 0
AllFit [] = Unit
AllFit (w ∷ ws) = Fits w × AllFit ws

-- From `lo` on: writes that do not overlap, in the order of their offsets, and at most one truncate,
-- which is the last of the list and not within a write.
abbrev pub IsCollapsedFrom : ℕ → List WriteRange → Type 0
IsCollapsedFrom lo [] = Unit
IsCollapsedFrom lo (w ∷ ws) =
    (leb lo w.off ≡ true)
    × Fits w
    × (is_truncate w ≡ true → ws ≡ [])
    × IsCollapsedFrom (w.off + w.len) ws

abbrev pub IsCollapsed : List WriteRange → Type 0
IsCollapsed ws = IsCollapsedFrom 0 ws
