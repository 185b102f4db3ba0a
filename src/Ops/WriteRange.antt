-- ===== src/Ops/WriteRange.antt =====
-- `WriteRange` of libkbfs/ops.go, and the collapsing of a file's writes. Offsets and lengths are uint64.
pub mod Dirt
pub mod Merge
pub mod Covers
pub mod Add
pub mod Collapse
use kbfs.Prelude.{
  ℕ, ◌+◌, ◌-◌, ◌%◌, ◌^◌, Bool, true, false, ◌&&◌, ◌||◌, not, ltb, leb, ◌==◌, if◌then◌else◌, List,
  [], ◌∷◌, ◌++◌,
}

pub record WriteRange : Type 0 where
  pub off : ℕ
  pub len : ℕ

abbrev pub is_truncate : WriteRange → Bool
is_truncate w = w.len == 0

-- `End`, called on writes only
abbrev pub end_of : WriteRange → ℕ
end_of w = (w.off + w.len) % 2 ^ 64

unfoldable pub affects : WriteRange → WriteRange → Bool
affects w other =
    if is_truncate w
    then (if is_truncate other then true else ltb w.off (end_of other))
    else if is_truncate other
    then ltb other.off (end_of w)
    else (leb w.off (end_of other) && leb (end_of other) (end_of w))
      || (leb other.off (end_of w) && leb (end_of w) (end_of other))

-- `existingWrites[len(existingWrites)-1]` of a list with a head
abbrev pub last_of : WriteRange → List WriteRange → WriteRange
last_of w [] = w
last_of w (v ∷ vs) = last_of v vs

-- `newEnd` and `newOff` of `coalesceWrites`
unfoldable pub new_end : WriteRange → WriteRange → ℕ
new_end w_old_tail w_new =
    if not (is_truncate w_old_tail) && ltb (end_of w_new) (end_of w_old_tail)
    then end_of w_old_tail
    else end_of w_new

unfoldable pub new_off : WriteRange → WriteRange → ℕ
new_off w_old_head w_new =
    if not (is_truncate w_old_head) && ltb w_old_head.off w_new.off
    then w_old_head.off
    else w_new.off

-- The panic on a new truncate is left out: the one call is made with a write.
unfoldable pub coalesce_writes : List WriteRange → WriteRange → List WriteRange
coalesce_writes [] w_new = w_new ∷ []
coalesce_writes (w ∷ ws) w_new =
    let stop = new_end (last_of w ws) w_new in
    let begin = new_off w w_new in
    record { off = begin; len = (stop + 2 ^ 64 - begin) % 2 ^ 64 }
    ∷ (if is_truncate (last_of w ws) then record { off = stop; len = 0 } ∷ [] else [])

-- The first loop, which finds `head`; what is left of the list follows it.
unfoldable pub split_head : List WriteRange → WriteRange → List WriteRange × List WriteRange
split_head [] w_new = ([], [])
split_head (w_old ∷ ws) w_new =
    let rest = split_head ws w_new in
    if leb w_new.off w_old.off || affects w_new w_old
    then ([], w_old ∷ ws)
    else (w_old ∷ rest.0, rest.1)

-- The second loop, which finds `mid` and `end`.
unfoldable pub split_mid : List WriteRange → WriteRange → List WriteRange × List WriteRange
split_mid [] w_new = ([], [])
split_mid (w_old ∷ ws) w_new =
    let rest = split_mid ws w_new in
    if affects w_new w_old then (w_old ∷ rest.0, rest.1) else ([], w_old ∷ ws)

-- What follows `head` when a truncate is added; `mid` is all of the rest.
unfoldable pub add_truncate_to : List WriteRange → WriteRange → List WriteRange
add_truncate_to [] w_new = w_new ∷ []
add_truncate_to (m ∷ mid) w_new =
    if is_truncate m
    then (if ltb m.off w_new.off then m ∷ [] else w_new ∷ [])
    else if ltb m.off w_new.off
    then record { off = m.off; len = w_new.off - m.off } ∷ w_new ∷ []
    else w_new ∷ []

-- What follows `head` when a write is added.
unfoldable pub add_write_to : List WriteRange → WriteRange → List WriteRange
add_write_to rest w_new =
    let (mid, tail) = split_mid rest w_new in coalesce_writes mid w_new ++ tail

unfoldable pub add_to_collapsed_write_range : List WriteRange → WriteRange → List WriteRange
add_to_collapsed_write_range writes w_new =
    let (head, rest) = split_head writes w_new in
    head ++ (if is_truncate w_new then add_truncate_to rest w_new else add_write_to rest w_new)

-- The loop of `collapseWriteRange` over `so.Writes`
unfoldable pub collapse_write_range : List WriteRange → List WriteRange → List WriteRange
collapse_write_range [] writes = writes
collapse_write_range (w_new ∷ so_writes) writes =
    collapse_write_range so_writes (add_to_collapsed_write_range writes w_new)
