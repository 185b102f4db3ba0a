-- ===== src/BlockServer/Refs.antt =====
-- `BlockContext` of libkbfs/data_types.go, and `blockRefEntry` and `blockRefMap` of
-- libkbfs/bserver_memory.go.
pub mod Laws
use kbfs.Prelude.{
  ℕ, Bool, true, false, ◌&&◌, not, ◌==◌, if◌then◌else◌, Option, none, some, [], ◌∷◌, Result, ok,
  err, block_non_existent, context_mismatch,
}
use kbfs.Prelude.Maps.{Map, lookup, insert, erase}
use kbfs.Prelude.Chain.{◌>>=◌, ◌>>◌, fail_if}

-- User IDs and reference nonces are only compared; 0 stands for the nil user ID and for
-- `zeroBlockRefNonce`.
pub record BlockContext : Type 0 where
  pub creator : ℕ
  pub writer : ℕ
  pub ref_nonce : ℕ

abbrev pub get_creator : BlockContext → ℕ
get_creator c = c.creator

abbrev pub get_writer : BlockContext → ℕ
get_writer c = if not (c.writer == 0) then c.writer else c.creator

abbrev pub get_ref_nonce : BlockContext → ℕ
get_ref_nonce c = c.ref_nonce

-- `==` on contexts
abbrev pub same_context : BlockContext → BlockContext → Bool
same_context c d =
    (c.creator == d.creator) && (c.writer == d.writer) && (c.ref_nonce == d.ref_nonce)

pub data RefStatus : Type 0 where
  live_block_ref archived_block_ref : RefStatus

pub record BlockRefEntry : Type 0 where
  pub status : RefStatus
  pub context : BlockContext

abbrev pub is_live : BlockRefEntry → Bool
is_live e = elim e.status [ live_block_ref ↦ true | archived_block_ref ↦ false ]

abbrev pub check_context : BlockRefEntry → BlockContext → Result (Unit {0})
check_context e context =
    if not (same_context e.context context) then err context_mismatch else ok tt

abbrev pub BlockRefMap : Type 0
BlockRefMap = Map BlockRefEntry

-- `hasNonArchivedRef`
unfoldable pub has_non_archived_ref : BlockRefMap → Bool
has_non_archived_ref [] = false
has_non_archived_ref ((_, e) ∷ refs) =
    let rest = has_non_archived_ref refs in if is_live e then true else rest

-- `checkExists`
unfoldable pub check_exists : BlockRefMap → BlockContext → Result (Unit {0})
check_exists refs context = elim (lookup (get_ref_nonce context) refs) [
  | none ↦ err block_non_existent
  | some e ↦ check_context e context
]

-- `getStatuses`
unfoldable pub get_statuses : BlockRefMap → Map RefStatus
get_statuses [] = []
get_statuses ((nonce, e) ∷ refs) = (nonce, e.status) ∷ get_statuses refs

-- `put`: the map after the call, or an error that leaves the map as it was.
unfoldable pub put_ref : BlockRefMap → BlockContext → RefStatus → Result BlockRefMap
put_ref refs context status =
    let refs' =
      insert (get_ref_nonce context) (record { status = status; context = context }) refs in
    elim (lookup (get_ref_nonce context) refs) [
      | none ↦ ok refs'
      | some e ↦ do check_context e context; ok refs'
    ]

-- `remove`, likewise; a reference that is already gone is no error.
unfoldable pub remove_ref : BlockRefMap → BlockContext → Result BlockRefMap
remove_ref refs context = elim (lookup (get_ref_nonce context) refs) [
  | none ↦ ok refs
  | some e ↦ do check_context e context; ok (erase (get_ref_nonce context) refs)
]
