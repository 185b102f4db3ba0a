-- ===== src/BlockServer/TlfJournal/Distinct.antt =====
-- No replay lists a block, or a reference of a block, twice, as Go's maps require.
use kbfs.Prelude.{ℕ, ◌≡◌, ◌==◌, List, [], ◌∷◌, ok, arith, Bool-cases, inl, inr, subst}
use kbfs.Prelude.Chain.{Result-cases}
use kbfs.Prelude.Maps.{insert, erase, IsDistinct, insert-IsDistinct, erase-IsDistinct}
use kbfs.BlockServer.Refs.{
  BlockContext, BlockRefMap, RefStatus, live_block_ref, archived_block_ref, put_ref,
}
use kbfs.BlockServer.TlfJournal.{
  BserverJournalEntry, BserverOp, block_put_op, add_ref_op, remove_refs_op, archive_refs_op,
  other_op, RefsMap, refs_of, put_dropping, delete_all, archive_all, apply_op, apply_entry,
}
use kbfs.BlockServer.TlfJournal.Replay.{replay}

-- No reference of any block is listed twice.
abbrev pub AllDistinct : RefsMap → Type 0
AllDistinct [] = Unit
AllDistinct ((id, refs) ∷ m) = IsDistinct refs × AllDistinct m

put_dropping-IsDistinct :
    (refs : BlockRefMap) (c : BlockContext) (st : RefStatus)
    → IsDistinct refs
    → IsDistinct (put_dropping refs c st)
unfolding put_dropping put_ref
put_dropping-IsDistinct refs c st d =
    ground (arith, insert-IsDistinct c.ref_nonce (record { status = st; context = c }) refs d)

delete_all-IsDistinct :
    (cs : List BlockContext) (refs : BlockRefMap)
    → IsDistinct refs
    → IsDistinct (delete_all cs refs)
unfolding delete_all
delete_all-IsDistinct [] refs d = d
delete_all-IsDistinct (c ∷ cs) refs d =
    delete_all-IsDistinct cs (erase c.ref_nonce refs) (erase-IsDistinct c.ref_nonce refs d)

archive_all-IsDistinct :
    (cs : List BlockContext) (refs : BlockRefMap)
    → IsDistinct refs
    → IsDistinct (archive_all cs refs)
unfolding archive_all
archive_all-IsDistinct [] refs d = d
archive_all-IsDistinct (c ∷ cs) refs d =
    archive_all-IsDistinct cs (put_dropping refs c archived_block_ref)
      (put_dropping-IsDistinct refs c archived_block_ref d)

apply_op-IsDistinct :
    (op : BserverOp) (cs : List BlockContext) (refs refs' : BlockRefMap)
    → IsDistinct refs
    → apply_op op cs refs ≡ ok refs'
    → IsDistinct refs'
unfolding apply_op
apply_op-IsDistinct block_put_op [] refs refs' d h = cc
apply_op-IsDistinct block_put_op (c ∷ []) refs refs' d h =
    subst IsDistinct (ground arith) (put_dropping-IsDistinct refs c live_block_ref d)
apply_op-IsDistinct block_put_op (c ∷ e ∷ cs) refs refs' d h = cc
apply_op-IsDistinct add_ref_op [] refs refs' d h = cc
apply_op-IsDistinct add_ref_op (c ∷ []) refs refs' d h =
    subst IsDistinct (ground arith) (put_dropping-IsDistinct refs c live_block_ref d)
apply_op-IsDistinct add_ref_op (c ∷ e ∷ cs) refs refs' d h = cc
apply_op-IsDistinct remove_refs_op cs refs refs' d h =
    subst IsDistinct (ground arith) (delete_all-IsDistinct cs refs d)
apply_op-IsDistinct archive_refs_op cs refs refs' d h =
    subst IsDistinct (ground arith) (archive_all-IsDistinct cs refs d)
apply_op-IsDistinct other_op cs refs refs' d h = cc

refs_of-IsDistinct : (id : ℕ) (m : RefsMap) → AllDistinct m → IsDistinct (refs_of id m)
refs_of-IsDistinct id [] d = tt
refs_of-IsDistinct id ((j, refs) ∷ m) d = elim (Bool-cases (j == id)) [
  | inl same ↦ rw same d.0
  | inr other ↦ rw other (refs_of-IsDistinct id m d.1)
]

insert-AllDistinct :
    (id : ℕ) (refs : BlockRefMap) (m : RefsMap)
    → IsDistinct refs
    → AllDistinct m
    → AllDistinct (insert id refs m)
insert-AllDistinct id refs [] r d = (r, tt)
insert-AllDistinct id refs ((j, other) ∷ m) r d = elim (Bool-cases (j == id)) [
  | inl same ↦ rw same (r, d.1)
  | inr ne ↦ rw ne (d.0, insert-AllDistinct id refs m r d.1)
]

pub replay-AllDistinct :
    (es : List BserverJournalEntry) (m m' : RefsMap)
    → IsDistinct m × AllDistinct m
    → replay es m ≡ ok m'
    → IsDistinct m' × AllDistinct m'
unfolding replay apply_entry
replay-AllDistinct [] m m' d h = subst (λ x. IsDistinct x × AllDistinct x) (ground arith) d
replay-AllDistinct (e ∷ es) m m' d h =
    elim (Result-cases (apply_op e.op e.contexts (refs_of e.id m))) [
      | inr (x, bad) ↦ absurd (ground arith)
      | inl (refs, fits) ↦
          let r =
            apply_op-IsDistinct e.op e.contexts (refs_of e.id m) refs
              (refs_of-IsDistinct e.id m d.1) fits in
          replay-AllDistinct es (insert e.id refs m) m'
            (insert-IsDistinct e.id refs m d.0, insert-AllDistinct e.id refs m r d.1) (ground arith)
    ]
