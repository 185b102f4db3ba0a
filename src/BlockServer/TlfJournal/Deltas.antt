-- ===== src/BlockServer/TlfJournal/Deltas.antt =====
-- What a call does to the references in memory is what replaying its entry does.
use kbfs.Prelude.{
  ℕ, ◌≡◌, List, [], ◌∷◌, ok, arith, Option-cases, Bool-cases, inl, inr, ap, ◌∙◌, subst,
}
use kbfs.Prelude.Maps.{lookup, erase, lookup-insert, insert-insert, erase_absent}
use kbfs.BlockServer.Refs.{BlockContext, BlockRefMap, archived_block_ref, remove_ref, same_context}
use kbfs.BlockServer.Refs.Laws.{same_context→eq, same_context_refl}
use kbfs.BlockServer.Memory.{remove_refs}
use kbfs.BlockServer.TlfJournal.{
  BserverTlfJournal, refs_of, put_dropping, delete_all, archive_all, set_refs, get_ref_entry,
  put_ref_entry, archive_loop,
}

-- The removal that checks the contexts, where it succeeds, deletes what the replay deletes.
pub delete_all-remove_refs :
    (cs : List BlockContext) (refs refs' : BlockRefMap)
    → remove_refs cs refs ≡ (ok tt, refs')
    → delete_all cs refs ≡ refs'
unfolding remove_refs delete_all remove_ref
delete_all-remove_refs [] refs refs' h = ground arith
delete_all-remove_refs (c ∷ cs) refs refs' h = elim (Option-cases (lookup c.ref_nonce refs)) [
  | inl gone ↦
      ground (arith, erase_absent c.ref_nonce refs gone, delete_all-remove_refs cs refs refs')
  | inr (e, l) ↦ ground (arith, delete_all-remove_refs cs (erase c.ref_nonce refs) refs')
]

-- One round of the archive loop that succeeds puts the archived reference, as the replay does.
archive_round :
    (id : ℕ) (c : BlockContext) (cs : List BlockContext) (s s' : BserverTlfJournal)
    → archive_loop id (c ∷ cs) s ≡ (ok tt, s')
    → archive_loop id cs (set_refs id (put_dropping (refs_of id s.refs) c archived_block_ref) s)
      ≡ (ok tt, s')
unfolding archive_loop get_ref_entry put_ref_entry
archive_round id c cs s s' h = elim (Option-cases (lookup id s.refs)) [
  | inl missing ↦ absurd (ground arith)
  | inr (refs, l) ↦ elim (Option-cases (lookup c.ref_nonce refs)) [
    | inl gone ↦ absurd (ground arith)
    | inr (e, k) ↦ elim (Bool-cases (same_context e.context c)) [
      | inl same ↦
          let eq = same_context→eq e.context c same in ground (arith, eq, same_context_refl c)
      | inr other ↦ absurd (ground arith)
    ]
  ]
]

set_refs_twice :
    (id : ℕ) (a b : BlockRefMap) (s : BserverTlfJournal)
    → set_refs id a (set_refs id b s) ≡ set_refs id a s
set_refs_twice id a b s = ap (λ m. record s { refs = m }) (insert-insert id a b s.refs)

refs_of-set_refs :
    (id : ℕ) (a : BlockRefMap) (s : BserverTlfJournal) → refs_of id (set_refs id a s).refs ≡ a
refs_of-set_refs id a s = ground (arith, lookup-insert id id a s.refs)

-- The archive loop, where it succeeds on at least one context, leaves what the replay of the entry leaves.
pub archive_loop-archive_all :
    (id : ℕ) (c : BlockContext) (cs : List BlockContext) (s s' : BserverTlfJournal)
    → archive_loop id (c ∷ cs) s ≡ (ok tt, s')
    → s' ≡ set_refs id (archive_all (c ∷ cs) (refs_of id s.refs)) s
unfolding archive_all
archive_loop-archive_all id c [] s s' h =
    unfold archive_loop in ground (arith, archive_round id c [] s s' h)
archive_loop-archive_all id c (d ∷ cs) s s' h =
    let p = put_dropping (refs_of id s.refs) c archived_block_ref in
    let later =
      archive_loop-archive_all id d cs (set_refs id p s) s' (archive_round id c (d ∷ cs) s s' h) in
    subst (λ r. s' ≡ set_refs id (archive_all (d ∷ cs) r) (set_refs id p s))
      (refs_of-set_refs id p s) later
    ∙ set_refs_twice id (archive_all (d ∷ cs) p) p s
