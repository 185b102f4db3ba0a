-- ===== src/BlockServer/Memory/Remove.antt =====
-- `removeBlockReferences`: which references are left, the count that it returns, and the invariant.
use kbfs.Prelude.{
  ℕ, ◌≡◌, ◌≢◌, refl, Bool, false, ◌==◌, ◌||◌, if◌then◌else◌, none, some, List, [], ◌∷◌, Result, ok,
  err, arith, Error, Option-cases, Bool-cases, inl, inr, block_non_existent,
}
use mathlib.Core.Path.{subst}
use kbfs.Prelude.Chain.{Result-cases}
use kbfs.Prelude.Maps.{Map, lookup, lookup-insert, lookup-erase}
use kbfs.FileStore.{Bytes}
use kbfs.BlockServer.Refs.{BlockContext, BlockRefMap, remove_ref, check_exists}
use kbfs.BlockServer.Refs.Laws.{IsKeyed, remove_ref-lookup, remove_ref-IsKeyed}
use kbfs.BlockServer.Memory.{
  BlockMemEntry, BlockServerMemory, get, remove_refs, finish_remove, remove_block_references,
}
use kbfs.BlockServer.Memory.Invariant.{
  IsEntry, IsValid, set_entry-IsValid, IsValid-but, delete_entry-IsValid,
}

-- Some context of the list has the nonce.
abbrev pub names : List BlockContext → ℕ → Bool
names [] nonce = false
names (c ∷ cs) nonce = c.ref_nonce == nonce || names cs nonce

-- A successful removal leaves exactly the references whose nonce is not named.
pub remove_refs-lookup :
    (cs : List BlockContext) (refs refs' : BlockRefMap) (j : ℕ)
    → remove_refs cs refs ≡ (ok tt, refs')
    → lookup j refs' ≡ (if names cs j then none else lookup j refs)
unfolding remove_refs
remove_refs-lookup [] refs refs' j h = ground arith
remove_refs-lookup (c ∷ cs) refs refs' j h = elim (Result-cases (remove_ref refs c)) [
  | inl (refs1, e) ↦
      let later = remove_refs-lookup cs refs1 refs' j (ground arith) in
      ground (arith, later, remove_ref-lookup refs refs1 c j e)
  | inr (x, e) ↦ absurd (ground arith)
]

pub remove_refs-IsKeyed :
    (cs : List BlockContext) (refs : BlockRefMap) → IsKeyed refs → IsKeyed (remove_refs cs refs).1
unfolding remove_refs
remove_refs-IsKeyed [] refs k = k
remove_refs-IsKeyed (c ∷ cs) refs k = elim (Result-cases (remove_ref refs c)) [
  | inl (refs1, e) ↦
      rw (e, remove_refs) (remove_refs-IsKeyed cs refs1 (remove_ref-IsKeyed refs refs1 c k e))
  | inr (x, e) ↦ rw (e, remove_refs) k
]

-- A removal that stops at a wrong context leaves at least the reference that it stopped at.
remove_refs-ne-nil :
    (cs : List BlockContext) (refs refs' : BlockRefMap) (x : Error)
    → remove_refs cs refs ≡ (err x, refs')
    → refs' ≢ []
unfolding remove_refs remove_ref
remove_refs-ne-nil [] refs refs' x h n = cc
remove_refs-ne-nil (c ∷ cs) refs refs' x h n = elim (Result-cases (remove_ref refs c)) [
  | inl (refs1, e) ↦ remove_refs-ne-nil cs refs1 refs' x (ground arith) n
  | inr (y, e) ↦ ground arith
]

get-finish_remove :
    (id tlf : ℕ) (c : BlockContext) (entry : BlockMemEntry) (refs : BlockRefMap)
    (s : BlockServerMemory) (m : Map BlockMemEntry)
    → s.m ≡ some m
    → entry.tlf_id ≡ tlf
    → get id tlf c (finish_remove id entry (ok tt, refs) s).1 ≡ (elim (check_exists refs c) [
      | ok _ ↦ ok (entry.block_data, entry.key_server_half)
      | err e ↦ err e
    ])
unfolding get finish_remove check_exists
get-finish_remove id tlf c entry [] s m o t = ground (arith, lookup-erase id id m)
get-finish_remove id tlf c entry (r ∷ refs) s m o t =
    ground (arith, lookup-insert id id (record entry { refs = r ∷ refs }) m)

-- After a successful removal, a `Get` by a reference that was named finds nothing, and a `Get` by any
-- other reference of the block gives what it gave before.
pub get-remove_block_references :
    (id tlf : ℕ) (cs : List BlockContext) (s s' : BlockServerMemory) (m : Map BlockMemEntry)
    (entry : BlockMemEntry) (n : ℕ) (c : BlockContext)
    → s.m ≡ some m
    → lookup id m ≡ some entry
    → remove_block_references id tlf cs s ≡ (ok n, s')
    → get id tlf c s' ≡ (if names cs c.ref_nonce then err block_non_existent else get id tlf c s)
unfolding remove_block_references
get-remove_block_references id tlf cs s s' m entry n c o l h =
    split (remove_refs cs entry.refs) refl
  where
    split :
        (r : Result (Unit {0}) × BlockRefMap)
        → remove_refs cs entry.refs ≡ r
        → get id tlf c s'
          ≡ (if names cs c.ref_nonce then err block_non_existent else get id tlf c s)
    split (err x, refs) e = absurd (unfold finish_remove in ground arith)
    split (ok _, refs) e =
        let left = remove_refs-lookup cs entry.refs refs c.ref_nonce e in
        let same : entry.tlf_id ≡ tlf = ground arith in
        let end : s' ≡ (finish_remove id entry (ok tt, refs) s).1 = ground arith in
        rw (end, get-finish_remove id tlf c entry refs s m o same)
          (unfold get check_exists in ground arith)

module _ (hash : Bytes → Result ℕ) where
  finish_remove-IsValid :
      (id : ℕ) (entry : BlockMemEntry) (cs : List BlockContext) (s : BlockServerMemory)
      → IsValid hash s
      → IsEntry hash id entry
      → IsValid hash (finish_remove id entry (remove_refs cs entry.refs) s).1
  unfolding finish_remove
  finish_remove-IsValid id entry cs s v w =
      split (remove_refs cs entry.refs) refl (remove_refs-IsKeyed cs entry.refs w.keyed)
    where
      split :
          (r : Result (Unit {0}) × BlockRefMap)
          → remove_refs cs entry.refs ≡ r
          → IsKeyed r.1
          → IsValid hash (finish_remove id entry r s).1
      split (err x, refs) e k =
          set_entry-IsValid hash id (record entry { refs = refs }) s (IsValid-but hash id s v)
            (record {
              hashed = w.hashed;
              keyed = k;
              referenced = remove_refs-ne-nil cs entry.refs refs x e;
            })
      split (ok _, []) e k = delete_entry-IsValid hash id s v
      split (ok _, r ∷ refs) e k =
          set_entry-IsValid hash id (record entry { refs = r ∷ refs }) s (IsValid-but hash id s v)
            (record { hashed = w.hashed; keyed = k; referenced = λ n. cc })

  -- `removeBlockReferences` keeps the invariant, also where it fails half way.
  pub remove_block_references-IsValid :
      (id tlf : ℕ) (cs : List BlockContext) (s : BlockServerMemory)
      → IsValid hash s
      → IsValid hash (remove_block_references id tlf cs s).1
  unfolding remove_block_references
  remove_block_references-IsValid id tlf cs s v = elim (Option-cases s.m) [
    | inl closed ↦ subst (IsValid hash) {x = s} (ground arith) v
    | inr (m, o) ↦ elim (Option-cases (lookup id m)) [
      | inl missing ↦ subst (IsValid hash) {x = s} (ground arith) v
      | inr (entry, l) ↦ elim (Bool-cases (entry.tlf_id == tlf)) [
        | inl same ↦
            subst (IsValid hash) {x = (finish_remove id entry (remove_refs cs entry.refs) s).1}
              (ground arith) (finish_remove-IsValid id entry cs s v (v.each m id entry o l))
        | inr other ↦ subst (IsValid hash) {x = s} (ground arith) v
      ]
    ]
  ]
