-- ===== src/MdServer/Memory/Heads.antt =====
-- What `Put` of an `MDServerMemory` leaves.
use kbfs.Prelude.{
  ℕ, ◌≡◌, refl, sym, ap, ◌∙◌, Bool, true, false, Option, none, some, List, [], ◌∷◌, ◌++◌, ok, arith,
  inl, inr,
}
use kbfs.Prelude.Chain.{Result-cases}
use kbfs.Prelude.Action.{>>=-ok}
use kbfs.Prelude.Dict.{find, store, find-store}
use kbfs.FileStore.{Bytes}
use kbfs.RootMetadata.{RootMetadata, MergeStatus, merged, merged_status}
use kbfs.MdServer.TlfStorage.{MdParams}
use kbfs.MdServer.Memory.Keys.{MdBlockKey, same_block_key_iff, block_key}
use kbfs.MdServer.Memory.{
  MdServerMemory, MdBlockMemList, MdSession, last_block, get_md_key, head_for_tlf, shutdown_memory,
}
use kbfs.MdServer.Memory.Put.{
  add_block, find_put_head, check_memory_put, record_branch, store_memory_md, memory_put,
}

last_block-append : (bs : List Bytes) (b : Bytes) → last_block (bs ++ b ∷ []) ≡ ok b
last_block-append [] b = refl
last_block-append (x ∷ []) b = refl
last_block-append (x ∷ y ∷ bs) b = last_block-append (y ∷ bs) b

module _ (p : MdParams) where
  -- `record_branch` only changes the branches.
  pub record_branch-md_db :
      (u : MdSession) (md : RootMetadata) (s : MdServerMemory)
      → (record_branch u md s).1.md_db ≡ s.md_db
  unfolding record_branch
  record_branch-md_db u md s = ground arith

  -- Where a stored update goes
  pub store_memory_md-ok :
      (u : MdSession) (md : RootMetadata) (s s' : MdServerMemory)
      → store_memory_md p u md s ≡ (ok tt, s')
      → (b : Bytes) × (key : MdBlockKey) × (p.codec.encode md ≡ ok b)
        × (get_md_key md.tlf_id md.branch_id (merged_status md) ≡ ok key)
        × (s'.md_db ≡ store key (add_block md b (find key s.md_db)) s.md_db)
  unfolding store_memory_md
  store_memory_md-ok u md s s' h = elim (Result-cases (p.codec.encode md)) [
    | inr (x, e) ↦ absurd (ground arith)
    | inl (b, e) ↦ elim (Result-cases (get_md_key md.tlf_id md.branch_id (merged_status md))) [
      | inr (x, k) ↦ absurd (ground arith)
      | inl (key, k) ↦ (b, key, e, k, ground arith)
    ]
  ]

  -- The head of a branch is the last block of its list.
  pub head_for_tlf-find :
      (tlf bid : ℕ) (status : MergeStatus) (key : MdBlockKey) (l : MdBlockMemList)
      (s : MdServerMemory) (b : Bytes) (md : RootMetadata)
      → get_md_key tlf bid status ≡ ok key
      → find key s.md_db ≡ some l
      → last_block l.blocks ≡ ok b
      → p.codec.decode b ≡ ok md
      → head_for_tlf p tlf bid status s ≡ ok (some md)
  unfolding head_for_tlf
  head_for_tlf-find tlf bid status key l s b md k f e d = ground (arith, k, f, e, d)

  add_block-last :
      (md : RootMetadata) (b : Bytes) (o : Option MdBlockMemList)
      → last_block (add_block md b o).blocks ≡ ok b
  add_block-last md b none = refl
  add_block-last md b (some l) = last_block-append l.blocks b

  -- The head after an update is stored
  store_memory_md-head :
      (u : MdSession) (md : RootMetadata) (s s' : MdServerMemory)
      → store_memory_md p u md s ≡ (ok tt, s')
      → head_for_tlf p md.tlf_id md.branch_id (merged_status md) s' ≡ ok (some md)
  store_memory_md-head u md s s' h =
      let (b, key, e, k, m) = store_memory_md-ok u md s s' h in
      let l = add_block md b (find key s.md_db) in
      let f : find key s'.md_db ≡ some l =
        ap (find key) m
        ∙ find-store key key l s.md_db
        ∙ ground (arith, (same_block_key_iff key key).1 refl) in
      head_for_tlf-find md.tlf_id md.branch_id (merged_status md) key l s' b md k f
        (add_block-last md b (find key s.md_db)) (p.codec.decode-encode md b e)

  -- An accepted `Put` has passed the checks and stored the update.
  pub memory_put-ok :
      (u : MdSession) (md : RootMetadata) (s s' : MdServerMemory)
      → memory_put p u md s ≡ (ok tt, s')
      → (is_new : Bool) × (s1 : MdServerMemory) × (check_memory_put p u md s ≡ ok is_new)
        × (s1.md_db ≡ s.md_db)
        × (store_memory_md p u md s1 ≡ (ok tt, s'))
  unfolding memory_put
  memory_put-ok u md s s' h = elim (Result-cases (check_memory_put p u md s)) [
    | inr (x, e) ↦ absurd (ground arith)
    | inl (true, e) ↦
        let (_, s1, r, st) =
          >>=-ok (record_branch u md) (λ _. store_memory_md p u md) s s' tt (ground arith) in
        (true, s1, e, sym (ap (λ x. x.1.md_db) r) ∙ record_branch-md_db u md s, st)
    | inl (false, e) ↦ (false, s, e, refl, ground arith)
  ]

  -- After a `Put` that succeeds, the update is the head of its branch.
  pub head_for_tlf-memory_put :
      (u : MdSession) (md : RootMetadata) (s s' : MdServerMemory)
      → memory_put p u md s ≡ (ok tt, s')
      → head_for_tlf p md.tlf_id md.branch_id (merged_status md) s' ≡ ok (some md)
  head_for_tlf-memory_put u md s s' h =
      let (is_new, s1, e, m, st) = memory_put-ok u md s s' h in store_memory_md-head u md s1 s' st

  check_memory_put-shutdown :
      (u : MdSession) (md : RootMetadata) (s : MdServerMemory)
      → merged_status md ≡ merged
      → check_memory_put p u md (shutdown_memory s) ≡ check_memory_put p u md s
  unfolding check_memory_put find_put_head head_for_tlf shutdown_memory
  check_memory_put-shutdown u md s m = ground (arith, m)

  -- A merged update never starts a branch.
  check_memory_put-merged :
      (u : MdSession) (md : RootMetadata) (is_new : Bool) (s : MdServerMemory)
      → merged_status md ≡ merged
      → check_memory_put p u md s ≡ ok is_new
      → is_new ≡ false
  unfolding check_memory_put find_put_head
  check_memory_put-merged u md is_new s m h = ground (arith, m)

  memory_put-shutdown_result :
      (u : MdSession) (md : RootMetadata) (s s' : MdServerMemory)
      → merged_status md ≡ merged
      → memory_put p u md s ≡ (ok tt, s')
      → (memory_put p u md (shutdown_memory s)).0 ≡ ok tt
  unfolding memory_put store_memory_md
  memory_put-shutdown_result u md s s' m h =
      let (is_new, s1, c, _, st) = memory_put-ok u md s s' h in
      let (b, key, e, k, _) = store_memory_md-ok u md s1 s' st in
      let old_branch = check_memory_put-merged u md is_new s m c in
      let same = check_memory_put-shutdown u md s m in ground (arith, c, old_branch, same, e, k)

  -- An update of a main branch that `Put` accepts is accepted after `Shutdown` too, and is then the head.
  pub memory_put-shutdown_memory :
      (u : MdSession) (md : RootMetadata) (s s' : MdServerMemory)
      → merged_status md ≡ merged
      → memory_put p u md s ≡ (ok tt, s')
      → (s2 : MdServerMemory) × (memory_put p u md (shutdown_memory s) ≡ (ok tt, s2))
        × (head_for_tlf p md.tlf_id md.branch_id (merged_status md) s2 ≡ ok (some md))
  memory_put-shutdown_memory u md s s' m h =
      let r = memory_put-shutdown_result u md s s' m h in
      let s2 = (memory_put p u md (shutdown_memory s)).1 in
      let e : memory_put p u md (shutdown_memory s) ≡ (ok tt, s2) = ap (λ x. (x, s2)) r in
      (s2, e, head_for_tlf-memory_put u md (shutdown_memory s) s2 e)
