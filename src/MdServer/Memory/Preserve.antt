-- ===== src/MdServer/Memory/Preserve.antt =====
-- What `Put` of an `MDServerMemory` keeps: lists with one metadata for each revision.
use kbfs.Prelude.{
  ℕ, ◌≡◌, ◌≢◌, refl, sym, ◌∙◌, subst, Bool, true, false, some, List, [], ◌∷◌, ◌++◌, Result, ok, err,
  Error, arith, Option-cases, inl, inr,
}
use kbfs.Prelude.Chain.{Result-cases}
use kbfs.Prelude.Dict.{find}
use kbfs.FileStore.{Bytes}
use kbfs.Revision.{next_revision}
use kbfs.RootMetadata.{
  RootMetadata, MergeStatus, merged_status, check_valid_successor, check_valid_successor_for_server,
}
use kbfs.MdServer.TlfStorage.{MdParams}
use kbfs.MdServer.TlfStorage.Successor.{check_valid_successor-ok}
use kbfs.MdServer.Memory.Keys.{MdBlockKey, block_key}
use kbfs.MdServer.Memory.{MdServerMemory, MdSession, get_md_key, head_for_tlf}
use kbfs.MdServer.Memory.Put.{
  add_block, find_put_head, check_memory_put, record_branch, store_memory_md, memory_put,
}
use kbfs.MdServer.Memory.Revisions.{
  AllValid, IsValidList, HasRevisions-append, last_block-HasRevisions, find-AllValid,
  store-AllValid,
}
use kbfs.MdServer.Memory.Heads.{
  record_branch-md_db, store_memory_md-ok, head_for_tlf-find, memory_put-ok,
}

append-≢ : (bs : List Bytes) (b : Bytes) → (bs ++ b ∷ []) ≢ []
append-≢ [] b e = absurd (ground arith)
append-≢ (x ∷ bs) b e = absurd (ground arith)

module _ (p : MdParams) where
  -- What the checks of an accepted `Put` tell of the list that it extends
  check_memory_put-ok :
      (u : MdSession) (md head : RootMetadata) (is_new : Bool) (s : MdServerMemory)
      → check_memory_put p u md s ≡ ok is_new
      → head_for_tlf p md.tlf_id md.branch_id (merged_status md) s ≡ ok (some head)
      → md.revision ≡ next_revision head.revision
  unfolding check_memory_put find_put_head check_valid_successor_for_server
  check_memory_put-ok u md head is_new s h g =
      elim (Result-cases (check_valid_successor p.make_md_id head md)) [
        | inl (_, good) ↦ (check_valid_successor-ok p head md good).2
        | inr (x, bad) ↦ absurd (ground arith)
      ]

  add_block-IsValidList :
      (md : RootMetadata) (b : Bytes) (key : MdBlockKey) (s : MdServerMemory)
      → AllValid p s.md_db
      → p.codec.decode b ≡ ok md
      → get_md_key md.tlf_id md.branch_id (merged_status md) ≡ ok key
      → ((head : RootMetadata)
          → head_for_tlf p md.tlf_id md.branch_id (merged_status md) s ≡ ok (some head)
          → md.revision ≡ next_revision head.revision)
      → IsValidList p (add_block md b (find key s.md_db))
  add_block-IsValidList md b key s v d k fits = elim (Option-cases (find key s.md_db)) [
    | inl missing ↦
        subst (λ o. IsValidList p (add_block md b o)) (sym missing)
          (((md, d, refl), tt), λ e. absurd (ground arith))
    | inr (l, there) ↦
        let (h, n) = find-AllValid p key l s.md_db v there in
        let (c, head, lc, dc) = last_block-HasRevisions p l.initial_revision l.blocks h n in
        let e = fits head (
          head_for_tlf-find p md.tlf_id md.branch_id (merged_status md) key l s c head k there lc
            dc) in
        subst (λ o. IsValidList p (add_block md b o)) (sym there)
          (
            HasRevisions-append p l.initial_revision l.blocks b c head md h lc dc d e,
            append-≢ l.blocks b,
          )
  ]

  -- A stored update that fits its list keeps the lists valid.
  store_memory_md-AllValid :
      (u : MdSession) (md : RootMetadata) (s s' : MdServerMemory)
      → store_memory_md p u md s ≡ (ok tt, s')
      → ((head : RootMetadata)
          → head_for_tlf p md.tlf_id md.branch_id (merged_status md) s ≡ ok (some head)
          → md.revision ≡ next_revision head.revision)
      → AllValid p s.md_db
      → AllValid p s'.md_db
  store_memory_md-AllValid u md s s' h fits v =
      let (b, key, e, k, m) = store_memory_md-ok p u md s s' h in
      subst (AllValid p) (sym m) (
        store-AllValid p key (add_block md b (find key s.md_db)) s.md_db v
          (add_block-IsValidList md b key s v (p.codec.decode-encode md b e) k fits))

  -- The heads only depend on the lists.
  head_for_tlf-md_db :
      (tlf bid : ℕ) (status : MergeStatus) (s s1 : MdServerMemory)
      → s1.md_db ≡ s.md_db
      → head_for_tlf p tlf bid status s1 ≡ head_for_tlf p tlf bid status s
  unfolding head_for_tlf
  head_for_tlf-md_db tlf bid status s s1 m = ground (arith, m)

  store_memory_md-failed :
      (u : MdSession) (md : RootMetadata) (e : Error) (s s' : MdServerMemory)
      → store_memory_md p u md s ≡ (err e, s')
      → s'.md_db ≡ s.md_db
  unfolding store_memory_md
  store_memory_md-failed u md e s s' h = ground arith

  -- A `Put` that fails stores no metadata.
  memory_put-failed :
      (u : MdSession) (md : RootMetadata) (e : Error) (s s' : MdServerMemory)
      → memory_put p u md s ≡ (err e, s')
      → s'.md_db ≡ s.md_db
  unfolding memory_put
  memory_put-failed u md e s s' h = elim (Result-cases (check_memory_put p u md s)) [
    | inr (x, c) ↦ ground (arith, h, c)
    | inl (false, c) ↦ store_memory_md-failed u md e s s' (ground (arith, h, c))
    | inl (true, c) ↦ elim (Result-cases (record_branch u md s).0) [
      | inr (x, r) ↦ let kept = record_branch-md_db p u md s in ground (arith, h, c, r, kept)
      | inl (_, r) ↦
          store_memory_md-failed u md e (record_branch u md s).1 s' (ground (arith, h, c, r))
          ∙ record_branch-md_db p u md s
    ]
  ]

  -- Whatever `Put` returns, the lists stay valid.
  pub memory_put-AllValid :
      (u : MdSession) (md : RootMetadata) (s : MdServerMemory)
      → AllValid p s.md_db
      → AllValid p (memory_put p u md s).1.md_db
  memory_put-AllValid u md s v = go (memory_put p u md s) refl
    where
      go : (r : Result (Unit {0}) × MdServerMemory) → memory_put p u md s ≡ r → AllValid p r.1.md_db
      go (err e, s') h = subst (AllValid p) (sym (memory_put-failed u md e s s' h)) v
      go (ok tt, s') h =
          let (is_new, s1, c, m, st) = memory_put-ok p u md s s' h in
          store_memory_md-AllValid u md s1 s' st
            (λ head g.
              check_memory_put-ok u md head is_new s c
                (sym (head_for_tlf-md_db md.tlf_id md.branch_id (merged_status md) s s1 m) ∙ g))
            (subst (AllValid p) (sym m) v)
