-- ===== src/MdServer/TlfStorage/Head.antt =====
-- What `put` stores becomes the head of its branch.
use kbfs.Prelude.{
  ℕ, sym, subst, not, md_id_mismatch, ◌<◌, ◌≡◌, ◌==◌, ◌∙◌, refl, false, Bool, some, Result, ok, err,
  arith, Option-cases, Bool-cases, inl, inr, ap,
}
use kbfs.Prelude.Chain.{Result-cases, ◌>>=◌ as bind, ◌>>◌ as seq, fail_if}
use kbfs.Prelude.Action.{Action, >>=-ok, ◌>>◌, ◌>>=◌, reads}
use kbfs.Prelude.Int.{pos}
use kbfs.FileStore.{Bytes, IsHealthy, read_file}
use kbfs.Revision.{two63}
use kbfs.DiskJournal.{Journal}
use kbfs.BranchJournal.{append, get_head}
use kbfs.BranchJournal.Head.{get_head-append}
use kbfs.RootMetadata.{RootMetadata}
use kbfs.MdServer.TlfStorage.{
  MdServerTlfStorage, MdParams, md_file_eq, get_md, put_md, get_head_for_tlf, branch_journal, wrap,
  on_branch, get_or_create_branch_journal, contains, md_file,
}
use kbfs.MdServer.TlfStorage.Put.{put, check_put, store_md, wrapped}
use kbfs.MdServer.TlfStorage.Writes.{IsOnlyPreimage, put_md-get_md, get_or_create_branch_journal-ok}

module _ (p : MdParams) where
  wrapped-ok :
      {A : Type 0} (m : Action MdServerTlfStorage A) (s s' : MdServerTlfStorage) (a : A)
      → wrapped p m s ≡ (ok a, s')
      → m s ≡ (ok a, s')
  wrapped-ok {A = A} m s s' a h = split (m s) refl
    where
      split : (r : Result A × MdServerTlfStorage) → m s ≡ r → m s ≡ (ok a, s')
      split (ok b, t) e = ground arith
      split (err x, t) e = absurd (ground arith)

  -- The writes of `put`, one after the other
  store_md-ok :
      (md : RootMetadata) (id : ℕ) (s s' : MdServerTlfStorage)
      → p.make_md_id md ≡ ok id
      → store_md p md s ≡ (ok tt, s')
      → (s1 : MdServerTlfStorage) × (s2 : MdServerTlfStorage) × (put_md p md s ≡ (ok tt, s1))
        × (get_or_create_branch_journal md.branch_id s1 ≡ (ok tt, s2))
        × (on_branch md.branch_id (append p.id_codec md.revision id) s2 ≡ (ok tt, s'))
  unfolding store_md
  store_md-ok md id s s' m h =
      let adds : ℕ → Action MdServerTlfStorage (Unit {0}) =
        λ i. wrapped p (on_branch md.branch_id (append p.id_codec md.revision i)) in
      let (_, s1, e1, rest1) =
        >>=-ok (wrapped p (put_md p md))
          (λ _.
            reads (λ _. wrap (p.make_md_id md))
            >>= (λ i. get_or_create_branch_journal md.branch_id >> adds i))
          s s' tt h in
      let rest2 : (get_or_create_branch_journal md.branch_id >> adds id) s1 ≡ (ok tt, s') =
        ground (arith, rest1) in
      let (_, s2, e2, e3) =
        >>=-ok (get_or_create_branch_journal md.branch_id) (λ _. adds id) s1 s' tt rest2 in
      (
        s1,
        s2,
        wrapped-ok (put_md p md) s s1 tt e1,
        e2,
        wrapped-ok (on_branch md.branch_id (append p.id_codec md.revision id)) s2 s' tt e3,
      )

  on_branch-ok :
      (bid : ℕ) (m : Action Journal (Unit {0})) (s s' : MdServerTlfStorage)
      → branch_journal bid s ≡ some (s.branch_dirs bid)
      → on_branch bid m s ≡ (ok tt, s')
      → (m (s.branch_dirs bid) ≡ (ok tt, s'.branch_dirs bid))
        × (branch_journal bid s' ≡ some (s'.branch_dirs bid))
        × (s'.mds ≡ s.mds)
  unfolding branch_journal
  on_branch-ok bid m s s' o h = split (m (s.branch_dirs bid)) refl
    where
      split :
          (r : Result (Unit {0}) × Journal)
          → m (s.branch_dirs bid) ≡ r
          → (m (s.branch_dirs bid) ≡ (ok tt, s'.branch_dirs bid))
            × (branch_journal bid s' ≡ some (s'.branch_dirs bid))
            × (s'.mds ≡ s.mds)
      split (err x, j) e = absurd (ground arith)
      split (ok _, j) e = elim (Option-cases s.branch_journals) [
        | inl closed ↦ absurd (ground arith)
        | inr (bs, l) ↦ elim (Bool-cases (contains bid bs)) [
          | inl there ↦ (ground arith, ground arith, ground arith)
          | inr missing ↦ absurd (ground arith)
        ]
      ]

  get_md-mds : (id : ℕ) (s t : MdServerTlfStorage) → s.mds ≡ t.mds → get_md p id s ≡ get_md p id t
  unfolding get_md
  get_md-mds id s t e =
      ap
        (λ m. bind (read_file (md_file id) m) λ data_. bind (p.codec.decode data_) λ md.
          bind (p.make_md_id md) λ md_id. seq (fail_if (not (id == md_id)) md_id_mismatch) (ok md))
        e

  get_head_for_tlf-of :
      (bid id : ℕ) (md : RootMetadata) (s : MdServerTlfStorage)
      → branch_journal bid s ≡ some (s.branch_dirs bid)
      → get_head p.id_codec (s.branch_dirs bid) ≡ ok id
      → (id == 0) ≡ false
      → get_md p id s ≡ ok md
      → get_head_for_tlf p bid s ≡ ok (some md)
  unfolding get_head_for_tlf
  get_head_for_tlf-of bid id md s o h z g = ground arith

  put-store_md :
      (uid : ℕ) (md : RootMetadata) (is_new : Bool) (s s' : MdServerTlfStorage)
      → put p uid md s ≡ (ok is_new, s')
      → store_md p md s ≡ (ok tt, s')
  unfolding put
  put-store_md uid md is_new s s' h = elim (Result-cases (check_put p uid md s)) [
    | inr (x, e) ↦ absurd (ground arith)
    | inl (fresh, e) ↦ split (store_md p md s) refl fresh e
  ]
    where
      split :
          (r : Result (Unit {0}) × MdServerTlfStorage)
          → store_md p md s ≡ r
          → (fresh : Bool) → check_put p uid md s ≡ ok fresh
          → store_md p md s ≡ (ok tt, s')
      split (ok _, t) e fresh c = ground arith
      split (err x, t) e fresh c = absurd (ground arith)

  -- On file systems that refuse nothing, and with a hash that gives the metadata an ID of its own that is
  -- not the zero ID: after a `put` that succeeds the metadata is the head of its branch.
  pub get_head_for_tlf-put :
      (uid n id : ℕ) (md : RootMetadata) (b : Bytes) (is_new : Bool) (s s' : MdServerTlfStorage)
      → IsHealthy s.mds
      → IsHealthy (s.branch_dirs md.branch_id)
      → md.revision ≡ pos n
      → n < two63
      → p.make_md_id md ≡ ok id
      → (id == 0) ≡ false
      → IsOnlyPreimage p md id
      → p.id_codec.encode id ≡ ok b
      → put p uid md s ≡ (ok is_new, s')
      → get_head_for_tlf p md.branch_id s' ≡ ok (some md)
  get_head_for_tlf-put uid n id md b is_new s s' hm hb r m i z u c h =
      let bid = md.branch_id in
      let (s1, s2, e1, e2, e3) = store_md-ok md id s s' i (put-store_md uid md is_new s s' h) in
      let (g, d, o) = put_md-get_md p id md s s1 hm i u e1 in
      let (o2, mds2, d2) = get_or_create_branch_journal-ok p bid s1 s2 e2 in
      let (a, o3, mds3) = on_branch-ok bid (append p.id_codec md.revision id) s2 s' o2 e3 in
      let hb2 : IsHealthy (s2.branch_dirs bid) =
        subst (λ j. IsHealthy j) (ap (λ f. f bid) (sym d) ∙ sym d2) hb in
      get_head_for_tlf-of bid id md s' o3
        (get_head-append p.id_codec (s2.branch_dirs bid) (s'.branch_dirs bid) n id b hb2 c m (
          subst (λ v. append p.id_codec v id (s2.branch_dirs bid) ≡ (ok tt, s'.branch_dirs bid)) r
            a))
        z (get_md-mds id s' s1 (mds3 ∙ mds2) ∙ g)
