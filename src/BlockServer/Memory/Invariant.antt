-- ===== src/BlockServer/Memory/Invariant.antt =====
-- The invariant of the in-memory block server, kept by every call, also by one that fails.
use kbfs.Prelude.{
  ℕ, ◌≡◌, ◌≢◌, refl, false, ◌==◌, some, [], Result, ok, err, arith, Option-cases, Bool-cases, inl,
  inr, ◌⊎◌, ◌&&◌,
}
use mathlib.Core.Path.{subst, subst₂}
use kbfs.Prelude.Chain.{Result-cases}
use kbfs.Prelude.Maps.{Map, lookup, lookup-insert, lookup-erase}
use kbfs.FileStore.{Bytes}
use kbfs.BlockServer.Refs.{
  BlockContext, BlockRefMap, RefStatus, live_block_ref, archived_block_ref, put_ref, check_exists,
  has_non_archived_ref,
}
use kbfs.BlockServer.Refs.Laws.{IsKeyed, put_ref-lookup, put_ref-IsKeyed}
use kbfs.BlockServer.Memory.{
  BlockMemEntry, BlockServerMemory, set_entry, delete_entry, put, find_or_add, put_entry_ref,
  validate_block_server_put, add_block_reference, archive_block_reference,
}
use kbfs.BlockServer.Memory.Calls.{put_entry_ref-ok, put-ok, put_error}

module _ (hash : Bytes → Result ℕ) where
  -- A stored block has the ID that its data hashes to, and at least one reference, each under its nonce.
  pub record IsEntry (id : ℕ) (entry : BlockMemEntry) : Type 0 where
    pub hashed : hash entry.block_data ≡ ok id
    pub keyed : IsKeyed entry.refs
    pub referenced : entry.refs ≢ []

  pub record IsValid (s : BlockServerMemory) : Type 0 where
    pub each :
        (m : Map BlockMemEntry) (id : ℕ) (entry : BlockMemEntry)
        → s.m ≡ some m
        → lookup id m ≡ some entry
        → IsEntry id entry

  -- The same of all blocks but one.
  pub record IsValidBut (id : ℕ) (s : BlockServerMemory) : Type 0 where
    pub each :
        (m : Map BlockMemEntry) (j : ℕ) (entry : BlockMemEntry)
        → s.m ≡ some m
        → (id == j) ≡ false
        → lookup j m ≡ some entry
        → IsEntry j entry

  pub IsValid-but : (id : ℕ) (s : BlockServerMemory) → IsValid s → IsValidBut id s
  IsValid-but id s v = record { each = λ m j e o ne l. v.each m j e o l }

  pub set_entry-IsValid :
      (id : ℕ) (entry : BlockMemEntry) (s : BlockServerMemory)
      → IsValidBut id s
      → IsEntry id entry
      → IsValid (set_entry id entry s)
  set_entry-IsValid id entry s v w = record {
    each = λ m' j e o l. elim (Option-cases s.m) [
      | inl closed ↦ absurd (ground arith)
      | inr (m, open_) ↦ elim (Bool-cases (id == j)) [
        | inl same ↦
            subst₂ IsEntry {x = id} {y = j} (ground arith)
              (ground (arith, lookup-insert id j entry m)) w
        | inr other ↦ v.each m j e open_ other (ground (arith, lookup-insert id j entry m))
      ]
    ];
  }

  pub delete_entry-IsValid :
      (id : ℕ) (s : BlockServerMemory) → IsValid s → IsValid (delete_entry id s)
  delete_entry-IsValid id s v = record {
    each = λ m' j e o l. elim (Option-cases s.m) [
      | inl closed ↦ absurd (ground arith)
      | inr (m, open_) ↦ v.each m j e open_ (ground (arith, lookup-erase id j m))
    ];
  }

  put_ref-ne-nil :
      (refs refs' : BlockRefMap) (c : BlockContext) (st : RefStatus)
      → put_ref refs c st ≡ ok refs'
      → refs' ≢ []
  put_ref-ne-nil refs refs' c st h n = ground (arith, put_ref-lookup refs refs' c st c.ref_nonce h)

  -- An entry that gets one more reference is still as it should be; it need not have had one before.
  put_ref-IsEntry :
      (id : ℕ) (entry : BlockMemEntry) (refs' : BlockRefMap) (c : BlockContext) (st : RefStatus)
      → hash entry.block_data ≡ ok id
      → IsKeyed entry.refs
      → put_ref entry.refs c st ≡ ok refs'
      → IsEntry id (record entry { refs = refs' })
  put_ref-IsEntry id entry refs' c st h k p = record {
    hashed = h;
    keyed = put_ref-IsKeyed entry.refs refs' c st k p;
    referenced = put_ref-ne-nil entry.refs refs' c st p;
  }

  put_entry_ref-IsValid :
      (id : ℕ) (entry : BlockMemEntry) (c : BlockContext) (st : RefStatus) (s : BlockServerMemory)
      → IsValid s
      → hash entry.block_data ≡ ok id
      → IsKeyed entry.refs
      → IsValid (put_entry_ref id entry c st s).1
  unfolding put_entry_ref
  put_entry_ref-IsValid id entry c st s v h k = elim (Result-cases (put_ref entry.refs c st)) [
    | inl (refs', e) ↦
        subst IsValid {x = set_entry id (record entry { refs = refs' }) s} (ground arith) (
          set_entry-IsValid id (record entry { refs = refs' }) s (IsValid-but id s v)
            (put_ref-IsEntry id entry refs' c st h k e))
    | inr (x, e) ↦ subst IsValid {x = s} (ground arith) v
  ]

  -- A call that is refused, or that only puts a reference into a stored entry.
  Touches : ℕ → BlockServerMemory → BlockServerMemory → Type 0
  Touches id s s' =
      (s' ≡ s)
      ⊎ ((m : Map BlockMemEntry) × (entry : BlockMemEntry) × (c : BlockContext) × (st : RefStatus)
          × (s.m ≡ some m)
          × (lookup id m ≡ some entry)
          × (s' ≡ (put_entry_ref id entry c st s).1))

  Touches-IsValid : (id : ℕ) (s s' : BlockServerMemory) → IsValid s → Touches id s s' → IsValid s'
  unfolding Touches
  Touches-IsValid id s s' v (inl same) = rw same v
  Touches-IsValid id s s' v (inr (m, entry, c, st, o, l, e)) =
      let w = v.each m id entry o l in
      rw e (put_entry_ref-IsValid id entry c st s v w.hashed w.keyed)

  add-Touches :
      (id tlf : ℕ) (c : BlockContext) (s : BlockServerMemory)
      → Touches id s (add_block_reference id tlf c s).1
  unfolding add_block_reference Touches
  add-Touches id tlf c s = elim (Option-cases s.m) [
    | inl closed ↦ inl (ground arith)
    | inr (m, o) ↦ elim (Option-cases (lookup id m)) [
      | inl missing ↦ inl (ground arith)
      | inr (entry, l) ↦
          elim (Bool-cases (entry.tlf_id == tlf && has_non_archived_ref entry.refs)) [
            | inl fits ↦ inr (m, entry, c, live_block_ref, o, l, ground arith)
            | inr refused ↦ inl (ground arith)
          ]
    ]
  ]

  archive-Touches :
      (id tlf : ℕ) (c : BlockContext) (s : BlockServerMemory)
      → Touches id s (archive_block_reference id tlf c s).1
  unfolding archive_block_reference Touches
  archive-Touches id tlf c s = elim (Option-cases s.m) [
    | inl closed ↦ inl (ground arith)
    | inr (m, o) ↦ elim (Option-cases (lookup id m)) [
      | inl missing ↦ inl (ground arith)
      | inr (entry, l) ↦ elim (Result-cases (check_exists entry.refs c)) [
        | inl (_, fits) ↦ elim (Bool-cases (entry.tlf_id == tlf)) [
          | inl same ↦ inr (m, entry, c, archived_block_ref, o, l, ground arith)
          | inr refused ↦ inl (ground arith)
        ]
        | inr (x, refused) ↦ inl (ground arith)
      ]
    ]
  ]

  pub valid_hash :
      (id : ℕ) (c : BlockContext) (buf : Bytes)
      → validate_block_server_put hash id c buf ≡ ok tt
      → hash buf ≡ ok id
  unfolding validate_block_server_put
  valid_hash id c buf h = elim (Result-cases (hash buf)) [
    | inl (n, e) ↦ ground arith
    | inr (x, e) ↦ absurd (ground arith)
  ]

  find_or_add-entry :
      (id tlf : ℕ) (buf : Bytes) (half : ℕ) (s s1 : BlockServerMemory) (entry : BlockMemEntry)
      → IsValid s
      → hash buf ≡ ok id
      → find_or_add hash id tlf buf half s ≡ (ok entry, s1)
      → (hash entry.block_data ≡ ok id) × IsKeyed entry.refs × IsValidBut id s1
  unfolding find_or_add
  find_or_add-entry id tlf buf half s s1 entry v h f = elim (Option-cases s.m) [
    | inl closed ↦ absurd (ground arith)
    | inr (m, o) ↦ elim (Option-cases (lookup id m)) [
      | inl missing ↦ (
        ground arith,
        λ nonce e l. absurd (ground arith),
        record {
          each = λ m' j e o' ne l. v.each m j e o (ground (arith, lookup-insert id j entry m));
        },
      )
      | inr (old, l) ↦
          let same : entry ≡ old = ground arith in
          let w = v.each m id old o l in
          (
            rw same w.hashed,
            rw same w.keyed,
            record { each = λ m' j e o' ne l'. v.each m' j e (ground arith) l' },
          )
    ]
  ]

  -- `Put` keeps the invariant.
  pub put-IsValid :
      (id tlf : ℕ) (c : BlockContext) (buf : Bytes) (half : ℕ) (s : BlockServerMemory)
      → IsValid s
      → IsValid (put hash id tlf c buf half s).1
  put-IsValid id tlf c buf half s v = split (put hash id tlf c buf half s) refl
    where
      split :
          (r : Result (Unit {0}) × BlockServerMemory)
          → put hash id tlf c buf half s ≡ r
          → IsValid r.1
      split (err e, s') h = rw (put_error hash id tlf c buf half s s' e h) v
      split (ok tt, s') h =
          let (valid, entry, s1, found, wrote) = put-ok hash id tlf c buf half s s' h in
          let (hashed, keyed, but) =
            find_or_add-entry id tlf buf half s s1 entry v (valid_hash id c buf valid) found in
          let (refs', p, e) = put_entry_ref-ok id entry c live_block_ref s1 s' wrote in
          rw e (
            set_entry-IsValid id (record entry { refs = refs' }) s1 but
              (put_ref-IsEntry id entry refs' c live_block_ref hashed keyed p))

  -- `AddBlockReference` and `archiveBlockReference` keep the invariant.
  pub reference-IsValid :
      (id tlf : ℕ) (c : BlockContext) (s : BlockServerMemory)
      → IsValid s
      → IsValid (add_block_reference id tlf c s).1 × IsValid (archive_block_reference id tlf c s).1
  reference-IsValid id tlf c s v = (
    Touches-IsValid id s _ v (add-Touches id tlf c s),
    Touches-IsValid id s _ v (archive-Touches id tlf c s),
  )
