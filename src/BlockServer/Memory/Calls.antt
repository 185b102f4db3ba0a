-- ===== src/BlockServer/Memory/Calls.antt =====
-- What a single call of the in-memory block server does.
use kbfs.Prelude.{
  ℕ, ◌≡◌, ◌≢◌, true, false, ◌==◌, if◌then◌else◌, none, some, Result, ok, err, arith, Error,
  block_archived, Option-cases, inl, inr, ◌∙◌, ◌⊎◌, ap,
}
use kbfs.Prelude.Chain.{Result-cases}
use kbfs.Prelude.Action.{>>=-ok, reads, ◌>>=◌}
use kbfs.Prelude.Maps.{Map, lookup, insert, lookup-insert}
use kbfs.FileStore.{Bytes}
use kbfs.BlockServer.Refs.{
  BlockContext, BlockRefMap, RefStatus, live_block_ref, archived_block_ref, put_ref, check_exists,
  has_non_archived_ref,
}
use kbfs.BlockServer.Refs.Laws.{put_ref-lookup, same_context_refl}
use kbfs.BlockServer.Memory.{
  BlockMemEntry, BlockServerMemory, set_entry, get, put, find_or_add, put_entry_ref,
  validate_block_server_put, add_block_reference, archive_block_reference,
}

-- The data that the server holds for a block after a `Put` of `buf`: a block that was there keeps its own.
abbrev pub stored_data : ℕ → Bytes → BlockServerMemory → Bytes
stored_data id buf s = elim s.m [
  | none ↦ buf
  | some m ↦ elim (lookup id m) [ none ↦ buf | some entry ↦ entry.block_data ]
]

check_exists-put_ref :
    (refs refs' : BlockRefMap) (c : BlockContext) (st : RefStatus)
    → put_ref refs c st ≡ ok refs'
    → check_exists refs' c ≡ ok tt
unfolding check_exists
check_exists-put_ref refs refs' c st h =
    ground (arith, put_ref-lookup refs refs' c st c.ref_nonce h, same_context_refl c)

-- A reference is put into a stored entry: the new references, and the server with them.
pub put_entry_ref-ok :
    (id : ℕ) (entry : BlockMemEntry) (c : BlockContext) (st : RefStatus) (s s' : BlockServerMemory)
    → put_entry_ref id entry c st s ≡ (ok tt, s')
    → (refs' : BlockRefMap) × (put_ref entry.refs c st ≡ ok refs')
      × (s' ≡ set_entry id (record entry { refs = refs' }) s)
unfolding put_entry_ref
put_entry_ref-ok id entry c st s s' h = elim (Result-cases (put_ref entry.refs c st)) [
  | inl (refs', e) ↦ (refs', e, ground arith)
  | inr (e, f) ↦ absurd (ground arith)
]

get_of_lookup :
    (id tlf : ℕ) (c : BlockContext) (s : BlockServerMemory) (m : Map BlockMemEntry)
    (entry : BlockMemEntry)
    → s.m ≡ some m
    → lookup id m ≡ some entry
    → entry.tlf_id ≡ tlf
    → check_exists entry.refs c ≡ ok tt
    → get id tlf c s ≡ ok (entry.block_data, entry.key_server_half)
unfolding get
get_of_lookup id tlf c s m entry o l t x = ground arith

get-set_entry_ne :
    (id : ℕ) (entry : BlockMemEntry) (s : BlockServerMemory) (other tlf : ℕ) (c : BlockContext)
    → id ≢ other
    → get other tlf c (set_entry id entry s) ≡ get other tlf c s
unfolding get
get-set_entry_ne id entry s other tlf c ne = elim (Option-cases s.m) [
  | inl closed ↦ ground arith
  | inr (m, o) ↦ ground (arith, lookup-insert id other entry m)
]

module _ (hash : Bytes → Result ℕ) where
  -- What a successful `find_or_add` gives: the server is open, and it now holds the entry.
  pub find_or_add-ok :
      (id tlf : ℕ) (buf : Bytes) (half : ℕ) (s s1 : BlockServerMemory) (entry : BlockMemEntry)
      → find_or_add hash id tlf buf half s ≡ (ok entry, s1)
      → (m : Map BlockMemEntry) × (s1.m ≡ some m)
        × (lookup id m ≡ some entry)
        × (entry.tlf_id ≡ tlf)
        × (entry.key_server_half ≡ half)
        × (entry.block_data ≡ stored_data id buf s)
  unfolding find_or_add
  find_or_add-ok id tlf buf half s s1 entry h = elim (Option-cases s.m) [
    | inl closed ↦ absurd (ground arith)
    | inr (m, open_) ↦ elim (Option-cases (lookup id m)) [
      | inl new ↦ (
        insert id entry m,
        ground arith,
        ground (arith, lookup-insert id id entry m),
        ground arith,
        ground arith,
        ground arith,
      )
      | inr (old, found) ↦ (m, ground arith, ground arith, ground arith, ground arith, ground arith)
    ]
  ]

  pub put-ok :
      (id tlf : ℕ) (c : BlockContext) (buf : Bytes) (half : ℕ) (s s' : BlockServerMemory)
      → put hash id tlf c buf half s ≡ (ok tt, s')
      → (validate_block_server_put hash id c buf ≡ ok tt)
        × (entry : BlockMemEntry) × (s1 : BlockServerMemory) × (find_or_add hash id tlf buf half s
            ≡ (ok entry, s1))
        × (put_entry_ref id entry c live_block_ref s1 ≡ (ok tt, s'))
  unfolding put
  put-ok id tlf c buf half s s' h =
      let (_, s0, valid, rest) =
        >>=-ok (reads (λ _. validate_block_server_put hash id c buf))
          (λ _.
            find_or_add hash id tlf buf half >>= λ entry. put_entry_ref id entry c live_block_ref)
          s s' tt h in
      let (entry, s1, found, wrote) =
        >>=-ok (find_or_add hash id tlf buf half) (λ entry. put_entry_ref id entry c live_block_ref)
          s0 s' tt rest in
      (ground arith, entry, s1, ground arith, wrote)

  get-find_or_add_ne :
      (id tlf : ℕ) (buf : Bytes) (half : ℕ) (s s1 : BlockServerMemory) (entry : BlockMemEntry)
      (other tlf' : ℕ) (c : BlockContext)
      → id ≢ other
      → find_or_add hash id tlf buf half s ≡ (ok entry, s1)
      → get other tlf' c s1 ≡ get other tlf' c s
  unfolding find_or_add get
  get-find_or_add_ne id tlf buf half s s1 entry other tlf' c ne h = elim (Option-cases s.m) [
    | inl closed ↦ absurd (ground arith)
    | inr (m, o) ↦ ground (arith, lookup-insert id other entry m)
  ]

  -- After a `Put` that succeeds, a `Get` with the same arguments returns the block's data and the key
  -- server half of the `Put`; the data is the `Put`'s, or what the server held already.
  pub get-put :
      (id tlf : ℕ) (c : BlockContext) (buf : Bytes) (half : ℕ) (s s' : BlockServerMemory)
      → put hash id tlf c buf half s ≡ (ok tt, s')
      → get id tlf c s' ≡ ok (stored_data id buf s, half)
  unfolding put get
  get-put id tlf c buf half s s' h =
      let (_, entry, s1, found, wrote) = put-ok id tlf c buf half s s' h in
      let (m, open_, at, folder, key, content) = find_or_add-ok id tlf buf half s s1 entry found in
      let (refs', put_, end) = put_entry_ref-ok id entry c live_block_ref s1 s' wrote in
      let entry' : BlockMemEntry = record entry { refs = refs' } in
      get_of_lookup id tlf c s' (insert id entry' m) entry' (ground arith)
        (ground (arith, lookup-insert id id entry' m)) folder
        (check_exists-put_ref entry.refs refs' c live_block_ref put_)
      ∙ ground arith

  -- A `Put` that fails changes nothing.
  pub put_error :
      (id tlf : ℕ) (c : BlockContext) (buf : Bytes) (half : ℕ) (s s' : BlockServerMemory)
      (e : Error)
      → put hash id tlf c buf half s ≡ (err e, s')
      → s' ≡ s
  unfolding put put_ref
  put_error id tlf c buf half s s' e h = ground arith

  -- A `Put` that succeeds changes what can be read of no other block.
  pub get-put_ne :
      (id tlf : ℕ) (c : BlockContext) (buf : Bytes) (half : ℕ) (s s' : BlockServerMemory)
      (other tlf' : ℕ) (c' : BlockContext)
      → id ≢ other
      → put hash id tlf c buf half s ≡ (ok tt, s')
      → get other tlf' c' s' ≡ get other tlf' c' s
  get-put_ne id tlf c buf half s s' other tlf' c' ne h =
      let (_, entry, s1, found, wrote) = put-ok id tlf c buf half s s' h in
      let (refs', put_, end) = put_entry_ref-ok id entry c live_block_ref s1 s' wrote in
      ap (get other tlf' c') end
      ∙ get-set_entry_ne id (record entry { refs = refs' }) s1 other tlf' c' ne
      ∙ get-find_or_add_ne id tlf buf half s s1 entry other tlf' c' ne found

-- What `AddBlockReference` on a stored block needs and does
add_block_reference-found :
    (id tlf : ℕ) (c : BlockContext) (s s' : BlockServerMemory) (m : Map BlockMemEntry)
    (entry : BlockMemEntry)
    → s.m ≡ some m
    → lookup id m ≡ some entry
    → add_block_reference id tlf c s ≡ (ok tt, s')
    → (has_non_archived_ref entry.refs ≡ true)
      × (get id tlf c s' ≡ ok (entry.block_data, entry.key_server_half))
unfolding add_block_reference get
add_block_reference-found id tlf c s s' m entry o l h =
    elim (Result-cases (put_ref entry.refs c live_block_ref)) [
      | inl (refs', e) ↦ (
        ground arith,
        get_of_lookup id tlf c s' (insert id (record entry { refs = refs' }) m)
            (record entry { refs = refs' }) (ground arith)
            (ground (arith, lookup-insert id id (record entry { refs = refs' }) m)) (ground arith)
            (check_exists-put_ref entry.refs refs' c live_block_ref e),
      )
      | inr (e, f) ↦ absurd (ground arith)
    ]

-- `AddBlockReference` succeeds only on an open server that has the block in this folder, with a live
-- reference to it; then a `Get` with the new reference returns the block.
pub add_block_reference-ok :
    (id tlf : ℕ) (c : BlockContext) (s s' : BlockServerMemory)
    → add_block_reference id tlf c s ≡ (ok tt, s')
    → (m : Map BlockMemEntry) × (entry : BlockMemEntry) × (s.m ≡ some m)
      × (lookup id m ≡ some entry)
      × (entry.tlf_id ≡ tlf)
      × (has_non_archived_ref entry.refs ≡ true)
      × (get id tlf c s' ≡ ok (entry.block_data, entry.key_server_half))
unfolding add_block_reference
add_block_reference-ok id tlf c s s' h = elim (Option-cases s.m) [
  | inl closed ↦ absurd (ground arith)
  | inr (m, o) ↦ elim (Option-cases (lookup id m)) [
    | inl missing ↦ absurd (ground arith)
    | inr (entry, l) ↦
        let (live, got) = add_block_reference-found id tlf c s s' m entry o l h in
        (m, entry, o, l, ground arith, live, got)
  ]
]

-- A block whose references are all archived gets no new one: the call is refused and changes nothing.
pub add_block_reference_archived :
    (id tlf : ℕ) (c : BlockContext) (s : BlockServerMemory) (m : Map BlockMemEntry)
    (entry : BlockMemEntry)
    → s.m ≡ some m
    → lookup id m ≡ some entry
    → entry.tlf_id ≡ tlf
    → has_non_archived_ref entry.refs ≡ false
    → add_block_reference id tlf c s ≡ (err block_archived, s)
unfolding add_block_reference
add_block_reference_archived id tlf c s m entry o l t a = ground arith

-- What `archiveBlockReference` on a stored block needs and does
archive_block_reference-found :
    (id tlf : ℕ) (c : BlockContext) (s s' : BlockServerMemory) (m : Map BlockMemEntry)
    (entry : BlockMemEntry)
    → s.m ≡ some m
    → lookup id m ≡ some entry
    → archive_block_reference id tlf c s ≡ (ok tt, s')
    → (refs' : BlockRefMap) × (s' ≡ set_entry id (record entry { refs = refs' }) s)
      × (check_exists entry.refs c ≡ ok tt)
      × ((j : ℕ)
          → lookup j refs' ≡ (
              if c.ref_nonce == j
              then some (record { status = archived_block_ref; context = c })
              else lookup j entry.refs))
unfolding archive_block_reference
archive_block_reference-found id tlf c s s' m entry o l h =
    elim (Result-cases (put_ref entry.refs c archived_block_ref)) [
      | inl (refs', e) ↦ (
        refs',
        ground arith,
        ground arith,
        λ j. put_ref-lookup entry.refs refs' c archived_block_ref j e,
      )
      | inr (e, f) ↦ absurd (ground arith)
    ]

-- `archiveBlockReference` succeeds only on an open server that has the block in this folder, and the
-- reference to it under this very context; the reference is then archived, and the block's other references
-- and the other blocks are as before.
pub archive_block_reference-ok :
    (id tlf : ℕ) (c : BlockContext) (s s' : BlockServerMemory)
    → archive_block_reference id tlf c s ≡ (ok tt, s')
    → (m : Map BlockMemEntry) × (entry : BlockMemEntry) × (s.m ≡ some m)
      × (lookup id m ≡ some entry)
      × (entry.tlf_id ≡ tlf)
      × (refs' : BlockRefMap) × (s' ≡ set_entry id (record entry { refs = refs' }) s)
      × (check_exists entry.refs c ≡ ok tt)
      × ((j : ℕ)
          → lookup j refs' ≡ (
              if c.ref_nonce == j
              then some (record { status = archived_block_ref; context = c })
              else lookup j entry.refs))
unfolding archive_block_reference
archive_block_reference-ok id tlf c s s' h = elim (Option-cases s.m) [
  | inl closed ↦ absurd (ground arith)
  | inr (m, o) ↦ elim (Option-cases (lookup id m)) [
    | inl missing ↦ absurd (ground arith)
    | inr (entry, l) ↦
        let (refs', end, there, others) =
          archive_block_reference-found id tlf c s s' m entry o l h in
        (m, entry, o, l, ground arith, refs', end, there, others)
  ]
]

-- `AddBlockReference` and `archiveBlockReference` change nothing where they fail.
pub reference_error :
    (id tlf : ℕ) (c : BlockContext) (s s' : BlockServerMemory) (e : Error)
    → (add_block_reference id tlf c s ≡ (err e, s'))
      ⊎ (archive_block_reference id tlf c s ≡ (err e, s'))
    → s' ≡ s
unfolding add_block_reference archive_block_reference put_ref
reference_error id tlf c s s' e (inl h) = ground arith
reference_error id tlf c s s' e (inr h) = ground arith
