-- ===== src/BlockServer/TlfJournal/Data.antt =====
-- What `putData` stores, `getData` returns.
use kbfs.Prelude.{
  ℕ, ◌≡◌, false, some, List, [], ◌∷◌, Result, ok, arith, length, Bool-cases, inl, inr, ◌∙◌,
}
use kbfs.Prelude.Chain.{Result-cases}
use kbfs.Prelude.Action.{>>=-ok, ◌>>◌}
use kbfs.Prelude.Maps.{lookup-insert}
use kbfs.FileStore.{Bytes, read_file, write_file, mkdir_all}
use kbfs.Codec.{Codec}
use kbfs.BlockServer.Refs.{BlockContext, BlockRefEntry, live_block_ref, put_ref}
use kbfs.BlockServer.Refs.Laws.{put_ref-lookup, same_context_refl}
use kbfs.BlockServer.Memory.{validate_block_server_put}
use kbfs.BlockServer.Memory.Invariant.{valid_hash}
use kbfs.BlockServer.TlfJournal.{
  BserverTlfJournal, BserverJournalEntry, block_put_op, block_data_path, key_server_half_path,
  block_file_eq, put_dropping, refs_of, get_ref_entry, put_ref_entry, check_existing,
}
use kbfs.BlockServer.TlfJournal.Calls.{
  append_entry, get_data_locked, get_data, write_block, put_data,
}

-- A reference that is put can be looked up.
get_ref_entry-put :
    (id : ℕ) (c : BlockContext) (s s' : BserverTlfJournal)
    → put_ref_entry id (record { status = live_block_ref; context = c }) s ≡ (ok tt, s')
    → (get_ref_entry id c.ref_nonce s'.refs ≡ ok (record { status = live_block_ref; context = c }))
      × (s'.blocks ≡ s.blocks)
      × (s'.is_shutdown ≡ s.is_shutdown)
unfolding put_ref_entry get_ref_entry put_dropping
get_ref_entry-put id c s s' h =
    let live : BlockRefEntry = record { status = live_block_ref; context = c } in
    elim (Result-cases (put_ref (refs_of id s.refs) c live_block_ref)) [
      | inl (refs', e) ↦ (
        ground (
          arith,
          lookup-insert id id refs' s.refs,
          put_ref-lookup (refs_of id s.refs) refs' c live_block_ref c.ref_nonce e,
        ),
        ground arith,
        ground arith,
      )
      | inr (x, e) ↦ absurd (unfold put_ref in ground arith)
    ]

module _ (codec : Codec BserverJournalEntry) (hash : Bytes → Result ℕ) where
  write_block-ok :
      (id : ℕ) (buf half : Bytes) (s s' : BserverTlfJournal)
      → write_block codec hash id buf half s ≡ (ok tt, s')
      → (s'.refs ≡ s.refs)
        × (s'.is_shutdown ≡ s.is_shutdown)
        × (s'.blocks.files (block_data_path id) ≡ some buf)
        × (s'.blocks.files (key_server_half_path id) ≡ some half)
        × (s'.blocks.unreadable ≡ s.blocks.unreadable)
  unfolding write_block write_file mkdir_all
  write_block-ok id buf half s s' h =
      (ground arith, ground arith, ground arith, ground arith, ground arith)

  append_entry-keeps :
      (id : ℕ) (cs : List BlockContext) (s s' : BserverTlfJournal)
      → append_entry codec hash block_put_op id cs s ≡ (ok tt, s')
      → (s'.refs ≡ s.refs) × (s'.blocks ≡ s.blocks) × (s'.is_shutdown ≡ s.is_shutdown)
  unfolding append_entry
  append_entry-keeps id cs s s' h = (ground arith, ground arith, ground arith)

  put_data-ok :
      (id : ℕ) (c : BlockContext) (buf half : Bytes) (s s' : BserverTlfJournal)
      → put_data codec hash id c buf half s ≡ (ok tt, s')
      → (hash buf ≡ ok id)
        × (s.is_shutdown ≡ false)
        × (s1 : BserverTlfJournal) × (s2 : BserverTlfJournal) × (write_block codec hash id buf half
              s
            ≡ (ok tt, s1))
        × (put_ref_entry id (record { status = live_block_ref; context = c }) s1 ≡ (ok tt, s2))
        × (append_entry codec hash block_put_op id (c ∷ []) s2 ≡ (ok tt, s'))
  unfolding put_data
  put_data-ok id c buf half s s' h = elim (Result-cases (validate_block_server_put hash id c buf)) [
    | inr (x, e) ↦ absurd (ground arith)
    | inl (_, e) ↦ elim (Bool-cases s.is_shutdown) [
      | inl closed ↦ absurd (ground arith)
      | inr open_ ↦ elim (Result-cases (check_existing (get_data_locked codec hash id c s) half)) [
        | inr (x, e') ↦ absurd (ground arith)
        | inl (_, e') ↦
            let live : BlockRefEntry = record { status = live_block_ref; context = c } in
            let (_, s1, w, rest) =
              >>=-ok (write_block codec hash id buf half)
                (λ _. put_ref_entry id live >> append_entry codec hash block_put_op id (c ∷ [])) s
                s' tt (ground arith) in
            let (_, s2, p, last) =
              >>=-ok (put_ref_entry id live) (λ _. append_entry codec hash block_put_op id (c ∷ []))
                s1 s' tt rest in
            (valid_hash hash id c buf (ground arith), open_, s1, s2, w, p, last)
      ]
    ]
  ]

  get_data_of :
      (id : ℕ) (c : BlockContext) (buf half : Bytes) (s : BserverTlfJournal)
      → get_ref_entry id c.ref_nonce s.refs ≡ ok (record { status = live_block_ref; context = c })
      → s.is_shutdown ≡ false
      → s.blocks.files (block_data_path id) ≡ some buf
      → s.blocks.files (key_server_half_path id) ≡ some half
      → s.blocks.unreadable (block_data_path id) ≡ false
      → s.blocks.unreadable (key_server_half_path id) ≡ false
      → hash buf ≡ ok id
      → length half ≡ 32
      → get_data codec hash id c s ≡ ok (buf, half)
  unfolding get_data read_file
  get_data_of id c buf half s r o f g u v k l = ground (arith, same_context_refl c)

  -- After a `putData` that succeeds, `getData` with the same context returns the data and the key server
  -- half, of 32 bytes, that were put; the two files must be readable.
  pub get_data-put_data :
      (id : ℕ) (c : BlockContext) (buf half : Bytes) (s s' : BserverTlfJournal)
      → s.blocks.unreadable (block_data_path id) ≡ false
      → s.blocks.unreadable (key_server_half_path id) ≡ false
      → length half ≡ 32
      → put_data codec hash id c buf half s ≡ (ok tt, s')
      → get_data codec hash id c s' ≡ ok (buf, half)
  get_data-put_data id c buf half s s' u v l h =
      let (k, o, s1, s2, w, p, last) = put_data-ok id c buf half s s' h in
      let (refs1, shut1, file1, file2, readable) = write_block-ok id buf half s s1 w in
      let (found, blocks2, shut2) = get_ref_entry-put id c s1 s2 p in
      let (refs3, blocks3, shut3) = append_entry-keeps id (c ∷ []) s2 s' last in
      let b : s'.blocks ≡ s1.blocks = blocks3 ∙ blocks2 in
      get_data_of id c buf half s' (ground arith) (ground arith) (ground arith) (ground arith)
        (ground arith) (ground arith) k l
