-- ===== src/MdServer/Memory/Sessions.antt =====
-- The calls of `MDServerMemory` (libkbfs/mdserver_memory.go) on handles, observers, branches and locks.
use kbfs.Prelude.{
  ℕ, Bool, true, false, not, ◌==◌, ◌||◌, if◌then◌else◌, Option, none, some, [], Result, ok, err,
  err_shutdown, unauthorized, bad_request,
}
use kbfs.Prelude.Action.{Action, ◌>>=◌, pure, reads}
use kbfs.Prelude.Chain.{◌>>=◌ as bind, ◌>>◌ as seq, fail_if}
use kbfs.Prelude.Int.{ℤ}
use kbfs.Prelude.Maps.{lookup, insert}
use kbfs.Prelude.Dict.{find, store, discard}
use kbfs.Codec.{Codec}
use kbfs.RootMetadata.{
  RootMetadata, MergeStatus, merged, BareTlfHandle, is_handle_reader, is_public,
}
use kbfs.MdServer.TlfStorage.{MdParams, null_branch_id, wrap}
use kbfs.MdServer.Locks.{TruncateLocks, truncate_lock, truncate_unlock}
use kbfs.MdServer.Updates.{register_for_update}
use kbfs.MdServer.Memory.{MdServerMemory, MdSession, get_branch_key, get_branch_id, get_for_tlf}
use kbfs.FileStore.{bytes_key}
use kbfs.MdServer.Memory.Keys.{branch_key, map_some, head_revision}

module _ (p : MdParams) where
  -- `getHandleID`, with a codec for handles; `random_id` is what `MakeRandomTlfID` returns.
  unfoldable pub get_handle_id :
      Codec BareTlfHandle
      → (Bool → Result ℕ)
      → MdSession
      → BareTlfHandle
      → Action MdServerMemory (ℕ × Bool)
  get_handle_id handle_codec random_id u handle s = elim (wrap (handle_codec.encode handle)) [
    | err e ↦ (err e, s)
    | ok key ↦ elim s.handle_db [
      | none ↦ (err err_shutdown, s)
      | some handles ↦ elim (find key handles) [
        | some tlf ↦ (ok (tlf, false), s)
        | none ↦
            let made = bind (wrap u.current_uid) λ uid.
              seq (fail_if (not (is_handle_reader p.public_uid uid handle)) unauthorized)
                (wrap (random_id (is_public p.public_uid handle))) in
            elim made [
              | err e ↦ (err e, s)
              | ok tlf ↦ (
                ok (tlf, true),
                record s {
                  handle_db = some (store key tlf handles);
                  latest_handle_db = map_some (insert tlf handle) s.latest_handle_db;
                },
              )
            ]
      ]
    ]
  ]

  -- `GetForHandle`
  unfoldable pub get_for_handle :
      Codec BareTlfHandle
      → (Bool → Result ℕ)
      → MdSession
      → BareTlfHandle
      → MergeStatus
      → Action MdServerMemory (ℕ × Option RootMetadata)
  unfolding get_handle_id get_for_tlf
  get_for_handle handle_codec random_id u handle status =
      get_handle_id handle_codec random_id u handle >>= λ found.
      let (tlf, created) = found in
      if created
      then pure (tlf, none)
      else reads (λ s. bind (get_for_tlf p u tlf null_branch_id status s) (λ md. ok (tlf, md)))

  -- `RegisterForUpdate`, with `getCurrentMergedHeadRevision`
  unfoldable pub register_update : MdSession → ℕ → ℤ → ℕ → Action MdServerMemory ℕ
  unfolding get_for_tlf register_for_update
  register_update u tlf curr_head channel s = elim (get_for_tlf p u tlf null_branch_id merged s) [
    | err e ↦ (err e, s)
    | ok head ↦
        let (r, m) =
          register_for_update tlf curr_head (head_revision head) u.server channel s.updates in
        (r, record s { updates = m })
  ]

-- `PruneBranch`
unfoldable pub prune_branch : MdSession → ℕ → ℕ → Action MdServerMemory (Unit {0})
unfolding get_branch_id
prune_branch u tlf bid s =
    if bid == null_branch_id then (err bad_request, s) else elim (get_branch_id u tlf s) [
      | err e ↦ (err e, s)
      | ok current ↦
          if current == null_branch_id || not (bid == current)
          then (err bad_request, s)
          else elim (wrap (get_branch_key u tlf)) [
            | err e ↦ (err e, s)
            | ok key ↦ (ok tt, record s { branch_db = map_some (discard key) s.branch_db })
          ]
    ]

-- A call on the truncate locks
abbrev pub on_locks : MdSession → (ℕ → Action TruncateLocks Bool) → Action MdServerMemory Bool
on_locks u m s = elim s.truncate_locks [
  | none ↦ (err err_shutdown, s)
  | some locks ↦ elim u.device_kid [
    | err e ↦ (err e, s)
    | ok kid ↦ let (r, locks') = m kid locks in (r, record s { truncate_locks = some locks' })
  ]
]

unfoldable pub lock_truncate : MdSession → ℕ → Action MdServerMemory Bool
unfolding truncate_lock
lock_truncate u tlf = on_locks u (λ kid. truncate_lock kid tlf)

unfoldable pub unlock_truncate : MdSession → ℕ → Action MdServerMemory Bool
unfolding truncate_unlock
unlock_truncate u tlf = on_locks u (λ kid. truncate_unlock kid tlf)

-- `GetLatestHandleForTLF`; the zero handle for an unknown folder
unfoldable pub get_latest_handle_for_tlf : ℕ → MdServerMemory → Result BareTlfHandle
get_latest_handle_for_tlf tlf s = elim s.latest_handle_db [
  | none ↦ err err_shutdown
  | some handles ↦ elim (lookup tlf handles) [
    | none ↦ ok (record { writers = []; readers = [] })
    | some h ↦ ok h
  ]
]
