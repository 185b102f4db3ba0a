-- ===== src/RootMetadata.antt =====
-- The part of `RootMetadata` (libkbfs/root_metadata.go) that the metadata server reads, the check of
-- successors, and `BareTlfHandle.IsReader` and `IsWriter` (libkbfs/bare_tlf_handle.go).
use kbfs.Prelude.{
  ℕ, ◌+◌, ◌-◌, ◌%◌, Bool, true, false, not, ◌==◌, ◌||◌, if◌then◌else◌, List, [], ◌∷◌, Result, ok,
  err, Error, md_is_final, md_tlf_id_mismatch, md_revision_mismatch, md_prev_root_mismatch,
  md_disk_usage_mismatch, conflict_revision, conflict_prev_root, conflict_disk_usage,
  md_server_error,
}
use kbfs.Prelude.Chain.{◌>>=◌, ◌>>◌, fail_if}
use kbfs.Prelude.Int.{ℤ, eqb_ℤ}
use kbfs.FileStore.{Bytes}
use kbfs.Ordinal.{two64}
use kbfs.Revision.{next_revision}

-- The flags are Booleans; `others` stands for the fields that this code does not read (the private
-- metadata, the keys and the signatures).
pub record RootMetadata : Type 0 where
  pub tlf_id : ℕ
  pub revision : ℤ
  pub branch_id : ℕ
  pub prev_root : ℕ
  pub is_unmerged : Bool
  pub is_final : Bool
  pub is_rekey_set : Bool
  pub is_writer_metadata_copied : Bool
  pub disk_usage : ℕ
  pub ref_bytes : ℕ
  pub unref_bytes : ℕ
  pub others : Bytes

pub data MergeStatus : Type 0 where
  merged unmerged : MergeStatus

unfoldable pub merged_status : RootMetadata → MergeStatus
merged_status md = if md.is_unmerged then unmerged else merged

-- The disk usage, in uint64 arithmetic, that a successor must have.
unfoldable pub expected_usage : RootMetadata → RootMetadata → ℕ
expected_usage md next =
    if not next.is_writer_metadata_copied
    then (md.disk_usage + (next.ref_bytes + two64 - next.unref_bytes)) % two64
    else md.disk_usage

-- `make_md_id` is `crypto.MakeMdID`; the cache of `MetadataID` only saves work.
module _ (make_md_id : RootMetadata → Result ℕ) where
  unfoldable pub check_valid_successor : RootMetadata → RootMetadata → Result (Unit {0})
  unfolding expected_usage
  check_valid_successor md next =
      fail_if md.is_final md_is_final
      >> (fail_if (not (next.tlf_id == md.tlf_id)) md_tlf_id_mismatch
          >> (fail_if (not (eqb_ℤ next.revision (next_revision md.revision))) md_revision_mismatch
              >> (make_md_id md >>= λ curr_root.
                  fail_if (not (next.prev_root == curr_root)) md_prev_root_mismatch
                  >> fail_if (not (next.disk_usage == expected_usage md next))
                      md_disk_usage_mismatch)))

  abbrev pub server_error : Error → Error
  server_error md_revision_mismatch = conflict_revision
  server_error md_prev_root_mismatch = conflict_prev_root
  server_error md_disk_usage_mismatch = conflict_disk_usage
  server_error e = md_server_error e

  unfoldable pub check_valid_successor_for_server : RootMetadata → RootMetadata → Result (Unit {0})
  unfolding check_valid_successor
  check_valid_successor_for_server md next = elim (check_valid_successor md next) [
    | ok _ ↦ ok tt
    | err e ↦ err (server_error e)
  ]

pub record BareTlfHandle : Type 0 where
  pub writers : List ℕ
  pub readers : List ℕ

abbrev pub find_user_in_list : ℕ → List ℕ → Bool
find_user_in_list user [] = false
find_user_in_list user (u ∷ users) =
    let rest = find_user_in_list user users in if u == user then true else rest

-- `public_uid` stands for `keybase1.PublicUID`.
unfoldable pub is_public : ℕ → BareTlfHandle → Bool
is_public public_uid h = elim h.readers [
  | [] ↦ false
  | u ∷ users ↦ elim users [ [] ↦ u == public_uid | v ∷ vs ↦ false ]
]

unfoldable pub is_writer : ℕ → BareTlfHandle → Bool
is_writer user h = find_user_in_list user h.writers

unfoldable pub is_handle_reader : ℕ → ℕ → BareTlfHandle → Bool
unfolding is_public is_writer
is_handle_reader public_uid user h =
    is_public public_uid h || find_user_in_list user h.readers || is_writer user h
