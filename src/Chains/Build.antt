-- ===== src/Chains/Build.antt =====
-- `identifyType` and `newCRChains` of libkbfs/cr_chains.go. What `newWriterInfo` and
-- `GetDirBlockForReading` return, which ask other services, are arguments.
use kbfs.Prelude.{
  ℕ, Bool, true, false, not, List, [], ◌∷◌, Result, ok, err, if◌then◌else◌, none, some,
  no_chain_found, chain_missing, unexpected_chain_type,
}
use kbfs.Prelude.Chain.{◌>>=◌}
use kbfs.Prelude.Dict.{find, store}
use kbfs.Blocks.{BlockPointer, same_pointer, pointer_key}
use kbfs.Ops.Path.{zero_ptr, is_initialized}
use kbfs.Ops.Update.{WriterInfo}
use kbfs.Ops.Op.{
  Op, sync_op, set_attr_op, set_writer_info, EntryType, file_type, exec_type, dir_type, sym_type,
  ex_attr, mtime_attr, size_attr,
}
use kbfs.Chains.{
  CrChain, CrChains, PtrMap, set_object, new_cr_chains_empty, renamed_parent_and_name,
  most_recent_from_original_or_same,
}
use kbfs.Chains.Collapse.{collapse}
use kbfs.Chains.Make.{make_chains_for_ops}

-- The loop over the ops: `known` is the type of the chain, `unknown` the last parent directory.
pub data Guess : Type 0 where
  known : Bool → Guess
  unknown : BlockPointer → Guess

-- A chain whose first op tells nothing keeps its type.
unfoldable pub guess_type : Bool → BlockPointer → List Op → Guess
guess_type file parent [] = unknown parent
guess_type file parent (sync_op o ∷ ops) = known true
guess_type file parent (set_attr_op o ∷ ops) =
    let rest = guess_type file o.dir.ref ops in
    elim o.attr [ mtime_attr ↦ rest | ex_attr ↦ known true | size_attr ↦ known true ]
guess_type file parent (o ∷ ops) = known file

-- The search for the pointer of the chain among the children of the directory
abbrev pub type_among : BlockPointer → List (BlockPointer × EntryType) → Result Bool
type_among ptr [] = err chain_missing
type_among ptr ((p, t) ∷ children) =
    let rest = type_among ptr children in
    if not (same_pointer p ptr) then rest else (elim t [
      | dir_type ↦ ok false
      | file_type ↦ ok true
      | exec_type ↦ ok true
      | sym_type ↦ err unexpected_chain_type
    ])

module _ (children_of : BlockPointer → Result (List (BlockPointer × EntryType))) where
  -- The directory of the chain's node: the new parent of a node that was renamed
  fetch_type : CrChain → CrChains → BlockPointer → Result Bool
  fetch_type chain ccs parent_original =
      let parent = elim (renamed_parent_and_name chain.original ccs) as (λ r. BlockPointer) [
        | none ↦ parent_original
        | some (new_parent, name) ↦ new_parent
      ] in
      children_of (most_recent_from_original_or_same parent ccs) >>= type_among chain.most_recent

  -- The type that the chain gets
  unfoldable pub identify_type : CrChain → CrChains → Result Bool
  unfolding fetch_type
  identify_type chain ccs = elim chain.ops [
    | [] ↦ ok chain.file
    | o ∷ ops ↦ elim (guess_type chain.file zero_ptr chain.ops) [
      | known file ↦ ok file
      | unknown parent_dir ↦ elim (find parent_dir ccs.originals) [
        | none ↦ err no_chain_found
        | some parent_original ↦ fetch_type chain ccs parent_original
      ]
    ]
  ]

  -- One round of the loop over `byOriginal`, for the chain at `a`
  unfoldable pub finish_chain : Bool → ℕ → CrChains → Result CrChains
  finish_chain identify a ccs =
      let chain = record (ccs.objects a) { ops = collapse (ccs.objects a).ops } in
      let collapsed = set_object a chain ccs in
      if identify
      then identify_type chain collapsed
        >>= (λ file. ok (set_object a (record chain { file = file }) collapsed))
      else ok collapsed

  -- The loop over `byOriginal`, in the order of the list
  unfoldable pub finish_chains : Bool → PtrMap ℕ → CrChains → Result CrChains
  finish_chains identify [] ccs = ok ccs
  finish_chains identify ((ptr, a) ∷ m) ccs =
      finish_chain identify a ccs >>= finish_chains identify m

-- What is read of a revision: whether its writer metadata is a copy, its writer, the block of its
-- changes, its ops, and the pointer of its root directory.
pub record RevisionOps : Type 0 where
  pub is_writer_metadata_copied : Bool
  pub writer_info : Result WriterInfo
  pub info_pointer : BlockPointer
  pub ops : List Op
  pub root_pointer : BlockPointer

abbrev with_writer : WriterInfo → List Op → List Op
with_writer info [] = []
with_writer info (o ∷ ops) = set_writer_info info o ∷ with_writer info ops

abbrev note_changes : BlockPointer → CrChains → CrChains
note_changes ptr ccs =
    if not (same_pointer ptr zero_ptr)
    then record ccs { block_change_pointers = store ptr true ccs.block_change_pointers }
    else ccs

abbrev note_root : BlockPointer → CrChains → CrChains
note_root ptr ccs =
    if is_initialized ccs.original_root then ccs else (elim (find ptr ccs.by_most_recent) [
      | none ↦ ccs
      | some a ↦ record ccs { original_root = (ccs.objects a).original }
    ])

unfoldable pub add_revision : RevisionOps → CrChains → Result CrChains
unfolding with_writer note_changes note_root
add_revision rmd ccs =
    if rmd.is_writer_metadata_copied
    then ok ccs
    else rmd.writer_info >>= λ info.
        (make_chains_for_ops (with_writer info rmd.ops) (note_changes rmd.info_pointer ccs)
          >>= (λ ccs'. ok (note_root rmd.root_pointer ccs')))

unfoldable pub add_revisions : List RevisionOps → CrChains → Result CrChains
add_revisions [] ccs = ok ccs
add_revisions (rmd ∷ rmds) ccs = add_revision rmd ccs >>= add_revisions rmds

unfoldable pub new_cr_chains :
    (BlockPointer → Result (List (BlockPointer × EntryType)))
    → List RevisionOps
    → Bool
    → Result CrChains
new_cr_chains children_of rmds identify_types =
    let identify = elim rmds as (λ r. Bool) [ [] ↦ false | r ∷ rs ↦ identify_types ] in
    add_revisions rmds new_cr_chains_empty >>= λ ccs.
    finish_chains children_of identify ccs.by_original ccs
