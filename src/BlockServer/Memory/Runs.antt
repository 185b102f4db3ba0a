-- ===== src/BlockServer/Memory/Runs.antt =====
-- Any sequence of calls on the in-memory block server.
use kbfs.Prelude.{ℕ, List, [], ◌∷◌, Result, arith, inl, inr}
use mathlib.Core.Path.{subst}
use kbfs.Prelude.Chain.{Result-cases}
use kbfs.FileStore.{Bytes}
use kbfs.BlockServer.Refs.{BlockContext}
use kbfs.BlockServer.Memory.{
  BlockServerMemory, new_block_server_memory, put, add_block_reference, archive_block_reference,
  remove_block_references, remove_block_reference, archive_contexts, archive_block_references,
  shutdown,
}
use kbfs.BlockServer.Memory.Invariant.{IsValid, put-IsValid, reference-IsValid}
use kbfs.BlockServer.Memory.Remove.{remove_block_references-IsValid}

-- The calls of the `BlockServer` interface that change the state. A map of contexts is listed in the
-- order in which the call walks it.
pub data Call : Type 0 where
  put_call : (id tlf : ℕ) → BlockContext → Bytes → (half : ℕ) → Call
  add_call : (id tlf : ℕ) → BlockContext → Call
  remove_call : (tlf : ℕ) → List (ℕ × List BlockContext) → Call
  archive_call : (tlf : ℕ) → List (ℕ × List BlockContext) → Call
  shutdown_call : Call

module _ (hash : Bytes → Result ℕ) where
  -- The state after a call, whether it succeeds or not.
  unfoldable pub perform : Call → BlockServerMemory → BlockServerMemory
  perform (put_call id tlf c buf half) s = (put hash id tlf c buf half s).1
  perform (add_call id tlf c) s = (add_block_reference id tlf c s).1
  perform (remove_call tlf contexts) s = (remove_block_reference tlf contexts s).1
  perform (archive_call tlf contexts) s = (archive_block_references tlf contexts s).1
  perform shutdown_call s = shutdown s

  unfoldable pub run : List Call → BlockServerMemory → BlockServerMemory
  run [] s = s
  run (c ∷ cs) s = run cs (perform c s)

  remove-IsValid :
      (tlf : ℕ) (contexts : List (ℕ × List BlockContext)) (s : BlockServerMemory)
      → IsValid hash s
      → IsValid hash (remove_block_reference tlf contexts s).1
  unfolding remove_block_reference
  remove-IsValid tlf [] s v = v
  remove-IsValid tlf ((id, cs) ∷ rest) s v =
      let s1 = (remove_block_references id tlf cs s).1 in
      let v1 = remove_block_references-IsValid hash id tlf cs s v in
      elim (Result-cases (remove_block_references id tlf cs s).0) [
        | inl (n, e) ↦
            subst (IsValid hash) {x = (remove_block_reference tlf rest s1).1} (ground arith)
              (remove-IsValid tlf rest s1 v1)
        | inr (x, e) ↦ subst (IsValid hash) {x = s1} (ground arith) v1
      ]

  archive_contexts-IsValid :
      (id tlf : ℕ) (cs : List BlockContext) (s : BlockServerMemory)
      → IsValid hash s
      → IsValid hash (archive_contexts id tlf cs s).1
  unfolding archive_contexts
  archive_contexts-IsValid id tlf [] s v = v
  archive_contexts-IsValid id tlf (c ∷ cs) s v =
      let s1 = (archive_block_reference id tlf c s).1 in
      let v1 = (reference-IsValid hash id tlf c s v).1 in
      elim (Result-cases (archive_block_reference id tlf c s).0) [
        | inl (_, e) ↦
            subst (IsValid hash) {x = (archive_contexts id tlf cs s1).1} (ground arith)
              (archive_contexts-IsValid id tlf cs s1 v1)
        | inr (x, e) ↦ subst (IsValid hash) {x = s1} (ground arith) v1
      ]

  archive-IsValid :
      (tlf : ℕ) (contexts : List (ℕ × List BlockContext)) (s : BlockServerMemory)
      → IsValid hash s
      → IsValid hash (archive_block_references tlf contexts s).1
  unfolding archive_block_references
  archive-IsValid tlf [] s v = v
  archive-IsValid tlf ((id, cs) ∷ rest) s v =
      let s1 = (archive_contexts id tlf cs s).1 in
      let v1 = archive_contexts-IsValid id tlf cs s v in
      elim (Result-cases (archive_contexts id tlf cs s).0) [
        | inl (_, e) ↦
            subst (IsValid hash) {x = (archive_block_references tlf rest s1).1} (ground arith)
              (archive-IsValid tlf rest s1 v1)
        | inr (x, e) ↦ subst (IsValid hash) {x = s1} (ground arith) v1
      ]

  perform-IsValid : (c : Call) (s : BlockServerMemory) → IsValid hash s → IsValid hash (perform c s)
  unfolding perform shutdown
  perform-IsValid (put_call id tlf c buf half) s v = put-IsValid hash id tlf c buf half s v
  perform-IsValid (add_call id tlf c) s v = (reference-IsValid hash id tlf c s v).0
  perform-IsValid (remove_call tlf contexts) s v = remove-IsValid tlf contexts s v
  perform-IsValid (archive_call tlf contexts) s v = archive-IsValid tlf contexts s v
  perform-IsValid shutdown_call s v = record { each = λ m id entry o l. absurd (ground arith) }

  run_from-IsValid :
      (cs : List Call) (s : BlockServerMemory) → IsValid hash s → IsValid hash (run cs s)
  unfolding run
  run_from-IsValid [] s v = v
  run_from-IsValid (c ∷ cs) s v = run_from-IsValid cs (perform c s) (perform-IsValid c s v)

  -- After any sequence of calls on a new server, failed calls and calls after a shutdown included, every
  -- block that the server holds has the ID that its data hashes to, and at least one reference; every
  -- reference stands under its own nonce.
  pub run-IsValid : (cs : List Call) → IsValid hash (run cs new_block_server_memory)
  run-IsValid cs =
      run_from-IsValid cs new_block_server_memory
        (record { each = λ m id entry o l. absurd (ground arith) })
