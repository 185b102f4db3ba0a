-- ===== src/Ops/Invert/Reverse.antt =====
-- What `invertOpForLocalNotifications` of libkbfs/ops.go gives on ops with valid block pointers.
use kbfs.Prelude.{
  true, false, List, [], ◌∷◌, ◌++◌, Result, ok, err, nil_ptr, ◌≡◌, refl, sym, ap, ◌∙◌, arith,
}
use mathlib.Core.List.{append-nil, append_assoc}
use kbfs.Blocks.{BlockPointer, same_pointer, same_pointer_iff}
use kbfs.Ops.Path.{zero_ptr}
use kbfs.Ops.Update.{BlockUpdate, is_zero_update, zero_common}
use kbfs.Ops.Op.{
  Op, create_op, rm_op, rename_op, sync_op, set_attr_op, resolution_op, rekey_op, gc_op, file_type,
  SetAttrOp,
}
use kbfs.FileStore.{Bytes}
use kbfs.Ops.WriteRange.{WriteRange}
use kbfs.Ops.Op.New.{new_create_op, new_rm_op, new_rename_op, new_sync_op, new_set_attr_op}
use kbfs.Ops.Op.Pointers.{add_update, all_updates}
use kbfs.Ops.Invert.{opposite_op, reverse_updates, invert_op_for_local_notifications}

abbrev pub swap : BlockUpdate → BlockUpdate
swap u = record { unref = u.ref; ref = u.unref }

abbrev pub swap_all : List BlockUpdate → List BlockUpdate
swap_all [] = []
swap_all (u ∷ us) = swap u ∷ swap_all us

-- No update but the last has the new pointer `p`.
abbrev pub NoneMakes : BlockPointer → List BlockUpdate → Type 0
NoneMakes p [] = Unit
NoneMakes p (u ∷ us) = (same_pointer u.ref p ≡ false) × NoneMakes p us

abbrev pub IsPointer : BlockPointer → Type 0
IsPointer p = same_pointer p zero_ptr ≡ false

-- Ops that have one directory or file, whose `AddUpdate` sets its new pointer.
module _ (embed : List BlockUpdate → BlockUpdate → Op)
    (adds : (us : List BlockUpdate) (d : BlockUpdate) (p q : BlockPointer)
      → IsPointer d.unref
      → same_pointer p d.unref ≡ false
      → add_update p q (embed us d) ≡ ok (embed (us ++ (record { unref = p; ref = q } ∷ [])) d))
    (sets : (us : List BlockUpdate) (d : BlockUpdate) (q : BlockPointer)
      → IsPointer d.unref
      → IsPointer q
      → add_update d.unref q (embed us d) ≡ ok (embed us (record d { ref = q }))) where
  reverse_updates-embed :
      (us ds : List BlockUpdate) (m d : BlockUpdate)
      → m.ref ≡ d.unref
      → IsPointer d.unref
      → IsPointer m.unref
      → NoneMakes d.unref us
      → reverse_updates (us ++ (m ∷ [])) (embed ds d)
        ≡ ok (embed (ds ++ swap_all us) (record d { ref = m.unref }))
  unfolding reverse_updates
  reverse_updates-embed [] ds m d e sd sm n = rw (e, sets ds d m.unref sd sm, append-nil) refl
  reverse_updates-embed (u ∷ us) ds m d e sd sm n = rw (adds ds d u.ref u.unref sd n.0) (
      reverse_updates-embed us (ds ++ (swap u ∷ [])) m d e sd sm n.1
      ∙ ap (λ l. ok (embed l (record d { ref = m.unref })))
          (append_assoc ds (swap u ∷ []) (swap_all us)))

-- The ops that invertOpForLocalNotifications makes, with their updates
abbrev rm_with : Bytes → List BlockUpdate → BlockUpdate → Op
rm_with name us d = rm_op (record {
  common = record zero_common { updates = us };
  old_name = name;
  dir = d;
  drop_this = false;
})

abbrev create_with : Bytes → List BlockUpdate → BlockUpdate → Op
create_with name us d = create_op (record {
  common = record zero_common { updates = us };
  new_name = name;
  dir = d;
  entry_type = file_type;
  renamed = false;
  force_copy = false;
  cr_sym_path = [];
})

abbrev sync_with : List WriteRange → List BlockUpdate → BlockUpdate → Op
sync_with writes us d =
    sync_op (record { common = record zero_common { updates = us }; file = d; writes = writes })

abbrev set_attr_with : SetAttrOp → List BlockUpdate → BlockUpdate → Op
set_attr_with s us d = set_attr_op (record {
  common = record zero_common { updates = us };
  name = s.name;
  dir = d;
  attr = s.attr;
  file = s.file;
})

-- The op without its updates yet
abbrev unset : BlockPointer → BlockUpdate
unset p = record { unref = p; ref = zero_ptr }

swap_all-append :
    (us more : List BlockUpdate) → swap_all (us ++ more) ≡ swap_all us ++ swap_all more
swap_all-append [] more = refl
swap_all-append (u ∷ us) more = ap (◌∷◌ (swap u)) (swap_all-append us more)

same_pointer_refl : (p : BlockPointer) → same_pointer p p ≡ true
same_pointer_refl p = (same_pointer_iff p p).1 refl

abbrev pub IsInvertible : BlockUpdate → List BlockUpdate → Type 0
IsInvertible d us = IsPointer d.ref × IsPointer d.unref × NoneMakes d.ref us

-- What the theorem asks of an op: a rename is one within a directory.
abbrev pub Inverts : Op → Type 0
Inverts (create_op c) = IsInvertible c.dir c.common.updates
Inverts (rm_op r) = IsInvertible r.dir r.common.updates
Inverts (sync_op s) = IsInvertible s.file s.common.updates
Inverts (set_attr_op s) = IsInvertible s.dir s.common.updates
Inverts (rename_op r) = is_zero_update r.new_dir ≡ true
Inverts _ = ⊥

abbrev pub Swaps : Op → Result Op → Type 0
Swaps o res = (o' : Op) × (res ≡ ok o') × (all_updates o' ≡ swap_all (all_updates o))

abbrev pub Inverse : Op → Result Op → Type 0
Inverse (rename_op r) res = res ≡ err nil_ptr
Inverse o res = Swaps o res

-- For a create, rm, sync or setAttr op, whose directory or file has a pointer before and after and
-- whose other updates do not make that new pointer: invertOpForLocalNotifications succeeds, and the
-- updates of its result are those of the op, in their order, with the old and the new pointer
-- exchanged. For every rename within one directory, whose NewDir is empty, it fails, since it calls
-- newRenameOp with the zero pointer.
pub invert_op_for_local_notifications-Inverse :
    (o : Op) → Inverts o → Inverse o (invert_op_for_local_notifications o)
unfolding invert_op_for_local_notifications opposite_op new_rename_op new_rm_op new_create_op
    new_sync_op new_set_attr_op all_updates add_update
invert_op_for_local_notifications-Inverse (rename_op r) z = ground arith
invert_op_for_local_notifications-Inverse (create_op c) n = (
  rm_with c.new_name (swap_all c.common.updates) (swap c.dir),
  rw (n.0) (
      reverse_updates-embed (rm_with c.new_name) (λ us d p q sd ne. ground (arith, sd, ne))
        (λ us d q sd sq. ground (arith, sd, sq, same_pointer_refl d.unref)) c.common.updates []
        c.dir (unset c.dir.ref) refl n.0 n.1 n.2),
  sym (swap_all-append c.common.updates (c.dir ∷ [])),
)
invert_op_for_local_notifications-Inverse (rm_op r) n = (
  create_with r.old_name (swap_all r.common.updates) (swap r.dir),
  rw (n.0) (
      reverse_updates-embed (create_with r.old_name) (λ us d p q sd ne. ground (arith, sd, ne))
        (λ us d q sd sq. ground (arith, sd, sq, same_pointer_refl d.unref)) r.common.updates []
        r.dir (unset r.dir.ref) refl n.0 n.1 n.2),
  sym (swap_all-append r.common.updates (r.dir ∷ [])),
)
invert_op_for_local_notifications-Inverse (sync_op s) n = (
  sync_with s.writes (swap_all s.common.updates) (swap s.file),
  rw (n.0) (
      reverse_updates-embed (sync_with s.writes) (λ us d p q sd ne. ground (arith, sd, ne))
        (λ us d q sd sq. ground (arith, sd, sq, same_pointer_refl d.unref)) s.common.updates []
        s.file (unset s.file.ref) refl n.0 n.1 n.2),
  sym (swap_all-append s.common.updates (s.file ∷ [])),
)
invert_op_for_local_notifications-Inverse (set_attr_op s) n = (
  set_attr_with s (swap_all s.common.updates) (swap s.dir),
  rw (n.0) (
      reverse_updates-embed (set_attr_with s) (λ us d p q sd ne. ground (arith, sd, ne))
        (λ us d q sd sq. ground (arith, sd, sq, same_pointer_refl d.unref)) s.common.updates []
        s.dir (unset s.dir.ref) refl n.0 n.1 n.2),
  sym (swap_all-append s.common.updates (s.dir ∷ [])),
)
invert_op_for_local_notifications-Inverse (resolution_op _) n = elim n [ ]
invert_op_for_local_notifications-Inverse (rekey_op _) n = elim n [ ]
invert_op_for_local_notifications-Inverse (gc_op _) n = elim n [ ]
