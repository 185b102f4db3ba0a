-- ===== src/BlockServer/Refs/Laws.antt =====
-- What the operations on a reference map keep.
use kbfs.Prelude.{ℕ, ◌≡◌, true, none, some, ok, arith, ◌==◌, if◌then◌else◌}
use kbfs.Prelude.Maps.{lookup, lookup-insert, lookup-erase}
use kbfs.BlockServer.Refs.{
  BlockContext, BlockRefEntry, BlockRefMap, RefStatus, same_context, put_ref, remove_ref,
}

pub same_context→eq : (c d : BlockContext) → same_context c d ≡ true → c ≡ d
same_context→eq c d h = ground arith

-- Every reference stands under its own nonce.
abbrev pub IsKeyed : BlockRefMap → Type 0
IsKeyed refs =
    (nonce : ℕ) (e : BlockRefEntry) → lookup nonce refs ≡ some e → e.context.ref_nonce ≡ nonce

pub put_ref-lookup :
    (refs refs' : BlockRefMap) (c : BlockContext) (st : RefStatus) (j : ℕ)
    → put_ref refs c st ≡ ok refs'
    → lookup j refs'
      ≡ (if c.ref_nonce == j then some (record { status = st; context = c }) else lookup j refs)
unfolding put_ref
put_ref-lookup refs refs' c st j h =
    ground (arith, lookup-insert c.ref_nonce j (record { status = st; context = c }) refs)

pub put_ref-IsKeyed :
    (refs refs' : BlockRefMap) (c : BlockContext) (st : RefStatus)
    → IsKeyed refs
    → put_ref refs c st ≡ ok refs'
    → IsKeyed refs'
put_ref-IsKeyed refs refs' c st k h nonce e l =
    ground (arith, put_ref-lookup refs refs' c st nonce h, k nonce e)

pub remove_ref-lookup :
    (refs refs' : BlockRefMap) (c : BlockContext) (j : ℕ)
    → remove_ref refs c ≡ ok refs'
    → lookup j refs' ≡ (if c.ref_nonce == j then none else lookup j refs)
unfolding remove_ref
remove_ref-lookup refs refs' c j h = ground (arith, lookup-erase c.ref_nonce j refs)

pub remove_ref-IsKeyed :
    (refs refs' : BlockRefMap) (c : BlockContext)
    → IsKeyed refs
    → remove_ref refs c ≡ ok refs'
    → IsKeyed refs'
remove_ref-IsKeyed refs refs' c k h nonce e l =
    ground (arith, remove_ref-lookup refs refs' c nonce h, k nonce e)

pub same_context_refl : (c : BlockContext) → same_context c c ≡ true
same_context_refl c = ground arith
