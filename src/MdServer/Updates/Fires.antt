-- ===== src/MdServer/Updates/Fires.antt =====
-- An observer is told of the next head from another server.
use kbfs.Prelude.{
  ℕ, true, false, not, ◌&&◌, ◌==◌, ◌≡◌, ◌≢◌, some, List, [], ◌∷◌, ◌++◌, ok, arith, Bool-cases,
  Option-cases, inl, inr, ==_iff, sym, subst, ◌⊎◌,
}
use kbfs.Prelude.Int.{ℤ, ltb_ℤ}
use kbfs.Prelude.Maps.{Map, lookup, insert, lookup-insert, lookup-erase}
use kbfs.MdServer.Updates.{
  UpdateManager, UpdateCall, head_call, register_call, others_of, own_of, observers_of,
  is_empty_map, is_head_session, set_head, register_for_update, perform_update_call,
  run_update_calls, has,
}

has-right : (c : ℕ) (xs ys : List ℕ) → has c ys ≡ true → has c (xs ++ ys) ≡ true
has-right c [] ys h = h
has-right c (x ∷ xs) ys h = ground (arith, has-right c xs ys h)

has-left : (c : ℕ) (xs ys : List ℕ) → has c xs ≡ true → has c (xs ++ ys) ≡ true
has-left c [] ys h = absurd (ground arith)
has-left c (x ∷ xs) ys h = ground (arith, h, has-left c xs ys)

others_of-has :
    (server other c : ℕ) (os : Map ℕ)
    → other ≢ server
    → lookup server os ≡ some c
    → has c (others_of other os) ≡ true
others_of-has server other c [] d h = absurd (ground arith)
others_of-has server other c ((s, x) ∷ os) d h =
    ground (arith, h, others_of-has server other c os d, ==_iff s server, ==_iff s other)

own_of-lookup :
    (server c : ℕ) (os : Map ℕ)
    → lookup server os ≡ some c
    → lookup server (own_of server os) ≡ some c
own_of-lookup server c [] h = h
own_of-lookup server c ((s, x) ∷ os) h = ground (arith, h, own_of-lookup server c os)

-- The channel waits for a head of the folder from another server, or has fired.
abbrev pub Waits : ℕ → ℕ → ℕ → UpdateManager → Type 0
Waits tlf server c m = (lookup server (observers_of tlf m) ≡ some c) ⊎ (has c m.fired ≡ true)

fired-Waits :
    (tlf server c : ℕ) (call : UpdateCall) (m : UpdateManager)
    → has c m.fired ≡ true
    → has c (perform_update_call call m).fired ≡ true
unfolding perform_update_call set_head register_for_update
fired-Waits tlf server c (head_call t s) m h =
    has-right c (others_of s (observers_of t m)) m.fired h
fired-Waits tlf server c (register_call t from_rev to_rev s channel) m h = ground (arith, h)

head-fires :
    (tlf server other c : ℕ) (m : UpdateManager)
    → other ≢ server
    → lookup server (observers_of tlf m) ≡ some c
    → has c (set_head tlf other m).fired ≡ true
unfolding set_head
head-fires tlf server other c m d h =
    has-left c (others_of other (observers_of tlf m)) m.fired
      (others_of-has server other c (observers_of tlf m) d h)

own_of-some :
    (server c : ℕ) (os : Map ℕ)
    → lookup server os ≡ some c
    → is_empty_map (own_of server os) ≡ false
own_of-some server c [] h = absurd (ground arith)
own_of-some server c ((s, x) ∷ os) h = ground (arith, h, own_of-some server c os)

-- A head from the observer's own server leaves it waiting.
own-head-Waits :
    (tlf server c : ℕ) (m : UpdateManager)
    → lookup server (observers_of tlf m) ≡ some c
    → lookup server (observers_of tlf (set_head tlf server m)) ≡ some c
unfolding set_head
own-head-Waits tlf server c m h =
    let kept = own_of-lookup server c (observers_of tlf m) h in
    let some_left = own_of-some server c (observers_of tlf m) h in
    ground (
      arith,
      kept,
      some_left,
      lookup-insert tlf tlf (own_of server (observers_of tlf m)) m.observers,
    )

-- A head of another folder leaves it waiting.
other-head-Waits :
    (tlf t server s c : ℕ) (m : UpdateManager)
    → t ≢ tlf
    → lookup server (observers_of tlf m) ≡ some c
    → lookup server (observers_of tlf (set_head t s m)) ≡ some c
unfolding set_head
other-head-Waits tlf t server s c m d h = ground (
  arith,
  d,
  h,
  ==_iff t tlf,
  lookup-insert t tlf (own_of s (observers_of t m)) m.observers,
  lookup-erase t tlf m.observers,
)

register-Waits :
    (tlf t server s c channel : ℕ) (from_rev to_rev : ℤ) (m : UpdateManager)
    → lookup server (observers_of tlf m) ≡ some c
    → lookup server (observers_of tlf (register_for_update t from_rev to_rev s channel m).1)
      ≡ some c
unfolding register_for_update
register-Waits tlf t server s c channel from_rev to_rev m h = ground (
  arith,
  h,
  ==_iff t tlf,
  ==_iff s server,
  lookup-insert t tlf (insert s channel (observers_of t m)) m.observers,
  lookup-insert s server channel (observers_of t m),
)

perform-Waits :
    (tlf server c : ℕ) (call : UpdateCall) (m : UpdateManager)
    → Waits tlf server c m
    → Waits tlf server c (perform_update_call call m)
unfolding perform_update_call
perform-Waits tlf server c call m (inr f) = inr (fired-Waits tlf server c call m f)
perform-Waits tlf server c (register_call t from_rev to_rev s channel) m (inl w) =
    inl (register-Waits tlf t server s c channel from_rev to_rev m w)
perform-Waits tlf server c (head_call t s) m (inl w) = elim (Bool-cases (t == tlf)) [
  | inr elsewhere ↦ inl (
      other-head-Waits tlf t server s c m (λ e. absurd (ground (arith, elsewhere, ==_iff t tlf))) w)
  | inl here ↦
      let same = (==_iff t tlf).0 here in
      elim (Bool-cases (s == server)) [
        | inl own ↦
            let self = (==_iff s server).0 own in
            subst (λ x. Waits tlf server c (set_head x s m)) (sym same)
              (subst (λ x. Waits tlf server c (set_head tlf x m)) (sym self)
                (inl (own-head-Waits tlf server c m w)))
        | inr other ↦
            subst (λ x. Waits tlf server c (set_head x s m)) (sym same)
              (inr (
                head-fires tlf server s c m (λ e. absurd (ground (arith, other, ==_iff s server)))
                  w))
      ]
]

run-Waits :
    (tlf server c : ℕ) (cs : List UpdateCall) (m : UpdateManager)
    → Waits tlf server c m
    → Waits tlf server c (run_update_calls cs m)
run-Waits tlf server c [] m w = w
run-Waits tlf server c (x ∷ cs) m w =
    run-Waits tlf server c cs (perform_update_call x m) (perform-Waits tlf server c x m w)

registered-Waits :
    (tlf server channel : ℕ) (from_rev to_rev : ℤ) (m : UpdateManager)
    → (register_for_update tlf from_rev to_rev server channel m).0 ≡ ok channel
    → Waits tlf server channel (register_for_update tlf from_rev to_rev server channel m).1
unfolding register_for_update
registered-Waits tlf server channel from_rev to_rev m h =
    elim (Bool-cases
      (ltb_ℤ from_rev to_rev && not (is_head_session server (lookup tlf m.session_heads)))) [
        | inl past ↦ inr (ground (arith, past, ==_iff channel channel))
        | inr waits ↦ elim (Option-cases (lookup server (observers_of tlf m))) [
          | inr (c, twice) ↦ absurd (ground (arith, h, waits, twice))
          | inl new ↦ inl (
              ground (
                arith,
                waits,
                new,
                ==_iff tlf tlf,
                ==_iff server server,
                lookup-insert tlf tlf (insert server channel (observers_of tlf m)) m.observers,
                lookup-insert server server channel (observers_of tlf m),
              ))
        ]
      ]

-- A channel that `registerForUpdate` returned has fired at the latest when another server sets the next head
-- of the folder, whatever calls come in between.
pub register_for_update-fires :
    (tlf server other channel : ℕ) (curr_head merged_head : ℤ) (cs : List UpdateCall)
    (m : UpdateManager)
    → (register_for_update tlf curr_head merged_head server channel m).0 ≡ ok channel
    → other ≢ server
    → has channel
        (set_head tlf other (
          run_update_calls cs
            (register_for_update tlf curr_head merged_head server channel m).1)).fired
      ≡ true
unfolding set_head perform_update_call
register_for_update-fires tlf server other channel curr_head merged_head cs m h d =
    let m1 = (register_for_update tlf curr_head merged_head server channel m).1 in
    elim (run-Waits tlf server channel cs m1
      (registered-Waits tlf server channel curr_head merged_head m h)) [
        | inl w ↦ head-fires tlf server other channel (run_update_calls cs m1) d w
        | inr f ↦ fired-Waits tlf server channel (head_call tlf other) (run_update_calls cs m1) f
      ]
