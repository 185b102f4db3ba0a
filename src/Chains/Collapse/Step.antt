-- ===== src/Chains/Collapse/Step.antt =====
-- One round of the loop of `crChain.collapse` of libkbfs/cr_chains.go keeps its invariant.
use kbfs.Prelude.{
  ℕ, ◌<◌, Bool, true, false, ◌==◌, List, [], ◌∷◌, ◌++◌, if◌then◌else◌, Option, none, some, length,
  length-append, ◌≡◌, ◌≢◌, refl, sym, ap, arith, Bool-cases, Option-cases, inl, inr, subst, ◌∙◌,
}
use kbfs.Prelude.Maps.{Map, insert}
use kbfs.Prelude.Dict.{find, store, discard, find-store, find-discard}
use kbfs.FileStore.{Bytes, same_bytes, same_bytes_iff, bytes_key}
use kbfs.Ops.Op.{Op, create_op, rm_op, CreateOp, RmOp}
use kbfs.Chains.Collapse.{Collapsing, is_removed, note_op}
use kbfs.Chains.Collapse.Replay.{
  Entry, absent, replay, replay_op, Irrelevant, Irrelevant-snoc, Irrelevant-last, Passes, MayCreate,
}
use kbfs.Chains.Collapse.Sound.{Mark, Agrees, Agrees-pass, Agrees-create, Agrees-rm, Agrees-cancel}
use kbfs.Chains.Collapse.Effect.{
  is_removed-insert, create_indices, same-insert, create-gone, create-later, create-same,
}

abbrev pub removed : Collapsing → ℕ → Bool
removed s k = is_removed k s.indices_to_remove

note_rm-none :
    (i : ℕ) (r : RmOp) (s : Collapsing)
    → find r.old_name s.creates_seen ≡ none
    → note_op i (rm_op r) s ≡ s
unfolding note_op
note_rm-none i r s f = rw (note_op, f) refl

note_rm-some :
    (i j : ℕ) (r : RmOp) (s : Collapsing)
    → find r.old_name s.creates_seen ≡ some j
    → note_op i (rm_op r) s ≡ record {
      creates_seen = discard r.old_name s.creates_seen;
      indices_to_remove = insert i true (insert j true s.indices_to_remove);
    }
unfolding note_op
note_rm-some i j r s f = rw (note_op, f) refl

two_removed :
    (i j k : ℕ) (m : Map Bool)
    → is_removed k (insert i true (insert j true m))
      ≡ (if i == k then true else if j == k then true else is_removed k m)
two_removed i j k m =
    ground (arith, is_removed-insert i k (insert j true m), is_removed-insert j k m)

module _ (x : Bytes) (e : Entry) where
  -- The indices of the create ops of other names do not matter.
  abbrev pub Others : List Op → List (Bytes × ℕ) → Type 0
  Others ops seen =
      (n : Bytes) (j : ℕ) → find n seen ≡ some j → n ≢ x → (j < length ops) × Irrelevant x ops j

  Others-snoc :
      (ops : List Op) (seen : List (Bytes × ℕ)) (o : Op)
      → Others ops seen
      → Others (ops ++ o ∷ []) seen
  Others-snoc ops seen o others n j f ne =
      let before = others n j f ne in
      (
        omega (arith, before.0, length-append ops (o ∷ [])),
        Irrelevant-snoc x ops o j before.0 before.1,
      )

  abbrev pub Inv : List Op → Collapsing → Type 0
  Inv ops s = Agrees x e ops (removed s) (find x s.creates_seen) × Others ops s.creates_seen

  different : (n : Bytes) → n ≢ x → same_bytes n x ≡ false
  different n ne = elim (Bool-cases (same_bytes n x)) [
    | inl same ↦ absurd (ne ((same_bytes_iff n x).0 same))
    | inr differ ↦ differ
  ]

  Mark-lt :
      (ops : List Op) (r : ℕ → Bool) (mark : Option ℕ)
      → Mark x e ops r mark
      → (j : ℕ) → mark ≡ some j
      → j < length ops
  Mark-lt ops r none k j f = absurd (cc (f))
  Mark-lt ops r (some i) k j f = let same : i ≡ j = cc (f) in omega (arith, same, k.0)

  -- The index of the new create op, and the older ones
  Others-store :
      (ops : List Op) (seen : List (Bytes × ℕ)) (c : CreateOp)
      → (c.new_name ≢ x → Irrelevant x (ops ++ create_op c ∷ []) (length ops))
      → Others ops seen
      → Others (ops ++ create_op c ∷ []) (store c.new_name (length ops) seen)
  Others-store ops seen c new others n j f ne = elim (Bool-cases (same_bytes c.new_name n)) [
    | inl same ↦
        let n-eq : c.new_name ≡ n = (same_bytes_iff c.new_name n).0 same in
        let j-eq : length ops ≡ j =
          ground (arith, f, find-store c.new_name n (length ops) seen, same) in
        (
          omega (arith, j-eq, length-append ops (create_op c ∷ [])),
          subst (λ i. Irrelevant x (ops ++ create_op c ∷ []) i) j-eq
              (new (λ eq. ne (sym n-eq ∙ eq))),
        )
    | inr differ ↦
        Others-snoc ops seen (create_op c) others n j
          (ground (arith, f, find-store c.new_name n (length ops) seen, differ)) ne
  ]

  Others-discard :
      (ops : List Op) (seen : List (Bytes × ℕ)) (r : RmOp)
      → Others ops seen
      → Others (ops ++ rm_op r ∷ []) (discard r.old_name seen)
  Others-discard ops seen r others n j f ne =
      Others-snoc ops seen (rm_op r) others n j (ground (arith, f, find-discard r.old_name n seen))
        ne

  -- An op that leaves `createsSeen` and the set alone, and the name too
  pub Inv-neutral :
      (ops : List Op) (s : Collapsing) (o : Op) → Passes x o → Inv ops s → Inv (ops ++ o ∷ []) s
  Inv-neutral ops s o pass inv = (
    Agrees-pass x e ops (removed s) o (removed s) (find x s.creates_seen) pass (λ d. refl)
        (λ k le. inv.0.2 k (omega arith)) inv.0,
    Others-snoc ops s.creates_seen o inv.1,
  )

  pub Inv-create_self :
      (ops : List Op) (s : Collapsing) (c : CreateOp)
      → c.new_name ≡ x
      → MayCreate c.renamed (replay x ops e)
      → Inv ops s
      → Inv (ops ++ create_op c ∷ []) (note_op (length ops) (create_op c) s)
  unfolding note_op
  Inv-create_self ops s c q may inv =
      let m = s.indices_to_remove in
      let same = (same_bytes_iff c.new_name x).1 q in
      let mark : find c.new_name s.creates_seen ≡ find x s.creates_seen =
        ap (λ n. find n s.creates_seen) q in
      let agrees = subst (λ d. Agrees x e ops (removed s) d) (sym mark) inv.0 in
      let below = Mark-lt ops (removed s) (find c.new_name s.creates_seen) agrees.1 in
      let found : find x (store c.new_name (length ops) s.creates_seen) ≡ some (length ops) =
        find-store c.new_name x (length ops) s.creates_seen ∙ rw same refl in
      (
        subst
            (λ d.
              Agrees x e (ops ++ create_op c ∷ [])
                (λ k. is_removed k (create_indices (find c.new_name s.creates_seen) c.renamed m)) d)
            (sym found)
            (Agrees-create x e ops (removed s) (create_op c)
              (λ k. is_removed k (create_indices (find c.new_name s.creates_seen) c.renamed m))
              (λ f. rw same refl)
              (create-later x e ops m (find c.new_name s.creates_seen) c.renamed (length ops) below
                (inv.0.2 (length ops) (omega arith)) (omega arith))
              (create-gone x e ops m (find c.new_name s.creates_seen) c.renamed agrees may)
              (λ k le.
                create-later x e ops m (find c.new_name s.creates_seen) c.renamed k below
                  (inv.0.2 k (omega arith)) (omega arith))),
        Others-store ops s.creates_seen c (λ ne. absurd (ne q)) inv.1,
      )

  pub Inv-create_other :
      (ops : List Op) (s : Collapsing) (c : CreateOp)
      → c.new_name ≢ x
      → Inv ops s
      → Inv (ops ++ create_op c ∷ []) (note_op (length ops) (create_op c) s)
  unfolding note_op
  Inv-create_other ops s c q inv =
      let m = s.indices_to_remove in
      let differ = different c.new_name q in
      let mark = find c.new_name s.creates_seen in
      let others = λ (j : ℕ) (f : mark ≡ some j). inv.1 c.new_name j f q in
      let pass : Passes x (create_op c) = λ f. rw differ refl in
      (
        subst
            (λ d.
              Agrees x e (ops ++ create_op c ∷ [])
                (λ k. is_removed k (create_indices mark c.renamed m)) d)
            (sym (find-store c.new_name x (length ops) s.creates_seen ∙ rw differ refl))
            (Agrees-pass x e ops (removed s) (create_op c)
              (λ k. is_removed k (create_indices mark c.renamed m)) (find x s.creates_seen) pass
              (create-same x e ops m mark c.renamed (λ j f. (others j f).1))
              (λ k le.
                create-later x e ops m mark c.renamed k (λ j f. (others j f).0)
                  (inv.0.2 k (omega arith)) (omega arith))
              inv.0),
        Others-store ops s.creates_seen c (λ ne. Irrelevant-last x ops (create_op c) pass) inv.1,
      )

  pub Inv-rm_self :
      (ops : List Op) (s : Collapsing) (r : RmOp)
      → r.old_name ≡ x
      → Inv ops s
      → Inv (ops ++ rm_op r ∷ []) (note_op (length ops) (rm_op r) s)
  Inv-rm_self ops s r q inv =
      let m = s.indices_to_remove in
      let same = (same_bytes_iff r.old_name x).1 q in
      let at_x : find x s.creates_seen ≡ find r.old_name s.creates_seen =
        ap (λ n. find n s.creates_seen) (sym q) in
      let takes : (f : Entry) → replay_op x (rm_op r) f ≡ absent = λ f. rw same refl in
      elim (Option-cases (find r.old_name s.creates_seen)) [
        | inl none_seen ↦ rw (note_rm-none (length ops) r s none_seen) (
          subst (λ d. Agrees x e (ops ++ rm_op r ∷ []) (removed s) d) (sym (at_x ∙ none_seen))
              (Agrees-rm x e ops (removed s) (rm_op r) takes
                (subst (λ d. Agrees x e ops (removed s) d) (at_x ∙ none_seen) inv.0)),
          Others-snoc ops s.creates_seen (rm_op r) inv.1,
        )
        | inr (j, f) ↦ rw (note_rm-some (length ops) j r s f) (
          subst
              (λ d.
                Agrees x e (ops ++ rm_op r ∷ [])
                  (λ k. is_removed k (insert (length ops) true (insert j true m))) d)
              {x = none} (sym (find-discard r.old_name x s.creates_seen ∙ rw same refl))
              (Agrees-cancel x e ops (removed s) (rm_op r)
                (λ k. is_removed k (insert (length ops) true (insert j true m))) j takes
                (λ k. two_removed (length ops) j k m)
                (subst (λ d. Agrees x e ops (removed s) d) (at_x ∙ f) inv.0)),
          Others-discard ops s.creates_seen r inv.1,
        )
      ]

  pub Inv-rm_other :
      (ops : List Op) (s : Collapsing) (r : RmOp)
      → r.old_name ≢ x
      → Inv ops s
      → Inv (ops ++ rm_op r ∷ []) (note_op (length ops) (rm_op r) s)
  Inv-rm_other ops s r q inv =
      let m = s.indices_to_remove in
      let differ = different r.old_name q in
      let pass : Passes x (rm_op r) = λ f. rw differ refl in
      elim (Option-cases (find r.old_name s.creates_seen)) [
        | inl none_seen ↦
            rw (note_rm-none (length ops) r s none_seen) (Inv-neutral ops s (rm_op r) pass inv)
        | inr (j, f) ↦
            let other = inv.1 r.old_name j f q in
            rw (note_rm-some (length ops) j r s f) (
              subst
                  (λ d.
                    Agrees x e (ops ++ rm_op r ∷ [])
                      (λ k. is_removed k (insert (length ops) true (insert j true m))) d)
                  (sym (find-discard r.old_name x s.creates_seen ∙ rw differ refl))
                  (Agrees-pass x e ops (removed s) (rm_op r)
                    (λ k. is_removed k (insert (length ops) true (insert j true m)))
                    (find x s.creates_seen) pass
                    (same-insert x e ops m
                      (λ k. is_removed k (insert (length ops) true (insert j true m))) j other.1
                      (λ k lt. two_removed (length ops) j k m ∙ ground (arith, lt)))
                    (λ k le.
                      two_removed (length ops) j k m ∙ ground (arith, le, other.0, inv.0.2 k))
                    inv.0),
              Others-discard ops s.creates_seen r inv.1,
            )
      ]
