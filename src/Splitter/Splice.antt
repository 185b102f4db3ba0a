-- ===== src/Splitter/Splice.antt =====
-- Bytes written over other bytes.
use kbfs.Prelude.{
  ℕ, zero, suc, ◌+◌, ◌-◌, ◌<◌, ◌≤◌, ◌≡◌, refl, ap, ◌∙◌, sym, [], ◌∷◌, ◌++◌, length, take, drop,
  arith, length-append, length-take, length-drop,
}
use kbfs.FileStore.{Bytes}
use kbfs.Splitter.{extended}

-- The byte at a position, 0 past the end
abbrev pub byte_at : Bytes → ℕ → ℕ
byte_at [] i = 0
byte_at (x ∷ xs) zero = x
byte_at (x ∷ xs) (suc i) = byte_at xs i

pub byte_at-extended : (xs : Bytes) (n i : ℕ) → byte_at (extended xs n) i ≡ byte_at xs i
byte_at-extended [] zero i = refl
byte_at-extended [] (suc n) zero = refl
byte_at-extended [] (suc n) (suc i) = byte_at-extended [] n i
byte_at-extended (x ∷ xs) n zero = refl
byte_at-extended (x ∷ xs) n (suc i) = byte_at-extended xs n i

-- `count` bytes of `ys` written over `xs` from `off` on
abbrev pub splice : Bytes → Bytes → ℕ → ℕ → Bytes
splice xs ys off count = take off xs ++ (take count ys ++ drop (off + count) xs)

pub extended-zero : (xs : Bytes) → extended xs 0 ≡ xs
extended-zero [] = refl
extended-zero (x ∷ xs) = ap (λ z. x ∷ z) (extended-zero xs)

byte_at-left :
    (xs ys : Bytes) (n i : ℕ) → length xs ≡ n → i < n → byte_at (xs ++ ys) i ≡ byte_at xs i
byte_at-left [] ys n i e h = absurd (omega (arith, e, h))
byte_at-left (x ∷ xs) ys n zero e h = refl
byte_at-left (x ∷ xs) ys n (suc i) e h =
    byte_at-left xs ys (n - 1) i (omega (arith, e)) (omega (arith, h))

byte_at-right :
    (xs ys : Bytes) (n i : ℕ) → length xs ≡ n → byte_at (xs ++ ys) (n + i) ≡ byte_at ys i
byte_at-right [] ys n i e = let same : n + i ≡ i = omega (arith, e) in ap (λ j. byte_at ys j) same
byte_at-right (x ∷ xs) ys n i e =
    let next : n + i ≡ suc (n - 1 + i) = omega (arith, e) in
    ap (λ j. byte_at (x ∷ xs ++ ys) j) next ∙ byte_at-right xs ys (n - 1) i (omega (arith, e))

byte_at-take : (n : ℕ) (xs : Bytes) (i : ℕ) → i < n → byte_at (take n xs) i ≡ byte_at xs i
byte_at-take zero xs i h = absurd (omega (arith, h))
byte_at-take (suc n) [] i h = refl
byte_at-take (suc n) (x ∷ xs) zero h = refl
byte_at-take (suc n) (x ∷ xs) (suc i) h = byte_at-take n xs i (omega (arith, h))

byte_at-drop : (n : ℕ) (xs : Bytes) (i : ℕ) → byte_at (drop n xs) i ≡ byte_at xs (n + i)
byte_at-drop zero xs i = let same : 0 + i ≡ i = omega arith in ap (λ j. byte_at xs j) (sym same)
byte_at-drop (suc n) [] i = refl
byte_at-drop (suc n) (x ∷ xs) i =
    let next : suc n + i ≡ suc (n + i) = omega arith in
    byte_at-drop n xs i ∙ ap (λ j. byte_at (x ∷ xs) j) (sym next)

-- The three parts of a splice
pub byte_at-splice :
    (xs ys : Bytes) (off count : ℕ)
    → off ≤ length xs
    → count ≤ length ys
    → ((i : ℕ) → i < off → byte_at (splice xs ys off count) i ≡ byte_at xs i)
      × ((i : ℕ) → i < count → byte_at (splice xs ys off count) (off + i) ≡ byte_at ys i)
      × ((i : ℕ) → off + count ≤ i → byte_at (splice xs ys off count) i ≡ byte_at xs i)
byte_at-splice xs ys off count h k =
    let mid = take count ys ++ drop (off + count) xs in
    let l1 : length (take off xs) ≡ off = omega (arith, length-take off xs, h) in
    let l2 : length (take count ys) ≡ count = omega (arith, length-take count ys, k) in
    (
      λ i u. byte_at-left (take off xs) mid off i l1 u ∙ byte_at-take off xs i u,
      λ i u.
          byte_at-right (take off xs) mid off i l1
          ∙ byte_at-left (take count ys) (drop (off + count) xs) count i l2 u
          ∙ byte_at-take count ys i u,
      λ i u.
          let rest : i ≡ off + (count + (i - off - count)) = omega (arith, u) in
          let back : off + count + (i - off - count) ≡ i = omega (arith, u) in
          ap (λ j. byte_at (splice xs ys off count) j) rest
          ∙ byte_at-right (take off xs) mid off (count + (i - off - count)) l1
          ∙ byte_at-right (take count ys) (drop (off + count) xs) count (i - off - count) l2
          ∙ byte_at-drop (off + count) xs (i - off - count)
          ∙ ap (λ j. byte_at xs j) back,
    )

pub length-splice :
    (xs ys : Bytes) (off count : ℕ)
    → off + count ≤ length xs
    → count ≤ length ys
    → length (splice xs ys off count) ≡ length xs
length-splice xs ys off count h k = omega (
  arith,
  h,
  k,
  length-append (take off xs) (take count ys ++ drop (off + count) xs),
  length-append (take count ys) (drop (off + count) xs),
  length-take off xs,
  length-take count ys,
  length-drop (off + count) xs,
)
