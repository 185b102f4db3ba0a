-- ===== src/Ordinal.antt =====
-- `journalOrdinal` of libkbfs/disk_journal.go: a uint64 that is written as 16 hexadecimal digits.
use kbfs.Prelude.{
  ℕ, zero, suc, ◌+◌, ◌-◌, ◌*◌, ◌/◌, ◌%◌, ◌^◌, ◌<◌, ◌≡◌, refl, ◌&&◌, Option, none, some, [], ◌∷◌,
  ◌++◌, Result, ok, err, invalid_ordinal, length, length-append, leb, ltb, ◌==◌, if◌then◌else◌,
  arith, not, ap, ◌∙◌, Option-cases, inl, inr,
}
use native.Mathlib.Nat.{pow-suc}
use kbfs.FileStore.{Bytes}

abbrev pub two64 : ℕ
two64 = 2 ^ 64

-- `%x` of one digit
unfoldable pub hex_digit : ℕ → ℕ
hex_digit d = if ltb d 10 then b'0' + d else b'a' + (d - 10)

-- The last `n` hexadecimal digits of a number.
unfoldable pub hex_digits : ℕ → ℕ → Bytes
unfolding hex_digit
hex_digits zero o = []
hex_digits (suc n) o = hex_digits n (o / 16) ++ hex_digit (o % 16) ∷ []

-- `journalOrdinal.String`: `fmt.Sprintf("%016x", …)`, where 16 digits are enough for a uint64.
unfoldable pub ordinal_string : ℕ → Bytes
ordinal_string o = hex_digits 16 o

-- The digits that `strconv.ParseUint` takes in base 16.
unfoldable pub hex_value : ℕ → Option ℕ
hex_value c =
    if leb b'0' c && leb c b'9'
    then some (c - b'0')
    else if leb b'a' c && leb c b'f'
    then some (c - b'a' + 10)
    else if leb b'A' c && leb c b'F'
    then some (c - b'A' + 10)
    else none

-- `strconv.ParseUint(s, 16, 64)` on a text of 16 characters, which cannot exceed 64 bits.
unfoldable pub parse_hex : ℕ → Bytes → Result ℕ
parse_hex acc [] = ok acc
parse_hex acc (c ∷ cs) = elim (hex_value c) [
  | none ↦ err invalid_ordinal
  | some d ↦ parse_hex (acc * 16 + d) cs
]

-- `makeJournalOrdinal`
unfoldable pub make_journal_ordinal : Bytes → Result ℕ
make_journal_ordinal s = if not (length s == 16) then err invalid_ordinal else parse_hex 0 s

hex_value-hex_digit : (d : ℕ) → d < 16 → hex_value (hex_digit d) ≡ some d
unfolding hex_value hex_digit
hex_value-hex_digit d h = ground arith

parse_hex-append :
    (acc a : ℕ) (xs : Bytes) (d : ℕ)
    → d < 16
    → parse_hex acc xs ≡ ok a
    → parse_hex acc (xs ++ hex_digit d ∷ []) ≡ ok (a * 16 + d)
unfolding parse_hex
parse_hex-append acc a [] d h e = ground (arith, hex_value-hex_digit d h)
parse_hex-append acc a (x ∷ xs) d h e = elim (Option-cases (hex_value x)) [
  | inl bad ↦ absurd (ground arith)
  | inr (v, good) ↦
      rw (good, parse_hex) (parse_hex-append (acc * 16 + v) a xs d h (rw (good, parse_hex) at e))
]

parse_hex-hex_digits :
    (n acc o : ℕ) → o < 16 ^ n → parse_hex acc (hex_digits n o) ≡ ok (acc * 16 ^ n + o)
unfolding hex_digits
parse_hex-hex_digits zero acc o h = unfold parse_hex in ap ok (omega arith)
parse_hex-hex_digits (suc n) acc o h =
    parse_hex-append acc (acc * 16 ^ n + o / 16) (hex_digits n (o / 16)) (o % 16) (omega arith)
      (parse_hex-hex_digits n acc (o / 16) (omega (arith, pow-suc 16 n)))
    ∙ ap ok (omega (arith, ap (λ (t : ℕ). acc * t) (pow-suc 16 n)))

length-hex_digits : (n o : ℕ) → length (hex_digits n o) ≡ n
unfolding hex_digits
length-hex_digits zero o = refl
length-hex_digits (suc n) o = omega (
  arith,
  length-append (hex_digits n (o / 16)) (hex_digit (o % 16) ∷ []),
  length-hex_digits n (o / 16),
)

-- An ordinal that is written out and read back is the same ordinal, for every uint64.
pub make_journal_ordinal-ordinal_string :
    (o : ℕ) → o < two64 → make_journal_ordinal (ordinal_string o) ≡ ok o
unfolding make_journal_ordinal ordinal_string
make_journal_ordinal-ordinal_string o h =
    rw (length-hex_digits 16 o) (parse_hex-hex_digits 16 0 o h ∙ ap ok (omega arith))
