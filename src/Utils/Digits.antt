-- ===== src/Utils/Digits.antt =====
-- Base 62 and 91: the digits spell the number.
use anki.Prelude.{
  ℕ, Bool, not, ◌&&◌, List, zero, suc, true, [], ◌∷◌, ◌++◌, ◌+◌, ◌*◌, ◌/◌, ◌%◌, ◌<◌, ◌≤◌, ◌≡◌, ap,
  length, contains, IsDistinct, ◌==◌, if◌then◌else◌, Bool-cases, inl, inr, arith,
}
use anki.Prelude.Text.{Text}
use anki.Utils.{letters_and_digits, char_at, digits_of, base62}
use native.Mathlib.Nat.{div-add-mod, mod-lt, mul-le-mul_right, mul_comm}

-- Whether a list holds no number twice.
abbrev pub is_distinct : List ℕ → Bool
is_distinct [] = true
is_distinct (x ∷ xs) = not (contains x xs) && is_distinct xs

pub is_distinct-IsDistinct : (xs : List ℕ) → is_distinct xs ≡ true → IsDistinct xs
is_distinct-IsDistinct [] h = tt
is_distinct-IsDistinct (x ∷ xs) h =
    (ground (arith, h), is_distinct-IsDistinct xs (ground (arith, h)))

-- Where a character stands in a table.
abbrev position : ℕ → Text → ℕ
position c [] = 0
position c (x ∷ xs) = let rest = position c xs in if c == x then 0 else suc rest

-- The number that the characters spell in a table, read from the left.
abbrev read : Text → ℕ → Text → ℕ
read table acc [] = acc
read table acc (c ∷ s) = read table (acc * length table + position c table) s

-- The number that the characters of a table spell as digits.
abbrev pub decode : Text → Text → ℕ
decode table s = read table 0 s

char_at-held : (table : Text) (i : ℕ) → i < length table → contains (char_at table i) table ≡ true
char_at-held [] i h = absurd (omega arith)
char_at-held (c ∷ cs) zero h = ground arith
char_at-held (c ∷ cs) (suc i) h = ground (arith, char_at-held cs i (omega arith))

position-char_at :
    (table : Text) (i : ℕ)
    → IsDistinct table
    → i < length table
    → position (char_at table i) table ≡ i
position-char_at [] i d h = absurd (omega arith)
position-char_at (c ∷ cs) zero d h = ground arith
position-char_at (c ∷ cs) (suc i) d h =
    ground (arith, position-char_at cs i d.1 (omega arith), char_at-held cs i (omega arith), d.0)

module _ (table : Text) (d : IsDistinct table) (wide : 1 < length table) where
  read-digits_of :
      (fuel num : ℕ) (buf : Text)
      → num ≤ fuel
      → read table 0 (digits_of table fuel num buf) ≡ read table num buf
  unfolding digits_of
  read-digits_of zero num buf h = ap (λ n. read table n buf) (omega arith)
  read-digits_of (suc fuel) num buf h = elim (Bool-cases (num == 0)) [
    | inl e ↦ ground (arith, e)
    | inr e ↦
        let q = num / length table in
        let r = num % length table in
        let c = char_at table r in
        let split = div-add-mod num (length table) in
        let less = mul-le-mul_right {m = 2} {n = length table} q (omega arith) in
        let back : q * length table + position c table ≡ num = ground (
          arith,
          split,
          position-char_at table r d (mod-lt num (omega arith)),
          mul_comm q (length table),
        ) in
        ground (
          arith,
          e,
          read-digits_of fuel q (c ∷ buf) (ground (arith, e, split, less)),
          ap (λ n. read table n buf) back,
        )
  ]

-- Every number is spelled by its text in base 62 with extra characters, if no character of the
-- table stands twice.
pub decode-base62 :
    (num : ℕ) (extra : Text)
    → IsDistinct (letters_and_digits ++ extra)
    → decode (letters_and_digits ++ extra) (base62 num extra) ≡ num
unfolding base62
decode-base62 num extra d =
    read-digits_of (letters_and_digits ++ extra) d (omega arith) num num [] (omega arith)
