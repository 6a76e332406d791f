-- ===== src/Utils.antt =====
-- pylib/anki/utils.py: numbers for new rows, ids in base 62 and 91, the fields of a note, and file
-- names.
pub mod Fields
pub mod Free
pub mod Digits
mod Tests
use Prim.Native.String.{String}
use anki.Prelude.{
  ℕ, zero, suc, Bool, true, false, not, ◌&&◌, ◌||◌, Option, none, some, List, [], ◌∷◌, ◌++◌, ◌+◌,
  ◌*◌, ◌/◌, ◌%◌, max, map, length, get_elem?, contains, ◌==◌, ltb, leb, if◌then◌else◌,
}
use anki.Prelude.Text.{Text, codes, split_on, join_with}

-- `while x in used: x += step`, for as many rounds as there is fuel.
unfoldable pub skip_used : ℕ → ℕ → ℕ → List ℕ → ℕ
skip_used step zero x used = x
skip_used step (suc fuel) x used = elim (contains x used) [
  | true ↦ skip_used step fuel (x + step) used
  | false ↦ x
]

-- Each round leaves one of the ids behind, so their number is fuel enough.
unfoldable pub next_free : ℕ → ℕ → List ℕ → ℕ
next_free step x used = skip_used step (length used) x used

-- `str(n)` of a number, its last digit in front of `rest`. The number itself is fuel enough.
unfoldable pub decimal : ℕ → ℕ → Text → Text
decimal zero n rest = (48 + n % 10) ∷ rest
decimal (suc fuel) n rest = elim (ltb n 10) [
  | true ↦ (48 + n) ∷ rest
  | false ↦ decimal fuel (n / 10) ((48 + n % 10) ∷ rest)
]

unfoldable pub ids2str : List ℕ → Text
unfolding decimal
ids2str ids = 40 ∷ (join_with (44 ∷ []) (map (λ i. decimal i i []) ids) ++ 41 ∷ [])

-- `timestamp_id`, of the time in milliseconds and the ids in the table
unfoldable pub timestamp_id : ℕ → List ℕ → ℕ
timestamp_id now ids = next_free 1 now ids

-- `select max(id) from …`, where an empty table gives 0
unfoldable pub largest : List ℕ → ℕ
largest [] = 0
largest (x ∷ xs) = max x (largest xs)

unfoldable pub max_id : ℕ → List ℕ → List ℕ → ℕ
max_id now cards notes = max (max now (largest cards)) (largest notes) + 1

-- `string.ascii_letters + string.digits`
abbrev pub letters_and_digits : Text
letters_and_digits = codes "abcdefghijklmnopqrstuvwxyzABCDEFGHIJKLMNOPQRSTUVWXYZ0123456789"

-- `_BASE91_EXTRA_CHARS`
abbrev pub base91_extra_chars : Text
base91_extra_chars = codes "!#$%&()*+,-./:;<=>?@[]^_`{|}~"

-- `table[mod]`; the remainder is always in range
abbrev pub char_at : Text → ℕ → ℕ
char_at table i = elim (get_elem? table i) [ none ↦ 0 | some c ↦ c ]

-- The `while` loop of `base62`. The number itself is fuel enough.
unfoldable pub digits_of : Text → ℕ → ℕ → Text → Text
digits_of table zero num buf = buf
digits_of table (suc fuel) num buf = elim (num == 0) [
  | true ↦ buf
  | false ↦ digits_of table fuel (num / length table) (char_at table (num % length table) ∷ buf)
]

unfoldable pub base62 : ℕ → Text → Text
base62 num extra = digits_of (letters_and_digits ++ extra) num num []

unfoldable pub base91 : ℕ → Text
base91 num = base62 num base91_extra_chars

-- The character between the fields of a note.
abbrev pub field_separator : ℕ
field_separator = 31

unfoldable pub join_fields : List Text → Text
join_fields fields = join_with (field_separator ∷ []) fields

unfoldable pub split_fields : Text → List Text
split_fields s = split_on field_separator s

-- `INVALID_FILENAME_CHARS`
abbrev pub invalid_filename_chars : Text
invalid_filename_chars = codes ":*?\"<>|"

-- The first of the characters that the name holds.
unfoldable pub first_held : Text → Text → Option ℕ
first_held [] name = none
first_held (c ∷ cs) name = if contains c name then some c else first_held cs name

-- `str.strip().startswith(".")`, where `is_space` is `str.isspace` of a character
unfoldable pub starts_with_dot : (ℕ → Bool) → Text → Bool
starts_with_dot is_space [] = false
starts_with_dot is_space (c ∷ s) = if is_space c then starts_with_dot is_space s else c == 46

unfoldable pub invalid_filename : Bool → (ℕ → Bool) → Text → Bool → Option ℕ
invalid_filename is_win is_space name dirsep = elim (first_held invalid_filename_chars name) [
  | some c ↦ some c
  | none ↦
      if (dirsep || is_win) && contains 47 name
      then some 47
      else if (dirsep || not is_win) && contains 92 name
      then some 92
      else if starts_with_dot is_space name
      then some 46
      else none
]
