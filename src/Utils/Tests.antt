-- ===== src/Utils/Tests.antt =====
-- The functions of pylib/anki/utils.py at work, and each theorem at an input.
use anki.Prelude.{ℕ, ◌+◌, ◌*◌, ◌≡◌, refl, arith, true, false, some, List, [], ◌∷◌, ◌++◌, contains}
use anki.Prelude.Text.{codes, join_with}
use anki.Utils.{
  next_free, timestamp_id, max_id, base62, letters_and_digits, invalid_filename, skip_used,
  digits_of, largest, first_held, ids2str,
}
use anki.Utils.Free.{AreUsed, next_free_lem}
use anki.Utils.Digits.{decode, is_distinct-IsDistinct, decode-base62}

-- Three ids that a search from 7 by steps of 999 meets, and one that it does not.
abbrev used_ids : List ℕ
used_ids = 1006 ∷ 7 ∷ 500 ∷ 2005 ∷ []

skips_three : next_free 999 7 used_ids ≡ 3004
unfolding next_free skip_used
skips_three = refl

fresh_timestamp : timestamp_id 500 used_ids ≡ 501
unfolding timestamp_id next_free skip_used
fresh_timestamp = refl

above_all_ids : max_id 900 used_ids (12 ∷ []) ≡ 2006
unfolding max_id largest
above_all_ids = refl

ids_as_text : ids2str (7 ∷ 120 ∷ []) ≡ codes "(7,120)"
unfolding ids2str join_with
ids_as_text = refl

in_base62 : base62 3905 [] ≡ codes "ba9"
unfolding base62 digits_of
in_base62 = refl

slash_is_invalid : invalid_filename false (λ c. false) (codes "a/b") true ≡ some 47
unfolding invalid_filename first_held
slash_is_invalid = refl

next_free_lem_example :
    (contains (next_free 999 7 used_ids) used_ids ≡ false)
    × ((k : ℕ) × (next_free 999 7 used_ids ≡ 7 + k * 999) × AreUsed k 999 7 used_ids)
next_free_lem_example = next_free_lem 999 7 used_ids (omega arith)

decode-base62_example : decode (letters_and_digits ++ codes "!#") (base62 4095 (codes "!#")) ≡ 4095
decode-base62_example =
    decode-base62 4095 (codes "!#") (is_distinct-IsDistinct (letters_and_digits ++ codes "!#") refl)
