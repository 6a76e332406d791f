-- ===== src/Tags/Tests.antt =====
-- Texts of tags at work, and each theorem at an input.
use anki.Prelude.{ℕ, ◌≡◌, refl, Bool, ◌==◌, select}
use anki.Prelude.Text.{Text, codes, same, split_on, join_with}
use anki.Tags.{
  split, join, rem_from_str, remove_matches, remove_each, remove_first, is_match, wildcard,
  any_then,
}
use anki.Tags.Removal.{is_kept, split-rem_from_str}

-- Texts in lower case already.
abbrev lower : Text → Text
lower s = s

abbrev alike : ℕ → ℕ → Bool
alike p c = p == c

removal :
    rem_from_str lower alike (codes "verb a*x") (codes "verb  axx noun apex ab") ≡ codes " noun ab "
unfolding rem_from_str remove_matches remove_each remove_first is_match wildcard any_then split join
    split_on join_with same
removal = refl

split-rem_from_str_example :
    split (rem_from_str lower alike (codes "verb a*x") (codes "verb axx noun"))
    ≡ select (is_kept lower alike (split (codes "verb a*x"))) (split (codes "verb axx noun"))
split-rem_from_str_example =
    split-rem_from_str lower alike (codes "verb a*x") (codes "verb axx noun")
