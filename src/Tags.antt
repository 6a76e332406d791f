-- ===== src/Tags.antt =====
-- The functions on texts of `TagManager` in pylib/anki/tags.py.
pub mod Removal
mod Tests
use anki.Prelude.{
  ℕ, Bool, true, false, not, ◌&&◌, ◌||◌, List, [], ◌∷◌, ◌++◌, map, non_empty, select, ◌==◌,
  if◌then◌else◌,
}
use anki.Prelude.Text.{Text, same, has_text, split_on, join_with}

-- `tags.replace("\u3000", " ")`: the ideographic space becomes a space.
abbrev pub plain_space : ℕ → ℕ
plain_space c = if c == 12288 then 32 else c

unfoldable pub split : Text → List Text
split tags = select non_empty (split_on 32 (map plain_space tags))

unfoldable pub join : List Text → Text
join [] = []
join (tag ∷ tags) = 32 ∷ (join_with (32 ∷ []) (tag ∷ tags) ++ 32 ∷ [])

-- `current_tags.remove(rem)`, of a tag that is there
unfoldable pub remove_first : Text → List Text → List Text
remove_first rem [] = []
remove_first rem (tag ∷ tags) =
    let rest = remove_first rem tags in if same rem tag then tags else tag ∷ rest

unfoldable pub remove_each : List Text → List Text → List Text
remove_each [] tags = tags
remove_each (rem ∷ rems) tags = remove_each rems (remove_first rem tags)

-- `$` matches at the end, and before a line feed that is the end.
abbrev at_end : Text → Bool
at_end [] = true
at_end (c ∷ []) = c == 10
at_end (c ∷ d ∷ s) = false

-- `.*`, and then the rest of the pattern; the dot matches no line feed
unfoldable pub any_then : (Text → Bool) → Text → Bool
any_then rest [] = rest []
any_then rest (c ∷ s) = let more = any_then rest s in rest (c ∷ s) || (not (c == 10) && more)

abbrev char_then : (ℕ → ℕ → Bool) → ℕ → (Text → Bool) → Text → Bool
char_then alike p rest [] = false
char_then alike p rest (c ∷ s) = alike p c && rest s

-- The closure `wildcard`, whose pattern has every `*` for `.*` and each other character for itself,
-- whatever its case.
unfoldable pub wildcard : (ℕ → ℕ → Bool) → Text → Text → Bool
wildcard alike [] = at_end
wildcard alike (p ∷ pat) =
    if p == 42 then any_then (wildcard alike pat) else char_then alike p (wildcard alike pat)

-- `str.lower`, and whether two characters are alike to `re.IGNORECASE`
module _ (lower : Text → Text) (alike : ℕ → ℕ → Bool) where
  unfoldable pub is_match : Text → Text → Bool
  is_match del_tag cur_tag = same (lower del_tag) (lower cur_tag) || wildcard alike del_tag cur_tag

  -- The loop over the tags to delete.
  unfoldable pub remove_matches : List Text → List Text → List Text
  remove_matches [] current = current
  remove_matches (del_tag ∷ del_tags) current =
      remove_matches del_tags (remove_each (select (is_match del_tag) current) current)

  unfoldable pub rem_from_str : Text → Text → Text
  rem_from_str deltags tags = join (remove_matches (split deltags) (split tags))

  unfoldable pub in_list : Text → List Text → Bool
  in_list tag tags = has_text (lower tag) (map lower tags)
